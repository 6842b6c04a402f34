-- ===== src/Tests/Logins.antt =====
-- Connections of a client with a cleartext password.
use pgwire.Tests.Standins.{open_sink, numbered}
use pgwire.Base.{◌≡◌, refl, none, some, List, [], ◌∷◌, ◌++◌, arith, Bytes}
use pgwire.Buffers.Standard.{standard}
use pgwire.Text.Ascii.{is_ascii, is_ascii-IsCstring}
use pgwire.Messages.Startup.Passwords
use pgwire.Messages.Startup.Passwords.{raw, password, password_message, family_message}
use pgwire.Messages.Startup.Request.{startup_message}
use pgwire.Messages.Startup.Request.RoundTrip.{with_params}
use pgwire.Messages.Response.{query_message}
use pgwire.Messages.Units.{sync_message, unit_message}
use pgwire.Messages.Vectors.Rules.{flat}
use pgwire.Messages.Frontend.{startup, password_message_family, query, sync}
use pgwire.Messages.Frontend.Clients.{client_wire}
use pgwire.Api.Step.{done}
use pgwire.Api.Statements.{ok}
use pgwire.Api.Results.{execution}
use pgwire.Api.Store.{MemPortalStore}
use pgwire.Api.Query.{SimpleQueryHandler, ExtendedQueryHandler}
use pgwire.Api.Query.Simple.{Reply, rows, to_response}
use pgwire.Api.Query.Kept.{Author}
use pgwire.Server.{serve_all}
use pgwire.Server.Connection.{connection, finished}
use pgwire.Server.Connection.Chunks.{join, served}
use pgwire.Server.Connection.Session.{startup_wire}
use pgwire.Server.Composed.{Connected, composed}
use pgwire.Server.Composed.Progress.{Started, connection-composed}
use pgwire.Server.Composed.Login.{
  with_cleartext, cleartext-Advances, asked, logged_in, answered, connection-login,
}
use pgwire.Tests.Connections.{Chunked, chunked}
use pgwire.Tests.Sessions
use pgwire.Tests.Sessions.{runtime, new_comer, stored, typed}
use pgwire.Api.Client.{Client}

abbrev one_row : List Reply
one_row = rows [] (record { fields = some (b'1' ∷ []) ∷ [] } ∷ []) ∷ []

abbrev simple : SimpleQueryHandler
simple = record {
  do_query =
      λ _ _. ok (to_response (rows [] (record { fields = some (b'1' ∷ []) ∷ [] } ∷ [])) ∷ []);
}

abbrev extended : ExtendedQueryHandler Bytes
extended = record {
  query_parser = record { parse_sql = λ sql _. ok sql };
  do_describe = λ _ d. done (record { parameters = none; fields = [] }) d;
  do_query = λ _ _ d. done (execution (record { command = []; rows = none })) d;
}

modest : Author Started extended
modest = record {
  describes = λ t. record { at = λ d u. u };
  queries = λ t n. record { at = λ d u. u };
}

abbrev empty : MemPortalStore Bytes
empty = record { statements = []; portals = [] }

abbrev connected : Client → Connected Client Bytes
connected d = record { auth = d; store = empty }

-- A startup packet and a Sync, in three reads.
abbrev syncing : Chunked
syncing = record {
  held = [];
  coming = (0 ∷ 0 ∷ 0 ∷ []) ∷ (9 ∷ 0 ∷ 3 ∷ 0 ∷ 0 ∷ 0 ∷ b'S' ∷ 0 ∷ []) ∷ (0 ∷ 0 ∷ 4 ∷ []) ∷ [];
}

syncs : join syncing.coming ≡ startup_wire [] ++ flat client_wire (sync (record {}) ∷ [])
unfolding startup_message sync_message unit_message
syncs = refl

connection-composed_example :
    connection chunked
      (composed (with_cleartext runtime Sessions.with_cleartext) simple extended)
      (λ _. [])
      3
      syncing
      (connected new_comer)
    ≡ served (
        serve_all
          (composed (with_cleartext runtime Sessions.with_cleartext) simple extended)
          (λ _. [])
          (startup (with_params []) ∷ sync (record {}) ∷ [])
          (connected new_comer))
connection-composed_example =
    connection-composed (with_cleartext runtime Sessions.with_cleartext) chunked
      (cleartext-Advances runtime Sessions.with_cleartext) simple extended modest (λ _. []) 3 []
      (sync (record {}) ∷ []) syncing (connected new_comer) (omega arith) tt tt
      (unfold startup_message in omega arith) (tt, tt)
      (omega arith, (omega arith, (omega arith, tt))) syncs refl

-- A startup packet, the password `p` and the query `q`, in three reads.
abbrev logging_in : Chunked
logging_in = record {
  held = 0 ∷ [];
  coming =
      (0 ∷ 0 ∷ 9 ∷ 0 ∷ 3 ∷ 0 ∷ 0 ∷ 0 ∷ b'p' ∷ 0 ∷ [])
      ∷ (0 ∷ 0 ∷ 6 ∷ b'p' ∷ 0 ∷ b'Q' ∷ [])
      ∷ (0 ∷ 0 ∷ 0 ∷ 6 ∷ b'q' ∷ 0 ∷ [])
      ∷ [];
}

logs_in :
    logging_in.held ++ join logging_in.coming
    ≡ startup_wire []
      ++ flat client_wire
          (password_message_family (password typed) ∷ query (record { query = b'q' ∷ [] }) ∷ [])
unfolding startup_message family_message query_message Passwords.family_length password_message
logs_in = refl

connection-login_example :
    connection chunked
      (composed (with_cleartext runtime Sessions.with_cleartext) simple extended)
      (λ _. [])
      4
      logging_in
      (connected new_comer)
    ≡ finished (
        connected (
          answered
            (logged_in runtime Sessions.with_cleartext (asked new_comer (with_params [])))
            one_row))
connection-login_example =
    connection-login (λ _ _. refl) runtime Sessions.with_cleartext simple extended (λ _. []) empty
      chunked modest 4 [] typed stored (b'q') [] one_row logging_in new_comer (omega arith) tt tt
      (unfold startup_message in omega arith)
      (is_ascii-IsCstring (b'p' ∷ []) (unfold is_ascii in refl))
      (unfold password_message in omega arith)
      (
        is_ascii-IsCstring (b'q' ∷ []) (unfold is_ascii in refl),
        unfold query_message in omega arith,
      )
      (omega arith, (omega arith, (omega arith, tt))) logs_in refl refl refl refl
