-- ===== src/Server/Composed/Login.antt =====
-- A client that logs in with a cleartext password and asks a query, over a whole connection.
use pgwire.Base.{ℕ, ◌^◌, ◌<◌, ◌≡◌, refl, ap, ◌∙◌, none, List, [], ◌∷◌, ◌++◌, Bytes, All, map, arith}
use pgwire.Errors.{PgWireError}
use pgwire.Buffers.{BytesCrate}
use pgwire.Text.{IsCstring}
use pgwire.Messages.Vectors.Rules.{flat}
use pgwire.Messages.Startup.Authentication.{cleartext_password}
use pgwire.Messages.Startup.Params.{Params, IsSorted}
use pgwire.Messages.Startup.Passwords
use pgwire.Messages.Startup.Passwords.{password, raw, into_password, password_message}
use pgwire.Messages.Startup.Passwords.RoundTrip.{family_body, into_password-raw}
use pgwire.Messages.Startup.Request.{Startup, startup_message}
use pgwire.Messages.Startup.Request.RoundTrip.{with_params, IsParam}
use pgwire.Messages.Backend.{authentication}
use pgwire.Messages.Frontend.{PgWireFrontendMessage, startup, password_message_family, query}
use pgwire.Messages.Frontend.Clients.{IsSent, client_wire}
use pgwire.Messages.Frontend.RoundTrip.{received}
use pgwire.Api.Step.{done, ◌>>◌, pure, bind-done}
use pgwire.Api.Client.{
  Client, awaiting_startup, authentication_in_progress, ready_for_query, query_in_progress, Event,
  fed, flushed, Sink, set_state,
}
use pgwire.Api.Statements.{ok, PostgresTypes}
use pgwire.Api.Store.{MemPortalStore}
use pgwire.Api.Store.Laws.{same_name, same_name_refl}
use pgwire.Api.Query.{idle, SimpleQueryHandler, ExtendedQueryHandler, on_client}
use pgwire.Api.Query.Emits.{after, sent, flat_events, Emits-send}
use pgwire.Api.Query.Simple.{Reply, to_response, reply_events, on_query-answers}
use pgwire.Api.Query.Kept.{Author}
use pgwire.Api.Auth.{
  Runtime, Password, from_client_info, extend, save_startup_parameters_to_metadata,
}
use pgwire.Api.Auth.Finish.{finish_events}
use pgwire.Api.Auth.Kept.{starts-cleartext, Preserves-cleartext}
use pgwire.Api.Auth.Cleartext.{CleartextPasswordAuthStartupHandler, on_startup_message, on_startup}
use pgwire.Api.Auth.Cleartext.Guard.{on_startup-password}
use pgwire.Server.{Handlers, process_message, process_in, process_query, serve, serve_all}
use pgwire.Server.Errors.{serve-done}
use pgwire.Server.Connection.{Framed, finished, connection}
use pgwire.Server.Connection.Chunks.{join, NonEmpty, served}
use pgwire.Server.Connection.Session.{startup_wire}
use pgwire.Server.Composed.{StartupHandler, Connected, on_auth, on_session, composed}
use pgwire.Server.Composed.Progress.{Started, Advances, connection-composed}

module _ ⦃c : BytesCrate⦄ ⦃s : Sink⦄ (r : Runtime) (h : CleartextPasswordAuthStartupHandler) where
  abbrev pub with_cleartext : StartupHandler Client
  with_cleartext = record {
    client_of = λ d. d;
    with_client = λ _ d. d;
    client_of_with = λ _ d. refl;
    on_startup = on_startup r h;
  }

  pub cleartext-Advances : Advances with_cleartext
  cleartext-Advances = record {
    starts = λ m d. starts-cleartext Started r h m d (λ e. cc e);
    goes_on = λ m. Preserves-cleartext Started r h (λ e. cc e) (λ e. cc e) m;
  }

-- The client that is asked for its password, that is logged in, and that has its answers.
abbrev pub asked : Client → Startup → Client
asked d m =
    after
      (record d { metadata = extend d.metadata m.parameters; state = authentication_in_progress })
      (sent (authentication cleartext_password))

abbrev pub logged_in : Runtime → CleartextPasswordAuthStartupHandler → Client → Client
logged_in r h d = record (after d (finish_events r (h.parameter_provider.server_parameters d))) {
  state = ready_for_query;
}

abbrev pub answered : ⦃p : PostgresTypes⦄ → Client → List Reply → Client
answered d rs = record (after d (flat_events reply_events rs ++ (fed idle ∷ flushed ∷ []))) {
  state = ready_for_query;
}

module _ ⦃c : BytesCrate⦄ ⦃s : Sink⦄ ⦃p : PostgresTypes⦄ {S : Type 0}
    (accepts : (es : List Event) (e : Event) → s.refuses es e ≡ none) (r : Runtime)
    (h : CleartextPasswordAuthStartupHandler) (simple : SimpleQueryHandler)
    (extended : ExtendedQueryHandler S) (display : PgWireError → Bytes)
    (store : MemPortalStore S) where
  abbrev handlers : Handlers (Connected Client S)
  handlers = composed (with_cleartext r h) simple extended

  abbrev at_client : Client → Connected Client S
  at_client d = record { auth = d; store = store }

  starts :
      (m : Startup) (d : Client)
      → d.state ≡ awaiting_startup
      → serve handlers display (startup m) (at_client d) ≡ done tt (at_client (asked d m))
  unfolding process_message process_in composed on_auth on_startup on_startup_message
      save_startup_parameters_to_metadata set_state ◌>>◌
  starts m d waits = serve-done handlers display (startup m) (at_client d) (at_client (asked d m)) (
      ap (λ st. process_in handlers st (startup m) (at_client d)) waits
      ∙ rw
          (
            (Emits-send accepts (authentication cleartext_password)).at (record d {
              metadata = extend d.metadata m.parameters;
              state = authentication_in_progress;
            }),
            on_auth,
          )
          refl)

  logs_in :
      (pwd : Passwords.Password) (pass : Password) (d : Client)
      → IsCstring pwd.password
      → password_message.message_length pwd < 2 ^ 31
      → h.auth_source.get_password (from_client_info d) ≡ ok pass
      → pass.password ≡ pwd.password
      → d.state ≡ authentication_in_progress
      → serve handlers display
          (password_message_family (raw (family_body (password pwd))))
          (at_client d)
        ≡ done tt (at_client (logged_in r h d))
  unfolding process_message process_in composed on_auth
  logs_in pwd pass d text fits knows same st =
      let m = password_message_family (raw (family_body (password pwd))) in
      serve-done handlers display m (at_client d) (at_client (logged_in r h d)) (
        ap (λ st. process_in handlers st m (at_client d)) st
        ∙ rw
            (
              on_startup-password accepts r h (raw (family_body (password pwd))) d pwd [] pass
                  (into_password-raw pwd text fits) knows,
              ap (λ t. same_name t pwd.password) same ∙ same_name_refl pwd.password,
              on_auth,
            )
            refl)

  answers :
      (d : Client) (first : ℕ) (text : Bytes) (rs : List Reply)
      → simple.do_query (record d { state = query_in_progress }) (first ∷ text)
        ≡ ok (map to_response rs)
      → d.state ≡ ready_for_query
      → serve handlers display (query (record { query = first ∷ text })) (at_client d)
        ≡ done tt (at_client (answered d rs))
  unfolding process_message process_in process_query composed on_session on_client
  answers d first text rs given st =
      let m = query (record { query = first ∷ text }) in
      serve-done handlers display m (at_client d) (at_client (answered d rs)) (
        ap (λ st. process_in handlers st m (at_client d)) st
        ∙ rw (on_query-answers accepts simple d first text rs given, on_client, on_session) refl)

  -- Three messages that are handled.
  three :
      (m1 m2 m3 : PgWireFrontendMessage) (w w1 w2 w3 : Connected Client S)
      → serve handlers display m1 w ≡ done tt w1
      → serve handlers display m2 w1 ≡ done tt w2
      → serve handlers display m3 w2 ≡ done tt w3
      → serve_all handlers display (m1 ∷ m2 ∷ m3 ∷ []) w ≡ done tt w3
  unfolding serve_all ◌>>◌ pure
  three m1 m2 m3 w w1 w2 w3 e1 e2 e3 =
      bind-done (serve handlers display m1) _ w tt w1 e1
      ∙ bind-done (serve handlers display m2) _ w1 tt w2 e2
      ∙ bind-done (serve handlers display m3) _ w2 tt w3 e3

  -- A client that sends a startup packet, the cleartext password that the source gives for it, and
  -- a query that is not empty, is asked for the password, is told that it is authenticated, the
  -- parameters, the key and that the server is ready, and then has the answers to its query and is
  -- ready for the next, and the connection ends with the end of the stream, however the reads that
  -- are not empty cut the bytes. The strings are text without a zero byte, the keys of the
  -- parameters are not empty and in order, the lengths fit. do_query gives responses whose rows
  -- can all be produced, do_describe and do_query do not go back to before the startup, and the
  -- sink accepts everything. Four rounds are fuel enough.
  pub connection-login :
      (framed : Framed) (author : Author Started extended) (fuel : ℕ) (m : Params)
      (pwd : Passwords.Password) (pass : Password) (first : ℕ) (text : Bytes) (rs : List Reply)
      (f : framed.Stream) (d : Client)
      → 3 < fuel
      → All IsParam m
      → IsSorted m
      → startup_message.message_length (with_params m) < 2 ^ 31
      → IsCstring pwd.password
      → password_message.message_length pwd < 2 ^ 31
      → IsSent (query (record { query = first ∷ text }))
      → NonEmpty (framed.incoming f)
      → framed.buffered f ++ join (framed.incoming f)
        ≡ startup_wire m
          ++ flat client_wire (
              password_message_family (password pwd) ∷ query (record { query = first ∷ text }) ∷ [])
      → d.state ≡ awaiting_startup
      → h.auth_source.get_password (from_client_info (asked d (with_params m))) ≡ ok pass
      → pass.password ≡ pwd.password
      → simple.do_query
          (record (logged_in r h (asked d (with_params m))) { state = query_in_progress })
          (first ∷ text)
        ≡ ok (map to_response rs)
      → connection framed handlers display fuel f (at_client d)
        ≡ finished (at_client (answered (logged_in r h (asked d (with_params m))) rs))
  unfolding password_message Passwords.family_length
  connection-login framed author fuel m pwd pass first text rs f d few params sorted fits is_text
        pwd_fits wf full e st knows same given =
      let d1 = asked d (with_params m) in
      let d2 = logged_in r h d1 in
      let m2 = password_message_family (password pwd) in
      let m3 = query (record { query = first ∷ text }) in
      connection-composed (with_cleartext r h) framed (cleartext-Advances r h) simple extended
        author display fuel m (m2 ∷ m3 ∷ []) f (at_client d) (omega arith) params sorted fits
        (pwd_fits, (wf, tt)) full e st
      ∙ ap served (
          three (startup (with_params m)) (received m2) m3 _ _ _ _ (starts (with_params m) d st)
            (logs_in pwd pass d1 is_text pwd_fits knows same refl)
            (answers d2 first text rs given refl))
