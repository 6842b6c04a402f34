-- ===== src/Server/Composed/Progress.antt =====
-- A connection to a server goes through its messages.
use pgwire.Base.{
  ℕ, suc, ◌^◌, ◌<◌, ◌≡◌, ◌≢◌, refl, sym, subst, List, ◌∷◌, ◌++◌, Bytes, All, length, map,
}
use pgwire.Errors.{PgWireError}
use pgwire.Buffers.{BytesCrate}
use pgwire.Messages.Vectors.Rules.{flat}
use pgwire.Messages.Startup.Params.{Params, IsSorted}
use pgwire.Messages.Startup.Request.{Startup, startup_message}
use pgwire.Messages.Startup.Request.RoundTrip.{with_params, IsParam}
use pgwire.Messages.Frontend.{
  PgWireFrontendMessage, startup, password_message_family, query, parse, close, bind, describe,
  execute, flush, sync, terminate,
}
use pgwire.Messages.Frontend.Clients.{IsSent, client_wire}
use pgwire.Messages.Frontend.RoundTrip.{received}
use pgwire.Api.Step.{Outcome, done, failed, panicked, Step}
use pgwire.Api.Client.{
  PgWireConnectionState, awaiting_startup, authentication_in_progress, ready_for_query,
  query_in_progress, Sink,
}
use pgwire.Api.Statements.{PostgresTypes}
use pgwire.Api.Query.{SimpleQueryHandler, ExtendedQueryHandler, Session}
use pgwire.Api.Query.Kept.{
  OfSession, Author, Preserves-on_client, Preserves-on_query, Preserves-on_parse, Preserves-on_bind,
  Preserves-on_execute, Preserves-on_describe, Preserves-on_sync, Preserves-on_close,
}
use pgwire.Api.Preserved.{Ends, Preserves, OfClient, Preserves-pure}
use pgwire.Server.{process_message, process_in, process_query, serve, serve_all}
use pgwire.Server.Reports.{Preserves-process_error}
use pgwire.Server.Connection.{Framed, connection}
use pgwire.Server.Connection.Chunks.{join, NonEmpty, served}
use pgwire.Server.Connection.Session.{startup_wire, connection-session}
use pgwire.Server.Composed.{StartupHandler, Connected, on_auth, on_session, composed}

-- After the startup.
abbrev pub Started : PgWireConnectionState → Type 0
Started st = st ≢ awaiting_startup

-- A startup handler that leaves the first state with a startup packet, and does not go back to it.
pub record Advances {A : Type 0} (t : StartupHandler A) : Type 0 where
  pub starts :
      (m : Startup) (a : A) → Ends (λ b. Started (t.client_of b).state) (t.on_startup (startup m) a)
  pub goes_on :
      (m : PgWireFrontendMessage) → Preserves (λ b. Started (t.client_of b).state) (t.on_startup m)

module _ ⦃p : PostgresTypes⦄ ⦃s : Sink⦄ {A S : Type 0} (t : StartupHandler A) where
  abbrev pub Going : Connected A S → Type 0
  Going w = Started (t.client_of w.auth).state

  auth_on :
      (m : Step A (Unit {0})) (w : Connected A S) (o : Outcome A (Unit {0}))
      → m w.auth ≡ o
      → Ends (λ b. Started (t.client_of b).state) o
      → Ends Going (on_auth t m w)
  unfolding on_auth
  auth_on m w (done _ a) e h = rw (e, on_auth) h
  auth_on m w (failed x a) e h = rw (e, on_auth) h
  auth_on m w panicked e h = rw (e, on_auth) tt

  session_on :
      (m : Step (Session S) (Unit {0})) (w : Connected A S) (o : Outcome (Session S) (Unit {0}))
      → m (record { client = t.client_of w.auth; store = w.store }) ≡ o
      → Ends (OfSession Started) o
      → Ends Going (on_session t m w)
  unfolding on_session
  session_on m w (done _ v) e h =
      rw (e, on_session) (subst (OfClient Started) (sym (t.client_of_with w.auth v.client)) h)
  session_on m w (failed x v) e h =
      rw (e, on_session) (subst (OfClient Started) (sym (t.client_of_with w.auth v.client)) h)
  session_on m w panicked e h = rw (e, on_session) tt

  Preserves-on_session :
      (m : Step (Session S) (Unit {0}))
      → Preserves (OfSession Started) m
      → Preserves Going (on_session t m)
  Preserves-on_session m h = record { at = λ w u. session_on m w _ refl (h.at _ u) }

  module _ (advances : Advances t) (simple : SimpleQueryHandler) (extended : ExtendedQueryHandler S)
      (author : Author Started extended) (display : PgWireError → Bytes) where
    Preserves-query :
        (m : PgWireFrontendMessage) → Preserves Going (process_query (composed t simple extended) m)
    unfolding process_query composed
    Preserves-query (query m) = Preserves-on_session _ (
        Preserves-on_client Started _ (Preserves-on_query Started simple m (λ e. cc e) (λ e. cc e)))
    Preserves-query (parse m) =
        Preserves-on_session _ (Preserves-on_parse Started extended author m)
    Preserves-query (bind m) = Preserves-on_session _ (Preserves-on_bind Started extended author m)
    Preserves-query (execute m) =
        Preserves-on_session _ (Preserves-on_execute Started extended author m)
    Preserves-query (describe m) =
        Preserves-on_session _ (Preserves-on_describe Started extended author m)
    Preserves-query (sync m) = Preserves-on_session _ (Preserves-on_sync Started extended author m)
    Preserves-query (close m) =
        Preserves-on_session _ (Preserves-on_close Started extended author m)
    Preserves-query (startup _) = Preserves-pure Going tt
    Preserves-query (password_message_family _) = Preserves-pure Going tt
    Preserves-query (flush _) = Preserves-pure Going tt
    Preserves-query (terminate _) = Preserves-pure Going tt

    Preserves-in :
        (st : PgWireConnectionState) (m : PgWireFrontendMessage)
        → Preserves Going (process_in (composed t simple extended) st m)
    unfolding process_in composed
    Preserves-in awaiting_startup m = record {
      at = λ w u. auth_on (t.on_startup m) w _ refl ((advances.goes_on m).at w.auth u);
    }
    Preserves-in authentication_in_progress m = record {
      at = λ w u. auth_on (t.on_startup m) w _ refl ((advances.goes_on m).at w.auth u);
    }
    Preserves-in ready_for_query m = Preserves-query m
    Preserves-in query_in_progress m = Preserves-query m

    served_on :
        (m : PgWireFrontendMessage) (w w' : Connected A S) (o : Outcome (Connected A S) (Unit {0}))
        → process_message (composed t simple extended) m w ≡ o
        → Ends Going o
        → Ends Going (serve (composed t simple extended) display m w)
    unfolding serve composed
    served_on m w w' (done _ v) e h = rw (e, serve) h
    served_on m w w' (failed x v) e h =
        rw (e, serve)
          ((Preserves-on_session _
              (Preserves-on_client Started _ (Preserves-process_error Started display x))).at
            v h)
    served_on m w w' panicked e h = rw (e, serve) tt

    succeeds :
        (o : Outcome (Connected A S) (Unit {0})) (w' : Connected A S)
        → o ≡ done tt w'
        → Ends Going o
        → Going w'
    succeeds o w' e h = subst (Ends Going) e h

    proceeds :
        (m : PgWireFrontendMessage) (w w' : Connected A S)
        → Going w
        → serve (composed t simple extended) display m w ≡ done tt w'
        → Going w'
    unfolding process_message
    proceeds m w w' u runs =
        succeeds _ w' runs
          (served_on m w w' _ refl ((Preserves-in ((composed t simple extended).state w) m).at w u))

    started :
        (m : Startup) (w w' : Connected A S)
        → (t.client_of w.auth).state ≡ awaiting_startup
        → serve (composed t simple extended) display (startup m) w ≡ done tt w'
        → Going w'
    unfolding process_message process_in composed
    started m w w' waits runs = succeeds _ w' runs (
        served_on (startup m) w w' _ refl (
          subst (λ st. Ends Going (process_in (composed t simple extended) st (startup m) w))
            (sym waits) (auth_on (t.on_startup (startup m)) w _ refl (advances.starts m w.auth))))

  module _ ⦃c : BytesCrate⦄ (framed : Framed) (advances : Advances t) (simple : SimpleQueryHandler)
      (extended : ExtendedQueryHandler S) (author : Author Started extended)
      (display : PgWireError → Bytes) where
    -- A connection to a server that awaits its startup, begins with a startup packet and goes on
    -- with well-formed messages other than Startup and Flush, whose length fields are exact, is
    -- handled as the startup and then each message as it is received, in their order, and ends as
    -- the handlers leave it, however the reads that are not empty cut the bytes. The parameters
    -- are strings without a zero byte, with keys that are not empty and in order, and the length
    -- fits. The startup handler leaves the first state with a startup packet, and neither it nor
    -- what the server's author writes goes back to that. Two rounds more than there are messages
    -- after the startup are fuel enough.
    pub connection-composed :
        (fuel : ℕ) (m : Params) (ms : List PgWireFrontendMessage) (f : framed.Stream)
        (w : Connected A S)
        → suc (length ms) < fuel
        → All IsParam m
        → IsSorted m
        → startup_message.message_length (with_params m) < 2 ^ 31
        → All IsSent ms
        → NonEmpty (framed.incoming f)
        → framed.buffered f ++ join (framed.incoming f) ≡ startup_wire m ++ flat client_wire ms
        → (t.client_of w.auth).state ≡ awaiting_startup
        → connection framed (composed t simple extended) display fuel f w
          ≡ served (
              serve_all
                (composed t simple extended)
                display
                (startup (with_params m) ∷ map received ms)
                w)
    unfolding composed
    connection-composed fuel m ms f w few params sorted fits wfs full e st =
        connection-session framed (composed t simple extended) display fuel m ms f w
          (λ x v v' u runs. proceeds advances simple extended author display x v v' u runs)
          (λ w' runs. started advances simple extended author display (with_params m) w w' st runs)
          few params sorted fits wfs full e st
