-- ===== src/Server/Composed.antt =====
-- tokio.rs: the handlers that `process_socket` is given, a startup handler and the handlers of the
-- two query protocols, on one client.
pub mod Progress
pub mod Login
use pgwire.Base.{◌≡◌, Bytes}
use pgwire.Messages.Frontend.{PgWireFrontendMessage}
use pgwire.Api.Step.{Outcome, done, failed, panicked, Step}
use pgwire.Api.Client.{Client, Sink, PgWireConnectionState}
use pgwire.Api.Statements.{PostgresTypes}
use pgwire.Api.Store.{MemPortalStore}
use pgwire.Api.Query.{
  SimpleQueryHandler, ExtendedQueryHandler, Session, on_client, on_query, on_parse, on_bind,
  on_execute, on_describe, on_sync, on_close,
}
use pgwire.Server.{Handlers}

-- The trait `StartupHandler`, over the state of the handler, in which there is the client.
pub record StartupHandler (A : Type 0) : Type 0 where
  pub client_of : A → Client
  pub with_client : A → Client → A
  pub client_of_with : (a : A) (c : Client) → client_of (with_client a c) ≡ c
  pub on_startup : PgWireFrontendMessage → Step A (Unit {0})

module _ ⦃p : PostgresTypes⦄ where
  -- The state of the startup handler, and the store of the query handlers.
  pub record Connected (A S : Type 0) : Type 0 where
    pub auth : A
    pub store : MemPortalStore S

  module _ {A S : Type 0} (t : StartupHandler A) where
    unfoldable pub on_auth : Step A (Unit {0}) → Step (Connected A S) (Unit {0})
    on_auth m w = elim (m w.auth) [
      | done _ a ↦ done tt (record w { auth = a })
      | failed e a ↦ failed e (record w { auth = a })
      | panicked ↦ panicked
    ]

    unfoldable pub on_session : Step (Session S) (Unit {0}) → Step (Connected A S) (Unit {0})
    on_session m w = elim (m (record { client = t.client_of w.auth; store = w.store })) [
      | done _ v ↦ done tt (record { auth = t.with_client w.auth v.client; store = v.store })
      | failed e v ↦ failed e (record { auth = t.with_client w.auth v.client; store = v.store })
      | panicked ↦ panicked
    ]

    -- The calls of `process_message`.
    unfoldable pub composed :
        ⦃s : Sink⦄ → SimpleQueryHandler → ExtendedQueryHandler S → Handlers (Connected A S)
    unfolding on_auth on_session
    composed simple extended = record {
      state = λ w. (t.client_of w.auth).state;
      on_startup = λ m. on_auth (t.on_startup m);
      on_query = λ m. on_session (on_client (on_query simple m));
      on_parse = λ m. on_session (on_parse extended m);
      on_bind = λ m. on_session (on_bind m);
      on_execute = λ m. on_session (on_execute extended m);
      on_describe = λ m. on_session (on_describe extended m);
      on_sync = λ m. on_session (on_sync m);
      on_close = λ m. on_session (on_close m);
      on_client = λ m. on_session (on_client m);
    }
