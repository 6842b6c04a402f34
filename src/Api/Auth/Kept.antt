-- ===== src/Api/Auth/Kept.antt =====
-- Predicates on the state of a connection that hold while a client authenticates and when it is
-- ready: the startup handlers preserve them.
use pgwire.Base.{◌≡◌, refl, Bool-cases, inl, inr, List}
use pgwire.Buffers.{BytesCrate}
use pgwire.Messages.Startup.Authentication.{cleartext_password}
use pgwire.Messages.Startup.Passwords.{PasswordMessageFamily, into_password}
use pgwire.Messages.Startup.Request.{Startup}
use pgwire.Messages.Frontend.{
  PgWireFrontendMessage, startup, password_message_family, query, parse, close, bind, describe,
  execute, flush, sync, terminate,
}
use pgwire.Messages.Backend.{PgWireBackendMessage, authentication}
use pgwire.Api.Step.{Outcome, done, failed, panicked, Step, ◌>>◌, ◌>>=◌}
use pgwire.Api.Client.{
  Client, PgWireConnectionState, authentication_in_progress, ready_for_query, Sink, set_state,
}
use pgwire.Api.Store.Laws.{same_name}
use pgwire.Api.Preserved.{
  Ends, Preserves, OfClient, Preserves-bind, Preserves-then, Preserves-pure, Preserves-lift,
  Preserves-for_each, Preserves-coerced, Preserves-set_state, Preserves-feed, Preserves-flush,
  Preserves-send, Preserves-refuse_password,
}
use pgwire.Api.Auth.{
  Runtime, ServerParameterProvider, from_client_info, save_startup_parameters_to_metadata, unwrap,
  send_all, finish_messages, finish_authentication,
}
use pgwire.Api.Auth.Cleartext.{
  CleartextPasswordAuthStartupHandler, on_startup_message, on_password, on_startup,
}

module _ (P : PgWireConnectionState → Type 0) ⦃s : Sink⦄ where
  unwrap_on :
      (m : Step Client (Unit {0})) (c : Client) (o : Outcome Client (Unit {0}))
      → m c ≡ o
      → Ends (OfClient P) o
      → Ends (OfClient P) (unwrap m c)
  unfolding unwrap
  unwrap_on m c (done _ d) e h = rw (e, unwrap) h
  unwrap_on m c (failed x d) e h = rw (e, unwrap) tt
  unwrap_on m c panicked e h = rw (e, unwrap) tt

  Preserves-send_all :
      (ms : List PgWireBackendMessage) → Preserves (OfClient P) (unwrap (send_all ms))
  unfolding send_all
  Preserves-send_all ms = record {
    at = λ c u. unwrap_on (send_all ms) c (send_all ms c) refl (
        (Preserves-then (OfClient P) _ _
            (Preserves-for_each (OfClient P) _ ms (λ m. Preserves-feed P m)) (Preserves-flush P)).at
          c u);
  }

  pub Preserves-finish_authentication :
      (r : Runtime) (provider : ServerParameterProvider)
      → P ready_for_query
      → Preserves (OfClient P) (finish_authentication r provider)
  unfolding finish_authentication
  Preserves-finish_authentication r provider ready = record {
    at = λ c u.
        (Preserves-then (OfClient P) _ _
            (Preserves-send_all (finish_messages r (provider.server_parameters c)))
            (Preserves-set_state P ready_for_query ready)).at
          c u;
  }

  pub Preserves-save :
      (m : Startup) → Preserves (OfClient P) (save_startup_parameters_to_metadata m)
  unfolding save_startup_parameters_to_metadata
  Preserves-save m = record { at = λ c u. u }

  -- Whatever the state before a startup packet, `P` holds after it.
  pub starts-cleartext :
      ⦃b : BytesCrate⦄ (r : Runtime) (h : CleartextPasswordAuthStartupHandler) (m : Startup)
      (c : Client)
      → P authentication_in_progress
      → Ends (OfClient P) (on_startup r h (startup m) c)
  unfolding on_startup on_startup_message save_startup_parameters_to_metadata set_state ◌>>◌ ◌>>=◌
  starts-cleartext r h m c working =
      (Preserves-send P (authentication cleartext_password)).at _ working

  module _ ⦃b : BytesCrate⦄ (r : Runtime) (h : CleartextPasswordAuthStartupHandler)
      (working : P authentication_in_progress) (ready : P ready_for_query) where
    Preserves-on_password :
        (msg : PasswordMessageFamily) → Preserves (OfClient P) (on_password r h msg)
    unfolding on_password
    Preserves-on_password msg =
        Preserves-bind (OfClient P) _ _ (Preserves-coerced P (into_password msg)) (λ pwd.
          Preserves-bind (OfClient P) _ _
            (record {
              at = λ c u.
                  (Preserves-lift (OfClient P) (h.auth_source.get_password (from_client_info c))).at
                    c u;
            })
            (λ pass. elim (Bool-cases (same_name pass.password pwd.password)) [
              | inl same ↦ rw (same) (Preserves-finish_authentication r h.parameter_provider ready)
              | inr other ↦ rw (other) (Preserves-refuse_password P)
            ]))

    pub Preserves-cleartext :
        (m : PgWireFrontendMessage) → Preserves (OfClient P) (on_startup r h m)
    unfolding on_startup
    Preserves-cleartext (startup m) = record { at = λ c u. starts-cleartext r h m c working }
    Preserves-cleartext (password_message_family msg) = Preserves-on_password msg
    Preserves-cleartext (query _) = Preserves-pure (OfClient P) tt
    Preserves-cleartext (parse _) = Preserves-pure (OfClient P) tt
    Preserves-cleartext (close _) = Preserves-pure (OfClient P) tt
    Preserves-cleartext (bind _) = Preserves-pure (OfClient P) tt
    Preserves-cleartext (describe _) = Preserves-pure (OfClient P) tt
    Preserves-cleartext (execute _) = Preserves-pure (OfClient P) tt
    Preserves-cleartext (flush _) = Preserves-pure (OfClient P) tt
    Preserves-cleartext (sync _) = Preserves-pure (OfClient P) tt
    Preserves-cleartext (terminate _) = Preserves-pure (OfClient P) tt
