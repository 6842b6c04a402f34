-- ===== src/Server/Guarded/Cleartext.antt =====
-- Cleartext passwords over a whole connection.
use pgwire.Base.{◌≡◌, refl, ap, ◌∙◌, inl, inr, Bool-cases, List, Bytes}
use pgwire.Errors.{PgWireError}
use pgwire.Buffers.{BytesCrate}
use pgwire.Messages.Startup.Authentication.{cleartext_password}
use pgwire.Messages.Startup.Passwords.{PasswordMessageFamily, into_password}
use pgwire.Messages.Frontend.{
  PgWireFrontendMessage, startup, password_message_family, query, parse, close, bind, describe,
  execute, flush, sync, terminate,
}
use pgwire.Messages.Backend.{authentication}
use pgwire.Api.Step.{done, pure}
use pgwire.Api.Client.{Client, ready_for_query, Sink, send}
use pgwire.Api.Query.{lift}
use pgwire.Api.Store.Laws.{same_name, same_name-true}
use pgwire.Api.Auth.{Runtime, from_client_info, coerced}
use pgwire.Api.Auth.Cleartext.{
  CleartextPasswordAuthStartupHandler, on_startup_message, on_password, on_startup,
}
use pgwire.Api.Auth.Cleartext.Guard.{Proof, coerced-inv, lift-inv}
use pgwire.Server.{Handlers, serve_all}
use pgwire.Api.Preserved.{
  OfClient, Preserves-lift, Preserves-coerced, Preserves-send, Preserves-refuse_password,
}
use pgwire.Server.Guarded.{Unready, Leaves, Leaves-granted, Leaves-bind, Leaves-kept, Proved}
use pgwire.Server.Guarded.Steps.{state_of, Preserves-waits}
use pgwire.Server.Guarded.Beside.{Session, Startups, with_startups, ready-Proved}

module _ ⦃c : BytesCrate⦄ ⦃s : Sink⦄ (r : Runtime) (h : CleartextPasswordAuthStartupHandler) where
  password-Leaves :
      (msg : PasswordMessageFamily) (d : Client)
      → Unready d.state
      → Leaves
          (OfClient Unready)
          (Proof r h (password_message_family msg) d)
          (on_password r h msg d)
  unfolding on_password
  password-Leaves msg d u =
      let X = Proof r h (password_message_family msg) d in
      Leaves-bind (OfClient Unready) X (coerced (into_password msg)) _ d
        (Leaves-kept (OfClient Unready) _ _
          ((Preserves-coerced Unready (into_password msg)).at d u))
        (λ pwd d1 first u1.
          let (left, reads, same1) = coerced-inv r h (into_password msg) d pwd d1 first in
          let asks = h.auth_source.get_password (from_client_info d1) in
          Leaves-bind (OfClient Unready) X
            (λ client. lift (h.auth_source.get_password (from_client_info client)) client) _ d1
            (Leaves-kept (OfClient Unready) _ _ ((Preserves-lift (OfClient Unready) asks).at d1 u1))
            (λ pass d2 second u2.
              let (knows, same2) = lift-inv r h asks d1 pass d2 second in
              elim (Bool-cases (same_name pass.password pwd.password)) [
                | inl equal ↦
                    Leaves-granted (OfClient Unready)
                      (record {
                        msg = msg;
                        pwd = pwd;
                        left = left;
                        pass = pass;
                        is_password = refl;
                        reads = reads;
                        knows =
                            ap (λ (e : Client). h.auth_source.get_password (from_client_info e))
                              same1
                            ∙ knows;
                        matches = same_name-true pass.password pwd.password equal;
                      })
                      _
                | inr other ↦ rw (other) (
                    Leaves-kept (OfClient Unready) _ _
                      ((Preserves-refuse_password Unready).at d2 u2))
              ]))

  on_startup-Leaves :
      (m : PgWireFrontendMessage) (d : Client)
      → Unready d.state
      → Leaves (OfClient Unready) (Proof r h m d) (on_startup r h m d)
  unfolding on_startup pure
  on_startup-Leaves (startup m) d u =
      unfold on_startup_message in
      Leaves-kept (OfClient Unready) _ _ (
        (Preserves-waits m (send (authentication cleartext_password)) (Preserves-send Unready _)).at
          d u)
  on_startup-Leaves (password_message_family msg) d u = password-Leaves msg d u
  on_startup-Leaves (query _) d u = inl u
  on_startup-Leaves (parse _) d u = inl u
  on_startup-Leaves (close _) d u = inl u
  on_startup-Leaves (bind _) d u = inl u
  on_startup-Leaves (describe _) d u = inl u
  on_startup-Leaves (execute _) d u = inl u
  on_startup-Leaves (flush _) d u = inl u
  on_startup-Leaves (sync _) d u = inl u
  on_startup-Leaves (terminate _) d u = inl u

  abbrev pub cleartext_startups : Startups Client
  cleartext_startups = record {
    client_state = state_of;
    on_startup = on_startup r h;
    on_client = λ m. m;
  }

  pub ready-cleartext :
      {Q : Type 0} (others : Handlers (Session Client Q)) (display : PgWireError → Bytes)
      (ms : List PgWireFrontendMessage) (w w' : Session Client Q)
      → serve_all (with_startups cleartext_startups others) display ms w ≡ done tt w'
      → Unready w.auth.state
      → w'.auth.state ≡ ready_for_query
      → Proved (λ m (v : Session Client Q). Proof r h m v.auth) ms
  ready-cleartext others display ms w w' runs u ready =
      ready-Proved cleartext_startups others display (Proof r h) (OfClient Unready) (λ d u. u)
        on_startup-Leaves (λ m holds. holds) ms w w' runs u ready
