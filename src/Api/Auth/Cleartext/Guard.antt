-- ===== src/Api/Auth/Cleartext/Guard.antt =====
-- The password decides.
use pgwire.Base.{
  ◌≡◌, ◌≢◌, refl, sym, ap, ◌∙◌, inl, inr, Bool-cases, none, List, Bytes, if◌then◌else◌,
}
use pgwire.Buffers
use pgwire.Buffers.{BytesCrate, Reply}
use pgwire.Messages.Startup.Authentication.{cleartext_password}
use pgwire.Messages.Startup.Passwords
use pgwire.Messages.Startup.Passwords.{PasswordMessageFamily, into_password}
use pgwire.Messages.Startup.Request.{Startup}
use pgwire.Messages.Frontend.{
  PgWireFrontendMessage, startup, password_message_family, query, parse, close, bind, describe,
  execute, flush, sync, terminate,
}
use pgwire.Messages.Backend.{authentication}
use pgwire.Api.Step.{done, ◌>>◌, pure, raise, bind-done}
use pgwire.Api.Client.{Client, authentication_in_progress, ready_for_query, Event, Sink, set_state}
use pgwire.Api.Statements.{PgWireResult, ok, err}
use pgwire.Api.Query.{lift}
use pgwire.Api.Store.Laws.{same_name, same_name-true}
use pgwire.Api.Auth.{
  Runtime, Password, from_client_info, coerced, save_startup_parameters_to_metadata,
}
use pgwire.Api.Query.Emits.{after}
use pgwire.Api.Auth.Finish.{
  finish_events, refusal_events, finish_authentication-done, Emits-refuse_password, bind-inv,
  Keeps-send, Keeps-refuse_password,
}
use pgwire.Api.Auth.Cleartext.{
  CleartextPasswordAuthStartupHandler, on_startup_message, on_password, on_startup,
}

module _ ⦃c : BytesCrate⦄ ⦃s : Sink⦄ (r : Runtime) (h : CleartextPasswordAuthStartupHandler) where
  -- What makes a client ready: a message that is a password, and the password of the source.
  pub record Proof (m : PgWireFrontendMessage) (client : Client) : Type 0 where
    pub msg : PasswordMessageFamily
    pub pwd : Passwords.Password
    pub left : Bytes
    pub pass : Password
    pub is_password : m ≡ password_message_family msg
    pub reads : into_password msg ≡ Buffers.ok pwd left
    pub knows : h.auth_source.get_password (from_client_info client) ≡ ok pass
    pub matches : pass.password ≡ pwd.password

  differ : authentication_in_progress ≢ ready_for_query
  differ e = cc e

  startup-waits :
      (m : Startup) (client client' : Client)
      → on_startup_message r h m client ≡ done tt client'
      → client'.state ≡ authentication_in_progress
  unfolding on_startup_message save_startup_parameters_to_metadata set_state ◌>>◌
  startup-waits m client client' e =
      (Keeps-send (authentication cleartext_password)).at _ tt client' e

  pub coerced-inv :
      {A : Type 0} (reply : Reply A) (client : Client) (a : A) (client' : Client)
      → coerced reply client ≡ done a client'
      → (left : Bytes) × (reply ≡ Buffers.ok a left) × (client ≡ client')
  unfolding coerced pure
  coerced-inv (Buffers.ok x left) client a client' e = (left, cc e, cc e)
  coerced-inv (Buffers.err x left) client a client' e = cc e
  coerced-inv Buffers.panic client a client' e = cc e
  coerced-inv Buffers.no_fuel client a client' e = cc e

  pub lift-inv :
      {A : Type 0} (reply : PgWireResult A) (client : Client) (a : A) (client' : Client)
      → lift reply client ≡ done a client'
      → (reply ≡ ok a) × (client ≡ client')
  unfolding lift pure raise
  lift-inv (ok x) client a client' e = (cc e, cc e)
  lift-inv (err x) client a client' e = cc e

  password-guards :
      (msg : PasswordMessageFamily) (client client' : Client)
      → on_password r h msg client ≡ done tt client'
      → client.state ≢ ready_for_query
      → client'.state ≡ ready_for_query
      → Proof (password_message_family msg) client
  unfolding on_password
  password-guards msg client client' e before ready =
      let (pwd, c1, first, rest) = bind-inv _ _ client tt client' e in
      let (left, reads, same1) = coerced-inv (into_password msg) client pwd c1 first in
      let (pass, c2, second, last) = bind-inv _ _ c1 tt client' rest in
      let (knows, same2) =
        lift-inv (h.auth_source.get_password (from_client_info c1)) c1 pass c2 second in
      elim (Bool-cases (same_name pass.password pwd.password)) [
        | inl yes_ ↦ record {
          msg = msg;
          pwd = pwd;
          left = left;
          pass = pass;
          is_password = refl;
          reads = reads;
          knows =
              ap (λ (d : Client). h.auth_source.get_password (from_client_info d)) same1 ∙ knows;
          matches = same_name-true pass.password pwd.password yes_;
        }
        | inr no_ ↦
            let kept = Keeps-refuse_password.at c2 tt client' (rw (no_) at last) in
            absurd (before (ap (λ (d : Client). d.state) (same1 ∙ same2) ∙ sym kept ∙ ready))
      ]

  unchanged :
      (client client' : Client)
      → pure tt client ≡ done tt client'
      → client'.state ≡ ready_for_query
      → client.state ≡ ready_for_query
  unfolding pure
  unchanged client client' e ready =
      let same : client ≡ client' = cc e in ap (λ (d : Client). d.state) same ∙ ready

  -- With cleartext passwords, a client that is not ready becomes ready by a message only if that
  -- is a password message whose password can be read and is the one that the source gives for the
  -- client; the sink may refuse messages.
  pub ready-Proof :
      (m : PgWireFrontendMessage) (client client' : Client)
      → on_startup r h m client ≡ done tt client'
      → client.state ≢ ready_for_query
      → client'.state ≡ ready_for_query
      → Proof m client
  unfolding on_startup pure
  ready-Proof (startup m) client client' e before ready =
      absurd (differ (sym (startup-waits m client client' e) ∙ ready))
  ready-Proof (password_message_family msg) client client' e before ready =
      password-guards msg client client' e before ready
  ready-Proof (query _) client client' e before ready =
      absurd (before (unchanged client client' e ready))
  ready-Proof (parse _) client client' e before ready =
      absurd (before (unchanged client client' e ready))
  ready-Proof (close _) client client' e before ready =
      absurd (before (unchanged client client' e ready))
  ready-Proof (bind _) client client' e before ready =
      absurd (before (unchanged client client' e ready))
  ready-Proof (describe _) client client' e before ready =
      absurd (before (unchanged client client' e ready))
  ready-Proof (execute _) client client' e before ready =
      absurd (before (unchanged client client' e ready))
  ready-Proof (flush _) client client' e before ready =
      absurd (before (unchanged client client' e ready))
  ready-Proof (sync _) client client' e before ready =
      absurd (before (unchanged client client' e ready))
  ready-Proof (terminate _) client client' e before ready =
      absurd (before (unchanged client client' e ready))

module _ ⦃c : BytesCrate⦄ ⦃s : Sink⦄
    (accepts : (es : List Event) (e : Event) → s.refuses es e ≡ none) (r : Runtime)
    (h : CleartextPasswordAuthStartupHandler) where
  -- With cleartext passwords, a readable password for a client whose password the source knows is
  -- answered by AuthenticationOk, the parameters, the key and ReadyForQuery if it is the same, and
  -- the client is ready; if not, by an error and a closed sink; the sink accepts everything.
  pub on_startup-password :
      (msg : PasswordMessageFamily) (client : Client) (pwd : Passwords.Password) (left : Bytes)
      (pass : Password)
      → into_password msg ≡ Buffers.ok pwd left
      → h.auth_source.get_password (from_client_info client) ≡ ok pass
      → on_startup r h (password_message_family msg) client ≡ (
          if same_name pass.password pwd.password
          then done tt
              (record (after client
                (finish_events r (h.parameter_provider.server_parameters client))) {
                  state = ready_for_query;
                })
          else done tt (after client refusal_events))
  unfolding on_startup on_password
  on_startup-password msg client pwd left pass reads knows =
      bind-done (coerced (into_password msg)) _ client pwd client
        (unfold coerced pure in rw (reads, coerced))
      ∙ bind-done (λ d. lift (h.auth_source.get_password (from_client_info d)) d) _ client pass
          client (unfold lift pure in rw (knows, lift))
      ∙ elim (Bool-cases (same_name pass.password pwd.password)) [
        | inl same ↦ rw (same) (finish_authentication-done accepts r h.parameter_provider client)
        | inr other ↦ rw (other) ((Emits-refuse_password accepts).at client)
      ]
