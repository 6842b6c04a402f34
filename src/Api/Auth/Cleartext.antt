-- ===== src/Api/Auth/Cleartext.antt =====
-- api/auth/cleartext.rs
pub mod Guard
use pgwire.Base.{Bytes, if◌then◌else◌}
use pgwire.Buffers.{BytesCrate}
use pgwire.Messages.Startup.Authentication.{cleartext_password}
use pgwire.Messages.Startup.Passwords.{PasswordMessageFamily, into_password}
use pgwire.Messages.Startup.Passwords
use pgwire.Messages.Startup.Request.{Startup}
use pgwire.Messages.Frontend.{PgWireFrontendMessage, startup, password_message_family}
use pgwire.Messages.Backend.{authentication}
use pgwire.Api.Step.{Step, ◌>>=◌, ◌>>◌, pure}
use pgwire.Api.Client.{Client, Sink, authentication_in_progress, set_state, send}
use pgwire.Api.Query.{lift}
use pgwire.Api.Store.Laws.{same_name}
use pgwire.Api.Auth.{
  Runtime, ServerParameterProvider, AuthSource, Password, from_client_info,
  save_startup_parameters_to_metadata, coerced, finish_authentication, refuse_password,
}

pub record CleartextPasswordAuthStartupHandler : Type 0 where
  pub auth_source : AuthSource
  pub parameter_provider : ServerParameterProvider

module _ ⦃c : BytesCrate⦄ ⦃s : Sink⦄ (r : Runtime) (h : CleartextPasswordAuthStartupHandler) where
  unfoldable pub on_startup_message : Startup → Step Client (Unit {0})
  on_startup_message m = do
    save_startup_parameters_to_metadata m
    set_state authentication_in_progress
    send (authentication cleartext_password)

  unfoldable pub on_password : PasswordMessageFamily → Step Client (Unit {0})
  on_password msg = do
    pwd ← coerced (into_password msg)
    pass ← (λ client. lift (h.auth_source.get_password (from_client_info client)) client)
    if same_name pass.password pwd.password
        then finish_authentication r h.parameter_provider
        else refuse_password

  unfoldable pub on_startup : PgWireFrontendMessage → Step Client (Unit {0})
  unfolding on_startup_message on_password
  on_startup (startup m) = on_startup_message m
  on_startup (password_message_family msg) = on_password msg
  on_startup _ = pure tt
