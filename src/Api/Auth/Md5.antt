-- ===== src/Api/Auth/Md5.antt =====
-- api/auth/md5pass.rs
pub mod Cached
use pgwire.Base.{Option, none, some, List, [], ◌∷◌, ◌++◌, Bytes, if◌then◌else◌}
use pgwire.Buffers.{BytesCrate}
use pgwire.Messages.Startup.Authentication.{md5_password}
use pgwire.Messages.Startup.Passwords.{PasswordMessageFamily, into_password}
use pgwire.Messages.Startup.Passwords
use pgwire.Messages.Startup.Request.{Startup}
use pgwire.Messages.Frontend.{PgWireFrontendMessage, startup, password_message_family}
use pgwire.Messages.Backend.{authentication}
use pgwire.Api.Step.{Outcome, done, failed, panicked, Step, ◌>>=◌, ◌>>◌, pure}
use pgwire.Api.Client.{Client, Sink, authentication_in_progress, set_state, send}
use pgwire.Api.Query.{lift}
use pgwire.Api.Store.Laws.{same_name}
use pgwire.Api.Auth.{
  Runtime, ServerParameterProvider, AuthSource, Password, from_client_info,
  save_startup_parameters_to_metadata, coerced, finish_authentication, refuse_password,
}

-- The handler, but for the password that it caches.
pub record Md5PasswordAuthStartupHandler : Type 0 where
  pub auth_source : AuthSource
  pub parameter_provider : ServerParameterProvider

-- The client, with the password of the handler.
pub record Md5Session : Type 0 where
  pub client : Client
  pub cached_password : Bytes

-- `MakeMd5PasswordAuthStartupHandler::make`, for a new client.
unfoldable pub make : Client → Md5Session
make client = record { client = client; cached_password = [] }

unfoldable pub on_client : {A : Type 0} → Step Client A → Step Md5Session A
on_client m w = elim (m w.client) [
  | done a c ↦ done a (record w { client = c })
  | failed e c ↦ failed e (record w { client = c })
  | panicked ↦ panicked
]

unfoldable pub set_cached_password : Bytes → Step Md5Session (Unit {0})
set_cached_password password w = done tt (record w { cached_password = password })

-- `expect` of the salt
unfoldable pub expect_salt : Option Bytes → Step Md5Session Bytes
expect_salt none = λ w. panicked
expect_salt (some salt) = pure salt

module _ ⦃c : BytesCrate⦄ ⦃s : Sink⦄ (r : Runtime) (h : Md5PasswordAuthStartupHandler) where
  unfoldable pub on_startup_message : Startup → Step Md5Session (Unit {0})
  on_startup_message m = do
    on_client (save_startup_parameters_to_metadata m)
    on_client (set_state authentication_in_progress)
    salt_and_pass ←
        on_client (λ client. lift (h.auth_source.get_password (from_client_info client)) client)
    salt ← expect_salt salt_and_pass.salt
    set_cached_password salt_and_pass.password
    on_client (send (authentication (md5_password salt)))

  -- The password is compared with the cached one.
  unfoldable pub check_password : Passwords.Password → Step Md5Session (Unit {0})
  check_password pwd w =
      on_client
        (if same_name pwd.password w.cached_password
          then finish_authentication r h.parameter_provider
          else refuse_password)
        w

  unfoldable pub on_password : PasswordMessageFamily → Step Md5Session (Unit {0})
  unfolding check_password
  on_password msg = do pwd ← on_client (coerced (into_password msg)); check_password pwd

  unfoldable pub on_startup : PgWireFrontendMessage → Step Md5Session (Unit {0})
  unfolding on_startup_message on_password
  on_startup (startup m) = on_startup_message m
  on_startup (password_message_family msg) = on_password msg
  on_startup _ = pure tt

-- `hash_md5_password`. The crate `md5` gives the digest as lower-case hexadecimal text.
unfoldable pub hash_md5_password : (Bytes → Bytes) → Bytes → Bytes → Bytes → Bytes
hash_md5_password md5_hex username password salt =
    b'm' ∷ b'd' ∷ b'5' ∷ md5_hex (md5_hex (password ++ username) ++ salt)
