-- ===== src/Api/Auth.antt =====
-- api/auth/mod.rs: what the handlers of the start-up share.
pub mod Noop
pub mod Cleartext
pub mod Md5
pub mod Scram
pub mod Kept
pub mod Finish
use pgwire.Base.{ℕ, Option, none, some, List, [], ◌∷◌, ◌++◌, Bytes, map}
use pgwire.Errors.{PgWireError, new_error_info}
use pgwire.Buffers
use pgwire.Buffers.{BytesCrate, Reply}
use pgwire.Messages.Startup.Params.{Params, insert}
use pgwire.Messages.Startup.Request.{Startup}
use pgwire.Messages.Startup.Authentication
use pgwire.Messages.Startup.Passwords
use pgwire.Messages.Startup.Passwords.{PasswordMessageFamily, into_password}
use pgwire.Messages.Backend.{
  PgWireBackendMessage, authentication, parameter_status, backend_key_data, error_response,
}
use pgwire.Messages.Backend.Reported.{from_error_info}
use pgwire.Api.Step.{Outcome, done, failed, panicked, Step, ◌>>=◌, ◌>>◌, pure, for_each}
use pgwire.Api.Client.{Client, Sink, ready_for_query, set_state, feed, flush, close}
use pgwire.Api.Statements.{PgWireResult}
use pgwire.Api.Store.{get}
use pgwire.Api.Query.{idle}

abbrev pub metadata_user : Bytes
metadata_user = b'u' ∷ b's' ∷ b'e' ∷ b'r' ∷ []

abbrev pub metadata_database : Bytes
metadata_database = b'd' ∷ b'a' ∷ b't' ∷ b'a' ∷ b'b' ∷ b'a' ∷ b's' ∷ b'e' ∷ []

-- `"FATAL"`, `"28P01"` and `"Password authentication failed"`
abbrev pub fatal : Bytes
fatal = b'F' ∷ b'A' ∷ b'T' ∷ b'A' ∷ b'L' ∷ []

abbrev pub invalid_password : Bytes
invalid_password = b'2' ∷ b'8' ∷ b'P' ∷ b'0' ∷ b'1' ∷ []

abbrev pub authentication_failed : Bytes
authentication_failed =
    b'P' ∷ b'a' ∷ b's' ∷ b's' ∷ b'w' ∷ b'o' ∷ b'r' ∷ b'd' ∷ b' ' ∷ b'a' ∷ b'u' ∷ b't' ∷ b'h' ∷ b'e'
    ∷ b'n' ∷ b't' ∷ b'i' ∷ b'c' ∷ b'a' ∷ b't' ∷ b'i' ∷ b'o' ∷ b'n' ∷ b' ' ∷ b'f' ∷ b'a' ∷ b'i'
    ∷ b'l' ∷ b'e' ∷ b'd' ∷ []

-- The process and its random numbers.
pub record Runtime : Type 0 where
  pub process_id : ℕ
  pub random_i32 : ℕ

-- `ServerParameterProvider`: the entries of the `HashMap` in the order in which it gives them.
pub record ServerParameterProvider : Type 0 where
  pub server_parameters : Client → Option Params

pub record Password : Type 0 where
  pub salt : Option Bytes
  pub password : Bytes

pub record LoginInfo : Type 0 where
  pub user : Option Bytes
  pub database : Option Bytes
  pub host : Bytes

-- The trait `AuthSource`.
pub record AuthSource : Type 0 where
  pub get_password : LoginInfo → PgWireResult Password

-- `LoginInfo::from_client_info`; the address of a client is kept as the text of its host.
unfoldable pub from_client_info : Client → LoginInfo
from_client_info c = record {
  user = get metadata_user c.metadata;
  database = get metadata_database c.metadata;
  host = c.socket_addr;
}

-- `HashMap::extend`
unfoldable pub extend : Params → Params → Params
extend metadata [] = metadata
extend metadata ((k, v) ∷ rest) = extend (insert k v metadata) rest

unfoldable pub save_startup_parameters_to_metadata : Startup → Step Client (Unit {0})
unfolding extend
save_startup_parameters_to_metadata startup c =
    done tt (record c { metadata = extend c.metadata startup.parameters })

-- `unwrap` of a result
unfoldable pub unwrap : {W A : Type 0} → Step W A → Step W A
unwrap m w = elim (m w) [ done a w' ↦ done a w' | failed e w' ↦ panicked | panicked ↦ panicked ]

unfoldable pub status_messages : Option Params → List PgWireBackendMessage
status_messages none = []
status_messages (some parameters) =
    map (λ (e : Bytes × Bytes). parameter_status (record { name = e.0; value = e.1 })) parameters

-- A coercion of a password message, `pwd.into_password()?`: it works on the message's own buffer.
unfoldable pub coerced : {A : Type 0} → Reply A → Step Client A
coerced (Buffers.ok a b) = pure a
coerced (Buffers.err e b) = λ c. failed e c
coerced Buffers.panic = λ c. panicked
coerced Buffers.no_fuel = λ c. panicked

-- The messages of `finish_authentication`, in their order.
unfoldable pub finish_messages : Runtime → Option Params → List PgWireBackendMessage
unfolding status_messages
finish_messages r parameters =
    authentication Authentication.auth_ok
    ∷ (status_messages parameters
        ++ backend_key_data (record { pid = r.process_id; secret_key = r.random_i32 }) ∷ idle ∷ [])

module _ ⦃s : Sink⦄ where
  -- `SinkExt::send_all`: every message is fed, and the sink flushed at the end.
  unfoldable pub send_all : List PgWireBackendMessage → Step Client (Unit {0})
  send_all messages = do for_each feed messages; flush

  unfoldable pub finish_authentication : Runtime → ServerParameterProvider → Step Client (Unit {0})
  unfolding finish_messages unwrap send_all
  finish_authentication r provider c =
      (do
        unwrap (send_all (finish_messages r (provider.server_parameters c)))
        set_state ready_for_query)
        c

  -- What a wrong password is answered with, in two of the handlers.
  unfoldable pub refuse_password : Step Client (Unit {0})
  refuse_password = do
    feed (
        error_response
          (from_error_info (new_error_info fatal invalid_password authentication_failed)))
    close
