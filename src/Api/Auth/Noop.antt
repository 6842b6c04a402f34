-- ===== src/Api/Auth/Noop.antt =====
-- api/auth/noop.rs, and the default parameters of a server.
pub mod Unchecked
use pgwire.Base.{Option, none, some, List, [], ◌∷◌, Bytes}
use pgwire.Messages.Startup.Params.{Params, insert}
use pgwire.Messages.Frontend.{PgWireFrontendMessage, startup}
use pgwire.Api.Step.{Step, ◌>>=◌, ◌>>◌, pure}
use pgwire.Api.Client.{Client, Sink}
use pgwire.Api.Auth.{
  Runtime, ServerParameterProvider, save_startup_parameters_to_metadata, finish_authentication,
}

abbrev pub server_version : Bytes
server_version =
    b's' ∷ b'e' ∷ b'r' ∷ b'v' ∷ b'e' ∷ b'r' ∷ b'_' ∷ b'v' ∷ b'e' ∷ b'r' ∷ b's' ∷ b'i' ∷ b'o' ∷ b'n'
    ∷ []

abbrev pub server_encoding : Bytes
server_encoding =
    b's' ∷ b'e' ∷ b'r' ∷ b'v' ∷ b'e' ∷ b'r' ∷ b'_' ∷ b'e' ∷ b'n' ∷ b'c' ∷ b'o' ∷ b'd' ∷ b'i' ∷ b'n'
    ∷ b'g' ∷ []

abbrev pub client_encoding : Bytes
client_encoding =
    b'c' ∷ b'l' ∷ b'i' ∷ b'e' ∷ b'n' ∷ b't' ∷ b'_' ∷ b'e' ∷ b'n' ∷ b'c' ∷ b'o' ∷ b'd' ∷ b'i' ∷ b'n'
    ∷ b'g' ∷ []

abbrev pub date_style : Bytes
date_style = b'D' ∷ b'a' ∷ b't' ∷ b'e' ∷ b'S' ∷ b't' ∷ b'y' ∷ b'l' ∷ b'e' ∷ []

abbrev pub integer_datetimes : Bytes
integer_datetimes =
    b'i' ∷ b'n' ∷ b't' ∷ b'e' ∷ b'g' ∷ b'e' ∷ b'r' ∷ b'_' ∷ b'd' ∷ b'a' ∷ b't' ∷ b'e' ∷ b't' ∷ b'i'
    ∷ b'm' ∷ b'e' ∷ b's' ∷ []

abbrev pub utf8 : Bytes
utf8 = b'U' ∷ b'T' ∷ b'F' ∷ b'8' ∷ []

abbrev pub iso_ymd : Bytes
iso_ymd = b'I' ∷ b'S' ∷ b'O' ∷ b' ' ∷ b'Y' ∷ b'M' ∷ b'D' ∷ []

abbrev pub on_text : Bytes
on_text = b'o' ∷ b'n' ∷ []

-- `version` is the package's, which the build puts in, and `order` the order in which a `HashMap`
-- gives its entries.
unfoldable pub default_parameters : Bytes → Params
default_parameters version = insert integer_datetimes on_text (
    insert date_style iso_ymd (
      insert client_encoding utf8 (insert server_encoding utf8 (insert server_version version []))))

-- `DefaultServerParameterProvider`
unfoldable pub default_provider : Bytes → (Params → Params) → ServerParameterProvider
unfolding default_parameters
default_provider version order = record {
  server_parameters = λ _. some (order (default_parameters version));
}

module _ ⦃s : Sink⦄ (r : Runtime) (version : Bytes) (order : Params → Params) where
  -- `NoopStartupHandler`
  unfoldable pub noop_on_startup : PgWireFrontendMessage → Step Client (Unit {0})
  unfolding default_provider
  noop_on_startup (startup m) = do
    save_startup_parameters_to_metadata m
    finish_authentication r (default_provider version order)
  noop_on_startup _ = pure tt
