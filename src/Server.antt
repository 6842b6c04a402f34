-- ===== src/Server.antt =====
-- tokio.rs: the codec of a connection, and what is done with a message and with an error. The loop
-- of `process_socket` handles the messages that the codec decodes one after the other.
pub mod Errors
pub mod Routing
pub mod Sockets
pub mod Connection
pub mod Guarded
pub mod Reports
pub mod Composed
use pgwire.Base.{ℕ, ◌≡◌, Option, none, some, List, [], ◌∷◌, Bytes}
use pgwire.Errors.{PgWireError, user_error, api_error, ErrorInfo, new_error_info}
use pgwire.Buffers
use pgwire.Buffers.{BytesCrate, Action}
use pgwire.Messages.Dispatch.{map_option}
use pgwire.Messages.Startup.Request.{decode_startup}
use pgwire.Messages.Response.{Query}
use pgwire.Messages.ExtendedQuery.{Parse, Bind, Execute, Describe, Close}
use pgwire.Messages.Units.{Sync}
use pgwire.Messages.Frontend
use pgwire.Messages.Frontend.{
  PgWireFrontendMessage, startup, query, parse, bind, execute, describe, sync, close,
}
use pgwire.Messages.Backend.{error_response}
use pgwire.Messages.Backend.Reported.{from_error_info}
use pgwire.Api.Step.{Outcome, done, failed, panicked, Step, ◌>>=◌, ◌>>◌, pure}
use pgwire.Api.Client
use pgwire.Api.Client.{
  Client, PgWireConnectionState, awaiting_startup, authentication_in_progress, ready_for_query,
  query_in_progress, Sink, feed, flush, send,
}
use pgwire.Api.Query.{idle}

-- `PgWireMessageServerCodec::decode`
unfoldable pub server_decode :
    ⦃c : BytesCrate⦄ → PgWireConnectionState → Action (Option PgWireFrontendMessage)
server_decode awaiting_startup =
    Buffers.◌>>=◌ decode_startup (λ first. Buffers.pure (map_option startup first))
server_decode authentication_in_progress = Frontend.decode
server_decode ready_for_query = Frontend.decode
server_decode query_in_progress = Frontend.decode

-- The handlers of a server, over the state `W` of a connection and of the handlers.
pub record Handlers (W : Type 0) : Type 0 where
  pub state : W → PgWireConnectionState
  pub on_startup : PgWireFrontendMessage → Step W (Unit {0})
  pub on_query : Query → Step W (Unit {0})
  pub on_parse : Parse → Step W (Unit {0})
  pub on_bind : Bind → Step W (Unit {0})
  pub on_execute : Execute → Step W (Unit {0})
  pub on_describe : Describe → Step W (Unit {0})
  pub on_sync : Sync → Step W (Unit {0})
  pub on_close : Close → Step W (Unit {0})
  -- The actions of the connection itself.
  pub on_client : Step Client (Unit {0}) → Step W (Unit {0})

module _ {W : Type 0} (h : Handlers W) where
  -- A message when the client is authenticated.
  unfoldable pub process_query : PgWireFrontendMessage → Step W (Unit {0})
  process_query (query m) = h.on_query m
  process_query (parse m) = h.on_parse m
  process_query (bind m) = h.on_bind m
  process_query (execute m) = h.on_execute m
  process_query (describe m) = h.on_describe m
  process_query (sync m) = h.on_sync m
  process_query (close m) = h.on_close m
  process_query _ = pure tt

  unfoldable pub process_in : PgWireConnectionState → PgWireFrontendMessage → Step W (Unit {0})
  unfolding process_query
  process_in awaiting_startup m = h.on_startup m
  process_in authentication_in_progress m = h.on_startup m
  process_in ready_for_query m = process_query m
  process_in query_in_progress m = process_query m

  unfoldable pub process_message : PgWireFrontendMessage → Step W (Unit {0})
  unfolding process_in
  process_message m w = process_in (h.state w) m w

-- `"ERROR"`, `"FATAL"` and `"XX000"`
abbrev pub error_severity : Bytes
error_severity = b'E' ∷ b'R' ∷ b'R' ∷ b'O' ∷ b'R' ∷ []

abbrev pub fatal_severity : Bytes
fatal_severity = b'F' ∷ b'A' ∷ b'T' ∷ b'A' ∷ b'L' ∷ []

abbrev pub internal_error : Bytes
internal_error = b'X' ∷ b'X' ∷ b'0' ∷ b'0' ∷ b'0' ∷ []

module _ ⦃s : Sink⦄ where
  -- An error that the connection outlives.
  unfoldable pub report : ErrorInfo → Step Client (Unit {0})
  report info = do feed (error_response (from_error_info info)); feed idle; flush

  unfoldable pub report_fatal : ErrorInfo → Step Client (Unit {0})
  report_fatal info = do send (error_response (from_error_info info)); Client.close

  -- `display` is the text of an error, `error.to_string()`.
  unfoldable pub process_error : (PgWireError → Bytes) → PgWireError → Step Client (Unit {0})
  unfolding report report_fatal
  process_error display (user_error info) = report info
  process_error display (api_error e) = report (new_error_info error_severity internal_error e)
  process_error display e = report_fatal (new_error_info fatal_severity internal_error (display e))

  -- One round of the loop of `process_socket`.
  unfoldable pub serve :
      {W : Type 0} → Handlers W → (PgWireError → Bytes) → PgWireFrontendMessage → Step W (Unit {0})
  serve h display m w = elim (process_message h m w) [
    | done _ w' ↦ done tt w'
    | failed e w' ↦ h.on_client (process_error display e) w'
    | panicked ↦ panicked
  ]

  unfoldable pub serve_all :
      {W : Type 0}
      → Handlers W
      → (PgWireError → Bytes)
      → List PgWireFrontendMessage
      → Step W (Unit {0})
  unfolding serve
  serve_all h display [] = pure tt
  serve_all h display (m ∷ ms) = do serve h display m; serve_all h display ms
