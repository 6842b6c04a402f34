-- ===== src/Messages/Frontend.antt =====
-- messages/mod.rs: `PgWireFrontendMessage`, with `encode` and `decode`.
pub mod RoundTrip
pub mod Partial
pub mod Clients
pub mod Stream
use pgwire.Base.{ℕ, Option, Bytes, ◌==◌, if◌then◌else◌}
use pgwire.Errors.{invalid_message_type}
use pgwire.Buffers.{BytesCrate, Action, raise}
use pgwire.Messages.Codec
use pgwire.Messages.Codec.{Message}
use pgwire.Messages.Dispatch.{decode_as, decode_by_first_byte}
use pgwire.Messages.Units.{Flush, Sync, Terminate, flush_message, sync_message, terminate_message}
use pgwire.Messages.Response.{Query, query_message}
use pgwire.Messages.ExtendedQuery.{
  Parse, Close, Bind, Describe, Execute, parse_message, close_message, bind_message,
  describe_message, execute_message,
}
use pgwire.Messages.Startup.Request.{Startup, startup_message}
use pgwire.Messages.Startup.Passwords.{PasswordMessageFamily, family_message}

pub data PgWireFrontendMessage : Type 0 where
  startup : Startup → PgWireFrontendMessage
  password_message_family : PasswordMessageFamily → PgWireFrontendMessage
  query : Query → PgWireFrontendMessage
  parse : Parse → PgWireFrontendMessage
  close : Close → PgWireFrontendMessage
  bind : Bind → PgWireFrontendMessage
  describe : Describe → PgWireFrontendMessage
  execute : Execute → PgWireFrontendMessage
  flush : Flush → PgWireFrontendMessage
  sync : Sync → PgWireFrontendMessage
  terminate : Terminate → PgWireFrontendMessage

module _ ⦃c : BytesCrate⦄ where
  unfoldable pub encode : PgWireFrontendMessage → Action (Unit {0})
  encode (startup m) = Codec.encode startup_message m
  encode (password_message_family m) = Codec.encode family_message m
  encode (query m) = Codec.encode query_message m
  encode (parse m) = Codec.encode parse_message m
  encode (bind m) = Codec.encode bind_message m
  encode (close m) = Codec.encode close_message m
  encode (describe m) = Codec.encode describe_message m
  encode (execute m) = Codec.encode execute_message m
  encode (flush m) = Codec.encode flush_message m
  encode (sync m) = Codec.encode sync_message m
  encode (terminate m) = Codec.encode terminate_message m

  -- The `match` on the first byte. `Startup` has no type byte, and `Flush` has no case.
  unfoldable pub decode_selected : ℕ → Action (Option PgWireFrontendMessage)
  decode_selected first_byte =
      if first_byte == b'p'
      then decode_as family_message password_message_family
      else if first_byte == b'Q'
      then decode_as query_message query
      else if first_byte == b'P'
      then decode_as parse_message parse
      else if first_byte == b'B'
      then decode_as bind_message bind
      else if first_byte == b'C'
      then decode_as close_message close
      else if first_byte == b'D'
      then decode_as describe_message describe
      else if first_byte == b'E'
      then decode_as execute_message execute
      else if first_byte == b'S'
      then decode_as sync_message sync
      else if first_byte == b'X'
      then decode_as terminate_message terminate
      else raise (invalid_message_type first_byte)

  unfoldable pub decode : Action (Option PgWireFrontendMessage)
  unfolding decode_selected decode_by_first_byte
  decode = decode_by_first_byte decode_selected
