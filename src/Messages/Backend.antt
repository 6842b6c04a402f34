-- ===== src/Messages/Backend.antt =====
-- messages/mod.rs: `PgWireBackendMessage`, with `encode` and `decode`.
pub mod RoundTrip
pub mod Reported
use pgwire.Base.{ℕ, Option, Bytes, ◌==◌, if◌then◌else◌}
use pgwire.Errors.{invalid_message_type}
use pgwire.Buffers.{BytesCrate, Action, raise}
use pgwire.Messages.Codec
use pgwire.Messages.Dispatch.{decode_as, decode_by_first_byte}
use pgwire.Messages.Units.{
  ParseComplete, CloseComplete, BindComplete, PortalSuspended, EmptyQueryResponse,
  parse_complete_message, close_complete_message, bind_complete_message, portal_suspended_message,
  empty_query_response_message,
}
use pgwire.Messages.Response.{
  CommandComplete, ReadyForQuery, ErrorResponse, NoticeResponse, command_complete_message,
  ready_for_query_message, error_response_message, notice_response_message,
}
use pgwire.Messages.Data.{
  RowDescription, ParameterDescription, DataRow, row_description_message,
  parameter_description_message, data_row_message,
}
use pgwire.Messages.Startup.Authentication.{Authentication, authentication_message}
use pgwire.Messages.Startup.Status.{
  ParameterStatus, BackendKeyData, parameter_status_message, backend_key_data_message,
}

pub data PgWireBackendMessage : Type 0 where
  authentication : Authentication → PgWireBackendMessage
  parameter_status : ParameterStatus → PgWireBackendMessage
  backend_key_data : BackendKeyData → PgWireBackendMessage
  parse_complete : ParseComplete → PgWireBackendMessage
  close_complete : CloseComplete → PgWireBackendMessage
  bind_complete : BindComplete → PgWireBackendMessage
  portal_suspended : PortalSuspended → PgWireBackendMessage
  command_complete : CommandComplete → PgWireBackendMessage
  empty_query_response : EmptyQueryResponse → PgWireBackendMessage
  ready_for_query : ReadyForQuery → PgWireBackendMessage
  error_response : ErrorResponse → PgWireBackendMessage
  notice_response : NoticeResponse → PgWireBackendMessage
  parameter_description : ParameterDescription → PgWireBackendMessage
  row_description : RowDescription → PgWireBackendMessage
  data_row : DataRow → PgWireBackendMessage

module _ ⦃c : BytesCrate⦄ where
  unfoldable pub encode : PgWireBackendMessage → Action (Unit {0})
  encode (authentication m) = Codec.encode authentication_message m
  encode (parameter_status m) = Codec.encode parameter_status_message m
  encode (backend_key_data m) = Codec.encode backend_key_data_message m
  encode (parse_complete m) = Codec.encode parse_complete_message m
  encode (bind_complete m) = Codec.encode bind_complete_message m
  encode (close_complete m) = Codec.encode close_complete_message m
  encode (portal_suspended m) = Codec.encode portal_suspended_message m
  encode (command_complete m) = Codec.encode command_complete_message m
  encode (empty_query_response m) = Codec.encode empty_query_response_message m
  encode (ready_for_query m) = Codec.encode ready_for_query_message m
  encode (error_response m) = Codec.encode error_response_message m
  encode (notice_response m) = Codec.encode notice_response_message m
  encode (parameter_description m) = Codec.encode parameter_description_message m
  encode (row_description m) = Codec.encode row_description_message m
  encode (data_row m) = Codec.encode data_row_message m

  -- The `match` on the first byte.
  unfoldable pub decode_selected : ℕ → Action (Option PgWireBackendMessage)
  decode_selected first_byte =
      if first_byte == b'R'
      then decode_as authentication_message authentication
      else if first_byte == b'S'
      then decode_as parameter_status_message parameter_status
      else if first_byte == b'K'
      then decode_as backend_key_data_message backend_key_data
      else if first_byte == b'1'
      then decode_as parse_complete_message parse_complete
      else if first_byte == b'2'
      then decode_as bind_complete_message bind_complete
      else if first_byte == b'3'
      then decode_as close_complete_message close_complete
      else if first_byte == b's'
      then decode_as portal_suspended_message portal_suspended
      else if first_byte == b'C'
      then decode_as command_complete_message command_complete
      else if first_byte == b'I'
      then decode_as empty_query_response_message empty_query_response
      else if first_byte == b'Z'
      then decode_as ready_for_query_message ready_for_query
      else if first_byte == b'E'
      then decode_as error_response_message error_response
      else if first_byte == b'N'
      then decode_as notice_response_message notice_response
      else if first_byte == b't'
      then decode_as parameter_description_message parameter_description
      else if first_byte == b'T'
      then decode_as row_description_message row_description
      else if first_byte == b'D'
      then decode_as data_row_message data_row
      else raise (invalid_message_type first_byte)

  unfoldable pub decode : Action (Option PgWireBackendMessage)
  unfolding decode_selected decode_by_first_byte
  decode = decode_by_first_byte decode_selected
