-- ===== src/Messages/Backend/Reported.antt =====
-- The message that reports an error, `From<ErrorInfo> for ErrorResponse` of error.rs.
use pgwire.Base.{◌^◌, ◌<◌, ◌≡◌, some, ◌++◌, Bytes}
use pgwire.Errors.{ErrorInfo, into_fields}
use pgwire.Errors.Fields.{IsErrorInfo, Carries, into_fields-Carries, into_fields-IsField}
use pgwire.Buffers.{BytesCrate, ok}
use pgwire.Messages.Response.{ErrorResponse, error_response_message}
use pgwire.Messages.Backend.{error_response, encode, decode}
use pgwire.Messages.Backend.RoundTrip.{wire, decode-encode_backend}

unfoldable pub from_error_info : ErrorInfo → ErrorResponse
from_error_info e = record { fields = into_fields e }

module _ ⦃c : BytesCrate⦄ where
  -- The ErrorResponse made from an ErrorInfo whose parts are strings without a zero byte, whose
  -- line number is a usize, and which fits the length field, is written and read back as one whose
  -- severity, code, message, detail, hint, positions, query, context, file, line in decimal digits
  -- and routine are those of the ErrorInfo.
  pub decode-from_error_info :
      (e : ErrorInfo) (b rest : Bytes)
      → IsErrorInfo e
      → error_response_message.message_length (from_error_info e) < 2 ^ 31
      → (encode (error_response (from_error_info e)) b
          ≡ ok tt (b ++ wire (error_response (from_error_info e))))
        × (r : ErrorResponse) × (decode (wire (error_response (from_error_info e)) ++ rest)
            ≡ ok (some (error_response r)) rest)
        × Carries e r.fields
  unfolding from_error_info
  decode-from_error_info e b rest h fits =
      let (writes, reads) =
        decode-encode_backend (error_response (from_error_info e)) b rest
          (into_fields-IsField e h, fits) in
      (writes, from_error_info e, reads, into_fields-Carries e h)
