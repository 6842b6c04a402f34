-- ===== src/Tests/Wire/Backend.antt =====
-- Backend messages and reports of errors that are written and read.
use pgwire.Base.{◌≡◌, refl, none, some, [], ◌∷◌, ◌++◌, be32, arith}
use pgwire.Errors.{
  ErrorInfo, new_error_info, usize_to_string, digits, line_text, push_some, into_fields,
}
use pgwire.Errors.Fields.{IsErrorInfo}
use pgwire.Buffers.{ok}
use pgwire.Buffers.Standard.{standard}
use pgwire.Text.Ascii.{is_ascii, is_ascii-IsCstring}
use pgwire.Messages.Data
use pgwire.Messages.Response
use pgwire.Messages.Response.{ErrorResponse, error_response_message}
use pgwire.Messages.Backend
use pgwire.Messages.Backend.{PgWireBackendMessage}
use pgwire.Messages.Backend.RoundTrip.{
  decode-encode_backend, decode-prefix_backend, get_length-wire_backend,
}
use pgwire.Errors.Fields.{Carries}
use pgwire.Messages.Response.{ErrorResponse}
use pgwire.Messages.Backend.Reported.{from_error_info, decode-from_error_info}

abbrev row : PgWireBackendMessage
row = Backend.data_row (record { fields = some (b'7' ∷ []) ∷ none ∷ [] })

decode-encode_backend_example :
    (Backend.encode row [] ≡ ok tt ([] ++ Backend.RoundTrip.wire row))
    × (Backend.decode (Backend.RoundTrip.wire row ++ b'C' ∷ []) ≡ ok (some row) (b'C' ∷ []))
decode-encode_backend_example = decode-encode_backend row [] (b'C' ∷ []) (
  omega arith,
  (omega arith, (tt, tt)),
  unfold Data.data_row_message Data.data_field_length in omega arith,
)

abbrev ready : PgWireBackendMessage
ready = Backend.ready_for_query (record { status = b'I' })

decode-prefix_backend_example : Backend.decode (b'Z' ∷ be32 5) ≡ ok none (b'Z' ∷ be32 5)
decode-prefix_backend_example =
    decode-prefix_backend ready (b'Z' ∷ be32 5) (b'I' ∷ []) tt
      (unfold Response.ready_for_query_message in refl) (omega arith)

abbrev failure : ErrorInfo
failure = record (new_error_info (b'F' ∷ []) (b'2' ∷ b'8' ∷ []) (b'n' ∷ b'o' ∷ [])) {
  line = some 42;
}

failure-IsErrorInfo : IsErrorInfo failure
unfolding new_error_info
failure-IsErrorInfo = record {
  severity = is_ascii-IsCstring (b'F' ∷ []) (unfold is_ascii in refl);
  code = is_ascii-IsCstring (b'2' ∷ b'8' ∷ []) (unfold is_ascii in refl);
  message = is_ascii-IsCstring (b'n' ∷ b'o' ∷ []) (unfold is_ascii in refl);
  detail = tt;
  hint = tt;
  position = tt;
  internal_position = tt;
  internal_query = tt;
  where_context = tt;
  file_name = tt;
  line = omega arith;
  routine = tt;
}

decode-from_error_info_example :
    (Backend.encode (Backend.error_response (from_error_info failure)) []
      ≡ ok tt ([] ++ Backend.RoundTrip.wire (Backend.error_response (from_error_info failure))))
    × (r : ErrorResponse) × (Backend.decode
          (Backend.RoundTrip.wire (Backend.error_response (from_error_info failure)) ++ [])
        ≡ ok (some (Backend.error_response r)) [])
    × Carries failure r.fields
decode-from_error_info_example = decode-from_error_info failure [] [] failure-IsErrorInfo (
    unfold error_response_message from_error_info into_fields push_some line_text new_error_info
      usize_to_string digits in
    omega arith)
