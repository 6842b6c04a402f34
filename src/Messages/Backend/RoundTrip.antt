-- ===== src/Messages/Backend/RoundTrip.antt =====
-- Every well-formed backend message is read back by `decode`.
use pgwire.Base.{
  ℕ, ◌+◌, ◌^◌, ◌<◌, ◌≡◌, refl, none, some, [], ◌∷◌, ◌++◌, Bytes, All, be32, length, arith,
}
use pgwire.Buffers.{BytesCrate, ok}
use pgwire.Buffers.Rules.{Reads, Writes}
use pgwire.Text.{IsCstring}
use pgwire.Messages.Codec.{get_length}
use pgwire.Messages.Codec.Strings.{cstring}
use pgwire.Messages.Codec.Framing.{frame, encode-frame}
use pgwire.Messages.Vectors.Rules.{vec_bytes, value_bytes, IsValue}
use pgwire.Messages.Dispatch.{
  Selected, Selected-as, Reads-selected, prefix-selected, get_length-selected,
}
use pgwire.Messages.Units.{
  parse_complete_message, close_complete_message, bind_complete_message, portal_suspended_message,
  empty_query_response_message,
}
use pgwire.Messages.Units.RoundTrip.{unit-RoundTrips}
use pgwire.Messages.Response.{
  command_complete_message, ready_for_query_message, error_response_message,
  notice_response_message,
}
use pgwire.Messages.Response.RoundTrip.{
  fields_bytes, IsField, command_complete-RoundTrips, ready_for_query-RoundTrips,
  error_response-RoundTrips, notice_response-RoundTrips,
}
use pgwire.Messages.Data.{row_description_message, parameter_description_message, data_row_message}
use pgwire.Messages.Data.RoundTrip.{
  description_bytes, IsDescription, row_description-RoundTrips, parameter_description-RoundTrips,
  data_row-RoundTrips,
}
use pgwire.Messages.Startup.Authentication.{authentication_message, authentication_length}
use pgwire.Messages.Startup.Authentication.RoundTrip.{
  authentication_body, IsAuthentication, authentication-RoundTrips,
}
use pgwire.Messages.Startup.Status.{parameter_status_message, backend_key_data_message}
use pgwire.Messages.Startup.Status.RoundTrip.{
  parameter_status_body, backend_key_data_body, parameter_status-RoundTrips,
  backend_key_data-RoundTrips,
}
use pgwire.Messages.Backend.{
  PgWireBackendMessage, authentication, parameter_status, backend_key_data, parse_complete,
  close_complete, bind_complete, portal_suspended, command_complete, empty_query_response,
  ready_for_query, error_response, notice_response, parameter_description, row_description,
  data_row, encode, decode_selected, decode,
}

-- The body of a message, by its type.
abbrev pub body : PgWireBackendMessage → Bytes
body (authentication m) = authentication_body m
body (parameter_status m) = parameter_status_body m
body (backend_key_data m) = backend_key_data_body m
body (parse_complete _) = []
body (close_complete _) = []
body (bind_complete _) = []
body (portal_suspended _) = []
body (command_complete m) = cstring m.tag
body (empty_query_response _) = []
body (ready_for_query m) = m.status ∷ []
body (error_response m) = fields_bytes m.fields
body (notice_response m) = fields_bytes m.fields
body (parameter_description m) = vec_bytes be32 m.types
body (row_description m) = vec_bytes description_bytes m.fields
body (data_row m) = vec_bytes value_bytes m.fields

module _ ⦃c : BytesCrate⦄ where
  -- What is asked of a message: its strings are text without a zero byte, its numbers fit their
  -- widths, its sequences fit an `i16`, and its length an `i32`.
  abbrev pub IsWellFormed : PgWireBackendMessage → Type 0
  IsWellFormed (authentication m) = IsAuthentication m × (authentication_length m < 2 ^ 31)
  IsWellFormed (parameter_status m) =
      IsCstring m.name × IsCstring m.value × (parameter_status_message.message_length m < 2 ^ 31)
  IsWellFormed (backend_key_data m) = (m.pid < 2 ^ 32) × (m.secret_key < 2 ^ 32)
  IsWellFormed (parse_complete _) = Unit
  IsWellFormed (close_complete _) = Unit
  IsWellFormed (bind_complete _) = Unit
  IsWellFormed (portal_suspended _) = Unit
  IsWellFormed (command_complete m) =
      IsCstring m.tag × (command_complete_message.message_length m < 2 ^ 31)
  IsWellFormed (empty_query_response _) = Unit
  IsWellFormed (ready_for_query m) = Unit
  IsWellFormed (error_response m) =
      All IsField m.fields × (error_response_message.message_length m < 2 ^ 31)
  IsWellFormed (notice_response m) =
      All IsField m.fields × (notice_response_message.message_length m < 2 ^ 31)
  IsWellFormed (parameter_description m) = (length m.types < 2 ^ 15) × All (λ t. t < 2 ^ 32) m.types
  IsWellFormed (row_description m) =
      (length m.fields < 2 ^ 15)
      × All IsDescription m.fields
      × (row_description_message.message_length m < 2 ^ 31)
  IsWellFormed (data_row m) =
      (length m.fields < 2 ^ 15)
      × All IsValue m.fields
      × (data_row_message.message_length m < 2 ^ 31)

  -- The bytes of a message.
  abbrev pub wire : PgWireBackendMessage → Bytes
  wire (authentication m) = frame authentication_message m (authentication_body m)
  wire (parameter_status m) = frame parameter_status_message m (parameter_status_body m)
  wire (backend_key_data m) = frame backend_key_data_message m (backend_key_data_body m)
  wire (parse_complete m) = frame parse_complete_message m []
  wire (close_complete m) = frame close_complete_message m []
  wire (bind_complete m) = frame bind_complete_message m []
  wire (portal_suspended m) = frame portal_suspended_message m []
  wire (command_complete m) = frame command_complete_message m (cstring m.tag)
  wire (empty_query_response m) = frame empty_query_response_message m []
  wire (ready_for_query m) = frame ready_for_query_message m (m.status ∷ [])
  wire (error_response m) = frame error_response_message m (fields_bytes m.fields)
  wire (notice_response m) = frame notice_response_message m (fields_bytes m.fields)
  wire (parameter_description m) = frame parameter_description_message m (vec_bytes be32 m.types)
  wire (row_description m) = frame row_description_message m (vec_bytes description_bytes m.fields)
  wire (data_row m) = frame data_row_message m (vec_bytes value_bytes m.fields)

  -- The decoder that the type byte of each message selects reads it back.
  pub selected : (m : PgWireBackendMessage) → IsWellFormed m → Selected decode_selected m (wire m) 0
  unfolding decode_selected authentication_message parameter_status_message backend_key_data_message
      parse_complete_message close_complete_message bind_complete_message portal_suspended_message
      command_complete_message empty_query_response_message ready_for_query_message
      error_response_message notice_response_message parameter_description_message
      row_description_message data_row_message
  selected (authentication m) h =
      Selected-as decode_selected authentication_message authentication m b'R' refl refl
        (authentication-RoundTrips m h.0 h.1)
  selected (parameter_status m) h =
      Selected-as decode_selected parameter_status_message parameter_status m b'S' refl refl
        (parameter_status-RoundTrips m h.0 h.1 h.2)
  selected (backend_key_data m) h =
      Selected-as decode_selected backend_key_data_message backend_key_data m b'K' refl refl
        (backend_key_data-RoundTrips m h.0 h.1)
  selected (parse_complete m) h =
      Selected-as decode_selected parse_complete_message parse_complete m b'1' refl refl
        (unit-RoundTrips b'1' m)
  selected (close_complete m) h =
      Selected-as decode_selected close_complete_message close_complete m b'3' refl refl
        (unit-RoundTrips b'3' m)
  selected (bind_complete m) h =
      Selected-as decode_selected bind_complete_message bind_complete m b'2' refl refl
        (unit-RoundTrips b'2' m)
  selected (portal_suspended m) h =
      Selected-as decode_selected portal_suspended_message portal_suspended m b's' refl refl
        (unit-RoundTrips b's' m)
  selected (command_complete m) h =
      Selected-as decode_selected command_complete_message command_complete m b'C' refl refl
        (command_complete-RoundTrips m h.0 h.1)
  selected (empty_query_response m) h =
      Selected-as decode_selected empty_query_response_message empty_query_response m b'I' refl refl
        (unit-RoundTrips b'I' m)
  selected (ready_for_query m) h =
      Selected-as decode_selected ready_for_query_message ready_for_query m b'Z' refl refl
        (ready_for_query-RoundTrips m)
  selected (error_response m) h =
      Selected-as decode_selected error_response_message error_response m b'E' refl refl
        (error_response-RoundTrips m h.0 h.1)
  selected (notice_response m) h =
      Selected-as decode_selected notice_response_message notice_response m b'N' refl refl
        (notice_response-RoundTrips m h.0 h.1)
  selected (parameter_description m) h =
      Selected-as decode_selected parameter_description_message parameter_description m b't' refl
        refl (parameter_description-RoundTrips m h.0 h.1)
  selected (row_description m) h =
      Selected-as decode_selected row_description_message row_description m b'T' refl refl
        (row_description-RoundTrips m h.0 h.1 h.2)
  selected (data_row m) h =
      Selected-as decode_selected data_row_message data_row m b'D' refl refl
        (data_row-RoundTrips m h.0 h.1 h.2)

  -- `decode` reads every well-formed message back.
  pub Reads-decode : (m : PgWireBackendMessage) → IsWellFormed m → Reads decode (wire m) (some m)
  unfolding decode
  Reads-decode m h = Reads-selected decode_selected m (wire m) 0 (selected m h)

  Writes-encode : (m : PgWireBackendMessage) → IsWellFormed m → Writes (encode m) (wire m)
  unfolding encode parse_complete_message close_complete_message bind_complete_message
      portal_suspended_message empty_query_response_message
  Writes-encode (authentication m) h =
      encode-frame authentication_message m _ (authentication-RoundTrips m h.0 h.1).writes
  Writes-encode (parameter_status m) h =
      encode-frame parameter_status_message m _ (parameter_status-RoundTrips m h.0 h.1 h.2).writes
  Writes-encode (backend_key_data m) h =
      encode-frame backend_key_data_message m _ (backend_key_data-RoundTrips m h.0 h.1).writes
  Writes-encode (parse_complete m) h =
      encode-frame parse_complete_message m _ (unit-RoundTrips b'1' m).writes
  Writes-encode (close_complete m) h =
      encode-frame close_complete_message m _ (unit-RoundTrips b'3' m).writes
  Writes-encode (bind_complete m) h =
      encode-frame bind_complete_message m _ (unit-RoundTrips b'2' m).writes
  Writes-encode (portal_suspended m) h =
      encode-frame portal_suspended_message m _ (unit-RoundTrips b's' m).writes
  Writes-encode (command_complete m) h =
      encode-frame command_complete_message m _ (command_complete-RoundTrips m h.0 h.1).writes
  Writes-encode (empty_query_response m) h =
      encode-frame empty_query_response_message m _ (unit-RoundTrips b'I' m).writes
  Writes-encode (ready_for_query m) h =
      encode-frame ready_for_query_message m _ (ready_for_query-RoundTrips m).writes
  Writes-encode (error_response m) h =
      encode-frame error_response_message m _ (error_response-RoundTrips m h.0 h.1).writes
  Writes-encode (notice_response m) h =
      encode-frame notice_response_message m _ (notice_response-RoundTrips m h.0 h.1).writes
  Writes-encode (parameter_description m) h =
      encode-frame parameter_description_message m _
        (parameter_description-RoundTrips m h.0 h.1).writes
  Writes-encode (row_description m) h =
      encode-frame row_description_message m _ (row_description-RoundTrips m h.0 h.1 h.2).writes
  Writes-encode (data_row m) h =
      encode-frame data_row_message m _ (data_row-RoundTrips m h.0 h.1 h.2).writes

  -- For every well-formed backend message other than the authentication messages SASLContinue and
  -- SASLFinal (its strings are text without a zero byte, its numbers, sequences and length fit
  -- their fields, no code of an error field is zero, no mechanism of SASL has an empty name, a
  -- salt for MD5 has four bytes), encode appends the wire form and decode, given the wire form
  -- followed by any bytes, returns the message and leaves those bytes.
  pub decode-encode_backend :
      (m : PgWireBackendMessage) (b rest : Bytes)
      → IsWellFormed m
      → (encode m b ≡ ok tt (b ++ wire m)) × (decode (wire m ++ rest) ≡ ok (some m) rest)
  decode-encode_backend m b rest h = ((Writes-encode m h).at b, (Reads-decode m h).at rest)

  -- A proper prefix of the wire form of a well-formed backend message other than SASLContinue and
  -- SASLFinal is left in the buffer, and decode returns None.
  pub decode-prefix_backend :
      (m : PgWireBackendMessage) (p q : Bytes)
      → IsWellFormed m
      → wire m ≡ p ++ q
      → 0 < length q
      → decode p ≡ ok none p
  unfolding decode
  decode-prefix_backend m p q h e hq =
      prefix-selected decode_selected m (wire m) 0 (selected m h) p q refl e hq

  -- The length read from the header of a well-formed backend message is the length of the message
  -- without its type byte.
  pub get_length-wire_backend :
      (m : PgWireBackendMessage) (rest : Bytes)
      → IsWellFormed m
      → (n : ℕ) × (get_length 1 (wire m ++ rest) ≡ ok (some n) (wire m ++ rest))
        × (1 + n ≡ length (wire m))
  get_length-wire_backend m rest h =
      let (n, read, same) = get_length-selected decode_selected m (wire m) 0 (selected m h) rest in
      (n, read, omega (arith, same))
