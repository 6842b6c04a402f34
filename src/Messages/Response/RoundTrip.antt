-- ===== src/Messages/Response/RoundTrip.antt =====
-- The messages of messages/response.rs and messages/simplequery.rs are read back.
use pgwire.Base.{
  ℕ, zero, suc, ◌+◌, ◌^◌, ◌≤◌, ◌<◌, ◌≡◌, ap, ◌∙◌, ◌≢◌, List, [], ◌∷◌, ◌++◌, append-nil,
  append_assoc, Bytes, All, length, length-append, sum_map, ne→==, arith,
}
use pgwire.Buffers.{BytesCrate, get_u8}
use pgwire.Buffers.Rules.{
  Reads, Writes, Reads-bind, Reads-last, Reads-last_eq, Reads-pure, Reads-get_u8, Writes-then,
  Writes-put_u8,
}
use pgwire.Text.{IsCstring}
use pgwire.Messages.Codec.{get_cstring}
use pgwire.Messages.Codec.Strings.{
  cstring, non_empty, or_empty-non_empty, Reads-get_cstring, Writes-put_cstring, length-cstring,
}
use pgwire.Messages.Codec.Framing.{RoundTrips, round_trips}
use pgwire.Messages.Vectors.Rules.{flat, length-flat, sum_map-eq, Writes-for_each}
use pgwire.Messages.Response.{
  Query, CommandComplete, ReadyForQuery, Field, ErrorResponse, NoticeResponse, query_message,
  command_complete_message, ready_for_query_message, put_field, encode_fields, decode_fields,
  decode_all_fields, error_response_message, notice_response_message,
}

abbrev field_bytes : Field → Bytes
field_bytes (code, value) = code ∷ cstring value

abbrev pub fields_bytes : List Field → Bytes
fields_bytes fields = flat field_bytes fields ++ 0 ∷ []

-- Code zero would read as the end.
abbrev pub IsField : Field → Type 0
IsField (code, value) = (code ≢ 0) × IsCstring value

length-field_bytes : (f : Field) → length (field_bytes f) ≡ 1 + length f.1 + 1
length-field_bytes (code, value) = omega (arith, length-cstring value)

length-fields_bytes :
    (fields : List Field)
    → length (fields_bytes fields) ≡ sum_map (λ (f : Field). 1 + length f.1 + 1) fields + 1
length-fields_bytes fields = omega (
  arith,
  length-append (flat field_bytes fields) (0 ∷ []),
  length-flat field_bytes fields,
  sum_map-eq _ _ fields length-field_bytes,
)

length-le-sum :
    (fields : List Field) → length fields ≤ sum_map (λ (f : Field). 1 + length f.1 + 1) fields
length-le-sum [] = omega arith
length-le-sum (f ∷ fields) = omega (arith, length-le-sum fields)

module _ ⦃c : BytesCrate⦄ where
  pub query-RoundTrips :
      (m : Query)
      → IsCstring m.query
      → query_message.message_length m < 2 ^ 31
      → RoundTrips query_message m (cstring m.query) 0
  unfolding query_message
  query-RoundTrips m h fits =
      round_trips _ m _ (Writes-put_cstring m.query)
        (Reads-last_eq get_cstring _ (non_empty m.query) m (rw (or_empty-non_empty m.query))
          (Reads-get_cstring m.query h))
        (omega (arith, length-cstring m.query)) fits

  pub command_complete-RoundTrips :
      (m : CommandComplete)
      → IsCstring m.tag
      → command_complete_message.message_length m < 2 ^ 31
      → RoundTrips command_complete_message m (cstring m.tag) 0
  unfolding command_complete_message
  command_complete-RoundTrips m h fits =
      round_trips _ m _ (Writes-put_cstring m.tag)
        (Reads-last_eq get_cstring _ (non_empty m.tag) m (rw (or_empty-non_empty m.tag))
          (Reads-get_cstring m.tag h))
        (omega (arith, length-cstring m.tag)) fits

  pub ready_for_query-RoundTrips :
      (m : ReadyForQuery) → RoundTrips ready_for_query_message m (m.status ∷ []) 0
  unfolding ready_for_query_message
  ready_for_query-RoundTrips m =
      round_trips _ m _ (Writes-put_u8 m.status)
        (Reads-last get_u8 _ m.status (Reads-get_u8 m.status)) (omega arith) (omega arith)

  Writes-put_field : (f : Field) → Writes (put_field f) (field_bytes f)
  unfolding put_field
  Writes-put_field (code, value) = Writes-then _ _ (Writes-put_u8 code) (Writes-put_cstring value)

  Writes-encode_fields : (fields : List Field) → Writes (encode_fields fields) (fields_bytes fields)
  unfolding encode_fields
  Writes-encode_fields fields =
      Writes-then _ _ (Writes-for_each put_field field_bytes fields Writes-put_field)
        (Writes-put_u8 0)

  fields_step :
      (code : ℕ) (value : Bytes) (fields : List Field)
      → fields_bytes ((code, value) ∷ fields)
        ≡ (code ∷ []) ++ (cstring value ++ fields_bytes fields)
  fields_step code value fields =
      append_assoc (field_bytes (code, value)) (flat field_bytes fields) (0 ∷ [])

  Reads-decode_fields :
      (fuel : ℕ) (acc fields : List Field)
      → length fields < fuel
      → All IsField fields
      → Reads (decode_fields fuel acc) (fields_bytes fields) (acc ++ fields)
  unfolding decode_fields
  Reads-decode_fields zero acc fields hf h = absurd (omega arith)
  Reads-decode_fields (suc fuel) acc [] hf h =
      rw (append-nil acc) (Reads-bind get_u8 _ {y = []} 0 acc (Reads-get_u8 0) (Reads-pure acc))
  Reads-decode_fields (suc fuel) acc ((code, value) ∷ fields) hf h =
      rw (fields_step code value fields) (
        Reads-bind get_u8 _ code (acc ++ (code, value) ∷ fields) (Reads-get_u8 code) (
          rw (ne→== code 0 h.0.0) (
            Reads-bind get_cstring _ (non_empty value) _ (Reads-get_cstring value h.0.1) (
              rw (or_empty-non_empty value, ← append_assoc acc ((code, value) ∷ []) fields)
                (Reads-decode_fields fuel (acc ++ (code, value) ∷ []) fields (omega arith) h.1)))))

  Reads-decode_all_fields :
      (fields : List Field)
      → All IsField fields
      → Reads decode_all_fields (fields_bytes fields) fields
  unfolding decode_all_fields
  Reads-decode_all_fields fields h = record {
    at = λ rest.
        ap (λ (n : ℕ). decode_fields (suc n) [] (fields_bytes fields ++ rest))
          (c.remaining_eq (fields_bytes fields ++ rest))
        ∙ (Reads-decode_fields (suc (length (fields_bytes fields ++ rest))) [] fields
              (omega (
                arith,
                length-append (fields_bytes fields) rest,
                length-fields_bytes fields,
                length-le-sum fields,
              ))
              h).at
            rest;
  }

  pub error_response-RoundTrips :
      (m : ErrorResponse)
      → All IsField m.fields
      → error_response_message.message_length m < 2 ^ 31
      → RoundTrips error_response_message m (fields_bytes m.fields) 0
  unfolding error_response_message
  error_response-RoundTrips m h fits =
      round_trips _ m _ (Writes-encode_fields m.fields)
        (Reads-last decode_all_fields _ m.fields (Reads-decode_all_fields m.fields h))
        (omega (arith, length-fields_bytes m.fields)) fits

  pub notice_response-RoundTrips :
      (m : NoticeResponse)
      → All IsField m.fields
      → notice_response_message.message_length m < 2 ^ 31
      → RoundTrips notice_response_message m (fields_bytes m.fields) 0
  unfolding notice_response_message
  notice_response-RoundTrips m h fits =
      round_trips _ m _ (Writes-encode_fields m.fields)
        (Reads-last decode_all_fields _ m.fields (Reads-decode_all_fields m.fields h))
        (omega (arith, length-fields_bytes m.fields)) fits
