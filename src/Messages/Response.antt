-- ===== src/Messages/Response.antt =====
-- messages/response.rs and messages/simplequery.rs.
pub mod RoundTrip
use pgwire.Base.{
  ℕ, zero, suc, ◌+◌, true, false, some, List, [], ◌∷◌, ◌++◌, Bytes, length, sum_map, ◌==◌,
  if◌then◌else◌,
}
use pgwire.Buffers.{BytesCrate, no_fuel, Action, ◌>>=◌, ◌>>◌, pure, put_u8, get_u8}
use pgwire.Messages.Codec.{Message, get_cstring, put_cstring, or_empty}
use pgwire.Messages.Vectors.{for_each}

pub record Query : Type 0 where
  pub query : Bytes

pub record CommandComplete : Type 0 where
  pub tag : Bytes

pub record ReadyForQuery : Type 0 where
  pub status : ℕ

abbrev pub ready_status_idle : ℕ
ready_status_idle = b'I'

-- A field of an error or a notice: its code and its text.
abbrev pub Field : Type 0
Field = ℕ × Bytes

pub record ErrorResponse : Type 0 where
  pub fields : List Field

pub record NoticeResponse : Type 0 where
  pub fields : List Field

module _ ⦃c : BytesCrate⦄ where
  unfoldable pub query_message : Message Query
  query_message = record {
    message_type = some b'Q';
    message_length = λ m. 5 + length m.query;
    encode_body = λ m. put_cstring m.query;
    decode_body = λ _. (do query ← get_cstring; pure (record { query = or_empty query }));
  }

  unfoldable pub command_complete_message : Message CommandComplete
  command_complete_message = record {
    message_type = some b'C';
    message_length = λ m. 5 + length m.tag;
    encode_body = λ m. put_cstring m.tag;
    decode_body = λ _. (do tag ← get_cstring; pure (record { tag = or_empty tag }));
  }

  unfoldable pub ready_for_query_message : Message ReadyForQuery
  ready_for_query_message = record {
    message_type = some b'Z';
    message_length = λ _. 5;
    encode_body = λ m. put_u8 m.status;
    decode_body = λ _. (do status ← get_u8; pure (record { status = status }));
  }

  unfoldable pub put_field : Field → Action (Unit {0})
  put_field (code, value) = do put_u8 code; put_cstring value

  unfoldable pub encode_fields : List Field → Action (Unit {0})
  encode_fields fields = do for_each put_field fields; put_u8 0

  -- `loop { let code = buf.get_u8(); if code == b'\0' { return … } … }`
  unfoldable pub decode_fields : ℕ → List Field → Action (List Field)
  decode_fields zero fields = λ b. no_fuel
  decode_fields (suc fuel) fields = do
    code ← get_u8
    elim (code == 0) [
      | true ↦ pure fields
      | false ↦ (do value ← get_cstring; decode_fields fuel (fields ++ (code, or_empty value) ∷ []))
    ]

  -- A round takes at least one byte, so the bytes left are fuel enough.
  unfoldable pub decode_all_fields : Action (List Field)
  unfolding decode_fields
  decode_all_fields b = decode_fields (suc (c.remaining b)) [] b

  unfoldable pub error_response_message : Message ErrorResponse
  unfolding encode_fields
  error_response_message = record {
    message_type = some b'E';
    message_length = λ m. 4 + sum_map (λ (f : Field). 1 + length f.1 + 1) m.fields + 1;
    encode_body = λ m. encode_fields m.fields;
    decode_body = λ _. (do fields ← decode_all_fields; pure (record { fields = fields }));
  }

  unfoldable pub notice_response_message : Message NoticeResponse
  unfolding encode_fields
  notice_response_message = record {
    message_type = some b'N';
    message_length = λ m. 4 + sum_map (λ (f : Field). 1 + length f.1 + 1) m.fields + 1;
    encode_body = λ m. encode_fields m.fields;
    decode_body = λ _. (do fields ← decode_all_fields; pure (record { fields = fields }));
  }
