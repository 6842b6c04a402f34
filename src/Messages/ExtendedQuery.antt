-- ===== src/Messages/ExtendedQuery.antt =====
-- messages/extendedquery.rs, the messages with a body.
pub mod RoundTrip
use pgwire.Base.{ℕ, ◌+◌, ◌*◌, Option, none, some, List, Bytes, length, sum_map}
use pgwire.Buffers.{
  BytesCrate, Action, ◌>>=◌, ◌>>◌, pure, put_u8, put_i16, put_u32, put_i32, get_u8, get_i16,
  get_u32, get_i32,
}
use pgwire.Messages.Codec.{
  Message, get_cstring, put_cstring, put_option_cstring, option_string_len, or_empty,
}
use pgwire.Messages.Vectors.{write_vec, read_vec, put_value, get_value}

pub record Parse : Type 0 where
  pub name : Option Bytes
  pub query : Bytes
  pub type_oids : List ℕ

pub record Close : Type 0 where
  pub target_type : ℕ
  pub name : Option Bytes

pub record Bind : Type 0 where
  pub portal_name : Option Bytes
  pub statement_name : Option Bytes
  pub parameter_format_codes : List ℕ
  pub parameters : List (Option Bytes)
  pub result_column_format_codes : List ℕ

pub record Describe : Type 0 where
  pub target_type : ℕ
  pub name : Option Bytes

pub record Execute : Type 0 where
  pub name : Option Bytes
  pub max_rows : ℕ

abbrev pub target_type_byte_statement : ℕ
target_type_byte_statement = b'S'

abbrev pub target_type_byte_portal : ℕ
target_type_byte_portal = b'P'

-- `4 + p.as_ref().map(|data| data.len()).unwrap_or(0)`
unfoldable pub parameter_length : Option Bytes → ℕ
parameter_length none = 4 + 0
parameter_length (some d) = 4 + length d

module _ ⦃c : BytesCrate⦄ where
  -- The length leaves out the two bytes of the count, as the source does.
  unfoldable pub parse_message : Message Parse
  parse_message = record {
    message_type = some b'P';
    message_length =
        λ m. 4 + option_string_len m.name + (1 + length m.query) + 4 * length m.type_oids;
    encode_body = λ m. do
      put_option_cstring m.name
      put_cstring m.query
      write_vec put_u32 m.type_oids;
    decode_body = λ _. do
      name ← get_cstring
      query ← get_cstring
      type_oids ← read_vec get_u32
      pure (record { name = name; query = or_empty query; type_oids = type_oids });
  }

  unfoldable pub close_message : Message Close
  close_message = record {
    message_type = some b'C';
    message_length = λ m. 4 + 1 + option_string_len m.name;
    encode_body = λ m. (do put_u8 m.target_type; put_option_cstring m.name);
    decode_body = λ _. do
      target_type ← get_u8
      name ← get_cstring
      pure (record { target_type = target_type; name = name });
  }

  unfoldable pub bind_message : Message Bind
  unfolding parameter_length
  bind_message = record {
    message_type = some b'B';
    message_length = λ m.
        4
        + option_string_len m.portal_name
        + option_string_len m.statement_name
        + 2
        + 2 * length m.parameter_format_codes
        + 2
        + sum_map parameter_length m.parameters
        + 2
        + 2 * length m.result_column_format_codes;
    encode_body = λ m. do
      put_option_cstring m.portal_name
      put_option_cstring m.statement_name
      write_vec put_i16 m.parameter_format_codes
      write_vec put_value m.parameters
      write_vec put_i16 m.result_column_format_codes;
    decode_body = λ _. do
      portal_name ← get_cstring
      statement_name ← get_cstring
      parameter_format_codes ← read_vec get_i16
      parameters ← read_vec get_value
      result_column_format_codes ← read_vec get_i16
      pure (record {
        portal_name = portal_name;
        statement_name = statement_name;
        parameter_format_codes = parameter_format_codes;
        parameters = parameters;
        result_column_format_codes = result_column_format_codes;
      });
  }

  unfoldable pub describe_message : Message Describe
  describe_message = record {
    message_type = some b'D';
    message_length = λ m. 4 + 1 + option_string_len m.name;
    encode_body = λ m. (do put_u8 m.target_type; put_option_cstring m.name);
    decode_body = λ _. do
      target_type ← get_u8
      name ← get_cstring
      pure (record { target_type = target_type; name = name });
  }

  unfoldable pub execute_message : Message Execute
  execute_message = record {
    message_type = some b'E';
    message_length = λ m. 4 + option_string_len m.name + 4;
    encode_body = λ m. (do put_option_cstring m.name; put_i32 m.max_rows);
    decode_body = λ _. do
      name ← get_cstring
      max_rows ← get_i32
      pure (record { name = name; max_rows = max_rows });
  }
