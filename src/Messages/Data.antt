-- ===== src/Messages/Data.antt =====
-- messages/data.rs
pub mod RoundTrip
use pgwire.Base.{ℕ, ◌+◌, ◌*◌, Option, none, some, List, Bytes, length, sum_map}
use pgwire.Buffers.{
  BytesCrate, Action, ◌>>=◌, ◌>>◌, pure, put_i16, put_u32, put_i32, get_i16, get_u32, get_i32,
}
use pgwire.Messages.Codec.{Message, get_cstring, put_cstring, or_empty}
use pgwire.Messages.Vectors.{write_vec, read_vec, put_value, get_value}

abbrev pub format_code_text : ℕ
format_code_text = 0

abbrev pub format_code_binary : ℕ
format_code_binary = 1

pub record FieldDescription : Type 0 where
  pub name : Bytes
  pub table_id : ℕ
  pub column_id : ℕ
  pub type_id : ℕ
  pub type_size : ℕ
  pub type_modifier : ℕ
  pub format_code : ℕ

pub record RowDescription : Type 0 where
  pub fields : List FieldDescription

pub record ParameterDescription : Type 0 where
  pub types : List ℕ

pub record DataRow : Type 0 where
  pub fields : List (Option Bytes)

-- `b.as_ref().map(|b| b.len() + 4).unwrap_or(4)`
unfoldable pub data_field_length : Option Bytes → ℕ
data_field_length none = 4
data_field_length (some b) = length b + 4

module _ ⦃c : BytesCrate⦄ where
  unfoldable pub put_field_description : FieldDescription → Action (Unit {0})
  put_field_description f = do
    put_cstring f.name
    put_i32 f.table_id
    put_i16 f.column_id
    put_u32 f.type_id
    put_i16 f.type_size
    put_i32 f.type_modifier
    put_i16 f.format_code

  unfoldable pub get_field_description : Action FieldDescription
  get_field_description = do
    name ← get_cstring
    table_id ← get_i32
    column_id ← get_i16
    type_id ← get_u32
    type_size ← get_i16
    type_modifier ← get_i32
    format_code ← get_i16
    pure (record {
      name = or_empty name;
      table_id = table_id;
      column_id = column_id;
      type_id = type_id;
      type_size = type_size;
      type_modifier = type_modifier;
      format_code = format_code;
    })

  unfoldable pub row_description_message : Message RowDescription
  row_description_message = record {
    message_type = some b'T';
    message_length = λ m.
        4
        + 2
        + sum_map (λ (f : FieldDescription). length f.name + 1 + 4 + 2 + 4 + 2 + 4 + 2) m.fields;
    encode_body = λ m. write_vec put_field_description m.fields;
    decode_body =
        λ _. (do fields ← read_vec get_field_description; pure (record { fields = fields }));
  }

  unfoldable pub parameter_description_message : Message ParameterDescription
  parameter_description_message = record {
    message_type = some b't';
    message_length = λ m. 4 + 2 + length m.types * 4;
    encode_body = λ m. write_vec put_i32 m.types;
    decode_body = λ _. (do types ← read_vec get_i32; pure (record { types = types }));
  }

  unfoldable pub data_row_message : Message DataRow
  unfolding data_field_length
  data_row_message = record {
    message_type = some b'D';
    message_length = λ m. 4 + 2 + sum_map data_field_length m.fields;
    encode_body = λ m. write_vec put_value m.fields;
    decode_body = λ _. (do fields ← read_vec get_value; pure (record { fields = fields }));
  }
