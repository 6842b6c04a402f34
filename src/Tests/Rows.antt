-- ===== src/Tests/Rows.antt =====
-- Values as text, and the rows that an encoder makes of them.
use pgwire.Tests.Standins.{numbered}
use pgwire.Base.{ℕ, ◌≤◌, ◌≡◌, ◌↔◌, refl, some, none, [], ◌∷◌, ◌++◌, List, Bytes, length, arith}
use pgwire.Errors.{api_error}
use pgwire.Buffers.Standard.{standard}
use pgwire.Types.{null_no, Written, written, refused, i8, i32, int_text, int_to_string, decimal}
use pgwire.Types.Integers.{read_integer, integer_of, read_integer-int_text}
use pgwire.Api.Step.{done, failed, panicked}
use pgwire.Api.Results.{text, FieldInfo}
use pgwire.Api.Portals.{get_elem?}
use pgwire.Api.Rows.{
  DataRowEncoder, new_encoder, FieldValue, field_value, write_value, encode_field,
}
use pgwire.Api.Rows.Encoded.{EncodesTo, Makes, with_field, encode_field-exact}
use pgwire.Api.Rows.Calls.{
  field, start, fails, IsValid, Reach-IsValid, encode_field-panics, encode_field-dirty,
}

-- -56 as an `i8`, after an `x`.
read_integer-int_text_example :
    (s : Bytes) × ((int_text i8).to_sql_text 200 18 (b'x' ∷ []) ≡ written null_no (b'x' ∷ [] ++ s))
    × (read_integer s ≡ integer_of i8 200)
read_integer-int_text_example = read_integer-int_text i8 200 18 (b'x' ∷ []) (omega arith)

minus_56 : int_to_string i8 200 ≡ b'-' ∷ b'5' ∷ b'6' ∷ []
unfolding int_to_string decimal
minus_56 = refl

abbrev id_column : FieldInfo
id_column = record {
  name = b'i' ∷ b'd' ∷ [];
  table_id = none;
  column_id = none;
  datatype = 23;
  format = text;
}

abbrev schema : List FieldInfo
schema = id_column ∷ []

abbrev in_binary : ℕ → ℕ → Bytes → Written
in_binary value ty out = written null_no out

abbrev seven : FieldValue
seven = field_value (int_text i32) in_binary 7

encode_field-exact_example :
    Makes schema (seven ∷ []) (some (b'7' ∷ []) ∷ [])
    ↔ EncodesTo schema (seven ∷ []) (some (b'7' ∷ []) ∷ [])
encode_field-exact_example = encode_field-exact schema (seven ∷ []) (some (b'7' ∷ []) ∷ [])

-- A value that fails when a part of it is written.
abbrev half_written : FieldValue
half_written = record {
  to_sql_text = λ ty out. refused (b'e' ∷ []) (out ++ b'h' ∷ []);
  to_sql = λ ty out. refused (b'e' ∷ []) (out ++ b'h' ∷ []);
}

abbrev dirty : DataRowEncoder
dirty = record {
  buffer = record { fields = [] };
  field_buffer = b'h' ∷ [];
  schema = schema;
  col_index = 0;
}

half : encode_field half_written (new_encoder schema) ≡ failed (api_error (b'e' ∷ [])) dirty
unfolding encode_field new_encoder get_elem?
half = refl

Reach-IsValid_example : IsValid schema dirty
Reach-IsValid_example =
    Reach-IsValid (fails (field half_written) (api_error (b'e' ∷ [])) start half)

encode_field-panics_example :
    (encode_field seven dirty ≡ panicked) ↔ (length schema ≤ length dirty.buffer.fields)
encode_field-panics_example =
    encode_field-panics schema dirty seven
      (fails (field half_written) (api_error (b'e' ∷ [])) start half)

encode_field-dirty_example :
    (encode_field half_written (new_encoder schema)
      ≡ failed (api_error (b'e' ∷ [])) (record (new_encoder schema) { field_buffer = b'h' ∷ [] }))
    × (encode_field seven (record (new_encoder schema) { field_buffer = b'h' ∷ [] })
        ≡ done tt (with_field (new_encoder schema) (some (b'h' ∷ [] ++ b'7' ∷ []))))
encode_field-dirty_example =
    encode_field-dirty (new_encoder schema) id_column half_written seven (b'e' ∷ []) (b'h' ∷ [])
      (b'7' ∷ []) (unfold new_encoder get_elem? in refl) (unfold new_encoder write_value in refl)
      (unfold write_value field_value int_text decimal in refl)
