-- ===== src/Messages/Data/RoundTrip.antt =====
-- The messages of messages/data.rs are read back.
use pgwire.Base.{
  ◌+◌, ◌^◌, ◌<◌, ◌≡◌, Option, none, some, ◌++◌, Bytes, All, be16, be32, length, length-append,
  arith,
}
use pgwire.Buffers.{BytesCrate, put_i32, get_i16, get_u32, get_i32}
use pgwire.Buffers.Rules.{
  Reads, Writes, Reads-bind, Reads-last, Reads-get_i16, Reads-get_u32, Reads-get_i32, Writes-then,
  Writes-put_i16, Writes-put_u32, Writes-put_i32,
}
use pgwire.Text.{IsCstring}
use pgwire.Messages.Codec.{get_cstring}
use pgwire.Messages.Codec.Strings.{
  cstring, non_empty, or_empty-non_empty, Reads-get_cstring, Writes-put_cstring, length-cstring,
}
use pgwire.Messages.Codec.Framing.{RoundTrips, round_trips}
use pgwire.Messages.Vectors.{put_value, get_value}
use pgwire.Messages.Vectors.Rules.{
  vec_bytes, length-vec_bytes, sum_map-eq, sum_map-const, value_bytes, IsValue, Writes-write_vec,
  Reads-read_vec, Writes-put_value, Reads-get_value, All-map,
}
use pgwire.Messages.Data.{
  FieldDescription, RowDescription, ParameterDescription, DataRow, data_field_length,
  put_field_description, get_field_description, row_description_message,
  parameter_description_message, data_row_message,
}

abbrev pub description_bytes : FieldDescription → Bytes
description_bytes f =
    cstring f.name
    ++ (be32 f.table_id
        ++ (be16 f.column_id
            ++ (be32 f.type_id
                ++ (be16 f.type_size ++ (be32 f.type_modifier ++ be16 f.format_code)))))

-- The name is text, and the numbers fit their widths.
pub record IsDescription (f : FieldDescription) : Type 0 where
  pub name : IsCstring f.name
  pub table_id : f.table_id < 2 ^ 32
  pub column_id : f.column_id < 2 ^ 16
  pub type_id : f.type_id < 2 ^ 32
  pub type_size : f.type_size < 2 ^ 16
  pub type_modifier : f.type_modifier < 2 ^ 32
  pub format_code : f.format_code < 2 ^ 16

length-description :
    (f : FieldDescription)
    → length (description_bytes f) ≡ length f.name + 1 + 4 + 2 + 4 + 2 + 4 + 2
length-description f = omega (
  arith,
  length-append (cstring f.name) (
      be32 f.table_id
      ++ (be16 f.column_id
          ++ (be32 f.type_id
              ++ (be16 f.type_size ++ (be32 f.type_modifier ++ be16 f.format_code))))),
  length-cstring f.name,
)

length-data_field : (o : Option Bytes) → length (value_bytes o) ≡ data_field_length o
unfolding data_field_length
length-data_field none = omega arith
length-data_field (some v) = omega arith

module _ ⦃c : BytesCrate⦄ where
  Writes-put_field_description :
      (f : FieldDescription) → Writes (put_field_description f) (description_bytes f)
  unfolding put_field_description
  Writes-put_field_description f = Writes-then _ _ (Writes-put_cstring f.name) (
      Writes-then _ _ (Writes-put_i32 _) (
        Writes-then _ _ (Writes-put_i16 _) (
          Writes-then _ _ (Writes-put_u32 _) (
            Writes-then _ _ (Writes-put_i16 _)
              (Writes-then _ _ (Writes-put_i32 _) (Writes-put_i16 _))))))

  Reads-get_field_description :
      (f : FieldDescription) → IsDescription f → Reads get_field_description (description_bytes f) f
  unfolding get_field_description
  Reads-get_field_description f h =
      Reads-bind get_cstring _ (non_empty f.name) f (Reads-get_cstring f.name h.name) (
        rw (or_empty-non_empty f.name) (
          Reads-bind get_i32 _ f.table_id f (Reads-get_i32 _ h.table_id) (
            Reads-bind get_i16 _ f.column_id f (Reads-get_i16 _ h.column_id) (
              Reads-bind get_u32 _ f.type_id f (Reads-get_u32 _ h.type_id) (
                Reads-bind get_i16 _ f.type_size f (Reads-get_i16 _ h.type_size) (
                  Reads-bind get_i32 _ f.type_modifier f (Reads-get_i32 _ h.type_modifier)
                    (Reads-last get_i16 _ f.format_code (Reads-get_i16 _ h.format_code))))))))

  pub row_description-RoundTrips :
      (m : RowDescription)
      → length m.fields < 2 ^ 15
      → All IsDescription m.fields
      → row_description_message.message_length m < 2 ^ 31
      → RoundTrips row_description_message m (vec_bytes description_bytes m.fields) 0
  unfolding row_description_message
  row_description-RoundTrips m few h fits =
      round_trips _ m _
        (Writes-write_vec put_field_description description_bytes m.fields
          Writes-put_field_description)
        (Reads-last _ _ m.fields (
          Reads-read_vec get_field_description description_bytes m.fields few
            (All-map m.fields Reads-get_field_description h)))
        (omega (
          arith,
          length-vec_bytes description_bytes m.fields,
          sum_map-eq _ _ m.fields length-description,
        ))
        fits

  pub parameter_description-RoundTrips :
      (m : ParameterDescription)
      → length m.types < 2 ^ 15
      → All (λ t. t < 2 ^ 32) m.types
      → RoundTrips parameter_description_message m (vec_bytes be32 m.types) 0
  unfolding parameter_description_message
  parameter_description-RoundTrips m few h =
      round_trips _ m _ (Writes-write_vec put_i32 be32 m.types Writes-put_i32)
        (Reads-last _ _ m.types
          (Reads-read_vec get_i32 be32 m.types few (All-map m.types Reads-get_i32 h)))
        (omega (
          arith,
          length-vec_bytes be32 m.types,
          sum_map-const (λ t. length (be32 t)) 4 m.types (λ t. omega arith),
        ))
        (omega arith)

  pub data_row-RoundTrips :
      (m : DataRow)
      → length m.fields < 2 ^ 15
      → All IsValue m.fields
      → data_row_message.message_length m < 2 ^ 31
      → RoundTrips data_row_message m (vec_bytes value_bytes m.fields) 0
  unfolding data_row_message
  data_row-RoundTrips m few h fits =
      round_trips _ m _ (Writes-write_vec put_value value_bytes m.fields Writes-put_value)
        (Reads-last _ _ m.fields
          (Reads-read_vec get_value value_bytes m.fields few (All-map m.fields Reads-get_value h)))
        (omega
          (arith, length-vec_bytes value_bytes m.fields, sum_map-eq _ _ m.fields length-data_field))
        fits
