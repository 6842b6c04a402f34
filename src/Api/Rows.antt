-- ===== src/Api/Rows.antt =====
-- api/results.rs: `DataRowEncoder`.
pub mod Renders
pub mod Encoded
pub mod Calls
use pgwire.Base.{ℕ, zero, suc, Option, none, some, List, [], ◌∷◌, ◌++◌, Bytes}
use pgwire.Errors.{api_error}
use pgwire.Buffers.{BytesCrate}
use pgwire.Messages.Data.{DataRow}
use pgwire.Types.{IsNull, null_yes, null_no, Written, written, refused, ToSqlText}
use pgwire.Api.Step.{done, failed, panicked, Step}
use pgwire.Api.Statements.{PgWireResult, ok, PostgresTypes}
use pgwire.Api.Results.{FieldFormat, text, binary, FieldInfo}
use pgwire.Api.Portals.{get_elem?}

module _ ⦃p : PostgresTypes⦄ where
  pub record DataRowEncoder : Type 0 where
    pub buffer : DataRow
    pub field_buffer : Bytes
    pub schema : List FieldInfo
    pub col_index : ℕ

  -- `DataRowEncoder::new`
  unfoldable pub new_encoder : List FieldInfo → DataRowEncoder
  new_encoder fields = record {
    buffer = record { fields = [] };
    field_buffer = [];
    schema = fields;
    col_index = 0;
  }

  -- A value of a type with `ToSqlText`, and with `ToSql` of the crate `postgres_types`: what its two
  -- methods do.
  pub record FieldValue : Type 0 where
    pub to_sql_text : p.PgType → Bytes → Written
    pub to_sql : p.PgType → Bytes → Written

  unfoldable pub field_value :
      {T : Type 0} → ToSqlText T → (T → p.PgType → Bytes → Written) → T → FieldValue
  field_value t to_sql value = record { to_sql_text = t.to_sql_text value; to_sql = to_sql value }

  unfoldable pub write_value : FieldValue → p.PgType → FieldFormat → Bytes → Written
  write_value value data_type text = value.to_sql_text data_type
  write_value value data_type binary = value.to_sql data_type

  unfoldable pub push_field : DataRowEncoder → Option Bytes → DataRow
  push_field e field = record { fields = e.buffer.fields ++ field ∷ [] }

  module _ ⦃c : BytesCrate⦄ where
    -- What the two methods do with the outcome of the value's: an error leaves the method at once.
    unfoldable pub push_written : Written → Step DataRowEncoder (Unit {0})
    unfolding push_field
    push_written (refused error b) e = failed (api_error error) (record e { field_buffer = b })
    push_written (written null_no b) e =
        let (buf, rest) = c.split b in
        done tt (record e {
          buffer = push_field e (some buf);
          field_buffer = c.clear rest;
          col_index = suc e.col_index;
        })
    push_written (written null_yes b) e = done tt (record e {
      buffer = push_field e none;
      field_buffer = c.clear b;
      col_index = suc e.col_index;
    })

    unfoldable pub encode_field_with_type_and_format :
        FieldValue → p.PgType → FieldFormat → Step DataRowEncoder (Unit {0})
    unfolding push_written write_value
    encode_field_with_type_and_format value data_type format e =
        push_written (write_value value data_type format e.field_buffer) e

    -- `self.schema[self.col_index]` panics out of range.
    unfoldable pub encode_field : FieldValue → Step DataRowEncoder (Unit {0})
    unfolding push_written write_value
    encode_field value e = elim (get_elem? e.schema e.col_index) [
      | none ↦ panicked
      | some info ↦ push_written (write_value value info.datatype info.format e.field_buffer) e
    ]

  unfoldable pub finish : DataRowEncoder → PgWireResult DataRow
  finish e = ok e.buffer
