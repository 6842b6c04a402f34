-- ===== src/Api/Results.antt =====
-- api/results.rs: what a query answers with.
use pgwire.Base.{ℕ, ◌==◌, if◌then◌else◌, Option, none, some, List, [], ◌∷◌, ◌++◌, Bytes, map}
use pgwire.Errors.{ErrorInfo, usize_to_string}
use pgwire.Messages.Response.{CommandComplete}
use pgwire.Messages.Data.{
  DataRow, FieldDescription, RowDescription, format_code_text, format_code_binary,
}
use pgwire.Api.Statements.{PgWireResult, PostgresTypes}

pub record Tag : Type 0 where
  pub command : Bytes
  pub rows : Option ℕ

unfoldable pub new_for_query : ℕ → Tag
new_for_query rows = record {
  command = b'S' ∷ b'E' ∷ b'L' ∷ b'E' ∷ b'C' ∷ b'T' ∷ [];
  rows = some rows;
}

unfoldable pub new_for_execution : Bytes → Option ℕ → Tag
new_for_execution command rows = record { command = command; rows = rows }

-- `format!("{} {rows}", tag.command)`, or the command alone
unfoldable pub tag_string : Bytes → Option ℕ → Bytes
tag_string command none = command
tag_string command (some rows) = command ++ b' ' ∷ usize_to_string rows

-- `CommandComplete::from`
unfoldable pub from_tag : Tag → CommandComplete
unfolding tag_string
from_tag t = record { tag = tag_string t.command t.rows }

pub data FieldFormat : Type 0 where
  text : FieldFormat
  binary : FieldFormat

unfoldable pub format_value : FieldFormat → ℕ
format_value text = format_code_text
format_value binary = format_code_binary

unfoldable pub format_from : ℕ → FieldFormat
format_from code = if code == format_code_binary then binary else text

unfoldable pub or_zero : Option ℕ → ℕ
or_zero none = 0
or_zero (some n) = n

module _ ⦃p : PostgresTypes⦄ where
  pub record FieldInfo : Type 0 where
    pub name : Bytes
    pub table_id : Option ℕ
    pub column_id : Option ℕ
    pub datatype : p.PgType
    pub format : FieldFormat

  -- `FieldDescription::from`
  unfoldable pub from_field_info : FieldInfo → FieldDescription
  from_field_info fi = record {
    name = fi.name;
    table_id = or_zero fi.table_id;
    column_id = or_zero fi.column_id;
    type_id = p.oid fi.datatype;
    type_size = 0;
    type_modifier = 0;
    format_code = format_value fi.format;
  }

  unfoldable pub into_row_description : List FieldInfo → RowDescription
  unfolding from_field_info
  into_row_description fields = record { fields = map from_field_info fields }

  -- The rows are a stream, here the items that it gives until it ends.
  pub record QueryResponse : Type 0 where
    pub row_schema : List FieldInfo
    pub data_rows : List (PgWireResult DataRow)

  pub record DescribeResponse : Type 0 where
    pub parameters : Option (List p.PgType)
    pub fields : List FieldInfo

  pub data Response : Type 0 where
    query : QueryResponse → Response
    execution : Tag → Response
    error : ErrorInfo → Response
