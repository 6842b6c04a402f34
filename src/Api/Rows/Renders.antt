-- ===== src/Api/Rows/Renders.antt =====
-- api/results.rs: what a value writes for a column, by the format of the column.
use pgwire.Base.{◌≡◌, refl, ◌⊎◌, inl, inr, []}
use pgwire.Types.{Written}
use pgwire.Api.Statements.{PostgresTypes}
use pgwire.Api.Results.{FieldFormat, text, binary, FieldInfo}
use pgwire.Api.Rows.{FieldValue, write_value}

module _ ⦃p : PostgresTypes⦄ where
  -- What a value writes into an empty buffer for a column: its text in a text column, its binary
  -- form in a binary one.
  pub data Renders (v : FieldValue) (info : FieldInfo) (w : Written) : Type 0 where
    as_text : info.format ≡ text → v.to_sql_text info.datatype [] ≡ w → Renders v info w
    as_binary : info.format ≡ binary → v.to_sql info.datatype [] ≡ w → Renders v info w

  pub Renders-write_value :
      (v : FieldValue) (info : FieldInfo) (w : Written)
      → Renders v info w
      → write_value v info.datatype info.format [] ≡ w
  unfolding write_value
  Renders-write_value v info w (as_text format same) = rw (format, write_value) same
  Renders-write_value v info w (as_binary format same) = rw (format, write_value) same

  format-cases : (f : FieldFormat) → (f ≡ text) ⊎ (f ≡ binary)
  format-cases text = inl refl
  format-cases binary = inr refl

  pub write_value-Renders :
      (v : FieldValue) (info : FieldInfo) (w : Written)
      → write_value v info.datatype info.format [] ≡ w
      → Renders v info w
  unfolding write_value
  write_value-Renders v info w same = elim (format-cases info.format) [
    | inl format ↦ as_text format (rw (format, write_value) at same)
    | inr format ↦ as_binary format (rw (format, write_value) at same)
  ]
