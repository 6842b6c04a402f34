-- ===== src/Api/Portals.antt =====
-- api/portal.rs
pub mod Parameters
use pgwire.Base.{
  ℕ, zero, suc, Bool, true, false, Option, none, some, List, [], ◌∷◌, Bytes, length, ◌==◌,
  if◌then◌else◌,
}
use pgwire.Errors.{
  PgWireError, parameter_index_out_of_bound, parameter_type_index_out_of_bound,
  invalid_rust_type_for_parameter, failed_to_parse_parameter,
}
use pgwire.Messages.Data.{format_code_binary}
use pgwire.Messages.ExtendedQuery.{Bind}
use pgwire.Api.Client.{or_default}
use pgwire.Api.Results.{FieldFormat, text, binary, format_from}
use pgwire.Api.Statements.{PgWireResult, ok, err, PostgresTypes, StoredStatement}

pub data Format : Type 0 where
  unified_text : Format
  unified_binary : Format
  individual : List ℕ → Format

-- `Format::from`
unfoldable pub from_i16 : ℕ → Format
from_i16 v = if v == format_code_binary then unified_binary else unified_text

unfoldable pub from_codes : List ℕ → Format
unfolding from_i16
from_codes [] = unified_text
from_codes (c ∷ []) = from_i16 c
from_codes (c ∷ d ∷ codes) = individual (c ∷ d ∷ codes)

-- `xs.get(idx)`
unfoldable pub get_elem? : {A : Type 0} → List A → ℕ → Option A
get_elem? [] n = none
get_elem? (x ∷ xs) zero = some x
get_elem? (x ∷ xs) (suc n) = get_elem? xs n

-- `none` is a panic: `fv[idx]` out of range.
unfoldable pub format_for : Format → ℕ → Option FieldFormat
format_for unified_text idx = some text
format_for unified_binary idx = some binary
format_for (individual fv) idx = elim (get_elem? fv idx) [
  | none ↦ none
  | some c ↦ some (format_from c)
]

-- `is_text` and `is_binary`
unfoldable pub is_text : Format → ℕ → Option Bool
is_text f idx = elim (format_for f idx) [
  | none ↦ none
  | some text ↦ some true
  | some binary ↦ some false
]

unfoldable pub is_binary : Format → ℕ → Option Bool
is_binary f idx = elim (format_for f idx) [
  | none ↦ none
  | some text ↦ some false
  | some binary ↦ some true
]

module _ ⦃p : PostgresTypes⦄ where
  pub record Portal (S : Type 0) : Type 0 where
    pub name : Bytes
    pub statement : StoredStatement S
    pub parameter_format : Format
    pub parameters : List (Option Bytes)
    pub result_column_format : Format

  -- The value that `try_new` builds.
  unfoldable pub portal_of : {S : Type 0} → Bind → StoredStatement S → Portal S
  portal_of bind statement = record {
    name = or_default bind.portal_name;
    statement = statement;
    parameter_format = from_codes bind.parameter_format_codes;
    parameters = bind.parameters;
    result_column_format = from_codes bind.result_column_format_codes;
  }

  unfoldable pub try_new : {S : Type 0} → Bind → StoredStatement S → PgWireResult (Portal S)
  unfolding portal_of
  try_new bind statement = ok (portal_of bind statement)

  unfoldable pub parameter_len : {S : Type 0} → Portal S → ℕ
  parameter_len portal = length portal.parameters

  -- A Rust type that a parameter can be read as: the trait `FromSqlOwned`. A failure of `from_sql`
  -- is the text of its error.
  pub record FromSql (T : Type 0) : Type 0 where
    pub accepts : p.PgType → Bool
    pub from_sql : p.PgType → Bytes → Option T
    pub failure : p.PgType → Bytes → Bytes

  module _ {T : Type 0} (f : FromSql T) where
    -- `T::from_sql(ty, param).map(|v| Some(v)).map_err(…)`
    unfoldable pub read_value : p.PgType → Option Bytes → PgWireResult (Option T)
    read_value ty none = ok none
    read_value ty (some bytes) = elim (f.from_sql ty bytes) [
      | none ↦ err (failed_to_parse_parameter (f.failure ty bytes))
      | some v ↦ ok (some v)
    ]

    -- The tests after the parameter and its format are found.
    unfoldable pub read_typed : Option p.PgType → ℕ → Option Bytes → PgWireResult (Option T)
    unfolding read_value
    read_typed none idx param = err (parameter_type_index_out_of_bound idx)
    read_typed (some ty) idx param =
        if f.accepts ty
        then read_value ty param
        else err (invalid_rust_type_for_parameter (p.name ty))

    -- `none` is a panic.
    unfoldable pub parameter : {S : Type 0} → Portal S → ℕ → Option (PgWireResult (Option T))
    unfolding read_typed
    parameter portal idx = elim (get_elem? portal.parameters idx) [
      | none ↦ some (err (parameter_index_out_of_bound idx))
      | some param ↦ elim (format_for portal.parameter_format idx) [
        | none ↦ none
        | some _ ↦ some (read_typed (get_elem? portal.statement.parameter_types idx) idx param)
      ]
    ]
