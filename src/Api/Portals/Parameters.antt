-- ===== src/Api/Portals/Parameters.antt =====
-- When a parameter of a bound portal can be read.
use pgwire.Base.{
  ℕ, zero, suc, ◌≤◌, ◌<◌, ◌≡◌, ◌⊎◌, inl, inr, refl, ap, true, false, ◌++◌, Bytes, Option, none,
  some, List, [], ◌∷◌, length, arith, ◌==◌, Bool-cases, Option-cases,
}
use pgwire.Errors.{
  parameter_index_out_of_bound, parameter_type_index_out_of_bound, invalid_rust_type_for_parameter,
  failed_to_parse_parameter,
}
use pgwire.Messages.Data.{format_code_binary}
use pgwire.Messages.ExtendedQuery.{Bind}
use pgwire.Api.Results.{FieldFormat, text, binary, format_from}
use pgwire.Api.Statements.{PgWireResult, ok, err, PostgresTypes, StoredStatement}
use pgwire.Api.Portals.{
  from_i16, from_codes, get_elem?, format_for, portal_of, FromSql, read_value, read_typed,
  parameter,
}

get_elem?-beyond : {A : Type 0} (xs : List A) (n : ℕ) → length xs ≤ n → get_elem? xs n ≡ none
unfolding get_elem?
get_elem?-beyond [] n h = refl
get_elem?-beyond (x ∷ xs) zero h = absurd (omega arith)
get_elem?-beyond (x ∷ xs) (suc n) h = get_elem?-beyond xs n (omega arith)

get_elem?-within :
    {A : Type 0} (xs : List A) (n : ℕ) → n < length xs → (x : A) × (get_elem? xs n ≡ some x)
unfolding get_elem?
get_elem?-within [] n h = absurd (omega arith)
get_elem?-within (x ∷ xs) zero h = (x, refl)
get_elem?-within (x ∷ xs) (suc n) h = get_elem?-within xs n (omega arith)

format_for-from_i16 : (c idx : ℕ) → (t : FieldFormat) × (format_for (from_i16 c) idx ≡ some t)
unfolding from_i16 format_for
format_for-from_i16 c idx = elim (Bool-cases (c == format_code_binary)) [
  | inl same ↦ (binary, rw (same, from_i16))
  | inr other ↦ (text, rw (other, from_i16))
]

-- A format is found where there is at most one code, or a code for the index.
format_for-from_codes :
    (codes : List ℕ) (idx : ℕ)
    → (length codes ≤ 1) ⊎ (idx < length codes)
    → (t : FieldFormat) × (format_for (from_codes codes) idx ≡ some t)
unfolding from_codes format_for
format_for-from_codes [] idx h = (text, refl)
format_for-from_codes (c ∷ []) idx h = format_for-from_i16 c idx
format_for-from_codes (c ∷ d ∷ codes) idx (inl h) = absurd (omega arith)
format_for-from_codes (c ∷ d ∷ codes) idx (inr h) =
    let (x, found) = get_elem?-within (c ∷ d ∷ codes) idx h in
    (format_from x, rw (found, format_for))

format_for-missing :
    (codes : List ℕ) (idx : ℕ)
    → 2 ≤ length codes
    → length codes ≤ idx
    → format_for (from_codes codes) idx ≡ none
unfolding from_codes format_for
format_for-missing [] idx h k = absurd (omega arith)
format_for-missing (c ∷ []) idx h k = absurd (omega arith)
format_for-missing (c ∷ d ∷ codes) idx h k = rw (get_elem?-beyond (c ∷ d ∷ codes) idx k, format_for)

-- The element that has `n` others before it.
abbrev pub Stands : {A : Type 0} → A → List A → ℕ → Type 0
Stands {A = A} x xs n =
    (before : List A) × (after : List A) × (xs ≡ before ++ x ∷ after) × (length before ≡ n)

Stands-cons :
    {A : Type 0} (y x : A) (xs : List A) (n : ℕ) → Stands x xs n → Stands x (y ∷ xs) (suc n)
Stands-cons y x xs n (before, after, same, long) =
    (y ∷ before, after, ap (λ zs. y ∷ zs) same, ap suc long)

get_elem?-cases :
    {A : Type 0} (xs : List A) (n : ℕ)
    → ((get_elem? xs n ≡ none) × (length xs ≤ n))
      ⊎ ((x : A) × (get_elem? xs n ≡ some x) × Stands x xs n)
unfolding get_elem?
get_elem?-cases [] n = inl (refl, omega arith)
get_elem?-cases (x ∷ xs) zero = inr (x, refl, ([], xs, refl, refl))
get_elem?-cases (x ∷ xs) (suc n) = elim (get_elem?-cases xs n) [
  | inl (gone, few) ↦ inl (gone, omega arith)
  | inr (y, here, at_n) ↦ inr (y, here, Stands-cons x y xs n at_n)
]

module _ ⦃p : PostgresTypes⦄ {S T : Type 0} (f : FromSql T) (bind : Bind) (stmt : StoredStatement S)
    (idx : ℕ) where
  -- What reading a parameter of a bound statement gives.
  pub data Parameter : PgWireResult (Option T) → Type 0 where
    unbound : length bind.parameters ≤ idx → Parameter (err (parameter_index_out_of_bound idx))
    untyped :
        {value : Option Bytes}
        → Stands value bind.parameters idx
        → length stmt.parameter_types ≤ idx
        → Parameter (err (parameter_type_index_out_of_bound idx))
    unaccepted :
        {value : Option Bytes} {ty : p.PgType}
        → Stands value bind.parameters idx
        → Stands ty stmt.parameter_types idx
        → f.accepts ty ≡ false
        → Parameter (err (invalid_rust_type_for_parameter (p.name ty)))
    null :
        {ty : p.PgType}
        → Stands none bind.parameters idx
        → Stands ty stmt.parameter_types idx
        → f.accepts ty ≡ true
        → Parameter (ok none)
    unparsed :
        {b : Bytes} {ty : p.PgType}
        → Stands (some b) bind.parameters idx
        → Stands ty stmt.parameter_types idx
        → f.accepts ty ≡ true
        → f.from_sql ty b ≡ none
        → Parameter (err (failed_to_parse_parameter (f.failure ty b)))
    parsed :
        {b : Bytes} {ty : p.PgType} {v : T}
        → Stands (some b) bind.parameters idx
        → Stands ty stmt.parameter_types idx
        → f.accepts ty ≡ true
        → f.from_sql ty b ≡ some v
        → Parameter (ok (some v))

  value-Parameter :
      (value : Option Bytes) (ty : p.PgType)
      → Stands value bind.parameters idx
      → Stands ty stmt.parameter_types idx
      → f.accepts ty ≡ true
      → Parameter (read_value f ty value)
  unfolding read_value
  value-Parameter none ty at_value at_type fit = null at_value at_type fit
  value-Parameter (some b) ty at_value at_type fit = elim (Option-cases (f.from_sql ty b)) [
    | inl gone ↦ rw (gone, read_value) (unparsed at_value at_type fit gone)
    | inr (v, here) ↦ rw (here, read_value) (parsed at_value at_type fit here)
  ]

  typed-Parameter :
      (value : Option Bytes)
      → Stands value bind.parameters idx
      → Parameter (read_typed f (get_elem? stmt.parameter_types idx) idx value)
  unfolding read_typed
  typed-Parameter value at_value = elim (get_elem?-cases stmt.parameter_types idx) [
    | inl (gone, few) ↦ rw (gone, read_typed) (untyped at_value few)
    | inr (ty, here, at_type) ↦
        rw (here, read_typed)
          (elim (Bool-cases (f.accepts ty)) [
            | inl fit ↦ rw (fit) (value-Parameter value ty at_value at_type fit)
            | inr unfit ↦ rw (unfit) (unaccepted at_value at_type unfit)
          ])
  ]

  -- Reading a parameter of a portal that was bound with at most one parameter format, or with one
  -- for the index, does not panic. It gives an error where no value was bound at the index, no
  -- type stands there, the Rust type does not accept that type or the value does not parse as it,
  -- and otherwise nothing for NULL or the value as parsed.
  pub parameter-portal_of :
      (length bind.parameter_format_codes ≤ 1) ⊎ (idx < length bind.parameter_format_codes)
      → (r : PgWireResult (Option T)) × (parameter f (portal_of bind stmt) idx ≡ some r)
        × Parameter r
  unfolding parameter portal_of
  parameter-portal_of h =
      let (t, found) = format_for-from_codes bind.parameter_format_codes idx h in
      elim (get_elem?-cases bind.parameters idx) [
        | inl (gone, few) ↦
            (err (parameter_index_out_of_bound idx), rw (gone, parameter) refl, unbound few)
        | inr (value, here, at_value) ↦ (
          read_typed f (get_elem? stmt.parameter_types idx) idx value,
          rw (here, parameter) (rw (found, parameter) refl),
          typed-Parameter value at_value,
        )
      ]

  -- With two or more format codes but none for the index of a bound parameter, reading the
  -- parameter panics.
  pub parameter-panics :
      2 ≤ length bind.parameter_format_codes
      → length bind.parameter_format_codes ≤ idx
      → idx < length bind.parameters
      → parameter f (portal_of bind stmt) idx ≡ none
  unfolding parameter portal_of
  parameter-panics many few within =
      let (param, found) = get_elem?-within bind.parameters idx within in
      rw (found, parameter)
        (rw (format_for-missing bind.parameter_format_codes idx many few, parameter))
