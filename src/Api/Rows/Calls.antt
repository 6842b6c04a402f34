-- ===== src/Api/Rows/Calls.antt =====
-- An encoder over any sequence of calls, those that fail included.
use pgwire.Base.{
  ℕ, zero, suc, ◌≡◌, ◌≢◌, ◌↔◌, ◌≤◌, ◌<◌, refl, ap, subst, inl, inr, Option, Option-cases, none,
  some, List, [], ◌∷◌, ◌++◌, Bytes, length, length-append, arith,
}
use pgwire.Errors.{PgWireError, api_error}
use pgwire.Buffers.{BytesCrate}
use pgwire.Types.{null_yes, null_no, Written, written, refused}
use pgwire.Api.Step.{Outcome, done, failed, panicked, Step}
use pgwire.Api.Statements.{PostgresTypes}
use pgwire.Api.Results.{FieldFormat, FieldInfo}
use pgwire.Api.Portals.{get_elem?}
use pgwire.Api.Rows.{
  DataRowEncoder, new_encoder, FieldValue, write_value, push_written, encode_field,
  encode_field_with_type_and_format,
}
use pgwire.Api.Rows.Encoded.{with_field, push_written-value, push_written-null}

get_elem?-none : {A : Type 0} (xs : List A) (n : ℕ) → get_elem? xs n ≡ none → length xs ≤ n
unfolding get_elem?
get_elem?-none [] n h = omega arith
get_elem?-none (x ∷ xs) zero h = cc h
get_elem?-none (x ∷ xs) (suc n) h = omega (arith, get_elem?-none xs n h)

get_elem?-some :
    {A : Type 0} (xs : List A) (n : ℕ) (a : A) → get_elem? xs n ≡ some a → n < length xs
unfolding get_elem?
get_elem?-some [] n a h = cc h
get_elem?-some (x ∷ xs) zero a h = omega arith
get_elem?-some (x ∷ xs) (suc n) a h = omega (arith, get_elem?-some xs n a h)

module _ ⦃p : PostgresTypes⦄ where
  pub data Call : Type 0 where
    field : FieldValue → Call
    field_as : FieldValue → p.PgType → FieldFormat → Call

module _ ⦃p : PostgresTypes⦄ ⦃c : BytesCrate⦄ where
  abbrev pub call : Call → Step DataRowEncoder (Unit {0})
  call (field v) = encode_field v
  call (field_as v data_type format) = encode_field_with_type_and_format v data_type format

  -- The encoders that calls lead to, whether they succeed or fail.
  pub data Reach (schema : List FieldInfo) : DataRowEncoder → Type 0 where
    start : Reach schema (new_encoder schema)
    succeeds :
        {e e' : DataRowEncoder} (m : Call)
        → Reach schema e
        → call m e ≡ done tt e'
        → Reach schema e'
    fails :
        {e e' : DataRowEncoder} (m : Call) (x : PgWireError)
        → Reach schema e
        → call m e ≡ failed x e'
        → Reach schema e'

  -- Between two calls.
  pub record IsValid (schema : List FieldInfo) (e : DataRowEncoder) : Type 0 where
    pub same_schema : e.schema ≡ schema
    pub one_field_each : length e.buffer.fields ≡ e.col_index

  -- What an outcome leaves.
  abbrev Leaves : List FieldInfo → Outcome DataRowEncoder (Unit {0}) → Type 0
  Leaves schema (done _ e) = IsValid schema e
  Leaves schema (failed _ e) = IsValid schema e
  Leaves schema panicked = Unit

  with_field-IsValid :
      (schema : List FieldInfo) (e : DataRowEncoder) (f : Option Bytes)
      → IsValid schema e
      → IsValid schema (with_field e f)
  with_field-IsValid schema e f v = record {
    same_schema = v.same_schema;
    one_field_each = omega (arith, length-append e.buffer.fields (f ∷ []), v.one_field_each);
  }

  push_written-Leaves :
      (schema : List FieldInfo) (w : Written) (e : DataRowEncoder)
      → IsValid schema e
      → Leaves schema (push_written w e)
  push_written-Leaves schema (refused x b) e v =
      unfold push_written in
      record { same_schema = v.same_schema; one_field_each = v.one_field_each }
  push_written-Leaves schema (written null_no b) e v =
      rw (push_written-value b e) (with_field-IsValid schema e (some b) v)
  push_written-Leaves schema (written null_yes b) e v =
      rw (push_written-null b e) (with_field-IsValid schema e none v)

  call-Leaves :
      (schema : List FieldInfo) (m : Call) (e : DataRowEncoder)
      → IsValid schema e
      → Leaves schema (call m e)
  call-Leaves schema (field v) e h =
      unfold encode_field in
      elim (Option-cases (get_elem? e.schema e.col_index)) [
        | inl gone ↦ rw (gone, encode_field) tt
        | inr (info, here) ↦ rw (here, encode_field) (push_written-Leaves schema _ e h)
      ]
  call-Leaves schema (field_as v data_type format) e h =
      unfold encode_field_with_type_and_format in push_written-Leaves schema _ e h

  -- After any calls of the two encoding methods, those that fail included, an encoder has the
  -- schema it was made with and as many fields as its column index says.
  pub Reach-IsValid :
      {schema : List FieldInfo} {e : DataRowEncoder} → Reach schema e → IsValid schema e
  Reach-IsValid start = unfold new_encoder in record { same_schema = refl; one_field_each = refl }
  Reach-IsValid {schema} (succeeds {e = e} m r runs) =
      let before = Reach-IsValid r in subst (Leaves schema) runs (call-Leaves schema m e before)
  Reach-IsValid {schema} (fails {e = e} m x r runs) =
      let before = Reach-IsValid r in subst (Leaves schema) runs (call-Leaves schema m e before)

  push_written-ne-panicked : (w : Written) (e : DataRowEncoder) → push_written w e ≢ panicked
  unfolding push_written
  push_written-ne-panicked (refused x b) e h = cc h
  push_written-ne-panicked (written null_no b) e h = cc h
  push_written-ne-panicked (written null_yes b) e h = cc h

  -- After any calls of the two encoding methods, encoding a field panics exactly if there are at
  -- least as many fields as columns.
  pub encode_field-panics :
      (schema : List FieldInfo) (e : DataRowEncoder) (v : FieldValue)
      → Reach schema e
      → (encode_field v e ≡ panicked) ↔ (length schema ≤ length e.buffer.fields)
  unfolding encode_field
  encode_field-panics schema e v r =
      let same = (Reach-IsValid r).same_schema in
      let counted = (Reach-IsValid r).one_field_each in
      elim (Option-cases (get_elem? e.schema e.col_index)) [
        | inl gone ↦ (
          λ _. omega (arith, get_elem?-none e.schema e.col_index gone, ap length same),
          λ _. rw (gone, encode_field) refl,
        )
        | inr (info, here) ↦ (
          λ h. absurd (push_written-ne-panicked _ e (rw (here, encode_field) at h)),
          λ h.
              absurd (omega (arith, get_elem?-some e.schema e.col_index info here, ap length same)),
        )
      ]

  -- Where a value fails, encoding it is an ApiError that leaves what the value has written in the
  -- field buffer, and a next value that appends to the buffer is encoded with that in front.
  pub encode_field-dirty :
      (e : DataRowEncoder) (info : FieldInfo) (v w : FieldValue) (x b t : Bytes)
      → get_elem? e.schema e.col_index ≡ some info
      → write_value v info.datatype info.format e.field_buffer ≡ refused x b
      → write_value w info.datatype info.format b ≡ written null_no (b ++ t)
      → (encode_field v e ≡ failed (api_error x) (record e { field_buffer = b }))
        × (encode_field w (record e { field_buffer = b }) ≡ done tt (with_field e (some (b ++ t))))
  unfolding encode_field
  encode_field-dirty e info v w x b t here fails_ writes = (
    rw (here, encode_field) (rw (fails_) (unfold push_written in refl)),
    rw (here, encode_field)
        (rw (writes) (push_written-value (b ++ t) (record e { field_buffer = b }))),
  )
