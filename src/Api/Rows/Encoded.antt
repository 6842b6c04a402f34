-- ===== src/Api/Rows/Encoded.antt =====
-- The row that an encoder makes, against a description by columns.
use pgwire.Base.{
  ℕ, zero, suc, ◌≡◌, refl, sym, ap, subst, ◌∙◌, ◌↔◌, ◌⊎◌, inl, inr, Option, none, some, List, [],
  ◌∷◌, ◌++◌, append-nil, append_assoc, Bytes, drop,
}
use pgwire.Buffers.{BytesCrate}
use pgwire.Messages.Data.{DataRow}
use pgwire.Types.{null_yes, null_no, Written, written, refused}
use pgwire.Api.Step.{done, ◌>>◌, pure, for_each, bind-done}
use pgwire.Api.Statements.{ok, PostgresTypes}
use pgwire.Api.Results.{FieldInfo}
use pgwire.Api.Portals.{get_elem?}
use pgwire.Api.Auth.Finish.{bind-inv}
use pgwire.Api.Rows.Renders.{Renders, Renders-write_value, write_value-Renders}
use pgwire.Api.Rows.{
  DataRowEncoder, new_encoder, FieldValue, write_value, push_written, encode_field, finish,
}

module _ ⦃p : PostgresTypes⦄ where
  -- The fields of a row: each column's value, written into an empty buffer in the format of the
  -- column, or none for NULL.
  pub data EncodesTo : List FieldInfo → List FieldValue → List (Option Bytes) → Type 0 where
    all_done : {infos : List FieldInfo} → EncodesTo infos [] []
    null_field :
        {info : FieldInfo} {infos : List FieldInfo} {v : FieldValue} {vs : List FieldValue}
        {fs : List (Option Bytes)} {b : Bytes}
        → Renders v info (written null_yes b)
        → EncodesTo infos vs fs
        → EncodesTo (info ∷ infos) (v ∷ vs) (none ∷ fs)
    value_field :
        {info : FieldInfo} {infos : List FieldInfo} {v : FieldValue} {vs : List FieldValue}
        {fs : List (Option Bytes)} {b : Bytes}
        → Renders v info (written null_no b)
        → EncodesTo infos vs fs
        → EncodesTo (info ∷ infos) (v ∷ vs) (some b ∷ fs)

  -- An encoder between two columns, with `infos` for the columns to come.
  record Between (e : DataRowEncoder) (infos : List FieldInfo) : Type 0 where
    clean : e.field_buffer ≡ []
    left : drop e.col_index e.schema ≡ infos

drop-get :
    {A : Type 0} (xs : List A) (n : ℕ) (x : A) (ys : List A)
    → drop n xs ≡ x ∷ ys
    → (get_elem? xs n ≡ some x) × (drop (suc n) xs ≡ ys)
unfolding get_elem?
drop-get [] zero x ys h = cc h
drop-get [] (suc n) x ys h = cc h
drop-get (z ∷ xs) zero x ys h = (cc h, cc h)
drop-get (z ∷ xs) (suc n) x ys h = drop-get xs n x ys h

drop-none : {A : Type 0} (xs : List A) (n : ℕ) → drop n xs ≡ [] → get_elem? xs n ≡ none
unfolding get_elem?
drop-none [] zero h = refl
drop-none [] (suc n) h = refl
drop-none (z ∷ xs) zero h = cc h
drop-none (z ∷ xs) (suc n) h = drop-none xs n h

module _ ⦃p : PostgresTypes⦄ ⦃c : BytesCrate⦄ where
  -- The encoder after one more field.
  abbrev pub with_field : DataRowEncoder → Option Bytes → DataRowEncoder
  with_field e field = record e {
    buffer = record { fields = e.buffer.fields ++ field ∷ [] };
    field_buffer = [];
    col_index = suc e.col_index;
  }

  pub push_written-value :
      (b : Bytes) (e : DataRowEncoder)
      → push_written (written null_no b) e ≡ done tt (with_field e (some b))
  unfolding push_written
  push_written-value b e = rw (c.split_eq b) (rw (c.clear_eq []) refl)

  pub push_written-null :
      (b : Bytes) (e : DataRowEncoder)
      → push_written (written null_yes b) e ≡ done tt (with_field e none)
  unfolding push_written
  push_written-null b e = rw (c.clear_eq b) refl

  encode_field-column :
      (v : FieldValue) (e : DataRowEncoder) (info : FieldInfo) (infos : List FieldInfo)
      → Between e (info ∷ infos)
      → encode_field v e ≡ push_written (write_value v info.datatype info.format []) e
  unfolding encode_field
  encode_field-column v e info infos h =
      rw ((drop-get e.schema e.col_index info infos h.left).0, encode_field) (rw (h.clean) refl)

  next :
      (e : DataRowEncoder) (info : FieldInfo) (infos : List FieldInfo) (f : Option Bytes)
      → Between e (info ∷ infos)
      → Between (with_field e f) infos
  next e info infos f h = record {
    clean = refl;
    left = (drop-get e.schema e.col_index info infos h.left).1;
  }

  -- The fields are appended.
  encodes :
      {infos : List FieldInfo} {vs : List FieldValue} {fs : List (Option Bytes)}
      → EncodesTo infos vs fs
      → (e : DataRowEncoder) → Between e infos
      → (e' : DataRowEncoder) × (for_each encode_field vs e ≡ done tt e')
        × (e'.buffer.fields ≡ e.buffer.fields ++ fs)
  unfolding for_each pure ◌>>◌
  encodes all_done e h = (e, refl, sym (append-nil e.buffer.fields))
  encodes {fs = _ ∷ fs} (null_field {info = info} {infos = infos} {v = v} {vs = vs} {b = b} w more)
        e h =
      let (e', runs, same) = encodes more (with_field e none) (next e info infos none h) in
      (
        e',
        bind-done (encode_field v) _ e tt (with_field e none) (
              encode_field-column v e info infos h
              ∙ rw (Renders-write_value v info _ w) (push_written-null b e))
            ∙ runs,
        same ∙ append_assoc e.buffer.fields (none ∷ []) fs,
      )
  encodes {fs = _ ∷ fs} (value_field {info = info} {infos = infos} {v = v} {vs = vs} {b = b} w more)
        e h =
      let (e', runs, same) = encodes more (with_field e (some b)) (next e info infos (some b) h) in
      (
        e',
        bind-done (encode_field v) _ e tt (with_field e (some b)) (
              encode_field-column v e info infos h
              ∙ rw (Renders-write_value v info _ w) (push_written-value b e))
            ∙ runs,
        same ∙ append_assoc e.buffer.fields (some b ∷ []) fs,
      )

  -- A column whose value was written.
  column-inv :
      (w : Written) (e e' : DataRowEncoder)
      → push_written w e ≡ done tt e'
      → ((b : Bytes) × (w ≡ written null_no b) × (e' ≡ with_field e (some b)))
        ⊎ ((b : Bytes) × (w ≡ written null_yes b) × (e' ≡ with_field e none))
  column-inv (written null_no b) e e' h = inl (b, refl, cc (sym (push_written-value b e) ∙ h))
  column-inv (written null_yes b) e e' h = inr (b, refl, cc (sym (push_written-null b e) ∙ h))
  column-inv (refused x b) e e' h = unfold push_written in cc h

  no_column :
      (v : FieldValue) (e e' : DataRowEncoder) → Between e [] → encode_field v e ≡ done tt e' → ⊥
  unfolding encode_field
  no_column v e e' h runs = cc (rw (drop-none e.schema e.col_index h.left, encode_field) at runs)

  encoded :
      (infos : List FieldInfo) (vs : List FieldValue) (e e' : DataRowEncoder)
      → Between e infos
      → for_each encode_field vs e ≡ done tt e'
      → (fs : List (Option Bytes)) × EncodesTo infos vs fs
        × (e'.buffer.fields ≡ e.buffer.fields ++ fs)
  unfolding for_each pure ◌>>◌
  encoded infos [] e e' h runs =
      let same : e ≡ e' = cc runs in
      (
        [],
        all_done,
        ap (λ (d : DataRowEncoder). d.buffer.fields) (sym same) ∙ sym (append-nil e.buffer.fields),
      )
  encoded [] (v ∷ vs) e e' h runs =
      let (_, e1, first, _) = bind-inv (encode_field v) _ e tt e' runs in
      absurd (no_column v e e1 h first)
  encoded (info ∷ infos) (v ∷ vs) e e' h runs =
      let (_, e1, first, later) = bind-inv (encode_field v) _ e tt e' runs in
      let rest = encoded infos vs e1 e' in
      elim (column-inv (write_value v info.datatype info.format []) e e1
        (sym (encode_field-column v e info infos h) ∙ first)) [
          | inl (b, w, same) ↦
              let (fs, more, fields) =
                rest (subst (λ d. Between d infos) (sym same) (next e info infos (some b) h))
                  later in
              (
                some b ∷ fs,
                value_field (write_value-Renders v info _ w) more,
                fields
                    ∙ ap (λ (d : DataRowEncoder). d.buffer.fields ++ fs) same
                    ∙ append_assoc e.buffer.fields (some b ∷ []) fs,
              )
          | inr (b, w, same) ↦
              let (fs, more, fields) =
                rest (subst (λ d. Between d infos) (sym same) (next e info infos none h)) later in
              (
                none ∷ fs,
                null_field (write_value-Renders v info _ w) more,
                fields
                    ∙ ap (λ (d : DataRowEncoder). d.buffer.fields ++ fs) same
                    ∙ append_assoc e.buffer.fields (none ∷ []) fs,
              )
        ]

  new-Between : (infos : List FieldInfo) → Between (new_encoder infos) infos
  unfolding new_encoder
  new-Between infos = record { clean = refl; left = refl }

  -- A new encoder takes the values one after the other, and finishes with the row.
  abbrev pub Makes : List FieldInfo → List FieldValue → List (Option Bytes) → Type 0
  Makes infos vs fs =
      (e : DataRowEncoder) × (for_each encode_field vs (new_encoder infos) ≡ done tt e)
      × (finish e ≡ ok (record { fields = fs }))

  made :
      (infos : List FieldInfo) (vs : List FieldValue) (fs : List (Option Bytes))
      → Makes infos vs fs
      → EncodesTo infos vs fs
  unfolding finish new_encoder
  made infos vs fs (e, runs, ends) =
      let (gs, more, same) = encoded infos vs (new_encoder infos) e (new-Between infos) runs in
      let row : e.buffer ≡ record { fields = fs } = cc ends in
      subst (λ xs. EncodesTo infos vs xs) (sym same ∙ ap (λ (r : DataRow). r.fields) row) more

  makes :
      (infos : List FieldInfo) (vs : List FieldValue) (fs : List (Option Bytes))
      → EncodesTo infos vs fs
      → Makes infos vs fs
  unfolding finish new_encoder
  makes infos vs fs more =
      let (e, runs, same) = encodes more (new_encoder infos) (new-Between infos) in
      (e, runs, ap (λ (xs : List (Option Bytes)). ok (record { fields = xs })) same)

  -- A new encoder takes values one after the other and finishes with a row exactly if each field
  -- of the row is what the value of its column writes into an empty buffer in the type of the
  -- column, its text for a text column and its binary form for a binary one, or nothing where the
  -- value is NULL, and there are columns enough.
  pub encode_field-exact :
      (infos : List FieldInfo) (vs : List FieldValue) (fs : List (Option Bytes))
      → Makes infos vs fs ↔ EncodesTo infos vs fs
  encode_field-exact infos vs fs = (made infos vs fs, makes infos vs fs)
