-- ===== src/Api/Auth/Scram/Parts.antt =====
-- api/auth/scram.rs: `splitn` and `strip_prefix` of the Rust library.
use pgwire.Base.{
  ℕ, zero, suc, ◌≡◌, refl, sym, ap, ◌∙◌, ◌==◌, if◌then◌else◌, Bool, true, false, inl, inr,
  Option-cases, Option, none, some, List, [], ◌∷◌, ◌++◌, Bytes, arith,
}
use pgwire.Api.Auth.Scram.{strip_prefix, break_comma, splitn}

pub strip_prefix-some : (p s rest : Bytes) → strip_prefix p s ≡ some rest → s ≡ p ++ rest
unfolding strip_prefix
strip_prefix-some [] s rest h = cc h
strip_prefix-some (x ∷ p) [] rest h = cc h
strip_prefix-some (x ∷ p) (b ∷ s) rest h = ground (arith, strip_prefix-some p s rest)

-- A text is its parts round the first comma.
abbrev joined : Bytes → Option Bytes → Bytes
joined a none = a
joined a (some rest) = a ++ b',' ∷ rest

joined-cons : (b : ℕ) (a : Bytes) (o : Option Bytes) → joined (b ∷ a) o ≡ b ∷ joined a o
joined-cons b a none = refl
joined-cons b a (some rest) = refl

break_comma-joined : (s : Bytes) → joined (break_comma s).0 (break_comma s).1 ≡ s
unfolding break_comma
break_comma-joined [] = refl
break_comma-joined (b ∷ s) =
    ground (arith, joined-cons b (break_comma s).0 (break_comma s).1, break_comma-joined s)

abbrev pub join : List Bytes → Bytes
join [] = []
join (a ∷ []) = a
join (a ∷ b ∷ parts) = a ++ b',' ∷ join (b ∷ parts)

abbrev IsCons : List Bytes → Type 0
IsCons [] = ⊥
IsCons (a ∷ parts) = Unit

join-cons :
    (a : Bytes) (parts : List Bytes) → IsCons parts → join (a ∷ parts) ≡ a ++ b',' ∷ join parts
join-cons a [] h = absurd h
join-cons a (b ∷ parts) h = refl

splitn-IsCons : (n : ℕ) (s : Bytes) → IsCons (splitn (suc n) s)
unfolding splitn
splitn-IsCons zero s = tt
splitn-IsCons (suc n) s = elim (Option-cases (break_comma s).1) [
  | inl gone ↦ rw (gone, splitn) tt
  | inr (rest, here) ↦ rw (here, splitn) tt
]

-- Splitting loses nothing.
pub join-splitn : (n : ℕ) (s : Bytes) → join (splitn (suc n) s) ≡ s
unfolding splitn
join-splitn zero s = refl
join-splitn (suc n) s = elim (Option-cases (break_comma s).1) [
  | inl gone ↦
      rw (gone, splitn) (sym (ap (λ o. joined (break_comma s).0 o) gone) ∙ break_comma-joined s)
  | inr (rest, here) ↦
      rw (here, splitn)
        (join-cons (break_comma s).0 (splitn (suc n) rest) (splitn-IsCons n rest)
          ∙ rw (join-splitn n rest)
              (sym (ap (λ o. joined (break_comma s).0 o) here) ∙ break_comma-joined s))
]

unfoldable pub comma_free : Bytes → Bool
comma_free [] = true
comma_free (b ∷ s) = if b == b',' then false else comma_free s

break_comma-comma_free : (s : Bytes) → comma_free (break_comma s).0 ≡ true
unfolding break_comma comma_free
break_comma-comma_free [] = refl
break_comma-comma_free (b ∷ s) = ground (arith, break_comma-comma_free s)

-- All parts but the last are free of commas.
abbrev pub Inner : List Bytes → Type 0
Inner [] = Unit
Inner (a ∷ []) = Unit
Inner (a ∷ b ∷ parts) = (comma_free a ≡ true) × Inner (b ∷ parts)

cons-Inner :
    (a : Bytes) (parts : List Bytes) → comma_free a ≡ true → Inner parts → Inner (a ∷ parts)
cons-Inner a [] h i = tt
cons-Inner a (b ∷ parts) h i = (h, i)

pub splitn-Inner : (n : ℕ) (s : Bytes) → Inner (splitn n s)
unfolding splitn
splitn-Inner zero s = tt
splitn-Inner (suc zero) s = tt
splitn-Inner (suc (suc n)) s = elim (Option-cases (break_comma s).1) [
  | inl gone ↦ rw (gone, splitn) tt
  | inr (rest, here) ↦
      rw (here, splitn)
        (cons-Inner (break_comma s).0 (splitn (suc n) rest) (break_comma-comma_free s)
          (splitn-Inner (suc n) rest))
]

break_comma-append : (a s : Bytes) → comma_free a ≡ true → break_comma (a ++ b',' ∷ s) ≡ (a, some s)
unfolding break_comma comma_free
break_comma-append [] s h = refl
break_comma-append (b ∷ a) s h = ground (arith, break_comma-append a s)

pub splitn-append :
    (n : ℕ) (a s : Bytes)
    → comma_free a ≡ true
    → splitn (suc (suc n)) (a ++ b',' ∷ s) ≡ a ∷ splitn (suc n) s
unfolding splitn
splitn-append n a s h =
    ap (λ x. elim x.1 [ none ↦ x.0 ∷ [] | some rest ↦ x.0 ∷ splitn (suc n) rest ])
      (break_comma-append a s h)
