-- ===== src/Buffers/Standard.antt =====
-- The interface of the crate `bytes` can be met: its operations over lists.
use pgwire.Base.{
  ℕ, zero, suc, ◌+◌, ◌*◌, ◌^◌, ◌<◌, ◌≡◌, refl, Option, none, some, [], ◌∷◌, ◌++◌, Bytes, length,
  be16, be32, arith, ap,
}
use pgwire.Buffers.{BytesCrate}

abbrev pub word8 : Bytes → Option (ℕ × Bytes)
word8 [] = none
word8 (x ∷ b) = some (x, b)

abbrev pub word16 : Bytes → Option (ℕ × Bytes)
word16 (x ∷ y ∷ b) = some (x * 2 ^ 8 + y, b)
word16 _ = none

abbrev pub word32 : Bytes → Option (ℕ × Bytes)
word32 (x ∷ y ∷ z ∷ w ∷ b) = some (x * 2 ^ 24 + y * 2 ^ 16 + z * 2 ^ 8 + w, b)
word32 _ = none

abbrev pub skip : Bytes → ℕ → Option Bytes
skip b zero = some b
skip [] (suc n) = none
skip (x ∷ b) (suc n) = skip b n

abbrev pub with_head : ℕ → Option (Bytes × Bytes) → Option (Bytes × Bytes)
with_head x none = none
with_head x (some (front, back)) = some (x ∷ front, back)

abbrev pub cut : Bytes → ℕ → Option (Bytes × Bytes)
cut b zero = some ([], b)
cut [] (suc n) = none
cut (x ∷ b) (suc n) = with_head x (cut b n)

pub word16_short : (b : Bytes) → length b < 2 → word16 b ≡ none
word16_short [] h = refl
word16_short (x ∷ []) h = refl
word16_short (x ∷ y ∷ b) h = absurd (omega arith)

pub word32_short : (b : Bytes) → length b < 4 → word32 b ≡ none
word32_short [] h = refl
word32_short (x ∷ []) h = refl
word32_short (x ∷ y ∷ []) h = refl
word32_short (x ∷ y ∷ z ∷ []) h = refl
word32_short (x ∷ y ∷ z ∷ w ∷ b) h = absurd (omega arith)

pub skip_eq : (front back : Bytes) → skip (front ++ back) (length front) ≡ some back
skip_eq [] back = refl
skip_eq (x ∷ front) back = skip_eq front back

pub skip_short : (b : Bytes) (n : ℕ) → length b < n → skip b n ≡ none
skip_short b zero h = absurd (omega arith)
skip_short [] (suc n) h = refl
skip_short (x ∷ b) (suc n) h = skip_short b n (omega arith)

pub cut_eq : (front back : Bytes) → cut (front ++ back) (length front) ≡ some (front, back)
cut_eq [] back = refl
cut_eq (x ∷ front) back = ap (with_head x) (cut_eq front back)

pub cut_short : (b : Bytes) (n : ℕ) → length b < n → cut b n ≡ none
cut_short b zero h = absurd (omega arith)
cut_short [] (suc n) h = refl
cut_short (x ∷ b) (suc n) h = ap (with_head x) (cut_short b n (omega arith))

instance abbrev pub standard : BytesCrate
standard = record {
  remaining = length;
  put_u8 = λ b n. b ++ n ∷ [];
  put_u16 = λ b n. b ++ be16 n;
  put_i16 = λ b n. b ++ be16 n;
  put_u32 = λ b n. b ++ be32 n;
  put_i32 = λ b n. b ++ be32 n;
  put_slice = λ b s. b ++ s;
  get_u8 = word8;
  get_u16 = word16;
  get_i16 = word16;
  get_u32 = word32;
  get_i32 = word32;
  advance = skip;
  split_to = cut;
  copy_to_slice = cut;
  split = λ b. (b, []);
  clear = λ b. [];
  remaining_eq = λ b. refl;
  put_u8_eq = λ b n. refl;
  put_u16_eq = λ b n. refl;
  put_i16_eq = λ b n. refl;
  put_u32_eq = λ b n. refl;
  put_i32_eq = λ b n. refl;
  put_slice_eq = λ b s. refl;
  get_u8_eq = λ x b. refl;
  get_u8_short = refl;
  get_u16_eq = λ x y b. refl;
  get_u16_short = word16_short;
  get_i16_eq = λ x y b. refl;
  get_i16_short = word16_short;
  get_u32_eq = λ x y z w b. refl;
  get_u32_short = word32_short;
  get_i32_eq = λ x y z w b. refl;
  get_i32_short = word32_short;
  advance_eq = skip_eq;
  advance_short = skip_short;
  split_to_eq = cut_eq;
  split_to_short = cut_short;
  copy_to_slice_eq = cut_eq;
  copy_to_slice_short = cut_short;
  split_eq = λ b. refl;
  clear_eq = λ b. refl;
}
