-- ===== src/Types/Integers.antt =====
-- The text of an integer, and a reader of it.
use pgwire.Base.{
  ℕ, zero, suc, ◌+◌, ◌*◌, ◌/◌, ◌%◌, ◌-◌, ◌^◌, ◌<◌, ◌≤◌, ◌≡◌, refl, ap, ◌∙◌, inl, inr, Bool-cases,
  [], ◌∷◌, ◌++◌, Bytes, leb, ltb, ◌==◌, if◌then◌else◌, arith, lt→ltb, ne→==, All,
}
use native.Mathlib.Nat.{mod-eq_of_lt, mod-eq-sub-mod}
use pgwire.Errors.{digits}
use pgwire.Buffers.{BytesCrate}
use pgwire.Api.Statements.{PostgresTypes}
use pgwire.Types.{
  written, null_no, IntType, i8, i16, i32, i64, i128, u8, u16, u32, u64, u128, bits, is_signed,
  decimal, signed_to_string, int_to_string, int_text,
}

-- The number that a text of digits stands for.
abbrev pub value_from : ℕ → Bytes → ℕ
value_from acc [] = acc
value_from acc (b ∷ s) = value_from (acc * 10 + (b - b'0')) s

value_from-append :
    (acc : ℕ) (s : Bytes) (b : ℕ)
    → value_from acc (s ++ b ∷ []) ≡ value_from acc s * 10 + (b - b'0')
value_from-append acc [] b = refl
value_from-append acc (x ∷ s) b = value_from-append (acc * 10 + (x - b'0')) s b

-- An upper bound of the numbers that some decimal digits write.
abbrev pub pow10 : ℕ → ℕ
pow10 zero = 1
pow10 (suc n) = pow10 n * 10

pub value_from-digits : (f n : ℕ) → n < pow10 (suc f) → value_from 0 (digits (suc f) n) ≡ n
unfolding digits
value_from-digits zero n h = rw (lt→ltb n 10 h, digits) (omega arith)
value_from-digits (suc f) n h =
    let before = value_from-digits f (n / 10) (omega arith) in
    elim (Bool-cases (ltb n 10)) [
      | inl small ↦ rw (small, digits) (omega arith)
      | inr large ↦
          rw (large, digits)
            (value_from-append 0 (digits (suc f) (n / 10)) (n % 10 + b'0') ∙ omega (arith, before))
    ]

abbrev IsDigit : ℕ → Type 0
IsDigit b = (b'0' ≤ b) × (b ≤ b'9')

All-snoc : (s : Bytes) (b : ℕ) → All IsDigit s → IsDigit b → All IsDigit (s ++ b ∷ [])
All-snoc [] b h d = (d, tt)
All-snoc (x ∷ s) b (e, h) d = (e, All-snoc s b h d)

digits-All : (f n : ℕ) → All IsDigit (digits f n)
unfolding digits
digits-All zero n = tt
digits-All (suc f) n = elim (Bool-cases (ltb n 10)) [
  | inl small ↦ rw (small, digits) ((omega arith, ground arith), tt)
  | inr large ↦
      rw (large, digits)
        (All-snoc (digits f (n / 10)) (n % 10 + b'0') (digits-All f (n / 10))
          (omega arith, omega arith))
]

-- `negsuc n` is -(n + 1).
pub data ℤ : Type 0 where
  pos : ℕ → ℤ
  negsuc : ℕ → ℤ

abbrev pub sub_ℕ : ℕ → ℕ → ℤ
sub_ℕ a b = if leb b a then pos (a - b) else negsuc (b - a - 1)

-- The integer that a bit pattern stands for: the one between -2 ^ (w - 1) and 2 ^ (w - 1) that it
-- is congruent to, if the type is signed.
abbrev pub integer_of : IntType → ℕ → ℤ
integer_of t n =
    if is_signed t then sub_ℕ ((n + 2 ^ (bits t - 1)) % 2 ^ bits t) (2 ^ (bits t - 1)) else pos n

-- The integer that a text stands for.
unfoldable pub read_integer : Bytes → ℤ
read_integer [] = pos 0
read_integer (b ∷ s) = if b == b'-' then sub_ℕ 0 (value_from 0 s) else pos (value_from 0 (b ∷ s))

read_integer-digits : (s : Bytes) → All IsDigit s → read_integer s ≡ pos (value_from 0 s)
unfolding read_integer
read_integer-digits [] h = refl
read_integer-digits (b ∷ s) (d, h) = rw (ne→== b b'-' (λ e. omega arith)) refl

value_from-decimal : (n : ℕ) → n ≤ 2 ^ 128 → value_from 0 (decimal n) ≡ n
unfolding decimal
value_from-decimal n h = value_from-digits 38 n (omega arith)

read-decimal : (n : ℕ) → n ≤ 2 ^ 128 → read_integer (decimal n) ≡ pos n
unfolding decimal
read-decimal n h =
    read_integer-digits (digits 39 n) (digits-All 39 n) ∙ ap pos (value_from-decimal n h)

-- A bit pattern below `2 * y`, and its shift by `y`.
shift_low : (y n : ℕ) → n < y → (n + y) % (2 * y) ≡ n + y
shift_low y n h = mod-eq_of_lt (omega arith)

shift_high : (y n : ℕ) → y ≤ n → n < 2 * y → (n + y) % (2 * y) ≡ n - y
shift_high y n h k = mod-eq-sub-mod (omega arith) ∙ mod-eq_of_lt (omega arith) ∙ omega arith

signed_low : (y n : ℕ) → n < y → pos n ≡ sub_ℕ ((n + y) % (2 * y)) y
signed_low y n h = rw (shift_low y n h) (ground arith)

signed_high :
    (y n v : ℕ) → y ≤ n → n < 2 * y → v ≡ 2 * y - n → sub_ℕ 0 v ≡ sub_ℕ ((n + y) % (2 * y)) y
signed_high y n v h k e = rw (shift_high y n h k) (ground arith)

-- A width `w`, with the powers of two as numbers.
read-signed :
    (w n : ℕ)
    → n < 2 ^ w
    → 2 ^ w ≡ 2 * 2 ^ (w - 1)
    → 2 ^ w ≤ 2 ^ 128
    → 0 < 2 ^ w
    → read_integer (signed_to_string w n) ≡ sub_ℕ ((n + 2 ^ (w - 1)) % 2 ^ w) (2 ^ (w - 1))
unfolding signed_to_string
read-signed w n h double fits some_bits = elim (Bool-cases (leb (2 ^ (w - 1)) n)) [
  | inl negative ↦ rw (negative) (
      unfold read_integer in
      rw (double) (
        signed_high (2 ^ (w - 1)) n _ (ground arith) (omega arith)
          (value_from-decimal (2 * 2 ^ (w - 1) - n) (omega arith))))
  | inr other ↦
      rw (other)
        (read-decimal n (omega arith) ∙ rw (double) (signed_low (2 ^ (w - 1)) n (ground arith)))
]

read_all :
    (t : IntType) (n : ℕ) → n < 2 ^ bits t → read_integer (int_to_string t n) ≡ integer_of t n
unfolding int_to_string
read_all i8 n h = read-signed 8 n h refl (omega arith) (omega arith)
read_all i16 n h = read-signed 16 n h refl (omega arith) (omega arith)
read_all i32 n h = read-signed 32 n h refl (omega arith) (omega arith)
read_all i64 n h = read-signed 64 n h refl (omega arith) (omega arith)
read_all i128 n h = read-signed 128 n h refl (omega arith) (omega arith)
read_all u8 n h = read-decimal n (omega arith)
read_all u16 n h = read-decimal n (omega arith)
read_all u32 n h = read-decimal n (omega arith)
read_all u64 n h = read-decimal n (omega arith)
read_all u128 n h = read-decimal n (omega arith)

module _ ⦃p : PostgresTypes⦄ ⦃c : BytesCrate⦄ where
  -- A value of an integer type is written as a text from which the integer is read back, after
  -- what is already in the buffer and whatever the type it is written for.
  pub read_integer-int_text :
      (t : IntType) (n : ℕ) (ty : p.PgType) (out : Bytes)
      → n < 2 ^ bits t
      → (s : Bytes) × ((int_text t).to_sql_text n ty out ≡ written null_no (out ++ s))
        × (read_integer s ≡ integer_of t n)
  unfolding int_text
  read_integer-int_text t n ty out h = (
    int_to_string t n,
    ap (written null_no) (c.put_slice_eq out (int_to_string t n)),
    read_all t n h,
  )
