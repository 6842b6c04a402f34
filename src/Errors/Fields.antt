-- ===== src/Errors/Fields.antt =====
-- The fields that `From<ErrorInfo> for ErrorResponse` of error.rs sends, and that a client reads
-- them back.
use native.Mathlib.Decide.{dec_le}
use pgwire.Base.{
  ℕ, zero, suc, ◌^◌, ◌+◌, ◌/◌, ◌%◌, ◌<◌, ◌≡◌, ◌≢◌, refl, ap, inl, Option, none, some, List, [], ◌∷◌,
  ◌++◌, Bytes, All, lt→ltb, ◌==◌, if◌then◌else◌, arith,
}
use pgwire.Types.Integers.{value_from, value_from-digits}
use pgwire.Errors.{ErrorInfo, digits, usize_to_string, push_some, line_text, into_fields}
use pgwire.Text.{encode_text, IsScalar, NoNul, IsCstring}
use pgwire.Messages.Response.{Field}
use pgwire.Messages.Response.RoundTrip.{IsField}

-- The first field with a code.
abbrev pub field_of : ℕ → List Field → Option Bytes
field_of code [] = none
field_of code ((k, v) ∷ fields) = if k == code then some v else field_of code fields

-- Decimal text.
abbrev IsDecimal : ℕ → Type 0
IsDecimal b = (0x2f < b) × (b < 0x3a)

All-append : (P : ℕ → Type 0) (xs ys : Bytes) → All P xs → All P ys → All P (xs ++ ys)
All-append P [] ys h k = k
All-append P (x ∷ xs) ys h k = (h.0, All-append P xs ys h.1 k)

digits-small : (fuel n : ℕ) → n < 10 → digits (suc fuel) n ≡ (n + b'0') ∷ []
unfolding digits
digits-small fuel n h = ground arith

digits-large :
    (fuel n : ℕ) → 9 < n → digits (suc fuel) n ≡ digits fuel (n / 10) ++ (n % 10 + b'0') ∷ []
unfolding digits
digits-large fuel n h = ground arith

digits-IsDecimal : (fuel n : ℕ) → All IsDecimal (digits fuel n)
digits-IsDecimal zero n = unfold digits in tt
digits-IsDecimal (suc fuel) n = elim (dec_le 10 n) [
  | yes big ↦ rw (digits-large fuel n (omega arith)) (
      All-append IsDecimal (digits fuel (n / 10)) _ (digits-IsDecimal fuel (n / 10))
        ((omega arith, omega arith), tt))
  | no small ↦ rw (digits-small fuel n (omega arith)) ((omega arith, omega arith), tt)
]

ascii-text : (s : Bytes) → All IsDecimal s → (s ≡ encode_text s) × All IsScalar s × NoNul s
ascii-text [] h = (refl, tt, tt)
ascii-text (b ∷ s) h =
    let r = ascii-text s h.1 in
    (
      rw (lt→ltb b 0x80 (omega (arith, h.0))) (ap (λ (t : Bytes). b ∷ t) r.0),
      (inl (omega (arith, h.0)), r.1),
      ((λ e. omega (arith, e, h.0)), r.2),
    )

usize_to_string-IsCstring : (n : ℕ) → IsCstring (usize_to_string n)
unfolding usize_to_string
usize_to_string-IsCstring n =
    let r = ascii-text (digits 20 n) (digits-IsDecimal 20 n) in
    record { text = record { chars = digits 20 n; scalars = r.1; encoded = r.0 }; no_nul = r.2 }

-- An optional string that a field can carry.
abbrev pub IsSome : Option Bytes → Type 0
IsSome none = Unit
IsSome (some s) = IsCstring s

-- A line number is a `usize`.
abbrev pub IsLine : Option ℕ → Type 0
IsLine none = Unit
IsLine (some n) = n < 2 ^ 64

-- What an error must be for its fields to be read back.
pub record IsErrorInfo (e : ErrorInfo) : Type 0 where
  pub severity : IsCstring e.severity
  pub code : IsCstring e.code
  pub message : IsCstring e.message
  pub detail : IsSome e.detail
  pub hint : IsSome e.hint
  pub position : IsSome e.position
  pub internal_position : IsSome e.internal_position
  pub internal_query : IsSome e.internal_query
  pub where_context : IsSome e.where_context
  pub file_name : IsSome e.file_name
  pub line : IsLine e.line
  pub routine : IsSome e.routine

All-push_some :
    (code : ℕ) (o : Option Bytes) (fields : List Field)
    → code ≢ 0
    → IsSome o
    → All IsField fields
    → All IsField (push_some code o fields)
unfolding push_some
All-push_some code none fields hc ho h = h
All-push_some code (some v) [] hc ho h = ((hc, ho), tt)
All-push_some code (some v) (f ∷ fields) hc ho h =
    (h.0, All-push_some code (some v) fields hc ho h.1)

line_text-IsSome : (o : Option ℕ) → IsSome (line_text o)
unfolding line_text
line_text-IsSome none = tt
line_text-IsSome (some n) = usize_to_string-IsCstring n

-- The fields of an error are fit to be sent.
pub into_fields-IsField : (e : ErrorInfo) → IsErrorInfo e → All IsField (into_fields e)
unfolding into_fields
into_fields-IsField e h =
    All-push_some b'R' _ _ (λ k. omega arith) h.routine
      (All-push_some b'L' _ _ (λ k. omega arith) (line_text-IsSome e.line)
        (All-push_some b'F' _ _ (λ k. omega arith) h.file_name
          (All-push_some b'W' _ _ (λ k. omega arith) h.where_context
            (All-push_some b'q' _ _ (λ k. omega arith) h.internal_query
              (All-push_some b'p' _ _ (λ k. omega arith) h.internal_position
                (All-push_some b'P' _ _ (λ k. omega arith) h.position
                  (All-push_some b'H' _ _ (λ k. omega arith) h.hint
                    (All-push_some b'D' _ _ (λ k. omega arith) h.detail
                      (
                        (λ k. omega arith, h.severity),
                        ((λ k. omega arith, h.code), ((λ k. omega arith, h.message), tt)),
                      )))))))))

-- A search among fields to which a field may have been added.
or_else : Option Bytes → Option Bytes → Option Bytes
or_else none p = p
or_else (some v) p = some v

field_of-push_some :
    (code k : ℕ) (o : Option Bytes) (fields : List Field)
    → field_of code (push_some k o fields)
      ≡ or_else (field_of code fields) (if k == code then o else none)
unfolding push_some or_else
field_of-push_some code k none fields = ground arith
field_of-push_some code k (some v) [] = ground arith
field_of-push_some code k (some v) ((k', v') ∷ fields) =
    ground (arith, field_of-push_some code k (some v) fields)

or_else-none : (o : Option Bytes) → or_else o none ≡ o
unfolding or_else
or_else-none none = refl
or_else-none (some v) = refl

-- A field that is absent with the number, or its decimal text.
abbrev pub IsNumber : Option ℕ → Option Bytes → Type 0
IsNumber none field = field ≡ none
IsNumber (some n) field =
    (text : Bytes) × (field ≡ some text) × (value_from 0 text ≡ n) × All IsDecimal text

-- The fields in which each field code stands for a part of an error, and is absent where that part
-- is.
abbrev pub Carries : ErrorInfo → List Field → Type 0
Carries e fields =
    (field_of b'S' fields ≡ some e.severity)
    × (field_of b'C' fields ≡ some e.code)
    × (field_of b'M' fields ≡ some e.message)
    × (field_of b'D' fields ≡ e.detail)
    × (field_of b'H' fields ≡ e.hint)
    × (field_of b'P' fields ≡ e.position)
    × (field_of b'p' fields ≡ e.internal_position)
    × (field_of b'q' fields ≡ e.internal_query)
    × (field_of b'W' fields ≡ e.where_context)
    × (field_of b'F' fields ≡ e.file_name)
    × IsNumber e.line (field_of b'L' fields)
    × (field_of b'R' fields ≡ e.routine)

line_text-IsNumber :
    (o : Option ℕ) (field : Option Bytes) → IsLine o → field ≡ line_text o → IsNumber o field
unfolding line_text usize_to_string
line_text-IsNumber none field h same = same
line_text-IsNumber (some n) field h same =
    (digits 20 n, same, value_from-digits 19 n (omega (arith, h)), digits-IsDecimal 20 n)

-- Looking up each field code in the fields of an ErrorInfo gives the part of the error it stands
-- for, the line in decimal, and nothing where the part is absent.
pub into_fields-Carries : (e : ErrorInfo) → IsErrorInfo e → Carries e (into_fields e)
unfolding into_fields or_else
into_fields-Carries e h = (
  simp (field_of-push_some, or_else-none),
  simp (field_of-push_some, or_else-none),
  simp (field_of-push_some, or_else-none),
  simp (field_of-push_some, or_else-none),
  simp (field_of-push_some, or_else-none),
  simp (field_of-push_some, or_else-none),
  simp (field_of-push_some, or_else-none),
  simp (field_of-push_some, or_else-none),
  simp (field_of-push_some, or_else-none),
  simp (field_of-push_some, or_else-none),
  line_text-IsNumber e.line _ h.line (simp (field_of-push_some, or_else-none)),
  simp field_of-push_some,
)
