-- ===== src/Text.antt =====
-- `String::from_utf8_lossy` of the standard library, and what a Rust `String` is: the UTF-8
-- encoding of a sequence of scalar values.
pub mod Lossy
pub mod Ascii
use pgwire.Base.{
  ℕ, ◌+◌, ◌-◌, ◌/◌, ◌%◌, ◌^◌, ◌≤◌, ◌<◌, ◌≡◌, ◌≢◌, ◌⊎◌, Bool, true, false, ◌&&◌, List, [], ◌∷◌, ◌++◌,
  Bytes, All, ltb, leb, ◌==◌, if◌then◌else◌,
}

-- Between two characters, or inside one: the continuation bytes still wanted, the range of the
-- next, and the bytes of the character so far.
pub data Utf8State : Type 0 where
  idle : Utf8State
  need : ℕ → ℕ → ℕ → Bytes → Utf8State

abbrev pub within : ℕ → ℕ → ℕ → Bool
within lo hi b = leb lo b && leb b hi

-- U+FFFD
abbrev pub replacement : Bytes
replacement = 0xef ∷ 0xbf ∷ 0xbd ∷ []

-- The output for a byte that begins a character, and the state after it.
unfoldable pub start : ℕ → Bytes × Utf8State
start b =
    if ltb b 0x80
    then (b ∷ [], idle)
    else if within 0xc2 0xdf b
    then ([], need 1 0x80 0xbf (b ∷ []))
    else if b == 0xe0
    then ([], need 2 0xa0 0xbf (b ∷ []))
    else if b == 0xed
    then ([], need 2 0x80 0x9f (b ∷ []))
    else if within 0xe1 0xef b
    then ([], need 2 0x80 0xbf (b ∷ []))
    else if b == 0xf0
    then ([], need 3 0x90 0xbf (b ∷ []))
    else if within 0xf1 0xf3 b
    then ([], need 3 0x80 0xbf (b ∷ []))
    else if b == 0xf4
    then ([], need 3 0x80 0x8f (b ∷ []))
    else (replacement, idle)

-- A byte out of range ends the broken character, and begins the next.
unfoldable pub step : Utf8State → ℕ → Bytes × Utf8State
unfolding start
step idle b = start b
step (need n lo hi acc) b =
    if within lo hi b
    then if n == 1 then (acc ++ b ∷ [], idle) else ([], need (n - 1) 0x80 0xbf (acc ++ b ∷ []))
    else (replacement ++ (start b).0, (start b).1)

unfoldable pub lossy : Utf8State → Bytes → Bytes
unfolding step
lossy idle [] = []
lossy (need n lo hi acc) [] = replacement
lossy s (b ∷ bs) = (step s b).0 ++ lossy (step s b).1 bs

unfoldable pub from_utf8_lossy : Bytes → Bytes
unfolding lossy
from_utf8_lossy bs = lossy idle bs

-- A Unicode scalar value: a code point that is no surrogate.
abbrev pub IsScalar : ℕ → Type 0
IsScalar c = (c < 0xd800) ⊎ ((0xe000 ≤ c) × (c < 0x110000))

-- The UTF-8 encoding of one scalar value.
abbrev pub encode_char : ℕ → Bytes
encode_char c =
    if ltb c 0x80
    then c ∷ []
    else if ltb c 0x800
    then (0xc0 + c / 2 ^ 6) ∷ (0x80 + c % 2 ^ 6) ∷ []
    else if ltb c 0x10000
    then (0xe0 + c / 2 ^ 12) ∷ (0x80 + c / 2 ^ 6 % 2 ^ 6) ∷ (0x80 + c % 2 ^ 6) ∷ []
    else (0xf0 + c / 2 ^ 18)
      ∷ (0x80 + c / 2 ^ 12 % 2 ^ 6)
      ∷ (0x80 + c / 2 ^ 6 % 2 ^ 6)
      ∷ (0x80 + c % 2 ^ 6)
      ∷ []

abbrev pub encode_text : List ℕ → Bytes
encode_text [] = []
encode_text (c ∷ cs) = encode_char c ++ encode_text cs

-- The bytes of a Rust `String`.
pub record IsText (s : Bytes) : Type 0 where
  pub chars : List ℕ
  pub scalars : All IsScalar chars
  pub encoded : s ≡ encode_text chars

abbrev pub NoNul : Bytes → Type 0
NoNul s = All (λ b. b ≢ 0) s

-- A string that a null-terminated field can carry.
pub record IsCstring (s : Bytes) : Type 0 where
  pub text : IsText s
  pub no_nul : NoNul s
