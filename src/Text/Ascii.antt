-- ===== src/Text/Ascii.antt =====
-- ASCII text without a zero byte, as a test: what a null-terminated field can carry.
use pgwire.Base.{
  ℕ, ◌<◌, ◌≡◌, refl, ap, inl, Bool, true, false, ◌&&◌, [], ◌∷◌, Bytes, All, ltb, lt→ltb,
  if◌then◌else◌, arith,
}
use pgwire.Text.{encode_text, IsScalar, NoNul, IsCstring}

abbrev is_ascii_byte : ℕ → Bool
is_ascii_byte b = ltb 0 b && ltb b 0x80

unfoldable pub is_ascii : Bytes → Bool
is_ascii [] = true
is_ascii (b ∷ s) = if is_ascii_byte b then is_ascii s else false

byte-true :
    (b : ℕ) (r : Bool)
    → (if is_ascii_byte b then r else false) ≡ true
    → (0 < b) × (b < 0x80) × (r ≡ true)
byte-true b r h = ground arith

is_ascii-parts : (s : Bytes) → is_ascii s ≡ true → (s ≡ encode_text s) × All IsScalar s × NoNul s
unfolding is_ascii
is_ascii-parts [] h = (refl, tt, tt)
is_ascii-parts (b ∷ s) h =
    let (low, high, more) = byte-true b (is_ascii s) h in
    let (same, scalars, no_nul) = is_ascii-parts s more in
    (
      rw (lt→ltb b 0x80 high) (ap (λ (t : Bytes). b ∷ t) same),
      (inl (omega arith), scalars),
      ((λ e. omega arith), no_nul),
    )

pub is_ascii-IsCstring : (s : Bytes) → is_ascii s ≡ true → IsCstring s
is_ascii-IsCstring s h =
    let (same, scalars, no_nul) = is_ascii-parts s h in
    record { text = record { chars = s; scalars = scalars; encoded = same }; no_nul = no_nul }
