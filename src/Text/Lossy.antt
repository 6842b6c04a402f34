-- ===== src/Text/Lossy.antt =====
-- `from_utf8_lossy` keeps every text.
use pgwire.Base.{
  refl, ℕ, ◌+◌, ◌/◌, ◌%◌, ◌^◌, ◌<◌, ◌≡◌, refl, ap, ◌∙◌, ◌⊎◌, List, [], ◌∷◌, ◌++◌, Bytes, All, arith,
  sym,
}
use pgwire.Text.{
  idle, lossy, from_utf8_lossy, IsScalar, encode_char, encode_text, IsText, IsCstring,
}

-- One character of one, two, three and four bytes.
module _ (c : ℕ) (rest : Bytes) where
  lossy_one : c < 0x80 → lossy idle (c ∷ rest) ≡ c ∷ lossy idle rest
  unfolding lossy
  lossy_one h = ground arith

  lossy_two :
      0x7f < c
      → c < 0x800
      → lossy idle ((0xc0 + c / 2 ^ 6) ∷ (0x80 + c % 2 ^ 6) ∷ rest)
        ≡ (0xc0 + c / 2 ^ 6) ∷ (0x80 + c % 2 ^ 6) ∷ lossy idle rest
  unfolding lossy
  lossy_two h k = ground arith

  lossy_three :
      0x7ff < c
      → c < 0x10000
      → (c < 0xd800) ⊎ (0xdfff < c)
      → lossy idle ((0xe0 + c / 2 ^ 12) ∷ (0x80 + c / 2 ^ 6 % 2 ^ 6) ∷ (0x80 + c % 2 ^ 6) ∷ rest)
        ≡ (0xe0 + c / 2 ^ 12) ∷ (0x80 + c / 2 ^ 6 % 2 ^ 6) ∷ (0x80 + c % 2 ^ 6) ∷ lossy idle rest
  unfolding lossy
  lossy_three h k s = ground arith

  lossy_four :
      0xffff < c
      → c < 0x110000
      → lossy idle (
          (0xf0 + c / 2 ^ 18)
          ∷ (0x80 + c / 2 ^ 12 % 2 ^ 6)
          ∷ (0x80 + c / 2 ^ 6 % 2 ^ 6)
          ∷ (0x80 + c % 2 ^ 6)
          ∷ rest)
        ≡ (0xf0 + c / 2 ^ 18)
          ∷ (0x80 + c / 2 ^ 12 % 2 ^ 6)
          ∷ (0x80 + c / 2 ^ 6 % 2 ^ 6)
          ∷ (0x80 + c % 2 ^ 6)
          ∷ lossy idle rest
  unfolding lossy
  lossy_four h k = ground arith

  lossy_char : IsScalar c → lossy idle (encode_char c ++ rest) ≡ encode_char c ++ lossy idle rest
  lossy_char h = ground (arith, lossy_one, lossy_two, lossy_three, lossy_four)

lossy_text : (cs : List ℕ) → All IsScalar cs → lossy idle (encode_text cs) ≡ encode_text cs
lossy_text [] h = unfold lossy in refl
lossy_text (c ∷ cs) h =
    lossy_char c (encode_text cs) h.0 ∙ ap (λ t. encode_char c ++ t) (lossy_text cs h.1)

-- String::from_utf8_lossy, as get_cstring applies it, changes nothing in the bytes of a String.
pub from_utf8_lossy-text : (s : Bytes) → IsText s → from_utf8_lossy s ≡ s
unfolding from_utf8_lossy
from_utf8_lossy-text s t = ap (lossy idle) t.encoded ∙ lossy_text t.chars t.scalars ∙ sym t.encoded

pub IsCstring-nil : IsCstring []
IsCstring-nil = record { text = record { chars = []; scalars = tt; encoded = refl }; no_nul = tt }
