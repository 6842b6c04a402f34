-- ===== src/Messages/Codec/Strings.antt =====
-- Null-terminated strings: what is written, and what a read of it returns.
use pgwire.Base.{
  suc, ◌+◌, ◌<◌, ◌≡◌, refl, ap, ◌∙◌, ◌≢◌, Option, none, some, [], ◌∷◌, ◌++◌, append_assoc, Bytes,
  length, length-append, take, take-length, ◌==◌, ne→==, if◌then◌else◌, arith,
}
use pgwire.Buffers.{BytesCrate, ok, panic, ◌>>=◌, pure, split_to}
use pgwire.Buffers.Rules.{
  Reads, Writes, Reads-split_to, Writes-then, Writes-put_slice, Writes-put_u8, bind-ok, bind-panic,
  split_to-short,
}
use pgwire.Buffers.Ends.{Takes, Takes-split_to, bind-ends, Ends-reading, Ends-pure, bind-inv}
use pgwire.Text.{from_utf8_lossy, IsCstring, NoNul}
use pgwire.Text.Lossy.{IsCstring-nil, from_utf8_lossy-text}
use pgwire.Messages.Codec.{
  cstring_len, get_cstring, put_cstring, put_option_cstring, option_string_len, or_empty,
}

-- The bytes of a string in a message.
abbrev pub cstring : Bytes → Bytes
cstring s = s ++ 0 ∷ []

abbrev pub option_cstring : Option Bytes → Bytes
option_cstring none = 0 ∷ []
option_cstring (some s) = cstring s

-- What a read of a written string returns: an empty one reads as `None`.
abbrev pub non_empty : Bytes → Option Bytes
non_empty [] = none
non_empty (b ∷ s) = some (b ∷ s)

-- A name that reads back as itself: `Some("")` does not.
abbrev pub IsName : Option Bytes → Type 0
IsName none = Unit
IsName (some s) = IsCstring s × (s ≢ [])

pub length-cstring : (s : Bytes) → length (cstring s) ≡ length s + 1
length-cstring s = omega (arith, length-append s (0 ∷ []))

pub length-option_cstring : (s : Option Bytes) → length (option_cstring s) ≡ option_string_len s
unfolding option_string_len
length-option_cstring none = omega arith
length-option_cstring (some s) = omega (arith, length-cstring s)

pub or_empty-non_empty : (s : Bytes) → or_empty (non_empty s) ≡ s
unfolding or_empty
or_empty-non_empty [] = refl
or_empty-non_empty (b ∷ s) = refl

cstring_len-cstring : (s rest : Bytes) → NoNul s → cstring_len (s ++ 0 ∷ rest) ≡ length s
unfolding cstring_len
cstring_len-cstring [] rest h = refl
cstring_len-cstring (b ∷ s) rest h = rw (ne→== b 0 h.0) (ap suc (cstring_len-cstring s rest h.1))

cstring_len-NoNul : (b : Bytes) → NoNul b → cstring_len b ≡ length b
unfolding cstring_len
cstring_len-NoNul [] h = refl
cstring_len-NoNul (x ∷ b) h = rw (ne→== x 0 h.0) (ap suc (cstring_len-NoNul b h.1))

read_back : Bytes → Bytes → Option Bytes
read_back s string_buf =
    if length s == 0 then none else some (from_utf8_lossy (take (length s) string_buf))

read_back-cstring : (s : Bytes) → IsCstring s → read_back s (cstring s) ≡ non_empty s
unfolding read_back
read_back-cstring [] h = refl
read_back-cstring (b ∷ s) h = rw (ne→== (length (b ∷ s)) 0 (omega arith)) (
    ap (λ (t : Bytes). some (from_utf8_lossy t)) (take-length (b ∷ s) (0 ∷ []))
    ∙ ap some (from_utf8_lossy-text (b ∷ s) h.text))

module _ ⦃c : BytesCrate⦄ where
  get_cstring-at :
      (s rest : Bytes)
      → NoNul s
      → get_cstring (cstring s ++ rest)
        ≡ (split_to (length s + 1) >>= λ string_buf. pure (read_back s string_buf))
            (cstring s ++ rest)
  unfolding get_cstring read_back
  get_cstring-at s rest h = rw (append_assoc s (0 ∷ []) rest, cstring_len-cstring s rest h)

  -- A written string is read back, an empty one as `None`.
  pub Reads-get_cstring : (s : Bytes) → IsCstring s → Reads get_cstring (cstring s) (non_empty s)
  unfolding pure
  Reads-get_cstring s h = record {
    at = λ rest.
        get_cstring-at s rest h.no_nul
        ∙ bind-ok _ _ _ (cstring s) rest
            ((Reads-split_to (cstring s) _ (omega (arith, length-append s (0 ∷ [])))).at rest)
        ∙ ap (λ (o : Option Bytes). ok o rest) (read_back-cstring s h);
  }

  -- Without a zero byte in the buffer the read runs past the end and panics.
  pub get_cstring-panic : (b : Bytes) → NoNul b → get_cstring b ≡ panic
  unfolding get_cstring
  get_cstring-panic b h =
      rw (cstring_len-NoNul b h) (bind-panic _ _ _ (split_to-short (length b + 1) b (omega arith)))

  pub Writes-put_cstring : (s : Bytes) → Writes (put_cstring s) (cstring s)
  unfolding put_cstring
  Writes-put_cstring s = Writes-then _ _ (Writes-put_slice s) (Writes-put_u8 0)

  pub Writes-put_option_cstring :
      (s : Option Bytes) → Writes (put_option_cstring s) (option_cstring s)
  unfolding put_option_cstring
  Writes-put_option_cstring none = Writes-put_u8 0
  Writes-put_option_cstring (some s) = Writes-put_cstring s

  -- A name that may be `None`.
  pub Reads-name : (s : Option Bytes) → IsName s → Reads get_cstring (option_cstring s) s
  Reads-name none h = Reads-get_cstring [] IsCstring-nil
  Reads-name (some []) h = absurd (h.1 refl)
  Reads-name (some (b ∷ s)) h = Reads-get_cstring (b ∷ s) h.0

  get_cstring-less :
      (b : Bytes) (o : Option Bytes) (b' : Bytes) → get_cstring b ≡ ok o b' → length b' < length b
  unfolding get_cstring pure
  get_cstring-less b o b' e =
      let (front, rest, cut, same) = bind-inv (split_to (cstring_len b + 1)) _ b o b' e in
      let left : rest ≡ b' = cc same in
      omega (
        arith,
        ap (λ (l : Bytes). length l) left,
        (Takes-split_to (cstring_len b + 1) (omega arith)).less b front rest cut,
      )

  -- A read of a string takes at least one byte.
  pub Takes-get_cstring : Takes get_cstring
  Takes-get_cstring = record {
    less = get_cstring-less;
    ends = λ b.
        unfold get_cstring in
        bind-ends _ _ b ((Ends-reading _).at b) (λ a b' _. (Ends-pure _).at b');
  }
