-- ===== src/Messages/Codec.antt =====
-- messages/codec.rs, and the trait `Message` of messages/mod.rs with its provided methods.
pub mod Strings
pub mod Framing
use pgwire.Base.{
  ℕ, zero, suc, ◌+◌, ◌-◌, ◌%◌, ◌^◌, Bool, true, false, Option, none, some, List, [], ◌∷◌, Bytes,
  length, take, drop, leb, ◌==◌, if◌then◌else◌, i32_as_usize,
}
use pgwire.Errors.{PgWireError}
use pgwire.Buffers.{
  BytesCrate, Reply, ok, err, panic, Action, ◌>>=◌, ◌>>◌, pure, reading, writing, put_u8, put_i32,
  put_slice, split_to, advance,
}
use pgwire.Text.{from_utf8_lossy}

-- The index of the first zero byte, or the number of bytes left where there is none.
unfoldable pub cstring_len : Bytes → ℕ
cstring_len [] = 0
cstring_len (b ∷ bs) = if b == 0 then 0 else suc (cstring_len bs)

-- `unwrap_or_else(|| "".to_owned())`
unfoldable pub or_empty : Option Bytes → Bytes
or_empty none = []
or_empty (some s) = s

-- `usize` additions wrap, as in a release build.
abbrev pub usize_add : ℕ → ℕ → ℕ
usize_add a b = (a + b) % 2 ^ 64

abbrev pub usize_sub : ℕ → ℕ → ℕ
usize_sub a b = (a + 2 ^ 64 - b) % 2 ^ 64

module _ ⦃c : BytesCrate⦄ where
  unfoldable pub get_cstring : Action (Option Bytes)
  get_cstring b =
      let i = cstring_len b in
      (do
        string_buf ← split_to (i + 1)
        pure (if i == 0 then none else some (from_utf8_lossy (take i string_buf))))
        b

  unfoldable pub put_cstring : Bytes → Action (Unit {0})
  put_cstring input = do put_slice input; put_u8 0

  unfoldable pub put_option_cstring : Option Bytes → Action (Unit {0})
  put_option_cstring (some input) = put_cstring input
  put_option_cstring none = put_u8 0

  -- `(&buf[offset..4 + offset]).get_i32()`
  unfoldable pub peek_i32 : ℕ → Action ℕ
  peek_i32 offset b = elim (c.get_i32 (take 4 (drop offset b))) [
    | none ↦ panic
    | some (n, _) ↦ ok n b
  ]

  unfoldable pub get_length : ℕ → Action (Option ℕ)
  get_length offset b =
      if leb (4 + offset) (c.remaining b)
      then (do n ← peek_i32 offset; pure (some (i32_as_usize n))) b
      else ok none b

  -- The two tests of `decode_packet`, the inner one here.
  unfoldable pub decode_if_complete : {A : Type 0} → ℕ → (ℕ → Action A) → ℕ → Action (Option A)
  decode_if_complete offset decode_fn msg_len b =
      if leb (usize_add msg_len offset) (c.remaining b)
      then (do advance (offset + 4); r ← decode_fn msg_len; pure (some r)) b
      else ok none b

  unfoldable pub decode_packet : {A : Type 0} → ℕ → (ℕ → Action A) → Action (Option A)
  unfolding decode_if_complete
  decode_packet offset decode_fn = do
    len ← get_length offset
    elim len [ none ↦ pure none | some msg_len ↦ decode_if_complete offset decode_fn msg_len ]

unfoldable pub option_string_len : Option Bytes → ℕ
option_string_len none = 1 + 0
option_string_len (some s) = 1 + length s

-- The trait `Message`: what a type implements.
pub record Message (A : Type 0) : Type 0 where
  pub message_type : Option ℕ
  pub message_length : A → ℕ
  pub encode_body : A → Action (Unit {0})
  pub decode_body : ℕ → Action A

unfoldable pub type_offset : Option ℕ → ℕ
type_offset none = 0
type_offset (some _) = 1

-- The provided methods.
module _ ⦃c : BytesCrate⦄ where
  unfoldable pub put_message_type : Option ℕ → Action (Unit {0})
  put_message_type none = pure tt
  put_message_type (some mt) = put_u8 mt

  unfoldable pub encode : {A : Type 0} → Message A → A → Action (Unit {0})
  encode m a = do
    put_message_type m.message_type
    put_i32 (m.message_length a % 2 ^ 32)
    m.encode_body a

  unfoldable pub decode : {A : Type 0} → Message A → Action (Option A)
  decode m = decode_packet (type_offset m.message_type) m.decode_body
