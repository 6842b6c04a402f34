-- ===== src/Buffers.antt =====
-- The byte buffers of the crate `bytes`, which every message is written to and read from, and
-- the actions on one buffer. The crate is not part of the repository: its operations are the
-- fields of an interface, with what its documentation says of each.
pub mod Rules
pub mod Ends
pub mod Standard
use pgwire.Base.{
  ℕ, ◌+◌, ◌*◌, ◌^◌, ◌<◌, ◌≡◌, Bool, true, false, Option, none, some, List, [], ◌∷◌, ◌++◌, Bytes,
  length, be16, be32,
}
use pgwire.Errors.{PgWireError}

-- A `BytesMut` is its content. `none` is a panic: a read past the end.
pub record BytesCrate : Type 0 where
  pub remaining : Bytes → ℕ
  pub put_u8 : Bytes → ℕ → Bytes
  pub put_u16 : Bytes → ℕ → Bytes
  pub put_i16 : Bytes → ℕ → Bytes
  pub put_u32 : Bytes → ℕ → Bytes
  pub put_i32 : Bytes → ℕ → Bytes
  pub put_slice : Bytes → Bytes → Bytes
  pub get_u8 : Bytes → Option (ℕ × Bytes)
  pub get_u16 : Bytes → Option (ℕ × Bytes)
  pub get_i16 : Bytes → Option (ℕ × Bytes)
  pub get_u32 : Bytes → Option (ℕ × Bytes)
  pub get_i32 : Bytes → Option (ℕ × Bytes)
  pub advance : Bytes → ℕ → Option Bytes
  pub split_to : Bytes → ℕ → Option (Bytes × Bytes)
  pub copy_to_slice : Bytes → ℕ → Option (Bytes × Bytes)
  pub split : Bytes → Bytes × Bytes
  pub clear : Bytes → Bytes
  -- `Buf::remaining` is the number of bytes that are left.
  pub remaining_eq : (b : Bytes) → remaining b ≡ length b
  -- `BufMut::put_*` append, a word in big-endian order.
  pub put_u8_eq : (b : Bytes) (n : ℕ) → put_u8 b n ≡ b ++ n ∷ []
  pub put_u16_eq : (b : Bytes) (n : ℕ) → put_u16 b n ≡ b ++ be16 n
  pub put_i16_eq : (b : Bytes) (n : ℕ) → put_i16 b n ≡ b ++ be16 n
  pub put_u32_eq : (b : Bytes) (n : ℕ) → put_u32 b n ≡ b ++ be32 n
  pub put_i32_eq : (b : Bytes) (n : ℕ) → put_i32 b n ≡ b ++ be32 n
  pub put_slice_eq : (b src : Bytes) → put_slice b src ≡ b ++ src
  -- `Buf::get_*` take a word in big-endian order, and panic if too little is left.
  pub get_u8_eq : (x : ℕ) (b : Bytes) → get_u8 (x ∷ b) ≡ some (x, b)
  pub get_u8_short : get_u8 [] ≡ none
  pub get_u16_eq : (x y : ℕ) (b : Bytes) → get_u16 (x ∷ y ∷ b) ≡ some (x * 2 ^ 8 + y, b)
  pub get_u16_short : (b : Bytes) → length b < 2 → get_u16 b ≡ none
  pub get_i16_eq : (x y : ℕ) (b : Bytes) → get_i16 (x ∷ y ∷ b) ≡ some (x * 2 ^ 8 + y, b)
  pub get_i16_short : (b : Bytes) → length b < 2 → get_i16 b ≡ none
  pub get_u32_eq :
      (x y z w : ℕ) (b : Bytes)
      → get_u32 (x ∷ y ∷ z ∷ w ∷ b) ≡ some (x * 2 ^ 24 + y * 2 ^ 16 + z * 2 ^ 8 + w, b)
  pub get_u32_short : (b : Bytes) → length b < 4 → get_u32 b ≡ none
  pub get_i32_eq :
      (x y z w : ℕ) (b : Bytes)
      → get_i32 (x ∷ y ∷ z ∷ w ∷ b) ≡ some (x * 2 ^ 24 + y * 2 ^ 16 + z * 2 ^ 8 + w, b)
  pub get_i32_short : (b : Bytes) → length b < 4 → get_i32 b ≡ none
  -- `Buf::advance` and `BytesMut::split_to` panic beyond the end.
  pub advance_eq : (front back : Bytes) → advance (front ++ back) (length front) ≡ some back
  pub advance_short : (b : Bytes) (n : ℕ) → length b < n → advance b n ≡ none
  pub split_to_eq :
      (front back : Bytes) → split_to (front ++ back) (length front) ≡ some (front, back)
  pub split_to_short : (b : Bytes) (n : ℕ) → length b < n → split_to b n ≡ none
  -- `Buf::copy_to_slice` fills a slice of a given length, or panics.
  pub copy_to_slice_eq :
      (front back : Bytes) → copy_to_slice (front ++ back) (length front) ≡ some (front, back)
  pub copy_to_slice_short : (b : Bytes) (n : ℕ) → length b < n → copy_to_slice b n ≡ none
  -- `BytesMut::split` takes what is there, `BytesMut::clear` removes it.
  pub split_eq : (b : Bytes) → split b ≡ (b, [])
  pub clear_eq : (b : Bytes) → clear b ≡ []

-- What a call on a buffer ends with: a result or an error, with the buffer it leaves; a panic; or,
-- in a model of a loop, fuel that ran out.
pub data Reply (A : Type 0) : Type 0 where
  ok : A → Bytes → Reply A
  err : PgWireError → Bytes → Reply A
  panic : Reply A
  no_fuel : Reply A

-- An action on a buffer: a function that takes `&mut BytesMut`.
abbrev pub Action : Type 0 → Type 0
Action A = Bytes → Reply A

infixl 5 ◌>>=◌ ◌>>◌
unfoldable pub ◌>>=◌ : {A B : Type 0} → Action A → (A → Action B) → Action B
◌>>=◌ m f b = elim (m b) [
  | ok a b' ↦ f a b'
  | err e b' ↦ err e b'
  | panic ↦ panic
  | no_fuel ↦ no_fuel
]

unfoldable pub ◌>>◌ : {A B : Type 0} → Action A → Action B → Action B
unfolding ◌>>=◌
m >> k = m >>= λ _. k

module _ {A : Type 0} where
  unfoldable pub pure : A → Action A
  pure a b = ok a b

  unfoldable pub raise : PgWireError → Action A
  raise e b = err e b

  unfoldable pub unreachable : Action A
  unreachable b = panic

  -- A read of the crate.
  unfoldable pub reading : (Bytes → Option (A × Bytes)) → Action A
  reading f b = elim (f b) [ none ↦ panic | some (a, b') ↦ ok a b' ]

-- A write of the crate.
unfoldable pub writing : (Bytes → Bytes) → Action (Unit {0})
writing f b = ok tt (f b)

module _ ⦃c : BytesCrate⦄ where
  abbrev pub put_u8 : ℕ → Action (Unit {0})
  put_u8 n = writing (λ b. c.put_u8 b n)

  abbrev pub put_u16 : ℕ → Action (Unit {0})
  put_u16 n = writing (λ b. c.put_u16 b n)

  abbrev pub put_i16 : ℕ → Action (Unit {0})
  put_i16 n = writing (λ b. c.put_i16 b n)

  abbrev pub put_u32 : ℕ → Action (Unit {0})
  put_u32 n = writing (λ b. c.put_u32 b n)

  abbrev pub put_i32 : ℕ → Action (Unit {0})
  put_i32 n = writing (λ b. c.put_i32 b n)

  abbrev pub put_slice : Bytes → Action (Unit {0})
  put_slice s = writing (λ b. c.put_slice b s)

  abbrev pub get_u8 : Action ℕ
  get_u8 = reading c.get_u8

  abbrev pub get_u16 : Action ℕ
  get_u16 = reading c.get_u16

  abbrev pub get_i16 : Action ℕ
  get_i16 = reading c.get_i16

  abbrev pub get_u32 : Action ℕ
  get_u32 = reading c.get_u32

  abbrev pub get_i32 : Action ℕ
  get_i32 = reading c.get_i32

  abbrev pub split_to : ℕ → Action Bytes
  split_to n = reading (λ b. c.split_to b n)

  abbrev pub copy_to_slice : ℕ → Action Bytes
  copy_to_slice n = reading (λ b. c.copy_to_slice b n)

  abbrev pub advance : ℕ → Action (Unit {0})
  advance n = reading (λ b. elim (c.advance b n) [ none ↦ none | some b' ↦ some (tt, b') ])
