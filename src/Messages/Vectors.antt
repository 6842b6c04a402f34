-- ===== src/Messages/Vectors.antt =====
-- The loops over counted sequences that several bodies of messages/data.rs and
-- messages/extendedquery.rs share: a count in an `i16`, then the elements.
pub mod Rules
use pgwire.Base.{
  ℕ, zero, suc, ◌%◌, ◌^◌, Option, none, some, List, [], ◌∷◌, Bytes, length, if◌then◌else◌,
  is_negative16, is_negative32, minus_one32,
}
use pgwire.Buffers.{
  BytesCrate, Action, ◌>>=◌, ◌>>◌, pure, unreachable, put_i16, put_i32, put_slice, get_i16, get_i32,
  split_to,
}

-- `for x in &xs { … }`
unfoldable pub for_each : {A : Type 0} → (A → Action (Unit {0})) → List A → Action (Unit {0})
for_each f [] = pure tt
for_each f (x ∷ xs) = do f x; for_each f xs

-- `for _ in 0..n { xs.push(…) }`
unfoldable pub read_times : {A : Type 0} → ℕ → Action A → Action (List A)
read_times zero m = pure []
read_times (suc n) m = do x ← m; xs ← read_times n m; pure (x ∷ xs)

-- `Vec::with_capacity(count as usize)`: a negative `i16` is a capacity beyond `isize::MAX`, on
-- which the standard library panics.
unfoldable pub with_capacity : ℕ → Action (Unit {0})
with_capacity count = if is_negative16 count then unreachable else pure tt

module _ ⦃c : BytesCrate⦄ where
  unfoldable pub write_vec : {A : Type 0} → (A → Action (Unit {0})) → List A → Action (Unit {0})
  write_vec f xs = do put_i16 (length xs % 2 ^ 16); for_each f xs

  unfoldable pub read_vec : {A : Type 0} → Action A → Action (List A)
  read_vec m = do count ← get_i16; with_capacity count; read_times count m

  -- A value that may be NULL: its length in an `i32`, -1 for NULL, and its bytes.
  unfoldable pub put_value : Option Bytes → Action (Unit {0})
  put_value (some v) = do put_i32 (length v % 2 ^ 32); put_slice v
  put_value none = put_i32 minus_one32

  unfoldable pub get_value : Action (Option Bytes)
  get_value = do
    len ← get_i32
    if is_negative32 len then pure none else (do v ← split_to len; pure (some v))
