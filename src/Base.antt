-- ===== src/Base.antt =====
-- The names that the other modules share: those of the libraries, passed on, and those of the
-- two children. A byte is a natural number, and a byte sequence a list of them.
mod Tests
mod Lists
pub use Tests.*
pub use Lists.*
pub use Prim.Native.Nat.{ℕ, zero, suc, ◌+◌, ◌-◌, ◌*◌, ◌/◌, ◌%◌, ◌^◌, ◌≤◌, ◌<◌}
pub use mathlib.Core.Path.{◌≡◌, refl, sym, ap, ◌∙◌, subst}
pub use mathlib.Core.Logic.{◌≢◌, ◌↔◌, ◌⊎◌, inl, inr}
pub use mathlib.Core.Bool.{Bool, true, false, ◌&&◌, ◌||◌}
pub use mathlib.Core.Option.{Option, none, some}
pub use mathlib.Core.List.{List, [], ◌∷◌, ◌++◌, map, append-nil, append_assoc}
pub use native.Mathlib.Omega.{arith}

-- The content of a `BytesMut`, a `Bytes`, a `Vec<u8>` or a `String`.
abbrev pub Bytes : Type 0
Bytes = List ℕ

-- `i32` and `u32` are bit patterns below 2 ^ 32, `i16` and `u16` below 2 ^ 16.
abbrev pub is_negative32 : ℕ → Bool
is_negative32 w = leb (2 ^ 31) w

abbrev pub is_negative16 : ℕ → Bool
is_negative16 w = leb (2 ^ 15) w

-- `w as usize` for an `i32` on a 64-bit target: the sign is extended.
abbrev pub i32_as_usize : ℕ → ℕ
i32_as_usize w = if is_negative32 w then w + (2 ^ 64 - 2 ^ 32) else w

-- `-1` as an `i32`.
abbrev pub minus_one32 : ℕ
minus_one32 = 2 ^ 32 - 1

-- The big-endian bytes of a word.
abbrev pub be16 : ℕ → Bytes
be16 w = (w / 2 ^ 8 % 2 ^ 8) ∷ (w % 2 ^ 8) ∷ []

abbrev pub be32 : ℕ → Bytes
be32 w = (w / 2 ^ 24 % 2 ^ 8) ∷ (w / 2 ^ 16 % 2 ^ 8) ∷ (w / 2 ^ 8 % 2 ^ 8) ∷ (w % 2 ^ 8) ∷ []
