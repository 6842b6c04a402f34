-- ===== src/Messages/Startup/Params.antt =====
-- The `BTreeMap<String, String>` of `Startup`: its entries in the order of the keys, which Rust
-- compares byte by byte.
pub mod Insert
use Prim.Native.Nat.{compare, Ordering}
use pgwire.Base.{ℕ, ◌≡◌, List, [], ◌∷◌, Bytes, All}

abbrev pub Params : Type 0
Params = List (Bytes × Bytes)

unfoldable pub compare_bytes : Bytes → Bytes → Ordering
compare_bytes [] [] = Ordering.eq
compare_bytes [] (b ∷ bs) = Ordering.lt
compare_bytes (a ∷ as') [] = Ordering.gt
compare_bytes (a ∷ as') (b ∷ bs) = elim (compare a b) [
  | Ordering.lt ↦ Ordering.lt
  | Ordering.eq ↦ compare_bytes as' bs
  | Ordering.gt ↦ Ordering.gt
]

unfoldable pub insert : {V : Type 0} → Bytes → V → List (Bytes × V) → List (Bytes × V)
insert k v [] = (k, v) ∷ []
insert k v ((j, w) ∷ m) = elim (compare_bytes k j) [
  | Ordering.lt ↦ (k, v) ∷ (j, w) ∷ m
  | Ordering.eq ↦ (j, v) ∷ m
  | Ordering.gt ↦ (j, w) ∷ insert k v m
]

-- Every key is greater than all keys before it.
abbrev pub IsSorted : Params → Type 0
IsSorted [] = Unit
IsSorted (e ∷ m) =
    All (λ (later : Bytes × Bytes). compare_bytes later.0 e.0 ≡ Ordering.gt) m × IsSorted m
