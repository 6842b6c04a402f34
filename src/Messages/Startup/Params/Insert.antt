-- ===== src/Messages/Startup/Params/Insert.antt =====
-- An entry with the greatest key goes to the end.
use Prim.Native.Nat.{Ordering}
use pgwire.Base.{◌≡◌, refl, ap, List, [], ◌∷◌, ◌++◌, Bytes, All}
use pgwire.Messages.Startup.Params.{Params, compare_bytes, insert, IsSorted}

pub insert-greatest :
    (k v : Bytes) (m : Params)
    → All (λ (e : Bytes × Bytes). compare_bytes k e.0 ≡ Ordering.gt) m
    → insert k v m ≡ m ++ (k, v) ∷ []
unfolding insert
insert-greatest k v [] h = refl
insert-greatest k v ((j, w) ∷ m) h =
    rw (h.0, insert) (ap (λ n. (j, w) ∷ n) (insert-greatest k v m h.1))

All-last :
    {A : Type 0} (P : A → Type 0) (xs : List A) (y : A) (ys : List A) → All P (xs ++ y ∷ ys) → P y
All-last P [] y ys h = h.0
All-last P (x ∷ xs) y ys h = All-last P xs y ys h.1

pub IsSorted-middle :
    (m : Params) (k v : Bytes) (n : Params)
    → IsSorted (m ++ (k, v) ∷ n)
    → All (λ (e : Bytes × Bytes). compare_bytes k e.0 ≡ Ordering.gt) m
IsSorted-middle [] k v n h = tt
IsSorted-middle (e ∷ m) k v n h = (
  All-last (λ (l : Bytes × Bytes). compare_bytes l.0 e.0 ≡ Ordering.gt) m (k, v) n h.0,
  IsSorted-middle m k v n h.1,
)
