-- ===== src/Buffers/Ends.antt =====
-- Actions that never run out of the fuel of their loops.
use pgwire.Base.{
  ℕ, ◌+◌, ◌≤◌, ◌<◌, ◌≡◌, refl, sym, ap, ◌∙◌, ◌≢◌, Bool, true, false, Option, none, some, [], ◌∷◌,
  Bytes, length, length-append, if◌then◌else◌, arith, take, drop, take-append-drop, length-take,
}
use native.Mathlib.Decide.{dec_lt}
use pgwire.Errors.{PgWireError}
use pgwire.Buffers.{
  BytesCrate, Reply, ok, err, panic, no_fuel, Action, ◌>>=◌, ◌>>◌, pure, raise, unreachable,
  reading, split_to, get_u8,
}
use pgwire.Buffers.Rules.{Reads-split_to, Reads-get_u8, split_to-short, get_u8-short}

pub record Ends {A : Type 0} (m : Action A) : Type 0 where
  pub at : (b : Bytes) → m b ≢ no_fuel

-- Every result of `m` leaves fewer bytes than there were.
pub record Takes {A : Type 0} (m : Action A) : Type 0 where
  pub less : (b : Bytes) (a : A) (b' : Bytes) → m b ≡ ok a b' → length b' < length b
  pub ends : (b : Bytes) → m b ≢ no_fuel

module _ {A : Type 0} where
  pub Ends-pure : (a : A) → Ends (pure a)
  unfolding pure
  Ends-pure a = record { at = λ b e. cc }

  pub Ends-raise : (e : PgWireError) → Ends (raise {A = A} e)
  unfolding raise
  Ends-raise e = record { at = λ b p. cc }

  pub Ends-unreachable : Ends (unreachable {A = A})
  unfolding unreachable
  Ends-unreachable = record { at = λ b p. cc }

  pub Ends-if : (t : Bool) (m n : Action A) → Ends m → Ends n → Ends (if t then m else n)
  Ends-if true m n hm hn = hm
  Ends-if false m n hm hn = hn

  reading-cases :
      (o : Option (A × Bytes)) (f : Bytes → Option (A × Bytes)) (b : Bytes)
      → f b ≡ o
      → reading f b ≢ no_fuel
  unfolding reading
  reading-cases none f b e p = cc (rw (e, reading) at p)
  reading-cases (some r) f b e p = cc (rw (e, reading) at p)

  pub Ends-reading : (f : Bytes → Option (A × Bytes)) → Ends (reading f)
  Ends-reading f = record { at = λ b. reading-cases (f b) f b refl }

bind_after :
    {A B : Type 0} (f : A → Action B) (r : Reply A)
    → r ≢ no_fuel
    → ((a : A) (b' : Bytes) → r ≡ ok a b' → f a b' ≢ no_fuel)
    → (m : Action A) (b : Bytes) → m b ≡ r
    → (m >>= f) b ≢ no_fuel
unfolding ◌>>=◌
bind_after f (ok a b') ne h m b e p = h a b' refl (rw (e, ◌>>=◌) at p)
bind_after f (err x b') ne h m b e p = cc (rw (e, ◌>>=◌) at p)
bind_after f panic ne h m b e p = cc (rw (e, ◌>>=◌) at p)
bind_after f no_fuel ne h m b e p = absurd (ne refl)

-- The rest of a block may use that its first action returned.
pub bind-ends :
    {A B : Type 0} (m : Action A) (f : A → Action B) (b : Bytes)
    → m b ≢ no_fuel
    → ((a : A) (b' : Bytes) → m b ≡ ok a b' → f a b' ≢ no_fuel)
    → (m >>= f) b ≢ no_fuel
bind-ends m f b hm hf = bind_after f (m b) hm hf m b refl

pub Ends-bind :
    {A B : Type 0} (m : Action A) (f : A → Action B)
    → Ends m
    → ((a : A) → Ends (f a))
    → Ends (m >>= f)
Ends-bind m f hm hf = record { at = λ b. bind-ends m f b (hm.at b) (λ a b' _. (hf a).at b') }

pub Ends-then : {A B : Type 0} (m : Action A) (k : Action B) → Ends m → Ends k → Ends (m >> k)
unfolding ◌>>◌
Ends-then m k hm hk = Ends-bind m (λ _. k) hm (λ _. hk)

pub Takes→Ends : {A : Type 0} (m : Action A) → Takes m → Ends m
Takes→Ends m h = record { at = h.ends }

pub ruleset ends_rules =
    (Ends-pure, Ends-raise, Ends-unreachable, Ends-if, Ends-reading, Ends-bind, Ends-then)

inv_after :
    {A B : Type 0} (f : A → Action B) (r : Reply A) (m : Action A) (b : Bytes) (z : B) (b' : Bytes)
    → m b ≡ r
    → (m >>= f) b ≡ ok z b'
    → (a : A) × (mid : Bytes) × (m b ≡ ok a mid) × (f a mid ≡ ok z b')
unfolding ◌>>=◌
inv_after f (ok a mid) m b z b' e p = (a, mid, e, rw (e, ◌>>=◌) at p)
inv_after f (err x mid) m b z b' e p = cc (rw (e, ◌>>=◌) at p)
inv_after f panic m b z b' e p = cc (rw (e, ◌>>=◌) at p)
inv_after f no_fuel m b z b' e p = cc (rw (e, ◌>>=◌) at p)

-- A block that returned: its first action did, and then the rest.
pub bind-inv :
    {A B : Type 0} (m : Action A) (f : A → Action B) (b : Bytes) (z : B) (b' : Bytes)
    → (m >>= f) b ≡ ok z b'
    → (a : A) × (mid : Bytes) × (m b ≡ ok a mid) × (f a mid ≡ ok z b')
bind-inv m f b z b' e = inv_after f (m b) m b z b' refl e

module _ ⦃c : BytesCrate⦄ where
  split_to-whole : (n : ℕ) (b : Bytes) → n ≤ length b → split_to n b ≡ ok (take n b) (drop n b)
  split_to-whole n b h =
      ap (split_to n) (sym (take-append-drop n b))
      ∙ (Reads-split_to (take n b) n (sym (length-take n b h))).at (drop n b)

  -- What is left after a cut.
  split_to-rest :
      (n : ℕ) (b a b' : Bytes)
      → split_to n b ≡ ok a b'
      → (n ≤ length b) × (length b' + n ≡ length b)
  split_to-rest n b a b' e = elim (dec_lt (length b) n) [
    | yes short ↦ cc (e, split_to-short n b short)
    | no enough ↦
        let left : b' ≡ drop n b = cc (e, split_to-whole n b (omega arith)) in
        (
          omega arith,
          omega (
            arith,
            ap (λ (x : Bytes). length x) left,
            ap (λ (x : Bytes). length x) (take-append-drop n b),
            length-append (take n b) (drop n b),
            length-take n b (omega arith),
          ),
        )
  ]

  pub Takes-split_to : (n : ℕ) → 0 < n → Takes (split_to n)
  Takes-split_to n h = record {
    less = λ b a b' e. omega (arith, split_to-rest n b a b' e);
    ends = (Ends-reading _).at;
  }

  get_u8-less : (b : Bytes) (n : ℕ) (b' : Bytes) → get_u8 b ≡ ok n b' → length b' < length b
  get_u8-less [] n b' e = cc (e, get_u8-short)
  get_u8-less (x ∷ b) n b' e =
      let left : b ≡ b' = cc (e, (Reads-get_u8 x).at b) in
      omega (arith, ap (λ (l : Bytes). length l) left)

  pub Takes-get_u8 : Takes get_u8
  Takes-get_u8 = record { less = get_u8-less; ends = (Ends-reading _).at }
