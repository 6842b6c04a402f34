-- ===== src/Api/Step.antt =====
-- Calls that change a state and may fail or panic: an `async fn` that returns a `PgWireResult`,
-- run to its end.
use pgwire.Base.{◌≡◌, List, [], ◌∷◌}
use pgwire.Errors.{PgWireError}

-- `PgWireResult<A>`, or a panic, with the state that is left.
pub data Outcome (W A : Type 0) : Type 0 where
  done : A → W → Outcome W A
  failed : PgWireError → W → Outcome W A
  panicked : Outcome W A

abbrev pub Step : Type 0 → Type 0 → Type 0
Step W A = W → Outcome W A

infixl 5 ◌>>=◌ ◌>>◌
unfoldable pub ◌>>=◌ : {W A B : Type 0} → Step W A → (A → Step W B) → Step W B
◌>>=◌ m f w = elim (m w) [ done a w' ↦ f a w' | failed e w' ↦ failed e w' | panicked ↦ panicked ]

unfoldable pub ◌>>◌ : {W A B : Type 0} → Step W A → Step W B → Step W B
unfolding ◌>>=◌
m >> k = m >>= λ _. k

module _ {W A : Type 0} where
  unfoldable pub pure : A → Step W A
  pure a w = done a w

  unfoldable pub raise : PgWireError → Step W A
  raise e w = failed e w

-- `for x in xs { … }`
unfoldable pub for_each : {W A : Type 0} → (A → Step W (Unit {0})) → List A → Step W (Unit {0})
for_each f [] = pure tt
for_each f (x ∷ xs) = do f x; for_each f xs

-- One step of a block.
module _ {W A B : Type 0} (m : Step W A) (f : A → Step W B) (w : W) where
  pub bind-done : (a : A) (w' : W) → m w ≡ done a w' → (m >>= f) w ≡ f a w'
  unfolding ◌>>=◌
  bind-done a w' h = rw (h, ◌>>=◌)

  pub bind-failed : (e : PgWireError) (w' : W) → m w ≡ failed e w' → (m >>= f) w ≡ failed e w'
  unfolding ◌>>=◌
  bind-failed e w' h = rw (h, ◌>>=◌)

  pub bind-panicked : m w ≡ panicked → (m >>= f) w ≡ panicked
  unfolding ◌>>=◌
  bind-panicked h = rw (h, ◌>>=◌)
