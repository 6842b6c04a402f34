-- ===== src/Api/Preserved.antt =====
-- Predicates on a state that a step preserves, with a rule for each way to build a step.
use pgwire.Base.{◌≡◌, refl, Option-cases, inl, inr, List, [], ◌∷◌}
use pgwire.Errors.{PgWireError}
use pgwire.Buffers
use pgwire.Buffers.{Reply}
use pgwire.Messages.Backend.{PgWireBackendMessage}
use pgwire.Api.Step.{Outcome, done, failed, panicked, Step, ◌>>◌, ◌>>=◌, pure, raise, for_each}
use pgwire.Api.Client.{
  Client, PgWireConnectionState, Event, Sink, emit, feed, flush, close, send, set_state,
}
use pgwire.Api.Statements.{PgWireResult, ok, err}
use pgwire.Api.Query.{lift}
use pgwire.Api.Auth.{coerced, refuse_password}

-- What an outcome leaves.
abbrev pub Ends : {W A : Type 0} → (W → Type 0) → Outcome W A → Type 0
Ends P (done a w) = P w
Ends P (failed e w) = P w
Ends P panicked = Unit

pub record Preserves {W A : Type 0} (P : W → Type 0) (m : Step W A) : Type 0 where
  pub at : (w : W) → P w → Ends P (m w)

module _ {W : Type 0} (P : W → Type 0) where
  Ends-bind :
      {A B : Type 0} (m : Step W A) (f : A → Step W B) (w : W) (o : Outcome W A)
      → m w ≡ o
      → Ends P o
      → ((a : A) (w' : W) → P w' → Ends P (f a w'))
      → Ends P ((m >>= f) w)
  unfolding ◌>>=◌
  Ends-bind m f w (done a w') e h next = rw (e, ◌>>=◌) (next a w' h)
  Ends-bind m f w (failed x w') e h next = rw (e, ◌>>=◌) h
  Ends-bind m f w panicked e h next = rw (e, ◌>>=◌) tt

  pub Preserves-bind :
      {A B : Type 0} (m : Step W A) (f : A → Step W B)
      → Preserves P m
      → ((a : A) → Preserves P (f a))
      → Preserves P (m >>= f)
  Preserves-bind m f hm hf = record {
    at = λ w h. Ends-bind m f w (m w) refl (hm.at w h) (λ a w' k. (hf a).at w' k);
  }

  pub Preserves-then :
      {A B : Type 0} (m : Step W A) (k : Step W B)
      → Preserves P m
      → Preserves P k
      → Preserves P (m >> k)
  unfolding ◌>>◌
  Preserves-then m k hm hk = Preserves-bind m (λ _. k) hm (λ _. hk)

  pub Preserves-pure : {A : Type 0} (a : A) → Preserves P (pure a)
  unfolding pure
  Preserves-pure a = record { at = λ w h. h }

  pub Preserves-raise : {A : Type 0} (e : PgWireError) → Preserves {A = A} P (raise e)
  unfolding raise
  Preserves-raise e = record { at = λ w h. h }

  pub Preserves-lift : {A : Type 0} (result : PgWireResult A) → Preserves P (lift result)
  unfolding lift pure raise
  Preserves-lift (ok a) = record { at = λ w h. h }
  Preserves-lift (err e) = record { at = λ w h. h }

  pub Preserves-for_each :
      {A : Type 0} (f : A → Step W (Unit {0})) (xs : List A)
      → ((a : A) → Preserves P (f a))
      → Preserves P (for_each f xs)
  unfolding for_each
  Preserves-for_each f [] hf = Preserves-pure tt
  Preserves-for_each f (x ∷ xs) hf =
      Preserves-then (f x) (for_each f xs) (hf x) (Preserves-for_each f xs hf)

-- Predicates on the state of a connection: a message that is sent does not change it.
module _ (P : PgWireConnectionState → Type 0) where
  abbrev pub OfClient : Client → Type 0
  OfClient c = P c.state

  pub Preserves-set_state : (st : PgWireConnectionState) → P st → Preserves OfClient (set_state st)
  unfolding set_state
  Preserves-set_state st h = record { at = λ c _. h }

  pub Preserves-coerced : {A : Type 0} (reply : Reply A) → Preserves OfClient (coerced reply)
  unfolding coerced pure
  Preserves-coerced (Buffers.ok a b) = record { at = λ c h. h }
  Preserves-coerced (Buffers.err e b) = record { at = λ c h. h }
  Preserves-coerced Buffers.panic = record { at = λ c h. tt }
  Preserves-coerced Buffers.no_fuel = record { at = λ c h. tt }

  module _ ⦃s : Sink⦄ where
    Preserves-emit : (e : Event) → Preserves OfClient (emit e)
    unfolding emit
    Preserves-emit e = record {
      at = λ c h. elim (Option-cases (s.refuses c.events e)) [
        | inl taken ↦ rw (taken, emit) h
        | inr (x, refused) ↦ rw (refused, emit) h
      ];
    }

    pub Preserves-feed : (m : PgWireBackendMessage) → Preserves OfClient (feed m)
    unfolding feed
    Preserves-feed m = Preserves-emit _

    pub Preserves-flush : Preserves OfClient flush
    unfolding flush
    Preserves-flush = Preserves-emit _

    pub Preserves-close : Preserves OfClient close
    unfolding close
    Preserves-close = Preserves-emit _

    pub Preserves-send : (m : PgWireBackendMessage) → Preserves OfClient (send m)
    unfolding send
    Preserves-send m = Preserves-then OfClient (feed m) flush (Preserves-feed m) Preserves-flush

    pub Preserves-refuse_password : Preserves OfClient refuse_password
    unfolding refuse_password
    Preserves-refuse_password = Preserves-then OfClient _ _ (Preserves-feed _) Preserves-close
