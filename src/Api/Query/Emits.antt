-- ===== src/Api/Query/Emits.antt =====
-- What a step asks of a sink that accepts everything, as a predicate with a rule for each way to
-- build a step, and what the helpers of the handlers send.
use pgwire.Base.{
  ℕ, suc, subst, ◌+◌, ◌≡◌, sym, ap, ◌∙◌, none, List, [], ◌∷◌, ◌++◌, Bytes, append-nil, append_assoc,
  map, All, length, arith,
}
use pgwire.Errors.{PgWireError, usize_to_string}
use pgwire.Api.Results.{tag_string, new_for_query, from_tag}
use pgwire.Messages.Data.{DataRow}
use pgwire.Messages.Backend.{PgWireBackendMessage, command_complete, data_row}
use pgwire.Api.Step.{done, failed, Step, ◌>>=◌, ◌>>◌, pure, raise, for_each, bind-done, bind-failed}
use pgwire.Api.Client.{Client, Event, fed, flushed, Sink, emit, feed, flush, send}
use pgwire.Api.Statements.{PgWireResult, ok, err}
use pgwire.Api.Query.{send_rows}

-- The client with more events.
abbrev pub after : Client → List Event → Client
after c es = record c { events = c.events ++ es }

-- From every client, `m` ends with `a` and has asked for `es`.
pub record Emits {A : Type 0} (m : Step Client A) (a : A) (es : List Event) : Type 0 where
  pub at : (c : Client) → m c ≡ done a (after c es)

-- `m` fails with `e` after it has asked for `es`.
pub record Fails {A : Type 0} (m : Step Client A) (e : PgWireError) (es : List Event) : Type 0 where
  pub at : (c : Client) → m c ≡ failed e (after c es)

plus_zero : (n : ℕ) → n + 0 ≡ n
plus_zero n = omega arith

zero_plus : (n : ℕ) → 0 + n ≡ n
zero_plus n = omega arith

plus_suc : (n k : ℕ) → n + 1 + k ≡ n + suc k
plus_suc n k = omega arith

pub after-nil : (c : Client) → after c [] ≡ c
after-nil c = ap (λ es. record c { events = es }) (append-nil c.events)

pub after-append : (c : Client) (es fs : List Event) → after (after c es) fs ≡ after c (es ++ fs)
after-append c es fs = ap (λ gs. record c { events = gs }) (append_assoc c.events es fs)

pub Emits-pure : {A : Type 0} (a : A) → Emits (pure a) a []
unfolding pure
Emits-pure a = record { at = λ c. ap (done a) (sym (after-nil c)) }

module _ {A B : Type 0} where
  pub Emits-bind :
      (m : Step Client A) (f : A → Step Client B) {es fs : List Event} (a : A) (b : B)
      → Emits m a es
      → Emits (f a) b fs
      → Emits (m >>= f) b (es ++ fs)
  Emits-bind m f {es = es} {fs = fs} a b hm hf = record {
    at = λ c.
        bind-done m f c a (after c es) (hm.at c)
        ∙ hf.at (after c es)
        ∙ ap (done b) (after-append c es fs);
  }

  pub Fails-bind :
      (m : Step Client A) (f : A → Step Client B) {es fs : List Event} (a : A) (e : PgWireError)
      → Emits m a es
      → Fails (f a) e fs
      → Fails (m >>= f) e (es ++ fs)
  Fails-bind m f {es = es} {fs = fs} a e hm hf = record {
    at = λ c.
        bind-done m f c a (after c es) (hm.at c)
        ∙ hf.at (after c es)
        ∙ ap (failed e) (after-append c es fs);
  }

  pub Fails-first :
      (m : Step Client A) (f : A → Step Client B) {es : List Event} (e : PgWireError)
      → Fails m e es
      → Fails (m >>= f) e es
  Fails-first m f {es = es} e hm = record { at = λ c. bind-failed m f c e (after c es) (hm.at c) }

  pub Emits-then :
      (m : Step Client A) (k : Step Client B) {es fs : List Event} (a : A) (b : B)
      → Emits m a es
      → Emits k b fs
      → Emits (m >> k) b (es ++ fs)
  unfolding ◌>>◌
  Emits-then m k a b hm hk = Emits-bind m (λ _. k) a b hm hk

pub Fails-raise : {A : Type 0} (e : PgWireError) → Fails {A = A} (raise e) e []
unfolding raise
Fails-raise e = record { at = λ c. ap (failed e) (sym (after-nil c)) }

abbrev pub flat_events : {A : Type 0} → (A → List Event) → List A → List Event
flat_events f [] = []
flat_events f (x ∷ xs) = f x ++ flat_events f xs

pub Emits-for_each :
    {A : Type 0} (P : A → Type 0) (f : A → Step Client (Unit {0})) (g : A → List Event)
    (xs : List A)
    → ((x : A) → P x → Emits (f x) tt (g x))
    → All P xs
    → Emits (for_each f xs) tt (flat_events g xs)
unfolding for_each
Emits-for_each P f g [] h hs = Emits-pure tt
Emits-for_each P f g (x ∷ xs) h hs =
    Emits-then (f x) (for_each f xs) tt tt (h x hs.0) (Emits-for_each P f g xs h hs.1)

-- A message that is sent: it is fed, and the sink is flushed.
abbrev pub sent : PgWireBackendMessage → List Event
sent m = fed m ∷ flushed ∷ []

-- "SELECT" and a number of rows.
abbrev select_tag : ℕ → Bytes
select_tag n = b'S' ∷ b'E' ∷ b'L' ∷ b'E' ∷ b'C' ∷ b'T' ∷ b' ' ∷ usize_to_string n

abbrev pub select_events : ℕ → List Event
select_events n = sent (command_complete (record { tag = select_tag n }))

abbrev pub row_events : List DataRow → List Event
row_events rows = flat_events (λ row. sent (data_row row)) rows

module _ ⦃s : Sink⦄ (accepts : (es : List Event) (e : Event) → s.refuses es e ≡ none) where
  pub Emits-emit : (e : Event) → Emits (emit e) tt (e ∷ [])
  unfolding emit
  Emits-emit e = record { at = λ c. rw (accepts c.events e, emit) }

  pub Emits-feed : (m : PgWireBackendMessage) → Emits (feed m) tt (fed m ∷ [])
  unfolding feed
  Emits-feed m = Emits-emit (fed m)

  pub Emits-flush : Emits flush tt (flushed ∷ [])
  unfolding flush
  Emits-flush = Emits-emit flushed

  pub Emits-send : (m : PgWireBackendMessage) → Emits (send m) tt (sent m)
  unfolding send
  Emits-send m = Emits-then (feed m) flush tt tt (Emits-feed m) Emits-flush

  pub Emits-send_rows :
      (n : ℕ) (rows : List DataRow)
      → Emits (send_rows n (map ok rows)) (n + length rows) (row_events rows)
  unfolding send_rows
  Emits-send_rows n [] = rw (plus_zero n) (Emits-pure n)
  Emits-send_rows n (row ∷ rows) =
      subst (λ k. Emits (send_rows n (map ok (row ∷ rows))) k (row_events (row ∷ rows)))
        (plus_suc n (length rows))
        (Emits-then (send (data_row row)) (send_rows (n + 1) (map ok rows)) tt (n + 1 + length rows)
          (Emits-send (data_row row)) (Emits-send_rows (n + 1) rows))

  pub Emits-send_all_rows :
      (rows : List DataRow) → Emits (send_rows 0 (map ok rows)) (length rows) (row_events rows)
  Emits-send_all_rows rows =
      subst (λ k. Emits (send_rows 0 (map ok rows)) k (row_events rows)) (zero_plus (length rows))
        (Emits-send_rows 0 rows)

  -- The end of a response is tagged as a SELECT of so many rows.
  pub Emits-select :
      (n : ℕ) → Emits (send (command_complete (from_tag (new_for_query n)))) tt (select_events n)
  unfolding from_tag tag_string new_for_query
  Emits-select n = Emits-send (command_complete (record { tag = select_tag n }))

  -- A row that cannot be produced ends the response after the rows before it.
  pub Fails-send_rows :
      (n : ℕ) (rows : List DataRow) (e : PgWireError) (rest : List (PgWireResult DataRow))
      → Fails (send_rows n (map ok rows ++ err e ∷ rest)) e (row_events rows)
  unfolding send_rows ◌>>◌
  Fails-send_rows n [] e rest = Fails-raise e
  Fails-send_rows n (row ∷ rows) e rest =
      Fails-bind (send (data_row row)) (λ _. send_rows (n + 1) (map ok rows ++ err e ∷ rest)) tt e
        (Emits-send (data_row row)) (Fails-send_rows (n + 1) rows e rest)
