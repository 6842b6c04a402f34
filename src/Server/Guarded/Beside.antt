-- ===== src/Server/Guarded/Beside.antt =====
-- A server whose startup handler keeps its own state beside that of the query handlers.
use pgwire.Base.{◌≡◌, ap, subst, ◌∙◌, inl, inr, List, Bytes}
use pgwire.Errors.{PgWireError}
use pgwire.Messages.Frontend.{PgWireFrontendMessage}
use pgwire.Api.Step.{Outcome, done, failed, panicked, Step}
use pgwire.Api.Client.{Client, PgWireConnectionState, ready_for_query, Sink}
use pgwire.Server.{Handlers, process_error, serve_all}
use pgwire.Api.Preserved.{Ends, Preserves, OfClient}
use pgwire.Server.Reports.{Preserves-process_error}
use pgwire.Server.Guarded.{Unready, Leaves, Proved, serve_all-Leaves}

pub record Session (A Q : Type 0) : Type 0 where
  pub auth : A
  pub queries : Q

abbrev pub keep_queries : {A Q B : Type 0} → Q → Outcome A B → Outcome (Session A Q) B
keep_queries q (done b a) = done b (record { auth = a; queries = q })
keep_queries q (failed e a) = failed e (record { auth = a; queries = q })
keep_queries q panicked = panicked

-- A startup handler with its state, in which there is the client.
pub record Startups (A : Type 0) : Type 0 where
  pub client_state : A → PgWireConnectionState
  pub on_startup : PgWireFrontendMessage → Step A (Unit {0})
  pub on_client : Step Client (Unit {0}) → Step A (Unit {0})

-- The handlers of a server with it, whatever it does with queries.
abbrev pub with_startups :
    {A Q : Type 0} → Startups A → Handlers (Session A Q) → Handlers (Session A Q)
with_startups t others = record others {
  state = λ w. t.client_state w.auth;
  on_startup = λ m w. keep_queries w.queries (t.on_startup m w.auth);
  on_client = λ m w. keep_queries w.queries (t.on_client m w.auth);
}

Leaves-keep :
    {A Q B : Type 0} (X : Type 0) (U : A → Type 0) (q : Q) (o : Outcome A B)
    → Leaves U X o
    → Leaves (λ (w : Session A Q). U w.auth) X (keep_queries q o)
Leaves-keep X U q (done b a) h = h
Leaves-keep X U q (failed e a) h = h
Leaves-keep X U q panicked h = tt

Ends-keep :
    {A Q B : Type 0} (U : A → Type 0) (q : Q) (o : Outcome A B)
    → Ends U o
    → Ends (λ (w : Session A Q). U w.auth) (keep_queries q o)
Ends-keep U q (done b a) h = h
Ends-keep U q (failed e a) h = h
Ends-keep U q panicked h = tt

Preserves-keep :
    {A Q B : Type 0} (U : A → Type 0) (m : Step A B)
    → Preserves U m
    → Preserves (λ (w : Session A Q). U w.auth) (λ w. keep_queries w.queries (m w.auth))
Preserves-keep U m h = record { at = λ w u. Ends-keep U w.queries (m w.auth) (h.at w.auth u) }

not_ready : Unready ready_for_query → ⊥
not_ready (inl e) = cc e
not_ready (inr e) = cc e

module _ ⦃s : Sink⦄ {A Q : Type 0} (t : Startups A) (others : Handlers (Session A Q))
    (display : PgWireError → Bytes) (X : PgWireFrontendMessage → A → Type 0) (U : A → Type 0)
    (unready : (a : A) → U a → Unready (t.client_state a))
    (guarded : (m : PgWireFrontendMessage) (a : A) → U a → Leaves U (X m a) (t.on_startup m a))
    (steady : (m : Step Client (Unit {0}))
      → Preserves (OfClient Unready) m
      → Preserves U (t.on_client m)) where
  ends :
      (ms : List PgWireFrontendMessage) (o : Outcome (Session A Q) (Unit {0})) (w' : Session A Q)
      → o ≡ done tt w'
      → t.client_state w'.auth ≡ ready_for_query
      → Leaves (λ (w : Session A Q). U w.auth) (Proved (λ m (w : Session A Q). X m w.auth) ms) o
      → Proved (λ m (w : Session A Q). X m w.auth) ms
  ends ms (done _ w1) w' runs ready (inl u) =
      let same : w1 ≡ w' = cc runs in
      absurd (
        not_ready (
          subst Unready (ap (λ (w : Session A Q). t.client_state w.auth) same ∙ ready)
            (unready w1.auth u)))
  ends ms (done _ w1) w' runs ready (inr proof) = proof
  ends ms (failed e w1) w' runs ready h = cc runs
  ends ms panicked w' runs ready h = cc runs

  pub ready-Proved :
      (ms : List PgWireFrontendMessage) (w w' : Session A Q)
      → serve_all (with_startups t others) display ms w ≡ done tt w'
      → U w.auth
      → t.client_state w'.auth ≡ ready_for_query
      → Proved (λ m (v : Session A Q). X m v.auth) ms
  ready-Proved ms w w' runs u ready = ends ms _ w' runs ready (
      serve_all-Leaves (with_startups t others) display (λ m v. X m v.auth) (λ v. U v.auth)
        (λ v before. unready v.auth before)
        (λ m v before. Leaves-keep (X m v.auth) U v.queries _ (guarded m v.auth before))
        (λ e.
          Preserves-keep U _
            (steady (process_error display e) (Preserves-process_error Unready display e)))
        ms w u)
