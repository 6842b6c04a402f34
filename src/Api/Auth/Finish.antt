-- ===== src/Api/Auth/Finish.antt =====
-- When a client becomes ready: what `finish_authentication` does, and which steps keep the state of
-- the connection.
use pgwire.Base.{
  ◌≡◌, refl, sym, ap, ◌∙◌, Option, none, some, inl, inr, Option-cases, List, [], ◌∷◌, ◌++◌, map,
}
use pgwire.Errors.{new_error_info}
use pgwire.Messages.Backend.Reported.{from_error_info}
use pgwire.Messages.Startup.Params.{Params}
use pgwire.Messages.Backend
use pgwire.Messages.Startup.Authentication
use pgwire.Messages.Backend.{
  authentication, parameter_status, backend_key_data, error_response, PgWireBackendMessage,
}
use pgwire.Api.Query.{idle}
use pgwire.Api.Step.{Outcome, done, failed, panicked, Step, ◌>>=◌, ◌>>◌, for_each, bind-done}
use pgwire.Api.Client.{
  Client, Event, fed, flushed, closed, Sink, ready_for_query, set_state, emit, feed, flush, close,
  send,
}
use pgwire.Api.Query.Emits.{
  after, Emits, Emits-pure, Emits-then, Emits-emit, Emits-feed, Emits-flush,
}
use pgwire.Api.Auth.{
  Runtime, ServerParameterProvider, unwrap, status_messages, finish_messages, finish_authentication,
  send_all, refuse_password, authentication_failed,
}

-- The events of a start-up that succeeds, and of a refusal.
abbrev pub status_events : Params → List Event
status_events [] = []
status_events ((name, value) ∷ parameters) =
    fed (parameter_status (record { name = name; value = value })) ∷ status_events parameters

abbrev pub key_events : Runtime → List Event
key_events r =
    fed (backend_key_data (record { pid = r.process_id; secret_key = r.random_i32 }))
    ∷ fed (Backend.ready_for_query (record { status = b'I' }))
    ∷ flushed
    ∷ []

abbrev pub finish_events : Runtime → Option Params → List Event
finish_events r none = fed (authentication Authentication.auth_ok) ∷ key_events r
finish_events r (some parameters) =
    fed (authentication Authentication.auth_ok) ∷ (status_events parameters ++ key_events r)

status_messages-events :
    (r : Runtime) (parameters : Params)
    → map fed (
          status_messages (some parameters)
          ++ backend_key_data (record { pid = r.process_id; secret_key = r.random_i32 })
            ∷ idle
            ∷ [])
        ++ flushed ∷ []
      ≡ status_events parameters ++ key_events r
unfolding status_messages
status_messages-events r [] = refl
status_messages-events r ((name, value) ∷ parameters) =
    ap (λ es. fed (parameter_status (record { name = name; value = value })) ∷ es)
      (status_messages-events r parameters)

finish_messages-events :
    (r : Runtime) (o : Option Params)
    → map fed (finish_messages r o) ++ flushed ∷ [] ≡ finish_events r o
unfolding finish_messages status_messages
finish_messages-events r none = refl
finish_messages-events r (some parameters) =
    ap (λ es. fed (authentication Authentication.auth_ok) ∷ es)
      (status_messages-events r parameters)

abbrev pub refusal_events : List Event
refusal_events =
    fed (
      error_response (
        from_error_info (
          new_error_info (b'F' ∷ b'A' ∷ b'T' ∷ b'A' ∷ b'L' ∷ [])
            (b'2' ∷ b'8' ∷ b'P' ∷ b'0' ∷ b'1' ∷ []) authentication_failed)))
    ∷ closed
    ∷ []

-- A step that keeps the state of the connection wherever it comes to an end.
pub record Keeps {A : Type 0} (m : Step Client A) : Type 0 where
  pub at : (c : Client) (a : A) (c' : Client) → m c ≡ done a c' → c'.state ≡ c.state

-- A block that has come to its end has done so by its parts.
inv_after :
    {W A B : Type 0} (m : Step W A) (f : A → Step W B) (w : W) (o : Outcome W A) (b : B) (w' : W)
    → m w ≡ o
    → (m >>= f) w ≡ done b w'
    → (a : A) × (w1 : W) × (o ≡ done a w1) × (f a w1 ≡ done b w')
unfolding ◌>>=◌
inv_after m f w (done a w1) b w' h e = (a, w1, refl, (rw (h, ◌>>=◌) at e))
inv_after m f w (failed x w1) b w' h e = cc (rw (h, ◌>>=◌) at e)
inv_after m f w panicked b w' h e = cc (rw (h, ◌>>=◌) at e)

pub bind-inv :
    {W A B : Type 0} (m : Step W A) (f : A → Step W B) (w : W) (b : B) (w' : W)
    → (m >>= f) w ≡ done b w'
    → (a : A) × (w1 : W) × (m w ≡ done a w1) × (f a w1 ≡ done b w')
bind-inv m f w b w' e = inv_after m f w (m w) b w' refl e

module _ {A B : Type 0} where
  pub Keeps-bind :
      (m : Step Client A) (f : A → Step Client B)
      → Keeps m
      → ((a : A) → Keeps (f a))
      → Keeps (m >>= f)
  Keeps-bind m f hm hf = record {
    at = λ c b c' e.
        let (a, c1, first, second) = bind-inv m f c b c' e in
        (hf a).at c1 b c' second ∙ hm.at c a c1 first;
  }

  pub Keeps-then : (m : Step Client A) (k : Step Client B) → Keeps m → Keeps k → Keeps (m >> k)
  unfolding ◌>>◌
  Keeps-then m k hm hk = Keeps-bind m (λ _. k) hm (λ _. hk)

module _ ⦃s : Sink⦄ where
  Keeps-emit : (e : Event) → Keeps (emit e)
  unfolding emit
  Keeps-emit e = record {
    at = λ c a c' h. elim (Option-cases (s.refuses c.events e)) [
      | inl taken ↦
          let same : record c { events = c.events ++ e ∷ [] } ≡ c' = cc (rw (taken, emit) at h) in
          ap (λ (d : Client). d.state) (sym same)
      | inr (x, refused) ↦ cc (rw (refused, emit) at h)
    ];
  }

  pub Keeps-send : (m : PgWireBackendMessage) → Keeps (send m)
  unfolding send feed flush
  Keeps-send m = Keeps-then _ _ (Keeps-emit (fed m)) (Keeps-emit flushed)

  pub Keeps-refuse_password : Keeps refuse_password
  unfolding refuse_password feed close
  Keeps-refuse_password = Keeps-then _ _ (Keeps-emit _) (Keeps-emit closed)

unwrap-done :
    {W A : Type 0} (m : Step W A) (w : W) (a : A) (w' : W)
    → m w ≡ done a w'
    → unwrap m w ≡ done a w'
unfolding unwrap
unwrap-done m w a w' h = rw (h, unwrap)

module _ ⦃s : Sink⦄ (accepts : (es : List Event) (e : Event) → s.refuses es e ≡ none) where
  Emits-feed_all : (ms : List PgWireBackendMessage) → Emits (for_each feed ms) tt (map fed ms)
  unfolding for_each
  Emits-feed_all [] = Emits-pure tt
  Emits-feed_all (m ∷ ms) =
      Emits-then (feed m) (for_each feed ms) tt tt (Emits-feed accepts m) (Emits-feed_all ms)

  Emits-send_all :
      (ms : List PgWireBackendMessage) → Emits (send_all ms) tt (map fed ms ++ flushed ∷ [])
  unfolding send_all
  Emits-send_all ms =
      Emits-then (for_each feed ms) flush tt tt (Emits-feed_all ms) (Emits-flush accepts)

  -- `finish_authentication` sends its messages, flushes once and makes the client ready.
  pub finish_authentication-done :
      (r : Runtime) (provider : ServerParameterProvider) (c : Client)
      → finish_authentication r provider c
        ≡ done tt (record (after c (finish_events r (provider.server_parameters c))) {
          state = ready_for_query;
        })
  unfolding finish_authentication set_state ◌>>◌
  finish_authentication-done r provider c =
      let ms = finish_messages r (provider.server_parameters c) in
      bind-done (unwrap (send_all ms)) _ c tt (after c (map fed ms ++ flushed ∷ []))
        (unwrap-done (send_all ms) c tt _ ((Emits-send_all ms).at c))
      ∙ ap (λ es. done tt (record (after c es) { state = ready_for_query }))
          (finish_messages-events r (provider.server_parameters c))

  pub Emits-refuse_password : Emits refuse_password tt refusal_events
  unfolding refuse_password close
  Emits-refuse_password = Emits-then _ _ tt tt (Emits-feed accepts _) (Emits-emit accepts closed)
