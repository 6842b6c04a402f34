-- ===== src/Server/Guarded.antt =====
-- A connection is not ready before its client has proved who it is, whatever messages come.
pub mod Beside
pub mod Steps
pub mod Cleartext
pub mod Md5
pub mod ScramSteps
pub mod Scram
use pgwire.Base.{
  ◌≡◌, refl, sym, ap, subst, ◌∙◌, ◌⊎◌, inl, inr, Option, Option-cases, none, some, List, [], ◌∷◌,
  ◌++◌, Bytes,
}
use mathlib.Core.List.{Memᴰ}
use pgwire.Errors.{
  PgWireError, ErrorInfo, user_error, api_error, invalid_protocol_version, invalid_message_type,
  invalid_target_type, io_error, portal_not_found, statement_not_found, unknown_type_id,
  parameter_index_out_of_bound, parameter_type_index_out_of_bound, invalid_rust_type_for_parameter,
  failed_to_parse_parameter, invalid_scram_message, unsupported_certificate_signature_algorithm,
  user_name_required,
}
use pgwire.Messages.Frontend.{PgWireFrontendMessage}
use pgwire.Api.Step.{Outcome, done, failed, panicked, Step, ◌>>◌, ◌>>=◌, pure}
use pgwire.Api.Client.{
  Client, PgWireConnectionState, awaiting_startup, authentication_in_progress, Event, Sink, emit,
  feed, flush, close, send,
}
use pgwire.Messages.Backend.{PgWireBackendMessage}
use pgwire.Api.Query.{idle}
use pgwire.Api.Preserved.{Ends, Preserves}
use pgwire.Server.{
  Handlers, process_message, process_in, process_error, report, report_fatal, serve, serve_all,
}

-- Before authentication has succeeded.
abbrev pub Unready : PgWireConnectionState → Type 0
Unready st = (st ≡ awaiting_startup) ⊎ (st ≡ authentication_in_progress)

-- `U` holds of what the outcome leaves, or there is an `X`.
abbrev pub Leaves {ℓ} : {W A : Type 0} → (W → Type ℓ) → Type ℓ → Outcome W A → Type ℓ
Leaves U X (done a w) = U w ⊎ X
Leaves U X (failed e w) = U w ⊎ X
Leaves U X panicked = Unit

module _ {W : Type 0} (U : W → Type 0) where
  -- With an `X` nothing is asked of the outcome.
  pub Leaves-granted : {A X : Type 0} → X → (o : Outcome W A) → Leaves U X o
  Leaves-granted x (done a w) = inr x
  Leaves-granted x (failed e w) = inr x
  Leaves-granted x panicked = tt

  pub Leaves-map : {A X Y : Type 0} (f : X → Y) (o : Outcome W A) → Leaves U X o → Leaves U Y o
  Leaves-map f (done a w) (inl u) = inl u
  Leaves-map f (done a w) (inr x) = inr (f x)
  Leaves-map f (failed e w) (inl u) = inl u
  Leaves-map f (failed e w) (inr x) = inr (f x)
  Leaves-map f panicked h = tt

  bind_on :
      {A B : Type 0} (X : Type 0) (m : Step W A) (f : A → Step W B) (w : W) (o : Outcome W A)
      → m w ≡ o
      → Leaves U X o
      → ((a : A) (w' : W) → o ≡ done a w' → U w' → Leaves U X (f a w'))
      → Leaves U X ((m >>= f) w)
  unfolding ◌>>=◌
  bind_on X m f w (done a w') e (inl u) next = rw (e, ◌>>=◌) (next a w' refl u)
  bind_on X m f w (done a w') e (inr x) next = Leaves-granted x ((m >>= f) w)
  bind_on X m f w (failed er w') e left next = rw (e, ◌>>=◌) left
  bind_on X m f w panicked e left next = rw (e, ◌>>=◌) tt

  pub Leaves-bind :
      {A B : Type 0} (X : Type 0) (m : Step W A) (f : A → Step W B) (w : W)
      → Leaves U X (m w)
      → ((a : A) (w' : W) → m w ≡ done a w' → U w' → Leaves U X (f a w'))
      → Leaves U X ((m >>= f) w)
  Leaves-bind X m f w left next = bind_on X m f w (m w) refl left next

-- What a step that preserves the state leaves.
pub Leaves-kept :
    {W A : Type 0} (U : W → Type 0) (X : Type 0) (o : Outcome W A) → Ends U o → Leaves U X o
Leaves-kept U X (done a w) u = inl u
Leaves-kept U X (failed e w) u = inl u
Leaves-kept U X panicked u = tt

-- One of the messages was a proof when it came.
abbrev pub Proved :
    {W : Type 0} → (PgWireFrontendMessage → W → Type 0) → List PgWireFrontendMessage → Type 0
Proved {W} X ms = (m : PgWireFrontendMessage) × (w : W) × Memᴰ m ms × X m w

module _ ⦃s : Sink⦄ {W : Type 0} (h : Handlers W) (display : PgWireError → Bytes)
    (X : PgWireFrontendMessage → W → Type 0) (U : W → Type 0)
    (unready : (w : W) → U w → Unready (h.state w))
    (guarded : (m : PgWireFrontendMessage) (w : W) → U w → Leaves U (X m w) (h.on_startup m w))
    (steady : (e : PgWireError) → Preserves U (h.on_client (process_error display e))) where
  process_in-waiting :
      (st : PgWireConnectionState) (m : PgWireFrontendMessage) (w : W)
      → Unready st
      → process_in h st m w ≡ h.on_startup m w
  unfolding process_in
  process_in-waiting st m w (inl e) = ap (λ x. process_in h x m w) e
  process_in-waiting st m w (inr e) = ap (λ x. process_in h x m w) e

  served_on :
      (m : PgWireFrontendMessage) (w : W) (o : Outcome W (Unit {0}))
      → process_message h m w ≡ o
      → Leaves U (X m w) o
      → Leaves U (X m w) (serve h display m w)
  unfolding serve
  served_on m w (done _ w') e left = rw (e, serve) left
  served_on m w (failed x w') e (inl u) = rw (e, serve) (Leaves-kept U _ _ ((steady x).at w' u))
  served_on m w (failed x w') e (inr proof) = Leaves-granted U proof (serve h display m w)
  served_on m w panicked e left = rw (e, serve) tt

  serve-Leaves : (m : PgWireFrontendMessage) (w : W) → U w → Leaves U (X m w) (serve h display m w)
  unfolding process_message
  serve-Leaves m w u =
      served_on m w (h.on_startup m w) (process_in-waiting (h.state w) m w (unready w u))
        (guarded m w u)

  pub serve_all-Leaves :
      (ms : List PgWireFrontendMessage) (w : W)
      → U w
      → Leaves U (Proved X ms) (serve_all h display ms w)
  unfolding serve_all ◌>>◌ pure
  serve_all-Leaves [] w u = inl u
  serve_all-Leaves (m ∷ ms) w u =
      let later = serve_all-Leaves ms in
      Leaves-bind U (Proved X (m ∷ ms)) (serve h display m) (λ _. serve_all h display ms) w
        (Leaves-map U (λ x. (m, w, Memᴰ.head refl, x)) _ (serve-Leaves m w u))
        (λ _ w' e u'.
          Leaves-map U (λ (m', v, within, x). (m', v, Memᴰ.tail within, x)) _ (later w' u'))
