-- ===== src/Api/Auth/Scram/Verified.antt =====
-- How a client's final message of SCRAM is answered, against the computation of RFC 5802.
use pgwire.Base.{
  ℕ, ◌≡◌, ◌≢◌, refl, sym, ap, subst, ◌∙◌, inl, inr, Bool-cases, none, true, List, [], ◌∷◌, ◌++◌,
  Bytes, length, arith,
}
use Prim.Native.Nat.{bit_xor}
use pgwire.Errors.{invalid_scram_message}
use pgwire.Buffers
use pgwire.Buffers.{BytesCrate}
use pgwire.Text.{from_utf8_lossy}
use pgwire.Messages.Startup.Authentication.{sasl_final}
use pgwire.Messages.Startup.Passwords.{PasswordMessageFamily, SaslResponse, into_sasl_response}
use pgwire.Messages.Frontend.{password_message_family}
use pgwire.Messages.Backend.{authentication}
use pgwire.Api.Step.{Outcome, done, failed}
use pgwire.Api.Client.{Client, Event, Sink, ready_for_query}
use pgwire.Api.Query.Emits.{after, sent}
use pgwire.Api.Store.Laws.{same_name, same_name-true, same_name_refl}
use pgwire.Api.Auth.{Runtime, Password}
use pgwire.Api.Auth.Finish.{finish_events}
use pgwire.Api.Auth.Scram.{ClientFinal, without_proof, binding_mismatch}
use pgwire.Api.Auth.Scram.Parts.{comma_free}
use pgwire.Api.Auth.Scram.Final.{parse_client_final-exact}
use pgwire.Api.Auth.Scram.Handler.{
  server_first_sent, Cryptography, SaslScramAuthStartupHandler, ScramSession, server_final_success,
  server_final_error, xor, compute_channel_binding, computed_client_proof, server_verifier,
  auth_message, on_scram_message,
}
use pgwire.Api.Auth.Scram.Proof.{proved, on_scram_message-final}

-- The bytes of two sequences of one length, combined by exclusive or.
pub data Xors : Bytes → Bytes → Bytes → Type 0 where
  none_left : Xors [] [] []
  one_more :
      {a b : ℕ} {as' bs cs : Bytes} → Xors as' bs cs → Xors (a ∷ as') (b ∷ bs) (bit_xor a b ∷ cs)

xor-Xors : (as' bs : Bytes) → length as' ≡ length bs → Xors as' bs (xor as' bs)
unfolding xor
xor-Xors [] [] h = none_left
xor-Xors [] (b ∷ bs) h = absurd (omega arith)
xor-Xors (a ∷ as') [] h = absurd (omega arith)
xor-Xors (a ∷ as') (b ∷ bs) h = one_more (xor-Xors as' bs (omega arith))

Xors-xor : {as' bs cs : Bytes} → Xors as' bs cs → cs ≡ xor as' bs
unfolding xor
Xors-xor none_left = refl
Xors-xor (one_more {a = a} {b = b} more) = ap (λ t. bit_xor a b ∷ t) (Xors-xor more)

module _ (k : Cryptography) where
  -- "Client Key" and "Server Key" under the salted password.
  abbrev client_key : Bytes → Bytes
  client_key salted_password =
      k.hmac salted_password
        (b'C' ∷ b'l' ∷ b'i' ∷ b'e' ∷ b'n' ∷ b't' ∷ b' ' ∷ b'K' ∷ b'e' ∷ b'y' ∷ [])

  abbrev server_key : Bytes → Bytes
  server_key salted_password =
      k.hmac salted_password
        (b'S' ∷ b'e' ∷ b'r' ∷ b'v' ∷ b'e' ∷ b'r' ∷ b' ' ∷ b'K' ∷ b'e' ∷ b'y' ∷ [])

  -- ClientProof is ClientKey XOR ClientSignature, and is sent in base64.
  abbrev pub IsProof : Bytes → Bytes → Bytes → Type 0
  IsProof salted_password auth_msg proof =
      (raw : Bytes) × Xors (client_key salted_password)
        (k.hmac (k.digest (client_key salted_password)) auth_msg) raw
      × (proof ≡ k.base64 raw)

  module _ (long : (key message : Bytes) → length (k.hmac key message) ≡ 32)
      (salted_password auth_msg : Bytes) where
    computed_client_proof-IsProof :
        IsProof salted_password auth_msg (computed_client_proof k salted_password auth_msg)
    unfolding computed_client_proof
    computed_client_proof-IsProof = (
      _,
      xor-Xors (client_key salted_password) _
          (long salted_password _ ∙ sym (long (k.digest (client_key salted_password)) auth_msg)),
      refl,
    )

    IsProof-computed_client_proof :
        (proof : Bytes)
        → IsProof salted_password auth_msg proof
        → computed_client_proof k salted_password auth_msg ≡ proof
    unfolding computed_client_proof
    IsProof-computed_client_proof proof (raw, xors, sent_as) =
        sym (sent_as ∙ ap k.base64 (Xors-xor xors))

module _ (k : Cryptography) ⦃c : BytesCrate⦄ ⦃s : Sink⦄
    (accepts : (es : List Event) (e : Event) → s.refuses es e ≡ none)
    (long : (key message : Bytes) → length (k.hmac key message) ≡ 32) (r : Runtime)
    (nonce_bytes : Bytes) (h : SaslScramAuthStartupHandler) (d : Client) (pass : Password)
    (prefix partial binding nonce proof : Bytes) where
  -- The final message without its proof, "c=" and "r=", and the text that is signed.
  abbrev pub unproved : Bytes
  unproved = b'c' ∷ b'=' ∷ (binding ++ b',' ∷ b'r' ∷ b'=' ∷ nonce)

  abbrev signed : Bytes
  signed = partial ++ b',' ∷ unproved

  -- The session before, and after a client is told "v=" and the server's signature, or "e=" and
  -- that its proof is wrong.
  abbrev before : ScramSession
  before = record { client = d; state = server_first_sent pass prefix partial }

  abbrev told : Bytes → Client
  told data_bytes = after d (sent (authentication (sasl_final data_bytes)))

  abbrev accepted : Client
  accepted = told (b'v' ∷ b'=' ∷ k.base64 (k.hmac (server_key k pass.password) signed))

  -- How the message is answered.
  pub data Verdict : Outcome ScramSession (Unit {0}) → Type 0 where
    unbound :
        binding ≢ compute_channel_binding k h prefix
        → Verdict (failed (invalid_scram_message binding_mismatch) before)
    unproven :
        binding ≡ compute_channel_binding k h prefix
        → (IsProof k pass.password signed proof → ⊥)
        → Verdict (
            done tt (record before {
              client = told (
                  b'e' ∷ b'=' ∷ b'i' ∷ b'n' ∷ b'v' ∷ b'a' ∷ b'l' ∷ b'i' ∷ b'd' ∷ b'-' ∷ b'p' ∷ b'r'
                  ∷ b'o' ∷ b'o' ∷ b'f' ∷ []);
            }))
    proven :
        binding ≡ compute_channel_binding k h prefix
        → IsProof k pass.password signed proof
        → Verdict (
            done tt (record before {
              client =
                  record (after accepted
                    (finish_events r (h.parameter_provider.server_parameters accepted))) {
                      state = ready_for_query;
                    };
            }))

  abbrev final : ClientFinal
  final = record { channel_binding = binding; nonce = nonce; proof = proof }

  proved-Verdict :
      binding ≡ compute_channel_binding k h prefix
      → Verdict (proved k accepts r nonce_bytes h before pass.password signed proof)
  unfolding server_final_success server_final_error server_verifier
  proved-Verdict bound =
      elim (Bool-cases (same_name (computed_client_proof k pass.password signed) proof)) [
        | inl equal ↦ rw (equal) (
            proven bound (
              subst (λ t. IsProof k pass.password signed t) (same_name-true _ proof equal)
                (computed_client_proof-IsProof k long pass.password signed)))
        | inr other ↦ rw (other) (
            unproven bound (λ is.
              let same = IsProof-computed_client_proof k long pass.password signed proof is in
              cc (sym other ∙ ap (λ t. same_name t proof) same ∙ same_name_refl proof)))
      ]

  -- With SCRAM, after the server's first message, a client's final message that can be read and is
  -- c=…,r=…,p=…, with no comma in the channel binding and the nonce, fails with an error that
  -- changes nothing if its channel binding is not the computed one. If it is, and the proof is
  -- ClientKey XOR ClientSignature of RFC 5802 over the messages so far and this one without its
  -- proof, in base64, the client is told ServerSignature and is ready; if the proof is another, it
  -- is told so and nothing else changes. HMAC-SHA-256 gives 32 bytes and the sink accepts
  -- everything.
  pub on_scram_message-Verdict :
      (msg : PasswordMessageFamily) (resp : SaslResponse) (left : Bytes)
      → into_sasl_response msg ≡ Buffers.ok resp left
      → from_utf8_lossy resp.payload ≡ unproved ++ b',' ∷ b'p' ∷ b'=' ∷ proof
      → comma_free binding ≡ true
      → comma_free nonce ≡ true
      → Verdict (on_scram_message k r nonce_bytes h (password_message_family msg) before)
  unfolding auth_message without_proof
  on_scram_message-Verdict msg resp left reads text binding_whole nonce_whole =
      let parses =
        (parse_client_final-exact (from_utf8_lossy resp.payload) final).1
          (text, binding_whole, nonce_whole) in
      subst (λ o. Verdict o)
        (sym (
          on_scram_message-final k accepts r nonce_bytes h d pass prefix partial msg resp left final
            reads parses))
        (elim (Bool-cases (same_name binding (compute_channel_binding k h prefix))) [
          | inl bound ↦ rw (bound) (proved-Verdict (same_name-true binding _ bound))
          | inr other ↦ rw (other) (
              unbound (λ same. cc (
                sym other
                ∙ ap (λ t. same_name t (compute_channel_binding k h prefix)) same
                ∙ same_name_refl (compute_channel_binding k h prefix))))
        ])
