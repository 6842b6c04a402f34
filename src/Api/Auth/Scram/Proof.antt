-- ===== src/Api/Auth/Scram/Proof.antt =====
-- What the handler of SCRAM does with a client's final message.
use pgwire.Base.{◌≡◌, refl, ◌∙◌, inl, inr, Bool-cases, none, List, Bytes, if◌then◌else◌}
use pgwire.Errors.{invalid_scram_message}
use pgwire.Buffers
use pgwire.Buffers.{BytesCrate}
use pgwire.Text.{from_utf8_lossy}
use pgwire.Messages.Startup.Authentication.{sasl_final}
use pgwire.Messages.Startup.Passwords.{PasswordMessageFamily, SaslResponse, into_sasl_response}
use pgwire.Messages.Frontend.{password_message_family}
use pgwire.Messages.Backend.{authentication}
use pgwire.Api.Step.{Outcome, done, failed, Step, ◌>>◌, ◌>>=◌, pure, raise, bind-done}
use pgwire.Api.Client.{Client, Event, Sink, ready_for_query, send}
use pgwire.Api.Statements.{ok}
use pgwire.Api.Query.{lift}
use pgwire.Api.Query.Emits.{after, sent, Emits-send}
use pgwire.Api.Store.Laws.{same_name}
use pgwire.Api.Auth.{Runtime, Password, coerced, finish_authentication}
use pgwire.Api.Auth.Finish.{finish_events, finish_authentication-done}
use pgwire.Api.Auth.Scram.{
  ClientFinal, parse_client_final, validate_channel_binding, binding_mismatch,
}
use pgwire.Api.Auth.Scram.Handler.{
  server_first_sent, Cryptography, SaslScramAuthStartupHandler, ScramSession, server_final_success,
  server_final_error, invalid_proof, on_scram_client, compute_channel_binding,
  computed_client_proof, server_verifier, auth_message, check_proof, on_client_final,
  on_scram_message,
}

module _ (k : Cryptography) ⦃c : BytesCrate⦄ ⦃s : Sink⦄
    (accepts : (es : List Event) (e : Event) → s.refuses es e ≡ none) (r : Runtime)
    (nonce_bytes : Bytes) (h : SaslScramAuthStartupHandler) where
  pub on_scram_client-done :
      {A : Type 0} (m : Step Client A) (w : ScramSession) (a : A) (d : Client)
      → m w.client ≡ done a d
      → on_scram_client m w ≡ done a (record w { client = d })
  unfolding on_scram_client
  on_scram_client-done m w a d e = rw (e, on_scram_client)

  -- The client that is told the server's signature.
  abbrev pub answered : Client → Bytes → Bytes → Client
  answered d salted_password auth_msg = after d (
      sent (
        authentication
          (sasl_final (server_final_success (server_verifier k salted_password auth_msg)))))

  -- What the comparison of the proofs leads to.
  abbrev pub proved : ScramSession → Bytes → Bytes → Bytes → Outcome ScramSession (Unit {0})
  proved w salted_password auth_msg proof =
      if same_name (computed_client_proof k salted_password auth_msg) proof
      then done tt (record w {
        client =
            record (after (answered w.client salted_password auth_msg) (
              finish_events r (
                h.parameter_provider.server_parameters
                  (answered w.client salted_password auth_msg)))) { state = ready_for_query };
      })
      else done tt (record w {
        client =
            after w.client (sent (authentication (sasl_final (server_final_error invalid_proof))));
      })

  check_proof-proved :
      (w : ScramSession) (salted_password auth_msg proof : Bytes)
      → check_proof k r nonce_bytes h salted_password auth_msg proof w
        ≡ proved w salted_password auth_msg proof
  unfolding check_proof ◌>>◌
  check_proof-proved w salted_password auth_msg proof =
      let same = same_name (computed_client_proof k salted_password auth_msg) proof in
      elim (Bool-cases same) [
        | inl equal ↦ rw (equal) (
            on_scram_client-done
              (do
                send (
                    authentication (
                      sasl_final
                        (server_final_success (server_verifier k salted_password auth_msg))))
                finish_authentication r h.parameter_provider)
              w tt _
              (bind-done
                  (send (
                    authentication (
                      sasl_final
                        (server_final_success (server_verifier k salted_password auth_msg)))))
                  (λ _. finish_authentication r h.parameter_provider) w.client tt
                  (answered w.client salted_password auth_msg) ((Emits-send accepts _).at w.client)
                ∙ finish_authentication-done accepts r h.parameter_provider
                    (answered w.client salted_password auth_msg)))
        | inr other ↦ rw (other) (
            on_scram_client-done
              (send (authentication (sasl_final (server_final_error invalid_proof)))) w tt _
              ((Emits-send accepts _).at w.client))
      ]

  -- With SCRAM, after the server's first message, a client's final message that can be read and
  -- parsed fails with an error that changes nothing if its channel binding is not the computed
  -- one. If it is, and the proof is the computed one, the client is told the server's signature
  -- and is ready; if the proof is another, it is told so and nothing else changes. The sink
  -- accepts everything.
  pub on_scram_message-final :
      (d : Client) (pass : Password) (prefix partial : Bytes) (msg : PasswordMessageFamily)
      (resp : SaslResponse) (left : Bytes) (m : ClientFinal)
      → into_sasl_response msg ≡ Buffers.ok resp left
      → parse_client_final (from_utf8_lossy resp.payload) ≡ ok m
      → on_scram_message k r nonce_bytes h
          (password_message_family msg)
          (record { client = d; state = server_first_sent pass prefix partial })
        ≡ (let w : ScramSession = record {
          client = d;
          state = server_first_sent pass prefix partial;
        } in
            if same_name m.channel_binding (compute_channel_binding k h prefix)
            then proved w pass.password (auth_message k partial m) m.proof
            else failed (invalid_scram_message binding_mismatch) w)
  unfolding on_scram_message on_client_final validate_channel_binding lift pure raise ◌>>◌ ◌>>=◌
  on_scram_message-final d pass prefix partial msg resp left m reads parses =
      let w : ScramSession = record { client = d; state = server_first_sent pass prefix partial } in
      bind-done (on_scram_client (coerced (into_sasl_response msg))) _ w resp w (
        on_scram_client-done (coerced (into_sasl_response msg)) w resp d
          (unfold coerced pure in rw (reads, coerced)))
      ∙ bind-done (lift (parse_client_final (from_utf8_lossy resp.payload))) _ w m w
          (rw (parses, lift))
      ∙ elim (Bool-cases (same_name m.channel_binding (compute_channel_binding k h prefix))) [
        | inl bound ↦
            rw (bound) (check_proof-proved w pass.password (auth_message k partial m) m.proof)
        | inr other ↦ rw (other) refl
      ]
