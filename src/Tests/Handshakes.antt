-- ===== src/Tests/Handshakes.antt =====
-- A client that goes through SCRAM, from its startup packet on.
use pgwire.Base.{◌+◌, ◌≡◌, refl, ap, ◌∙◌, none, some, [], ◌∷◌, ◌++◌, Bytes, map, arith}
use pgwire.Buffers
use pgwire.Buffers.Standard.{standard}
use pgwire.Text.{from_utf8_lossy}
use pgwire.Text.Lossy.{from_utf8_lossy-text}
use pgwire.Text.Ascii.{is_ascii, is_ascii-IsCstring}
use pgwire.Messages.Startup.Passwords.{
  raw, payload_length, SaslInitialResponse, SaslResponse, into_sasl_initial_response,
  into_sasl_response, sasl_initial_response, sasl_initial_response_message, sasl_response_message,
}
use pgwire.Messages.Startup.Passwords.RoundTrip.{
  family_body, into_sasl_initial_response-raw, into_sasl_response-raw,
}
use pgwire.Messages.Frontend.{startup, password_message_family}
use pgwire.Api.Step.{done, ◌>>◌}
use pgwire.Api.Client.{ready_for_query}
use pgwire.Api.Statements.{ok}
use pgwire.Api.Query.Emits.{after}
use pgwire.Api.Auth.Finish.{finish_events}
use pgwire.Api.Auth.Scram.{
  splitn, break_comma, strip_prefix, is_some, parse_client_first, ClientFinal, parse_client_final,
  bare, channel_binding, server_first_message, without_proof,
}
use pgwire.Api.Auth.Scram.Handler.{
  Cryptography, make_scram, server_first_sent, read_client_first, compute_channel_binding,
  or_no_signature, computed_client_proof, random_nonce, xor, auth_message, on_scram_message,
}
use pgwire.Api.Auth.Scram.Proof.{answered}
use pgwire.Api.Auth.Scram.Login.{continued, partial, scram-login}
use pgwire.Tests.Standins.{open_sink}
use pgwire.Tests.Sessions.{runtime, new_comer, hello}
use pgwire.Tests.Scram.{first_text, first, stored, with_scram, parse_first}

-- A cryptography whose base64 has no commas, and for which the proof of this client is text.
abbrev shifted : Cryptography
shifted = record {
  hmac = λ key message. key ++ message;
  digest = λ _. [];
  base64 = λ b. map (λ x. x + 1) b;
}

abbrev to_begin : SaslInitialResponse
to_begin = record { auth_method = b'S' ∷ []; payload = some first_text }

begin_read :
    into_sasl_initial_response (raw (family_body (sasl_initial_response to_begin)))
    ≡ Buffers.ok to_begin []
begin_read =
    into_sasl_initial_response-raw to_begin
      (is_ascii-IsCstring (b'S' ∷ []) (unfold is_ascii in refl)) (omega arith)
      (unfold sasl_initial_response_message payload_length in omega arith)

begin_parsed : read_client_first (some first_text) ≡ ok first
unfolding read_client_first
begin_parsed =
    ap (λ t. parse_client_first t)
      (from_utf8_lossy-text first_text
        (is_ascii-IsCstring first_text (unfold is_ascii in refl)).text)
    ∙ parse_first

abbrev final : ClientFinal
final = record {
  channel_binding = b'o' ∷ b'-' ∷ b'-' ∷ [];
  nonce = b'f' ∷ b'y' ∷ b'k' ∷ b'o' ∷ [];
  proof = 106 ∷ 127 ∷ 65 ∷ 28 ∷ 89 ∷ 9 ∷ 14 ∷ 76 ∷ 37 ∷ 74 ∷ 12 ∷ [];
}

-- "c=o--,r=fyko,p=" and the proof
abbrev final_text : Bytes
final_text =
    b'c' ∷ b'=' ∷ b'o' ∷ b'-' ∷ b'-' ∷ b',' ∷ b'r' ∷ b'=' ∷ b'f' ∷ b'y' ∷ b'k' ∷ b'o' ∷ b',' ∷ b'p'
    ∷ b'=' ∷ final.proof

abbrev to_end : SaslResponse
to_end = record { payload = final_text }

end_read : into_sasl_response (raw final_text) ≡ Buffers.ok to_end []
end_read = into_sasl_response-raw to_end (unfold sasl_response_message in omega arith)

end_parsed : parse_client_final (from_utf8_lossy final_text) ≡ ok final
unfolding parse_client_final splitn break_comma strip_prefix
end_parsed =
    ap (λ t. parse_client_final t)
      (from_utf8_lossy-text final_text
        (is_ascii-IsCstring final_text (unfold is_ascii in refl)).text)

scram-login_example :
    (do
      on_scram_message shifted runtime [] with_scram (startup hello)
      on_scram_message shifted runtime [] with_scram
          (password_message_family (raw (family_body (sasl_initial_response to_begin))))
      on_scram_message shifted runtime [] with_scram (password_message_family (raw final_text)))
      (make_scram new_comer)
    ≡ (let told =
          answered shifted
            (λ _ _. refl)
            runtime
            []
            with_scram
            (continued shifted (λ _ _. refl) runtime [] with_scram new_comer hello first (1 ∷ []))
            stored.password
            (auth_message shifted
              (partial shifted (λ _ _. refl) runtime [] with_scram first (1 ∷ []))
              final) in
        done tt (record {
          client = record (after told (finish_events runtime none)) { state = ready_for_query };
          state =
              server_first_sent stored
                (channel_binding first)
                (partial shifted (λ _ _. refl) runtime [] with_scram first (1 ∷ []));
        }))
scram-login_example =
    scram-login shifted (λ _ _. refl) runtime [] with_scram hello new_comer stored (1 ∷ [])
      (raw (family_body (sasl_initial_response to_begin))) (raw final_text) to_begin to_end [] []
      first final refl refl begin_read begin_parsed end_read end_parsed
      (unfold compute_channel_binding channel_binding strip_prefix is_some or_no_signature in refl)
      (unfold computed_client_proof xor auth_message bare server_first_message without_proof
          random_nonce in
        refl)
