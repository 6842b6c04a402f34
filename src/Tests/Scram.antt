-- ===== src/Tests/Scram.antt =====
-- The texts that a client sends to authenticate by SCRAM.
use pgwire.Tests.Standins.{open_sink}
use pgwire.Base.{ℕ, zero, suc, ◌≡◌, ◌↔◌, refl, [], ◌∷◌, Bytes}
use pgwire.Api.Statements.{ok}
use pgwire.Text.Ascii.{is_ascii, is_ascii-IsCstring}
use pgwire.Base.{arith, ◌++◌, ap, none, some, false}
use pgwire.Buffers.Standard.{standard}
use pgwire.Text.{from_utf8_lossy}
use pgwire.Text.Lossy.{from_utf8_lossy-text}
use pgwire.Buffers
use pgwire.Messages.Startup.Passwords.{SaslResponse, into_sasl_response, raw, sasl_response_message}
use pgwire.Messages.Startup.Passwords.RoundTrip.{into_sasl_response-raw}
use pgwire.Messages.Frontend.{password_message_family}
use pgwire.Api.Client.{Client, authentication_in_progress}
use pgwire.Api.Auth.{Password}
use pgwire.Base.{inr}
use pgwire.Messages.Startup.Authentication.{sasl_final}
use pgwire.Messages.Backend.{authentication}
use pgwire.Api.Step.{done, pure, ◌>>=◌, ◌>>◌}
use pgwire.Api.Client.{ready_for_query}
use pgwire.Api.Query.Emits.{after, sent}
use pgwire.Api.Auth.Finish.{finish_events}
use pgwire.Api.Auth.Scram.{is_some, without_proof}
use pgwire.Api.Auth.Scram.Handler.{
  ScramState, or_no_signature, computed_client_proof, xor, server_verifier, server_final_success,
}
use pgwire.Server.{process_message, process_in, serve, serve_all}
use pgwire.Server.Guarded.{Proved}
use pgwire.Server.Guarded.Beside.{Session, with_startups}
use pgwire.Server.Guarded.Scram.{ScramProof, scram_startups, ready-scram}
use pgwire.Tests.Sessions.{runtime, no_queries}
use pgwire.Api.Auth.Scram.Handler.{
  Cryptography, SaslScramAuthStartupHandler, ScramSession, server_first_sent,
  compute_channel_binding, auth_message, on_scram_message,
}
use pgwire.Api.Auth.Scram.Proof.{on_scram_message-final}
use pgwire.Api.Auth.Scram.Parts.{comma_free}
use pgwire.Api.Auth.Scram.Verified.{Verdict, on_scram_message-Verdict}
use pgwire.Messages.Startup.Params.{compare_bytes}
use pgwire.Api.Auth.Scram.{
  splitn, break_comma, strip_prefix, validate_cbind_flag, bare, channel_binding, ClientFirst,
  parse_client_first, ClientFinal, parse_client_final,
}
use pgwire.Api.Auth.Scram.First.{first_message, IsClientFirst, parse_client_first-exact}
use pgwire.Api.Auth.Scram.Final.{IsClientFinal, parse_client_final-exact}

-- "n,,n=,r=fyko"
abbrev pub first_text : Bytes
first_text = b'n' ∷ b',' ∷ b',' ∷ b'n' ∷ b'=' ∷ b',' ∷ b'r' ∷ b'=' ∷ b'f' ∷ b'y' ∷ b'k' ∷ b'o' ∷ []

abbrev pub first : ClientFirst
first = record {
  cbind_flag = b'n' ∷ [];
  auth_zid = [];
  username = [];
  nonce = b'f' ∷ b'y' ∷ b'k' ∷ b'o' ∷ [];
}

parse_client_first-exact_example :
    (parse_client_first first_text ≡ ok first ↔ IsClientFirst first first_text)
    × (channel_binding first ++ bare first ≡ first_message first)
parse_client_first-exact_example = parse_client_first-exact first_text first

pub parse_first : parse_client_first first_text ≡ ok first
unfolding parse_client_first splitn break_comma strip_prefix validate_cbind_flag compare_bytes
parse_first = refl

-- "c=biws,r=fyko,p=v0X8"
abbrev final_text : Bytes
final_text =
    b'c' ∷ b'=' ∷ b'b' ∷ b'i' ∷ b'w' ∷ b's' ∷ b',' ∷ b'r' ∷ b'=' ∷ b'f' ∷ b'y' ∷ b'k' ∷ b'o' ∷ b','
    ∷ b'p' ∷ b'=' ∷ b'v' ∷ b'0' ∷ b'X' ∷ b'8' ∷ []

abbrev final : ClientFinal
final = record {
  channel_binding = b'b' ∷ b'i' ∷ b'w' ∷ b's' ∷ [];
  nonce = b'f' ∷ b'y' ∷ b'k' ∷ b'o' ∷ [];
  proof = b'v' ∷ b'0' ∷ b'X' ∷ b'8' ∷ [];
}

parse_client_final-exact_example :
    parse_client_final final_text ≡ ok final ↔ IsClientFinal final final_text
parse_client_final-exact_example = parse_client_final-exact final_text final

parse_final : parse_client_final final_text ≡ ok final
unfolding parse_client_final splitn break_comma strip_prefix
parse_final = refl

abbrev pub stored : Password
stored = record { salt = some (1 ∷ []); password = 7 ∷ [] }

abbrev pub with_scram : SaslScramAuthStartupHandler
with_scram = record {
  auth_db = record { get_password = λ _. ok stored };
  parameter_provider = record { server_parameters = λ _. none };
  server_cert_sig = none;
  iterations = 4096;
}

abbrev waiting : Client
waiting = record {
  socket_addr = [];
  is_secure = false;
  state = authentication_in_progress;
  metadata = [];
  events = [];
}

abbrev answer : SaslResponse
answer = record { payload = final_text }

final_read : into_sasl_response (raw final_text) ≡ Buffers.ok answer []
final_read = into_sasl_response-raw answer (unfold sasl_response_message in omega arith)

abbrev sevens : ℕ → Bytes
sevens zero = []
sevens (suc n) = 7 ∷ sevens n

-- A cryptography whose codes have the length of those of HMAC-SHA-256.
abbrev fixed : Cryptography
fixed = record { hmac = λ _ _. sevens 32; digest = λ b. b; base64 = λ b. b }

on_scram_message-Verdict_example :
    Verdict fixed
      (λ _ _. refl)
      (λ _ _. refl)
      runtime
      []
      with_scram
      waiting
      stored
      (b'b' ∷ b'i' ∷ b'w' ∷ b's' ∷ [])
      first_text
      (b'b' ∷ b'i' ∷ b'w' ∷ b's' ∷ [])
      (b'f' ∷ b'y' ∷ b'k' ∷ b'o' ∷ [])
      (b'v' ∷ b'0' ∷ b'X' ∷ b'8' ∷ [])
      (on_scram_message fixed runtime [] with_scram
        (password_message_family (raw final_text))
        (record {
          client = waiting;
          state = server_first_sent stored (b'b' ∷ b'i' ∷ b'w' ∷ b's' ∷ []) first_text;
        }))
unfolding comma_free
on_scram_message-Verdict_example =
    on_scram_message-Verdict fixed (λ _ _. refl) (λ _ _. refl) runtime [] with_scram waiting stored
      (b'b' ∷ b'i' ∷ b'w' ∷ b's' ∷ []) first_text (b'b' ∷ b'i' ∷ b'w' ∷ b's' ∷ [])
      (b'f' ∷ b'y' ∷ b'k' ∷ b'o' ∷ []) (b'v' ∷ b'0' ∷ b'X' ∷ b'8' ∷ []) (raw final_text) answer []
      final_read
      (from_utf8_lossy-text final_text
        (is_ascii-IsCstring final_text (unfold is_ascii in refl)).text)
      refl refl

-- A cryptography for which the proof of a client is text.
abbrev readable : Cryptography
readable = record { hmac = λ key message. key ++ message; digest = λ _. []; base64 = λ b. b }

abbrev right_proof : Bytes
right_proof = 105 ∷ 111 ∷ 64 ∷ 7 ∷ 88 ∷ 66 ∷ 6 ∷ 29 ∷ 45 ∷ 28 ∷ 18 ∷ []

abbrev right_final : ClientFinal
right_final = record final { proof = right_proof }

-- "c=biws,r=fyko,p=" and the proof
abbrev right_text : Bytes
right_text =
    b'c' ∷ b'=' ∷ b'b' ∷ b'i' ∷ b'w' ∷ b's' ∷ b',' ∷ b'r' ∷ b'=' ∷ b'f' ∷ b'y' ∷ b'k' ∷ b'o' ∷ b','
    ∷ b'p' ∷ b'=' ∷ right_proof

right_parsed : parse_client_final (from_utf8_lossy right_text) ≡ ok right_final
unfolding parse_client_final splitn break_comma strip_prefix
right_parsed =
    ap (λ t. parse_client_final t)
      (from_utf8_lossy-text right_text
        (is_ascii-IsCstring right_text (unfold is_ascii in refl)).text)

abbrev sent_first : ScramState
sent_first = server_first_sent stored final.channel_binding first_text

abbrev session : Client → Session ScramSession (Unit {0})
session c = record { auth = record { client = c; state = sent_first }; queries = tt }

abbrev signed : Client
signed = record {
  socket_addr = [];
  is_secure = false;
  state = ready_for_query;
  metadata = [];
  events =
      (after
        (after waiting (
          sent (
            authentication (
              sasl_final (
                server_final_success (
                  server_verifier readable stored.password
                    (auth_message readable first_text right_final)))))))
        (finish_events runtime none)).events;
}

right_step :
    on_scram_message readable runtime [] with_scram
      (password_message_family (raw right_text))
      (session waiting).auth
    ≡ done tt (session signed).auth
right_step =
    unfold compare_bytes compute_channel_binding strip_prefix is_some or_no_signature
      computed_client_proof xor auth_message without_proof in
    (on_scram_message-final readable (λ _ _. refl) runtime [] with_scram waiting stored
      final.channel_binding first_text (raw right_text) (record { payload = right_text }) []
      right_final
      (into_sasl_response-raw (record { payload = right_text })
        (unfold sasl_response_message in omega arith))
      right_parsed)

right_connection :
    serve_all
      (with_startups
        (scram_startups readable runtime [] with_scram)
        (no_queries (λ (a : ScramSession). a.client.state)))
      (λ _. [])
      (password_message_family (raw right_text) ∷ [])
      (session waiting)
    ≡ done tt (session signed)
unfolding serve_all serve process_message process_in pure ◌>>◌ ◌>>=◌
right_connection = rw (right_step, ◌>>=◌) refl

ready-scram_example :
    Proved
      (λ m (v : Session ScramSession (Unit {0})).
        ScramProof readable runtime [] with_scram m v.auth)
      (password_message_family (raw right_text) ∷ [])
ready-scram_example =
    ready-scram readable runtime [] with_scram (no_queries (λ (a : ScramSession). a.client.state))
      (λ _. []) (password_message_family (raw right_text) ∷ []) (session waiting) (session signed)
      right_connection (inr refl) refl
