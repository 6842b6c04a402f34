-- ===== src/Api/Auth/Scram/Handler.antt =====
-- api/auth/scram.rs: the handler of SCRAM and its two states.
use pgwire.Base.{ℕ, Option, none, some, List, [], ◌∷◌, ◌++◌, Bytes, if◌then◌else◌}
use Prim.Native.Nat.{bit_xor}
use pgwire.Errors.{invalid_scram_message}
use pgwire.Buffers.{BytesCrate}
use pgwire.Text.{from_utf8_lossy}
use pgwire.Messages.Startup.Authentication.{sasl, sasl_continue, sasl_final}
use pgwire.Messages.Startup.Passwords.{
  PasswordMessageFamily, into_sasl_initial_response, into_sasl_response,
}
use pgwire.Messages.Startup.Request.{Startup}
use pgwire.Messages.Frontend.{PgWireFrontendMessage, startup, password_message_family}
use pgwire.Messages.Backend.{authentication}
use pgwire.Api.Step.{done, failed, panicked, Step, ◌>>=◌, ◌>>◌, pure}
use pgwire.Api.Client.{Client, Sink, authentication_in_progress, set_state, send}
use pgwire.Api.Statements.{PgWireResult, err}
use pgwire.Api.Query.{lift}
use pgwire.Api.Store.Laws.{same_name}
use pgwire.Api.Auth.{
  Runtime, ServerParameterProvider, AuthSource, Password, from_client_info,
  save_startup_parameters_to_metadata, coerced, finish_authentication,
}
use pgwire.Api.Auth.Scram.{
  strip_prefix, is_some, ClientFirst, parse_client_first, bare, channel_binding,
  server_first_message, ClientFinal, parse_client_final, validate_channel_binding, without_proof,
}

-- The password, the channel binding and the part of the authentication message that is known.
pub data ScramState : Type 0 where
  initial : ScramState
  server_first_sent : Password → Bytes → Bytes → ScramState

-- The crates `ring` and `base64`: HMAC-SHA-256 of a key and a message, SHA-256, and base64.
pub record Cryptography : Type 0 where
  pub hmac : Bytes → Bytes → Bytes
  pub digest : Bytes → Bytes
  pub base64 : Bytes → Bytes

-- The handler, but for its state.
pub record SaslScramAuthStartupHandler : Type 0 where
  pub auth_db : AuthSource
  pub parameter_provider : ServerParameterProvider
  pub server_cert_sig : Option Bytes
  pub iterations : ℕ

-- The client, with the state of the handler.
pub record ScramSession : Type 0 where
  pub client : Client
  pub state : ScramState

-- "SCRAM-SHA-256"
abbrev pub scram_sha_256 : Bytes
scram_sha_256 =
    b'S' ∷ b'C' ∷ b'R' ∷ b'A' ∷ b'M' ∷ b'-' ∷ b'S' ∷ b'H' ∷ b'A' ∷ b'-' ∷ b'2' ∷ b'5' ∷ b'6' ∷ []

-- "SCRAM-SHA-256-PLUS"
abbrev pub scram_sha_256_plus : Bytes
scram_sha_256_plus =
    b'S' ∷ b'C' ∷ b'R' ∷ b'A' ∷ b'M' ∷ b'-' ∷ b'S' ∷ b'H' ∷ b'A' ∷ b'-' ∷ b'2' ∷ b'5' ∷ b'6' ∷ b'-'
    ∷ b'P' ∷ b'L' ∷ b'U' ∷ b'S' ∷ []

-- "p=tls-server-end-point"
abbrev pub tls_server_end_point : Bytes
tls_server_end_point =
    b'p' ∷ b'=' ∷ b't' ∷ b'l' ∷ b's' ∷ b'-' ∷ b's' ∷ b'e' ∷ b'r' ∷ b'v' ∷ b'e' ∷ b'r' ∷ b'-' ∷ b'e'
    ∷ b'n' ∷ b'd' ∷ b'-' ∷ b'p' ∷ b'o' ∷ b'i' ∷ b'n' ∷ b't' ∷ []

-- "Empty client-first"
abbrev pub empty_client_first : Bytes
empty_client_first =
    b'E' ∷ b'm' ∷ b'p' ∷ b't' ∷ b'y' ∷ b' ' ∷ b'c' ∷ b'l' ∷ b'i' ∷ b'e' ∷ b'n' ∷ b't' ∷ b'-' ∷ b'f'
    ∷ b'i' ∷ b'r' ∷ b's' ∷ b't' ∷ []

-- "Client Key"
abbrev pub client_key_text : Bytes
client_key_text = b'C' ∷ b'l' ∷ b'i' ∷ b'e' ∷ b'n' ∷ b't' ∷ b' ' ∷ b'K' ∷ b'e' ∷ b'y' ∷ []

-- "Server Key"
abbrev pub server_key_text : Bytes
server_key_text = b'S' ∷ b'e' ∷ b'r' ∷ b'v' ∷ b'e' ∷ b'r' ∷ b' ' ∷ b'K' ∷ b'e' ∷ b'y' ∷ []

-- "invalid-proof"
abbrev pub invalid_proof : Bytes
invalid_proof =
    b'i' ∷ b'n' ∷ b'v' ∷ b'a' ∷ b'l' ∷ b'i' ∷ b'd' ∷ b'-' ∷ b'p' ∷ b'r' ∷ b'o' ∷ b'o' ∷ b'f' ∷ []

-- `ServerFinalSuccess::message`
unfoldable pub server_final_success : Bytes → Bytes
server_final_success verifier = b'v' ∷ b'=' ∷ verifier

-- `ServerFinalError::message`
unfoldable pub server_final_error : Bytes → Bytes
server_final_error error = b'e' ∷ b'=' ∷ error

unfoldable pub xor : Bytes → Bytes → Bytes
xor [] rhs = []
xor (l ∷ lhs) [] = []
xor (l ∷ lhs) (r ∷ rhs) = bit_xor l r ∷ xor lhs rhs

-- `MakeSASLScramAuthStartupHandler::make`, for a new client.
unfoldable pub make_scram : Client → ScramSession
make_scram client = record { client = client; state = initial }

unfoldable pub on_scram_client : {A : Type 0} → Step Client A → Step ScramSession A
on_scram_client m w = elim (m w.client) [
  | done a c ↦ done a (record w { client = c })
  | failed e c ↦ failed e (record w { client = c })
  | panicked ↦ panicked
]

unfoldable pub set_scram_state : ScramState → Step ScramSession (Unit {0})
set_scram_state state w = done tt (record w { state = state })

-- `expect` of the salt
unfoldable pub scram_salt : Option Bytes → Step ScramSession Bytes
scram_salt none = λ w. panicked
scram_salt (some salt) = pure salt

unfoldable pub read_client_first : Option Bytes → PgWireResult ClientFirst
read_client_first none = err (invalid_scram_message empty_client_first)
read_client_first (some data_bytes) = parse_client_first (from_utf8_lossy data_bytes)

unfoldable pub or_no_signature : Option Bytes → Bytes
or_no_signature none = []
or_no_signature (some sig) = sig

unfoldable pub mechanisms : Option Bytes → List Bytes
mechanisms none = scram_sha_256 ∷ []
mechanisms (some sig) = scram_sha_256 ∷ scram_sha_256_plus ∷ []

module _ (k : Cryptography) where
  unfoldable pub compute_channel_binding : SaslScramAuthStartupHandler → Bytes → Bytes
  unfolding or_no_signature is_some
  compute_channel_binding h client_channel_binding =
      if is_some (strip_prefix tls_server_end_point client_channel_binding)
      then k.base64 client_channel_binding ++ or_no_signature h.server_cert_sig
      else k.base64 client_channel_binding

  -- The proof that a client with the salted password sends.
  unfoldable pub computed_client_proof : Bytes → Bytes → Bytes
  unfolding xor
  computed_client_proof salted_password auth_msg =
      let client_key = k.hmac salted_password client_key_text in
      k.base64 (xor client_key (k.hmac (k.digest client_key) auth_msg))

  -- The signature that the server answers with.
  unfoldable pub server_verifier : Bytes → Bytes → Bytes
  server_verifier salted_password auth_msg =
      k.base64 (k.hmac (k.hmac salted_password server_key_text) auth_msg)

  -- `random_nonce`, of eighteen random bytes.
  unfoldable pub random_nonce : Bytes → Bytes
  random_nonce buf = k.base64 buf

  unfoldable pub auth_message : Bytes → ClientFinal → Bytes
  auth_message partial_auth_msg client_final = partial_auth_msg ++ b',' ∷ without_proof client_final

  module _ ⦃c : BytesCrate⦄ ⦃s : Sink⦄ (r : Runtime) (nonce_bytes : Bytes)
      (h : SaslScramAuthStartupHandler) where
    unfoldable pub on_scram_startup : Startup → Step ScramSession (Unit {0})
    unfolding mechanisms
    on_scram_startup m = do
      on_scram_client (save_startup_parameters_to_metadata m)
      on_scram_client (set_state authentication_in_progress)
      on_scram_client (send (authentication (sasl (mechanisms h.server_cert_sig))))

    unfoldable pub on_client_first : PasswordMessageFamily → Step ScramSession (Unit {0})
    unfolding read_client_first random_nonce
    on_client_first msg = do
      pass ←
          on_scram_client (λ client. lift (h.auth_db.get_password (from_client_info client)) client)
      resp ← on_scram_client (coerced (into_sasl_initial_response msg))
      client_first ← lift (read_client_first resp.payload)
      salt ← scram_salt pass.salt
      let message = server_first_message (record {
        nonce = client_first.nonce ++ random_nonce nonce_bytes;
        salt = k.base64 salt;
        iteration = h.iterations;
      })
      set_scram_state (
          server_first_sent pass (channel_binding client_first)
            (bare client_first ++ b',' ∷ message))
      on_scram_client (send (authentication (sasl_continue message)))

    -- The proof is compared with the computed one.
    unfoldable pub check_proof : Bytes → Bytes → Bytes → Step ScramSession (Unit {0})
    check_proof salted_password auth_msg proof = on_scram_client (
        if same_name (computed_client_proof salted_password auth_msg) proof
        then (do
          send (
              authentication
                (sasl_final (server_final_success (server_verifier salted_password auth_msg))))
          finish_authentication r h.parameter_provider)
        else send (authentication (sasl_final (server_final_error invalid_proof))))

    unfoldable pub on_client_final :
        Password → Bytes → Bytes → PasswordMessageFamily → Step ScramSession (Unit {0})
    unfolding check_proof
    on_client_final pass channel_binding_prefix partial_auth_msg msg = do
      resp ← on_scram_client (coerced (into_sasl_response msg))
      client_final ← lift (parse_client_final (from_utf8_lossy resp.payload))
      lift
          (validate_channel_binding client_final (compute_channel_binding h channel_binding_prefix))
      check_proof pass.password (auth_message partial_auth_msg client_final) client_final.proof

    unfoldable pub on_sasl_message :
        ScramState → PasswordMessageFamily → Step ScramSession (Unit {0})
    unfolding on_client_first on_client_final
    on_sasl_message initial msg = on_client_first msg
    on_sasl_message (server_first_sent pass prefix partial) msg =
        on_client_final pass prefix partial msg

    unfoldable pub on_scram_message : PgWireFrontendMessage → Step ScramSession (Unit {0})
    unfolding on_scram_startup on_sasl_message
    on_scram_message (startup m) = on_scram_startup m
    on_scram_message (password_message_family msg) = λ w. on_sasl_message w.state msg w
    on_scram_message _ = pure tt
