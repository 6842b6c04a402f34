-- ===== src/Api/Auth/Scram/Setup.antt =====
-- api/auth/scram.rs: how a server with SCRAM is set up: the salted passwords, the certificate and the
-- maker of handlers.
use pgwire.Base.{ℕ, ◌%◌, ◌^◌, ◌==◌, Option, none, some, List, [], ◌∷◌, Bytes, if◌then◌else◌}
use pgwire.Errors.{api_error, unsupported_certificate_signature_algorithm}
use pgwire.Api.Step.{done, panicked, Step, ◌>>=◌, pure, raise}
use pgwire.Api.Auth.{AuthSource, ServerParameterProvider}
use pgwire.Api.Auth.Scram.Handler.{Cryptography, SaslScramAuthStartupHandler}

-- The crates `stringprep` and `ring`: the normal form of a password, which may not exist, and
-- PBKDF2 with HMAC-SHA-256 to 32 bytes, of an iteration count, a salt and a password.
pub record Passphrases : Type 0 where
  pub saslprep : Bytes → Option Bytes
  pub pbkdf2 : ℕ → Bytes → Bytes → Bytes

module _ (k : Passphrases) where
  -- `NonZeroU32::new(iterations as u32).unwrap()` panics at zero; `none` is the panic.
  unfoldable pub hi : Bytes → Bytes → ℕ → Option Bytes
  hi normalized_password salt iterations =
      if iterations % 2 ^ 32 == 0
      then none
      else some (k.pbkdf2 (iterations % 2 ^ 32) salt normalized_password)

  unfoldable pub normalized : Bytes → Bytes
  normalized password = elim (k.saslprep password) [ none ↦ password | some normal ↦ normal ]

  unfoldable pub gen_salted_password : Bytes → Bytes → ℕ → Option Bytes
  unfolding hi normalized
  gen_salted_password password salt iters = hi (normalized password) salt iters

-- `x509_certificate::SignatureAlgorithm`; the code does not tell those it does not name apart.
pub data SignatureAlgorithm : Type 0 where
  rsa_sha1 : SignatureAlgorithm
  rsa_sha256 : SignatureAlgorithm
  rsa_sha384 : SignatureAlgorithm
  rsa_sha512 : SignatureAlgorithm
  ecdsa_sha256 : SignatureAlgorithm
  ecdsa_sha384 : SignatureAlgorithm
  another : SignatureAlgorithm

-- The crates `x509_certificate` and `ring`. Reading a PEM gives certificates, or the text of an
-- error.
pub data ReadPem (C : Type 0) : Type 0 where
  certificates : List C → ReadPem C
  unreadable : Bytes → ReadPem C

pub record Certificates : Type 1 where
  pub Certificate : Type 0
  pub from_pem_multiple : Bytes → ReadPem Certificate
  pub constructed_data : Certificate → Bytes
  pub signature_algorithm : Certificate → Option SignatureAlgorithm
  pub sha256 : Bytes → Bytes
  pub sha384 : Bytes → Bytes
  pub sha512 : Bytes → Bytes

-- `MakeSASLScramAuthStartupHandler`
pub record MakeSaslScram : Type 0 where
  pub auth_db : AuthSource
  pub parameter_provider : ServerParameterProvider
  pub server_cert_sig : Option Bytes
  pub iterations : ℕ

unfoldable pub new_make : AuthSource → ServerParameterProvider → MakeSaslScram
new_make auth_db parameter_provider = record {
  auth_db = auth_db;
  parameter_provider = parameter_provider;
  server_cert_sig = none;
  iterations = 4096;
}

unfoldable pub set_iterations : ℕ → MakeSaslScram → MakeSaslScram
set_iterations iterations m = record m { iterations = iterations }

-- `MakeSASLScramAuthStartupHandler::make`
unfoldable pub make_handler : MakeSaslScram → SaslScramAuthStartupHandler
make_handler m = record {
  auth_db = m.auth_db;
  parameter_provider = m.parameter_provider;
  server_cert_sig = m.server_cert_sig;
  iterations = m.iterations;
}

module _ (x : Certificates) where
  -- The `match` of `compute_cert_signature`.
  unfoldable pub digest_by : Option SignatureAlgorithm → Bytes → Option Bytes
  digest_by none raw = none
  digest_by (some rsa_sha1) raw = some (x.sha256 raw)
  digest_by (some rsa_sha256) raw = some (x.sha256 raw)
  digest_by (some ecdsa_sha256) raw = some (x.sha256 raw)
  digest_by (some rsa_sha384) raw = some (x.sha384 raw)
  digest_by (some ecdsa_sha384) raw = some (x.sha384 raw)
  digest_by (some rsa_sha512) raw = some (x.sha512 raw)
  digest_by (some another) raw = none

  unfoldable pub or_unsupported : {W : Type 0} → Option Bytes → Step W Bytes
  or_unsupported none = raise unsupported_certificate_signature_algorithm
  or_unsupported (some signature) = pure signature

  -- `&certs[0]` panics if there is none.
  unfoldable pub first_signature : {W : Type 0} → List x.Certificate → Step W Bytes
  unfolding digest_by or_unsupported
  first_signature [] = λ w. panicked
  first_signature (x509 ∷ certs) =
      or_unsupported (digest_by (x.signature_algorithm x509) (x.constructed_data x509))

  unfoldable pub compute_cert_signature : {W : Type 0} → Bytes → Step W Bytes
  unfolding first_signature
  compute_cert_signature cert = elim (x.from_pem_multiple cert) [
    | unreadable e ↦ raise (api_error e)
    | certificates certs ↦ first_signature certs
  ]

  unfoldable pub configure_certificate : Cryptography → Bytes → Step MakeSaslScram (Unit {0})
  unfolding compute_cert_signature
  configure_certificate k certs_pem = do
    sig ← compute_cert_signature certs_pem
    (λ m. done tt (record m { server_cert_sig = some (k.base64 sig) }))
