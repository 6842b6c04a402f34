-- ===== src/Tests/Setup.antt =====
-- A server with SCRAM that is given a certificate.
use pgwire.Base.{◌≡◌, refl, none, some, [], ◌∷◌, ◌++◌, Bytes}
use pgwire.Api.Step.{done, ◌>>=◌, pure}
use pgwire.Api.Statements.{ok}
use pgwire.Api.Auth.{Password}
use pgwire.Api.Auth.Scram.Handler.{
  Cryptography, tls_server_end_point, scram_sha_256, scram_sha_256_plus, mechanisms,
  compute_channel_binding,
}
use pgwire.Api.Auth.Scram.Setup.{
  Certificates, rsa_sha384, certificates, MakeSaslScram, make_handler, digest_by, or_unsupported,
  first_signature, compute_cert_signature, configure_certificate,
}
use pgwire.Api.Auth.Scram.Binding.{Signed, configure_certificate-binding}

abbrev plain : Cryptography
plain = record { hmac = λ key message. key ++ message; digest = λ b. b; base64 = λ b. b }

-- A PEM is one certificate, hashed to its bytes and the strength of the hash.
abbrev trusted : Certificates
trusted = record {
  Certificate = Bytes;
  from_pem_multiple = λ pem. certificates (pem ∷ []);
  constructed_data = λ x. x;
  signature_algorithm = λ _. some rsa_sha384;
  sha256 = λ b. 1 ∷ b;
  sha384 = λ b. 2 ∷ b;
  sha512 = λ b. 3 ∷ b;
}

abbrev stored : Password
stored = record { salt = some (1 ∷ []); password = 7 ∷ [] }

abbrev fresh : MakeSaslScram
fresh = record {
  auth_db = record { get_password = λ _. ok stored };
  parameter_provider = record { server_parameters = λ _. none };
  server_cert_sig = none;
  iterations = 4096;
}

abbrev certified : MakeSaslScram
certified = record fresh { server_cert_sig = some (2 ∷ 9 ∷ []) }

configured : configure_certificate trusted plain (9 ∷ []) fresh ≡ done tt certified
unfolding configure_certificate compute_cert_signature first_signature digest_by or_unsupported pure
    ◌>>=◌
configured = refl

configure_certificate-binding_example :
    (sig : Bytes) × Signed trusted (9 ∷ []) sig
    × (mechanisms (make_handler certified).server_cert_sig
        ≡ scram_sha_256 ∷ scram_sha_256_plus ∷ [])
    × (compute_channel_binding plain
          (make_handler certified)
          (tls_server_end_point ++ b',' ∷ b',' ∷ [])
        ≡ plain.base64 (tls_server_end_point ++ b',' ∷ b',' ∷ []) ++ plain.base64 sig)
configure_certificate-binding_example =
    configure_certificate-binding trusted plain (9 ∷ []) (b',' ∷ b',' ∷ []) fresh certified
      configured
