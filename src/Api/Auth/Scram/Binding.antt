-- ===== src/Api/Auth/Scram/Binding.antt =====
-- What a configured certificate does to the handlers that are made.
use pgwire.Base.{◌≡◌, refl, sym, Option, none, some, List, [], ◌∷◌, ◌++◌, Bytes}
use pgwire.Api.Auth.Finish.{bind-inv}
use pgwire.Api.Step.{done, pure, raise}
use pgwire.Api.Auth.Scram.{strip_prefix, is_some}
use pgwire.Api.Auth.Scram.Handler.{
  Cryptography, tls_server_end_point, scram_sha_256, scram_sha_256_plus, or_no_signature,
  mechanisms, compute_channel_binding,
}
use pgwire.Api.Auth.Scram.Setup.{
  SignatureAlgorithm, rsa_sha1, rsa_sha256, rsa_sha384, rsa_sha512, ecdsa_sha256, ecdsa_sha384,
  another, ReadPem, certificates, unreadable, Certificates, MakeSaslScram, make_handler, digest_by,
  or_unsupported, first_signature, compute_cert_signature, configure_certificate,
}

module _ (x : Certificates) where
  -- The hash of a certificate by RFC 5929: that of its signature algorithm, but SHA-256 in the place
  -- of SHA-1.
  pub data EndPoint (raw : Bytes) : SignatureAlgorithm → Bytes → Type 0 where
    replaced : EndPoint raw rsa_sha1 (x.sha256 raw)
    rsa_256 : EndPoint raw rsa_sha256 (x.sha256 raw)
    rsa_384 : EndPoint raw rsa_sha384 (x.sha384 raw)
    rsa_512 : EndPoint raw rsa_sha512 (x.sha512 raw)
    ecdsa_256 : EndPoint raw ecdsa_sha256 (x.sha256 raw)
    ecdsa_384 : EndPoint raw ecdsa_sha384 (x.sha384 raw)

  -- The first certificate of a PEM, and its hash.
  pub record Signed (pem sig : Bytes) : Type 0 where
    pub first : x.Certificate
    pub rest : List x.Certificate
    pub algorithm : SignatureAlgorithm
    pub reads : x.from_pem_multiple pem ≡ certificates (first ∷ rest)
    pub signed_by : x.signature_algorithm first ≡ some algorithm
    pub hashed : EndPoint (x.constructed_data first) algorithm sig

  hashed-by :
      (a : SignatureAlgorithm) (raw sig : Bytes)
      → digest_by x (some a) raw ≡ some sig
      → EndPoint raw a sig
  unfolding digest_by
  hashed-by rsa_sha1 raw sig e = let same : x.sha256 raw ≡ sig = cc e in rw (sym same) replaced
  hashed-by rsa_sha256 raw sig e = let same : x.sha256 raw ≡ sig = cc e in rw (sym same) rsa_256
  hashed-by rsa_sha384 raw sig e = let same : x.sha384 raw ≡ sig = cc e in rw (sym same) rsa_384
  hashed-by rsa_sha512 raw sig e = let same : x.sha512 raw ≡ sig = cc e in rw (sym same) rsa_512
  hashed-by ecdsa_sha256 raw sig e = let same : x.sha256 raw ≡ sig = cc e in rw (sym same) ecdsa_256
  hashed-by ecdsa_sha384 raw sig e = let same : x.sha384 raw ≡ sig = cc e in rw (sym same) ecdsa_384
  hashed-by another raw sig e = cc e

  digested :
      (o : Option SignatureAlgorithm) (raw sig : Bytes)
      → digest_by x o raw ≡ some sig
      → (a : SignatureAlgorithm) × (o ≡ some a) × EndPoint raw a sig
  digested none raw sig e = unfold digest_by in cc e
  digested (some a) raw sig e = (a, refl, hashed-by a raw sig e)

  supported :
      {W : Type 0} (o : Option Bytes) (w w' : W) (sig : Bytes)
      → or_unsupported x o w ≡ done sig w'
      → (o ≡ some sig) × (w ≡ w')
  unfolding or_unsupported pure raise
  supported none w w' sig e = cc e
  supported (some b) w w' sig e = (cc e, cc e)

  first-Signed :
      {W : Type 0} (certs : List x.Certificate) (pem : Bytes) (w w' : W) (sig : Bytes)
      → x.from_pem_multiple pem ≡ certificates certs
      → first_signature x certs w ≡ done sig w'
      → Signed pem sig × (w ≡ w')
  unfolding first_signature
  first-Signed [] pem w w' sig reads e = cc e
  first-Signed (first ∷ rest) pem w w' sig reads e =
      let (found, same) = supported _ w w' sig e in
      let (a, by, hash) =
        digested (x.signature_algorithm first) (x.constructed_data first) sig found in
      (
        record {
          first = first;
          rest = rest;
          algorithm = a;
          reads = reads;
          signed_by = by;
          hashed = hash;
        },
        same,
      )

  computed-on :
      {W : Type 0} (r : ReadPem x.Certificate) (pem : Bytes) (w w' : W) (sig : Bytes)
      → x.from_pem_multiple pem ≡ r
      → compute_cert_signature x pem w ≡ done sig w'
      → Signed pem sig × (w ≡ w')
  unfolding compute_cert_signature raise
  computed-on (unreadable why) pem w w' sig reads e = cc (rw (reads, compute_cert_signature) at e)
  computed-on (certificates certs) pem w w' sig reads e =
      first-Signed certs pem w w' sig reads (rw (reads, compute_cert_signature) at e)

  -- Where configuring a certificate succeeds, the handlers that are made after it offer both
  -- mechanisms, and a client's channel binding that begins with p=tls-server-end-point is compared
  -- with the base64 of that followed by the base64 of the hash of the first certificate of the
  -- PEM, by the hash of its signature algorithm, with SHA-256 in the place of SHA-1.
  pub configure_certificate-binding :
      (k : Cryptography) (pem suffix : Bytes) (m m' : MakeSaslScram)
      → configure_certificate x k pem m ≡ done tt m'
      → (sig : Bytes) × Signed pem sig
        × (mechanisms (make_handler m').server_cert_sig ≡ scram_sha_256 ∷ scram_sha_256_plus ∷ [])
        × (compute_channel_binding k (make_handler m') (tls_server_end_point ++ suffix)
            ≡ k.base64 (tls_server_end_point ++ suffix) ++ k.base64 sig)
  unfolding configure_certificate make_handler mechanisms compute_channel_binding or_no_signature
      strip_prefix is_some
  configure_certificate-binding k pem suffix m m' e =
      let (sig, m1, first, last) = bind-inv (compute_cert_signature x pem) _ m tt m' e in
      let (signed, _) = computed-on (x.from_pem_multiple pem) pem m m1 sig refl first in
      let sets : some (k.base64 sig) ≡ m'.server_cert_sig = cc last in
      (sig, signed, rw (sym sets) refl, rw (sym sets) refl)
