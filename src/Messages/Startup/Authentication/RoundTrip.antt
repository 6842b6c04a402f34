-- ===== src/Messages/Startup/Authentication/RoundTrip.antt =====
-- `Authentication` is read back, but for the two SASL messages with data (`Sasl`).
use pgwire.Base.{
  ℕ, zero, suc, ◌+◌, ◌^◌, ◌≤◌, ◌<◌, ◌≡◌, refl, ap, ◌∙◌, ◌≢◌, none, some, List, [], ◌∷◌, ◌++◌,
  append-nil, append_assoc, Bytes, All, be32, length, length-append, sum_map, arith,
}
use pgwire.Buffers.{BytesCrate, get_i32}
use pgwire.Buffers.Rules.{
  Reads, Writes, Reads-bind, Reads-last, Reads-pure, Reads-get_i32, Reads-copy_to_slice,
  Writes-then, Writes-put_u8, Writes-put_i32, Writes-put_slice,
}
use pgwire.Text.{IsCstring}
use pgwire.Text.Lossy.{IsCstring-nil}
use pgwire.Messages.Codec.{get_cstring, put_cstring}
use pgwire.Messages.Codec.Strings.{cstring, Reads-get_cstring, Writes-put_cstring, length-cstring}
use pgwire.Messages.Codec.Framing.{RoundTrips, round_trips}
use pgwire.Messages.Vectors.Rules.{flat, length-flat, sum_map-eq, Writes-for_each}
use pgwire.Messages.Startup.Authentication.{
  Authentication, auth_ok, cleartext_password, kerberos_v5, md5_password, sasl, sasl_continue,
  sasl_final, authentication_length, encode_authentication, decode_methods, decode_all_methods,
  decode_authentication, authentication_message,
}

abbrev methods_bytes : List Bytes → Bytes
methods_bytes methods = flat cstring methods ++ 0 ∷ []

abbrev pub authentication_body : Authentication → Bytes
authentication_body auth_ok = be32 0
authentication_body cleartext_password = be32 3
authentication_body kerberos_v5 = be32 2
authentication_body (md5_password salt) = be32 5 ++ salt
authentication_body (sasl methods) = be32 10 ++ methods_bytes methods
authentication_body (sasl_continue d) = be32 11 ++ d
authentication_body (sasl_final d) = be32 12 ++ d

-- A salt has four bytes, and a mechanism is a non-empty string. The messages with SASL data are
-- left out: `decode_body` does not read them back.
abbrev pub IsAuthentication : Authentication → Type 0
IsAuthentication auth_ok = Unit
IsAuthentication cleartext_password = Unit
IsAuthentication kerberos_v5 = Unit
IsAuthentication (md5_password salt) = length salt ≡ 4
IsAuthentication (sasl methods) = All (λ m. IsCstring m × (m ≢ [])) methods
IsAuthentication (sasl_continue _) = ⊥
IsAuthentication (sasl_final _) = ⊥

length-methods_bytes :
    (methods : List Bytes)
    → length (methods_bytes methods) ≡ sum_map (λ (v : Bytes). length v + 1) methods + 1
length-methods_bytes methods = omega (
  arith,
  length-append (flat cstring methods) (0 ∷ []),
  length-flat cstring methods,
  sum_map-eq _ _ methods length-cstring,
)

length-le-sum :
    (methods : List Bytes) → length methods ≤ sum_map (λ (v : Bytes). length v + 1) methods
length-le-sum [] = omega arith
length-le-sum (m ∷ methods) = omega (arith, length-le-sum methods)

module _ ⦃c : BytesCrate⦄ where
  pub Writes-authentication :
      (m : Authentication) → Writes (encode_authentication m) (authentication_body m)
  unfolding encode_authentication
  Writes-authentication auth_ok = Writes-put_i32 _
  Writes-authentication cleartext_password = Writes-put_i32 _
  Writes-authentication kerberos_v5 = Writes-put_i32 _
  Writes-authentication (md5_password salt) =
      Writes-then _ _ (Writes-put_i32 _) (Writes-put_slice salt)
  Writes-authentication (sasl methods) = Writes-then _ _ (Writes-put_i32 _) (
      Writes-then _ _ (Writes-for_each put_cstring cstring methods Writes-put_cstring)
        (Writes-put_u8 0))
  Writes-authentication (sasl_continue d) = Writes-then _ _ (Writes-put_i32 _) (Writes-put_slice d)
  Writes-authentication (sasl_final d) = Writes-then _ _ (Writes-put_i32 _) (Writes-put_slice d)

  Reads-decode_methods :
      (fuel : ℕ) (acc methods : List Bytes)
      → length methods < fuel
      → All (λ m. IsCstring m × (m ≢ [])) methods
      → Reads (decode_methods fuel acc) (methods_bytes methods) (acc ++ methods)
  unfolding decode_methods
  Reads-decode_methods zero acc methods hf h = absurd (omega arith)
  Reads-decode_methods (suc fuel) acc [] hf h = rw (append-nil acc) (
      Reads-bind get_cstring _ {y = []} none acc (Reads-get_cstring [] IsCstring-nil)
        (Reads-pure acc))
  Reads-decode_methods (suc fuel) acc ([] ∷ methods) hf h = absurd (h.0.1 refl)
  Reads-decode_methods (suc fuel) acc ((b ∷ m) ∷ methods) hf h =
      rw (append_assoc (cstring (b ∷ m)) (flat cstring methods) (0 ∷ [])) (
        Reads-bind get_cstring _ (some (b ∷ m)) (acc ++ (b ∷ m) ∷ methods)
          (Reads-get_cstring (b ∷ m) h.0.0)
          (rw (← append_assoc acc ((b ∷ m) ∷ []) methods)
            (Reads-decode_methods fuel (acc ++ (b ∷ m) ∷ []) methods (omega arith) h.1)))

  Reads-decode_all_methods :
      (methods : List Bytes)
      → All (λ m. IsCstring m × (m ≢ [])) methods
      → Reads decode_all_methods (methods_bytes methods) methods
  unfolding decode_all_methods
  Reads-decode_all_methods methods h = record {
    at = λ rest.
        ap (λ (n : ℕ). decode_methods (suc n) [] (methods_bytes methods ++ rest))
          (c.remaining_eq (methods_bytes methods ++ rest))
        ∙ (Reads-decode_methods (suc (length (methods_bytes methods ++ rest))) [] methods
              (omega (
                arith,
                length-append (methods_bytes methods) rest,
                length-methods_bytes methods,
                length-le-sum methods,
              ))
              h).at
            rest;
  }

  Reads-authentication :
      (m : Authentication) (n : ℕ)
      → IsAuthentication m
      → Reads (decode_authentication n) (authentication_body m) m
  unfolding decode_authentication
  Reads-authentication auth_ok n h =
      Reads-bind get_i32 _ {y = []} 0 auth_ok (Reads-get_i32 0 (omega arith)) (Reads-pure auth_ok)
  Reads-authentication cleartext_password n h =
      Reads-bind get_i32 _ {y = []} 3 cleartext_password (Reads-get_i32 3 (omega arith))
        (Reads-pure cleartext_password)
  Reads-authentication kerberos_v5 n h =
      Reads-bind get_i32 _ {y = []} 2 kerberos_v5 (Reads-get_i32 2 (omega arith))
        (Reads-pure kerberos_v5)
  Reads-authentication (md5_password salt) n h =
      Reads-bind get_i32 _ 5 (md5_password salt) (Reads-get_i32 5 (omega arith))
        (Reads-last _ md5_password salt (Reads-copy_to_slice salt 4 (omega (arith, h))))
  Reads-authentication (sasl methods) n h =
      Reads-bind get_i32 _ 10 (sasl methods) (Reads-get_i32 10 (omega arith))
        (Reads-last _ sasl methods (Reads-decode_all_methods methods h))
  Reads-authentication (sasl_continue d) n h = absurd h
  Reads-authentication (sasl_final d) n h = absurd h

  pub authentication-length :
      (m : Authentication)
      → IsAuthentication m
      → authentication_length m ≡ 4 + length (authentication_body m)
  unfolding authentication_length
  authentication-length auth_ok h = omega arith
  authentication-length cleartext_password h = omega arith
  authentication-length kerberos_v5 h = omega arith
  authentication-length (md5_password salt) h = omega arith
  authentication-length (sasl methods) h = omega (arith, length-methods_bytes methods)
  authentication-length (sasl_continue d) h = absurd h
  authentication-length (sasl_final d) h = absurd h

  pub authentication-RoundTrips :
      (m : Authentication)
      → IsAuthentication m
      → authentication_length m < 2 ^ 31
      → RoundTrips authentication_message m (authentication_body m) 0
  unfolding authentication_message
  authentication-RoundTrips m h fits =
      round_trips _ m _ (Writes-authentication m) (Reads-authentication m _ h)
        (authentication-length m h) fits
