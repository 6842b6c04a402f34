-- ===== src/Messages/Startup/Passwords/RoundTrip.antt =====
-- The messages of type `p` are read back through the family message and its coercions.
use pgwire.Base.{
  ℕ, ◌+◌, ◌^◌, ◌<◌, ◌≡◌, refl, sym, ap, ◌∙◌, Option, none, some, [], ◌++◌, append-nil, Bytes,
  length, length-append, lt→leb, ne→==, minus_one32, i32_as_usize, arith,
}
use pgwire.Buffers.{BytesCrate, ok, get_i32}
use pgwire.Buffers.Rules.{
  Reads, Writes, Reads-bind, Reads-last, Reads-last_eq, Reads-pure, Reads-get_i32, Reads-split_to,
  Writes-then, Writes-put_i32, Writes-put_slice,
}
use pgwire.Text.{IsCstring}
use pgwire.Messages.Codec.{Message, get_cstring, usize_sub}
use pgwire.Messages.Codec.Strings.{
  cstring, non_empty, or_empty-non_empty, Reads-get_cstring, Writes-put_cstring, length-cstring,
}
use pgwire.Messages.Codec.Framing.{RoundTrips, round_trips, small}
use pgwire.Messages.Vectors.Rules.{IsValue, value_bytes}
use pgwire.Messages.Startup.Passwords.{
  Password, SaslInitialResponse, SaslResponse, PasswordMessageFamily, raw, password,
  sasl_initial_response, sasl_response, payload_length, password_message, put_payload, get_payload,
  sasl_initial_response_message, sasl_response_message, family_length, encode_family,
  family_message, coerce_raw, into_password, into_sasl_initial_response, into_sasl_response,
}

abbrev pub initial_body : SaslInitialResponse → Bytes
initial_body m = cstring m.auth_method ++ value_bytes m.payload

length-value_bytes : (o : Option Bytes) → length (value_bytes o) ≡ 4 + payload_length o
unfolding payload_length
length-value_bytes none = omega arith
length-value_bytes (some v) = omega arith

-- The body of a message of the family.
abbrev pub family_body : PasswordMessageFamily → Bytes
family_body (raw body) = body
family_body (password m) = cstring m.password
family_body (sasl_initial_response m) = initial_body m
family_body (sasl_response m) = m.payload

sub_four : (n : ℕ) → 4 + n < 2 ^ 32 → usize_sub (4 + n) 4 ≡ n
sub_four n h = omega arith

i32_as_usize-length : (n : ℕ) → n < 2 ^ 31 → i32_as_usize n ≡ n
i32_as_usize-length n h = rw (lt→leb (2 ^ 31) n h)

module _ ⦃c : BytesCrate⦄ where
  pub password-RoundTrips :
      (m : Password)
      → IsCstring m.password
      → password_message.message_length m < 2 ^ 31
      → RoundTrips password_message m (cstring m.password) 0
  unfolding password_message
  password-RoundTrips m h fits =
      round_trips _ m _ (Writes-put_cstring m.password)
        (Reads-last_eq get_cstring _ (non_empty m.password) m (rw (or_empty-non_empty m.password))
          (Reads-get_cstring m.password h))
        (omega (arith, length-cstring m.password)) fits

  Writes-put_payload : (o : Option Bytes) → Writes (put_payload o) (value_bytes o)
  unfolding put_payload
  Writes-put_payload none = Writes-put_i32 _
  Writes-put_payload (some v) = Writes-then _ _ (Writes-put_i32 _) (Writes-put_slice v)

  Reads-get_payload : (o : Option Bytes) → IsValue o → Reads get_payload (value_bytes o) o
  unfolding get_payload
  Reads-get_payload none h =
      Reads-bind get_i32 _ {y = []} minus_one32 none (Reads-get_i32 minus_one32 (omega arith))
        (Reads-pure none)
  Reads-get_payload (some v) h = rw (small (length v) (omega arith)) (
      Reads-bind get_i32 _ (length v) (some v) (Reads-get_i32 (length v) (omega arith)) (
        rw (ne→== (length v) minus_one32 (omega arith)) (
          Reads-last _ some v
            (Reads-split_to v (i32_as_usize (length v)) (i32_as_usize-length (length v) h)))))

  pub sasl_initial_response-RoundTrips :
      (m : SaslInitialResponse)
      → IsCstring m.auth_method
      → IsValue m.payload
      → sasl_initial_response_message.message_length m < 2 ^ 31
      → RoundTrips sasl_initial_response_message m (initial_body m) 0
  unfolding sasl_initial_response_message
  sasl_initial_response-RoundTrips m h hv fits =
      round_trips _ m _
        (Writes-then _ _ (Writes-put_cstring m.auth_method) (Writes-put_payload m.payload))
        (Reads-bind get_cstring _ (non_empty m.auth_method) m (Reads-get_cstring m.auth_method h) (
          rw (or_empty-non_empty m.auth_method)
            (Reads-last get_payload _ m.payload (Reads-get_payload m.payload hv))))
        (omega (
          arith,
          length-append (cstring m.auth_method) (value_bytes m.payload),
          length-cstring m.auth_method,
          length-value_bytes m.payload,
        ))
        fits

  pub sasl_response-RoundTrips :
      (m : SaslResponse)
      → sasl_response_message.message_length m < 2 ^ 31
      → RoundTrips sasl_response_message m m.payload 0
  unfolding sasl_response_message
  sasl_response-RoundTrips m fits =
      round_trips _ m _ (Writes-put_slice m.payload)
        (Reads-last _ _ m.payload
          (Reads-split_to m.payload _ (sub_four (length m.payload) (omega arith))))
        refl fits

  pub Writes-family : (m : PasswordMessageFamily) → Writes (encode_family m) (family_body m)
  unfolding encode_family
  Writes-family (raw body) = Writes-put_slice body
  Writes-family (password m) = Writes-put_cstring m.password
  Writes-family (sasl_initial_response m) =
      Writes-then _ _ (Writes-put_cstring m.auth_method) (Writes-put_payload m.payload)
  Writes-family (sasl_response m) = Writes-put_slice m.payload

  pub family-length : (m : PasswordMessageFamily) → family_length m ≡ 4 + length (family_body m)
  unfolding family_length
  family-length (raw body) = omega arith
  family-length (password m) = omega (arith, length-cstring m.password)
  family-length (sasl_initial_response m) = omega (
    arith,
    length-append (cstring m.auth_method) (value_bytes m.payload),
    length-cstring m.auth_method,
    length-value_bytes m.payload,
  )
  family-length (sasl_response m) = refl

  -- Whatever its type, a message of the family is kept as its body.
  pub Reads-family :
      (body : Bytes)
      → 4 + length body < 2 ^ 31
      → Reads (family_message.decode_body (4 + length body)) body (raw body)
  unfolding family_message
  Reads-family body fits =
      Reads-last _ raw body (Reads-split_to body _ (sub_four (length body) (omega arith)))

  pub raw-RoundTrips :
      (body : Bytes) → 4 + length body < 2 ^ 31 → RoundTrips family_message (raw body) body 0
  unfolding family_message family_length encode_family
  raw-RoundTrips body fits =
      round_trips _ (raw body) _ (Writes-put_slice body)
        (Reads-last _ raw body (Reads-split_to body _ (omega arith))) (omega arith) (omega arith)

  coerce :
      {A : Type 0} (m : Message A) (a : A) (body : Bytes)
      → RoundTrips m a body 0
      → m.message_length a ≡ length body + 4
      → coerce_raw m (raw body) ≡ ok a []
  unfolding coerce_raw
  coerce m a body h e =
      ap (λ (n : ℕ). m.decode_body n body) (sym e)
      ∙ ap (m.decode_body (m.message_length a)) (sym (append-nil body))
      ∙ h.reads.at []

  -- The coercions read back the body of each concrete type.
  pub into_password-raw :
      (m : Password)
      → IsCstring m.password
      → password_message.message_length m < 2 ^ 31
      → into_password (raw (family_body (password m))) ≡ ok m []
  unfolding into_password
  into_password-raw m h fits =
      coerce password_message m _ (password-RoundTrips m h fits)
        (omega (arith, length-cstring m.password))

  pub into_sasl_initial_response-raw :
      (m : SaslInitialResponse)
      → IsCstring m.auth_method
      → IsValue m.payload
      → sasl_initial_response_message.message_length m < 2 ^ 31
      → into_sasl_initial_response (raw (family_body (sasl_initial_response m))) ≡ ok m []
  unfolding into_sasl_initial_response
  into_sasl_initial_response-raw m h hv fits =
      coerce sasl_initial_response_message m _ (sasl_initial_response-RoundTrips m h hv fits) (
        omega (
          arith,
          length-append (cstring m.auth_method) (value_bytes m.payload),
          length-cstring m.auth_method,
          length-value_bytes m.payload,
        ))

  pub into_sasl_response-raw :
      (m : SaslResponse)
      → sasl_response_message.message_length m < 2 ^ 31
      → into_sasl_response (raw (family_body (sasl_response m))) ≡ ok m []
  unfolding into_sasl_response
  into_sasl_response-raw m fits =
      coerce sasl_response_message m _ (sasl_response-RoundTrips m fits) (omega arith)

  -- A raw message of the password family is coerced into the type whose body it holds, and nothing
  -- of the body is left. The strings are text without a zero byte and the lengths fit their
  -- fields.
  pub into-raw :
      (p : Password) (i : SaslInitialResponse) (r : SaslResponse)
      → IsCstring p.password
      → password_message.message_length p < 2 ^ 31
      → IsCstring i.auth_method
      → IsValue i.payload
      → sasl_initial_response_message.message_length i < 2 ^ 31
      → sasl_response_message.message_length r < 2 ^ 31
      → (into_password (raw (family_body (password p))) ≡ ok p [])
        × (into_sasl_initial_response (raw (family_body (sasl_initial_response i))) ≡ ok i [])
        × (into_sasl_response (raw (family_body (sasl_response r))) ≡ ok r [])
  into-raw p i r hp fp hi hv fi fr = (
    into_password-raw p hp fp,
    into_sasl_initial_response-raw i hi hv fi,
    into_sasl_response-raw r fr,
  )
