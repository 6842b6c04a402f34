-- ===== src/Messages/Startup/Authentication/Sasl.antt =====
-- `Authentication::SASLContinue` and `SASLFinal`: the length that `decode_body` is given counts the
-- four bytes of the length and the four of the code, and it subtracts the first four alone.
use pgwire.Base.{
  ℕ, ◌+◌, ◌%◌, ◌^◌, ◌≤◌, ◌<◌, ◌≡◌, ap, ◌∙◌, sym, some, [], ◌∷◌, ◌++◌, append_assoc, Bytes, be32,
  length, length-append, arith,
}
use pgwire.Buffers.{BytesCrate, ok, panic, ◌>>=◌, pure, reading, get_i32, split_to}
use pgwire.Buffers.Rules.{
  Reads, Reads-bind, Reads-last, Reads-get_i32, Reads-split_to, bind-ok, bind-panic,
}
use pgwire.Messages.Codec.{usize_sub, decode, type_offset}
use pgwire.Messages.Codec.Framing.{frame, small, decode_packet-run}
use pgwire.Messages.Startup.Authentication.{
  Authentication, sasl_continue, sasl_final, authentication_length, decode_authentication,
  authentication_message,
}
use pgwire.Messages.Startup.Authentication.RoundTrip.{authentication_body}

four_more : (n : ℕ) → n < 2 ^ 31 → usize_sub (8 + n) 4 ≡ n + 4
four_more n h = omega arith

module _ ⦃c : BytesCrate⦄ where
  -- The bytes that `encode` writes for it.
  abbrev pub wire : Authentication → Bytes
  wire m = frame authentication_message m (authentication_body m)

  Reads-all :
      (d extra : Bytes)
      → length extra ≡ 4
      → length d < 2 ^ 31
      → Reads (split_to (usize_sub (8 + length d) 4)) (d ++ extra) (d ++ extra)
  Reads-all d extra four fits =
      Reads-split_to (d ++ extra) _
        (four_more (length d) fits ∙ omega (arith, length-append d extra))

  continue-eats :
      (d extra : Bytes)
      → length extra ≡ 4
      → length d < 2 ^ 31
      → Reads
          (decode_authentication (8 + length d))
          (be32 11 ++ (d ++ extra))
          (sasl_continue (d ++ extra))
  unfolding decode_authentication
  continue-eats d extra four fits =
      Reads-bind get_i32 _ 11 (sasl_continue (d ++ extra)) (Reads-get_i32 11 (omega arith))
        (Reads-last _ sasl_continue (d ++ extra) (Reads-all d extra four fits))

  final-eats :
      (d extra : Bytes)
      → length extra ≡ 4
      → length d < 2 ^ 31
      → Reads
          (decode_authentication (8 + length d))
          (be32 12 ++ (d ++ extra))
          (sasl_final (d ++ extra))
  unfolding decode_authentication
  final-eats d extra four fits =
      Reads-bind get_i32 _ 12 (sasl_final (d ++ extra)) (Reads-get_i32 12 (omega arith))
        (Reads-last _ sasl_final (d ++ extra) (Reads-all d extra four fits))

  split_to-panics :
      (d rest : Bytes)
      → length rest < 4
      → length d < 2 ^ 31
      → split_to (usize_sub (8 + length d) 4) (d ++ rest) ≡ panic
  unfolding reading
  split_to-panics d rest few fits = rw (
    c.split_to_short (d ++ rest) (usize_sub (8 + length d) 4) (omega (arith, length-append d rest)),
    reading,
  )

  continue-panics :
      (d rest : Bytes)
      → length rest < 4
      → length d < 2 ^ 31
      → decode_authentication (8 + length d) (be32 11 ++ (d ++ rest)) ≡ panic
  unfolding decode_authentication
  continue-panics d rest few fits =
      bind-ok get_i32 _ _ 11 (d ++ rest) ((Reads-get_i32 11 (omega arith)).at (d ++ rest))
      ∙ bind-panic _ _ _ (split_to-panics d rest few fits)

  final-panics :
      (d rest : Bytes)
      → length rest < 4
      → length d < 2 ^ 31
      → decode_authentication (8 + length d) (be32 12 ++ (d ++ rest)) ≡ panic
  unfolding decode_authentication
  final-panics d rest few fits =
      bind-ok get_i32 _ _ 12 (d ++ rest) ((Reads-get_i32 12 (omega arith)).at (d ++ rest))
      ∙ bind-panic _ _ _ (split_to-panics d rest few fits)

  decode-run :
      (n : ℕ) (body : Bytes)
      → n < 2 ^ 31
      → n ≤ 4 + length body
      → decode authentication_message (b'R' ∷ (be32 (n % 2 ^ 32) ++ body))
        ≡ (decode_authentication n >>= λ r. pure (some r)) body
  unfolding decode authentication_message type_offset
  decode-run n body fits enough =
      rw (small n (omega arith))
        (decode_packet-run (b'R' ∷ []) n decode_authentication body (omega arith) fits enough)

  -- A written SASLContinue or SASLFinal whose length fits the length field is decoded with the
  -- four bytes that follow it in its data, and they are gone from the buffer.
  pub decode-sasl_eats :
      (d extra rest : Bytes)
      → length extra ≡ 4
      → length d + 8 < 2 ^ 31
      → (decode authentication_message (wire (sasl_continue d) ++ (extra ++ rest))
          ≡ ok (some (sasl_continue (d ++ extra))) rest)
        × (decode authentication_message (wire (sasl_final d) ++ (extra ++ rest))
            ≡ ok (some (sasl_final (d ++ extra))) rest)
  unfolding authentication_message authentication_length
  decode-sasl_eats d extra rest four fits =
      let room = length-append d (extra ++ rest) in
      let regroup = append_assoc d extra rest in
      (
        decode-run (8 + length d) (be32 11 ++ (d ++ (extra ++ rest))) (omega arith)
              (omega (arith, room))
            ∙ ap (decode_authentication (8 + length d) >>= λ r. pure (some r))
                (ap (λ (t : Bytes). be32 11 ++ t) (sym regroup))
            ∙ (Reads-last _ some _ (continue-eats d extra four (omega arith))).at rest,
        decode-run (8 + length d) (be32 12 ++ (d ++ (extra ++ rest))) (omega arith)
              (omega (arith, room))
            ∙ ap (decode_authentication (8 + length d) >>= λ r. pure (some r))
                (ap (λ (t : Bytes). be32 12 ++ t) (sym regroup))
            ∙ (Reads-last _ some _ (final-eats d extra four (omega arith))).at rest,
      )

  -- A written SASLContinue or SASLFinal whose length fits the length field makes decode panic if
  -- fewer than four bytes follow it.
  pub decode-sasl_panics :
      (d rest : Bytes)
      → length rest < 4
      → length d + 8 < 2 ^ 31
      → (decode authentication_message (wire (sasl_continue d) ++ rest) ≡ panic)
        × (decode authentication_message (wire (sasl_final d) ++ rest) ≡ panic)
  unfolding authentication_message authentication_length
  decode-sasl_panics d rest few fits =
      let room = length-append d rest in
      (
        decode-run (8 + length d) (be32 11 ++ (d ++ rest)) (omega arith) (omega (arith, room))
            ∙ bind-panic _ _ _ (continue-panics d rest few (omega arith)),
        decode-run (8 + length d) (be32 12 ++ (d ++ rest)) (omega arith) (omega (arith, room))
            ∙ bind-panic _ _ _ (final-panics d rest few (omega arith)),
      )
