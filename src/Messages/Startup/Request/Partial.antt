-- ===== src/Messages/Startup/Request/Partial.antt =====
-- A startup packet of which a part has arrived.
use pgwire.Base.{
  ◌%◌, ◌^◌, ◌<◌, ◌≡◌, refl, ◌∙◌, none, ◌++◌, append_assoc, Bytes, be32, length, lt→leb, arith,
}
use native.Mathlib.Decide.{dec_le}
use pgwire.Buffers.{BytesCrate, ok, ◌>>◌, pure}
use pgwire.Buffers.Rules.{bind-ok}
use pgwire.Messages.Codec.{decode_packet, decode, type_offset}
use pgwire.Messages.Codec.Framing.{frame, prefix_split, decode-prefix}
use pgwire.Messages.Startup.Params.{Params}
use pgwire.Messages.Startup.Request.{startup_message, check_version, decode_startup}
use pgwire.Messages.Startup.Request.RoundTrip.{
  with_params, startup_body, startup-length, check_version-supported,
}

module _ ⦃c : BytesCrate⦄ where
  check_version-short : (p : Bytes) → length p < 8 → check_version p ≡ ok tt p
  unfolding check_version pure
  check_version-short p h = rw (c.remaining_eq p, lt→leb 8 (length p) h) refl

  -- The version is in the first eight bytes.
  check_version-prefix :
      (m : Params) (p q : Bytes)
      → frame startup_message (with_params m) (startup_body (with_params m)) ≡ p ++ q
      → check_version p ≡ ok tt p
  unfolding startup_message
  check_version-prefix m p q e = elim (dec_le 8 (length p)) [
    | no few ↦ check_version-short p (omega arith)
    | yes many ↦
        let l = startup_message.message_length (with_params m) % 2 ^ 32 in
        let (part, here, _) = prefix_split (be32 l ++ be32 196608) p e many in
        rw (here ∙ append_assoc (be32 l) (be32 196608) part) (check_version-supported l part)
  ]

  pub decode_startup-prefix :
      (m : Params) (p q : Bytes)
      → startup_message.message_length (with_params m) < 2 ^ 31
      → frame startup_message (with_params m) (startup_body (with_params m)) ≡ p ++ q
      → 0 < length q
      → decode_startup p ≡ ok none p
  unfolding decode_startup ◌>>◌
  decode_startup-prefix m p q fits e left =
      bind-ok check_version (λ _. decode_packet 0 startup_message.decode_body) p tt p
        (check_version-prefix m p q e)
      ∙ unfold decode startup_message type_offset in
        decode-prefix startup_message (with_params m) (startup_body (with_params m)) p q
          (startup-length (with_params m)) fits e left
