-- ===== src/Messages/Frontend/Partial.antt =====
-- What `decode` of a frontend message makes of buffers that no well-formed message begins.
use pgwire.Base.{
  ℕ, ◌+◌, ◌^◌, ◌≤◌, ◌<◌, ◌≡◌, refl, ap, ◌∙◌, ◌⊎◌, Option, some, [], ◌∷◌, ◌++◌, Bytes, be32, length,
  arith,
}
use pgwire.Errors.{invalid_message_type}
use pgwire.Buffers.{BytesCrate, ok, err, panic, Action, ◌>>=◌, pure, raise}
use pgwire.Buffers.Rules.{bind-panic, bind-cong}
use pgwire.Text.{NoNul}
use pgwire.Messages.Codec
use pgwire.Messages.Codec.{Message, type_offset, decode_packet, get_cstring}
use pgwire.Messages.Codec.Strings.{get_cstring-panic}
use pgwire.Messages.Codec.Framing.{frame, encode-frame, decode_packet-run}
use pgwire.Messages.Dispatch.{decode_as, map_option, by_first_byte-cons}
use pgwire.Messages.Units
use pgwire.Messages.Units.{unit_message, sync_message, terminate_message, flush_message}
use pgwire.Messages.Units.RoundTrip.{unit-RoundTrips}
use pgwire.Messages.Response.{query_message}
use pgwire.Messages.Frontend.{
  PgWireFrontendMessage, flush, sync, terminate, query, encode, decode_selected, decode,
}

-- The first bytes that `decode` has a case for.
abbrev pub IsKnown : ℕ → Type 0
IsKnown t =
    (t ≡ b'p')
    ⊎ (t ≡ b'Q')
    ⊎ (t ≡ b'P')
    ⊎ (t ≡ b'B')
    ⊎ (t ≡ b'C')
    ⊎ (t ≡ b'D')
    ⊎ (t ≡ b'E')
    ⊎ (t ≡ b'S')
    ⊎ (t ≡ b'X')

module _ ⦃c : BytesCrate⦄ where
  selected-unknown : (t : ℕ) → ¬ IsKnown t → decode_selected t ≡ raise (invalid_message_type t)
  unfolding decode_selected
  selected-unknown t h = ground arith

  -- A first byte that is no type of a frontend message, with at least one byte behind it, is an
  -- InvalidMessageType error that takes nothing.
  pub decode-unknown :
      (t : ℕ) (b : Bytes)
      → ¬ IsKnown t
      → 0 < length b
      → decode (t ∷ b) ≡ err (invalid_message_type t) (t ∷ b)
  unfolding decode raise
  decode-unknown t b h hb =
      by_first_byte-cons decode_selected t b hb
      ∙ ap (λ (f : Action (Option PgWireFrontendMessage)). f (t ∷ b)) (selected-unknown t h)

  -- encode writes a Flush message, and decode refuses what was written as an invalid message type.
  pub decode-flush :
      (m : Units.Flush) (b rest : Bytes)
      → (encode (flush m) b ≡ ok tt (b ++ frame flush_message m []))
        × (decode (frame flush_message m [] ++ rest)
            ≡ err (invalid_message_type b'H') (frame flush_message m [] ++ rest))
  unfolding encode flush_message
  decode-flush m b rest = (
    (encode-frame flush_message m [] (unit-RoundTrips b'H' m).writes).at b,
    decode-unknown b'H' _ (λ k. ground arith) (omega arith),
  )

  decode-run :
      {A : Type 0} (m : Message A) (t n : ℕ) (body : Bytes)
      → m.message_type ≡ some t
      → n < 2 ^ 31
      → n ≤ 4 + length body
      → Codec.decode m (t ∷ (be32 n ++ body)) ≡ (m.decode_body n >>= λ r. pure (some r)) body
  unfolding Codec.decode type_offset
  decode-run m t n body ht fits enough =
      rw (ht, type_offset)
        (decode_packet-run (t ∷ []) n m.decode_body body (omega arith) fits enough)

  -- The decoder of one type, run on a whole packet.
  decode_as-run :
      {A : Type 0} (t : ℕ) (m : Message A) (wrap : A → PgWireFrontendMessage) (n : ℕ) (body : Bytes)
      → m.message_type ≡ some t
      → decode_selected t ≡ decode_as m wrap
      → n < 2 ^ 31
      → n ≤ 4 + length body
      → decode (t ∷ (be32 n ++ body))
        ≡ ((m.decode_body n >>= λ r. pure (some r)) >>= λ v. pure (map_option wrap v)) body
  unfolding decode decode_as
  decode_as-run t m wrap n body ht hs fits enough =
      by_first_byte-cons decode_selected t (be32 n ++ body) (omega arith)
      ∙ ap (λ (f : Action (Option PgWireFrontendMessage)). f (t ∷ (be32 n ++ body))) hs
      ∙ bind-cong (Codec.decode m) (m.decode_body n >>= λ r. pure (some r))
          (λ v. pure (map_option wrap v)) (t ∷ (be32 n ++ body)) body
          (decode-run m t n body ht fits enough)

  -- A complete Query that announces less than 2 ^ 31 bytes makes decode panic if there is no zero
  -- byte in the buffer after its header.
  pub decode-query_panic :
      (n : ℕ) (body : Bytes)
      → n < 2 ^ 31
      → n ≤ 4 + length body
      → NoNul body
      → decode (b'Q' ∷ (be32 n ++ body)) ≡ panic
  unfolding decode_selected query_message
  decode-query_panic n body fits enough h =
      decode_as-run b'Q' query_message query n body refl refl fits enough
      ∙ bind-panic _ _ body
          (bind-panic _ _ body (bind-panic get_cstring _ body (get_cstring-panic body h)))

  -- Where a Sync or a Terminate is complete and announces less than 2 ^ 31 bytes, decode takes
  -- five bytes of it whatever length it announces, and the rest of what it announces stays in the
  -- buffer.
  pub decode-announced :
      (n : ℕ) (body : Bytes)
      → n < 2 ^ 31
      → n ≤ 4 + length body
      → (decode (b'S' ∷ (be32 n ++ body)) ≡ ok (some (sync (record {}))) body)
        × (decode (b'X' ∷ (be32 n ++ body)) ≡ ok (some (terminate (record {}))) body)
  unfolding decode_selected sync_message terminate_message unit_message pure map_option ◌>>=◌
  decode-announced n body fits enough = (
    decode_as-run b'S' sync_message sync n body refl refl fits enough,
    decode_as-run b'X' terminate_message terminate n body refl refl fits enough,
  )
