-- ===== src/Messages/Frontend/Stream.antt =====
-- What a connection decodes from the bytes that have arrived: the messages that are complete, in
-- their order, and nothing of the one that is not.
use pgwire.Base.{
  ℕ, zero, suc, ◌<◌, ◌≡◌, ap, ◌∙◌, none, some, List, [], ◌∷◌, ◌++◌, append_assoc, Bytes, All,
  length, map, arith,
}
use pgwire.Buffers.{BytesCrate, ok, no_fuel, Action, ◌>>=◌, pure}
use pgwire.Buffers.Rules.{Writes, Writes-then, Writes-pure, bind-ok}
use pgwire.Messages.Vectors.{for_each}
use pgwire.Messages.Vectors.Rules.{flat}
use pgwire.Messages.Frontend.{PgWireFrontendMessage, encode, decode}
use pgwire.Messages.Frontend.RoundTrip.{
  IsWellFormed, wire, received, missing, decode-encode_frontend, decode-prefix_frontend,
}

module _ ⦃c : BytesCrate⦄ where
  -- `decode` until it returns `None`.
  unfoldable pub decode_available : ℕ → Action (List PgWireFrontendMessage)
  decode_available zero = λ b. no_fuel
  decode_available (suc fuel) = do
    next ← decode
    elim next [ none ↦ pure [] | some m ↦ (do ms ← decode_available fuel; pure (m ∷ ms)) ]

  Writes-stream :
      (ms : List PgWireFrontendMessage)
      → All IsWellFormed ms
      → Writes (for_each encode ms) (flat wire ms)
  unfolding for_each
  Writes-stream [] h = Writes-pure
  Writes-stream (m ∷ ms) h =
      Writes-then _ _ (record { at = λ b. (decode-encode_frontend m b [] h.0).0 })
        (Writes-stream ms h.1)

  available :
      (fuel : ℕ) (ms : List PgWireFrontendMessage) (p : Bytes)
      → length ms < fuel
      → All IsWellFormed ms
      → decode p ≡ ok none p
      → decode_available fuel (flat wire ms ++ p) ≡ ok (map received ms) p
  unfolding decode_available pure
  available zero ms p few h stop = absurd (omega arith)
  available (suc fuel) [] p few h stop = bind-ok decode _ p none p stop
  available (suc fuel) (m ∷ ms) p few h stop =
      ap (decode_available (suc fuel)) (append_assoc (wire m) (flat wire ms) p)
      ∙ bind-ok decode _ _ (some (received m)) (flat wire ms ++ p)
          (decode-encode_frontend m [] (flat wire ms ++ p) h.0).1
      ∙ bind-ok (decode_available fuel) _ _ (map received ms) p
          (available fuel ms p (omega arith) h.1 stop)

  -- Well-formed frontend messages other than Startup and Flush, written back to back, are decoded
  -- in their order, those of the password family as their raw bodies, by calling decode until it
  -- returns None, and what has arrived of the next, a proper prefix of a well-formed message other
  -- than Parse, Startup and Flush, stays in the buffer. One call more than there are messages is
  -- fuel enough.
  pub available-encode :
      (fuel : ℕ) (ms : List PgWireFrontendMessage) (next : PgWireFrontendMessage) (b p q : Bytes)
      → length ms < fuel
      → All IsWellFormed ms
      → IsWellFormed next
      → missing next ≡ 0
      → wire next ≡ p ++ q
      → 0 < length q
      → (for_each encode ms b ≡ ok tt (b ++ flat wire ms))
        × (decode_available fuel (flat wire ms ++ p) ≡ ok (map received ms) p)
  available-encode fuel ms next b p q few h hn exact e hq = (
    (Writes-stream ms h).at b,
    available fuel ms p few h (decode-prefix_frontend next p q hn exact e hq),
  )
