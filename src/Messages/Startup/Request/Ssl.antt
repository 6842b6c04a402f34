-- ===== src/Messages/Startup/Request/Ssl.antt =====
-- The request for TLS, which has no type byte: `SslRequest` of messages/startup.rs.
use pgwire.Base.{
  ℕ, ◌^◌, ◌<◌, ◌≡◌, ◌≢◌, refl, ◌∙◌, none, some, ◌++◌, Bytes, be32, length, le→leb, lt→leb, ne→==,
  arith,
}
use pgwire.Buffers.{BytesCrate, ok, ◌>>◌, pure, advance}
use pgwire.Buffers.Rules.{Reads-advance, Writes-put_i32, bind-ok}
use pgwire.Messages.Codec.{encode, peek_i32}
use pgwire.Messages.Codec.Framing.{encode-frame, peek_i32-frame}
use pgwire.Messages.Startup.Request.{
  ssl_request, ssl_request_message, decode_ssl_request, body_magic_number,
}

-- The eight bytes of the request.
abbrev pub ssl_bytes : Bytes
ssl_bytes = be32 8 ++ be32 80877103

module _ ⦃c : BytesCrate⦄ where
  ssl-writes : (b : Bytes) → encode ssl_request_message ssl_request b ≡ ok tt (b ++ ssl_bytes)
  unfolding ssl_request_message
  ssl-writes b =
      (encode-frame ssl_request_message ssl_request (be32 80877103) (Writes-put_i32 _)).at b

  ssl-reads : (rest : Bytes) → decode_ssl_request (ssl_bytes ++ rest) ≡ ok (some ssl_request) rest
  unfolding decode_ssl_request pure ◌>>◌
  ssl-reads rest =
      rw (c.remaining_eq (ssl_bytes ++ rest), le→leb 8 (length (ssl_bytes ++ rest)) (omega arith))
        (bind-ok (peek_i32 4) _ _ 80877103 _ (peek_i32-frame (be32 8) 80877103 rest (omega arith))
          ∙ bind-ok (advance 8) _ _ tt rest ((Reads-advance ssl_bytes 8 refl).at rest))

  -- SslRequest is written as eight bytes and read back from them, whatever follows. A buffer with
  -- another 32-bit word in the place of the code, or of fewer than eight bytes, is left as it is.
  pub decode-ssl_request :
      (b rest : Bytes) (l v : ℕ) (short : Bytes)
      → v < 2 ^ 32
      → v ≢ body_magic_number
      → length short < 8
      → (encode ssl_request_message ssl_request b ≡ ok tt (b ++ ssl_bytes))
        × (decode_ssl_request (ssl_bytes ++ rest) ≡ ok (some ssl_request) rest)
        × (decode_ssl_request (be32 l ++ (be32 v ++ rest)) ≡ ok none (be32 l ++ (be32 v ++ rest)))
        × (decode_ssl_request short ≡ ok none short)
  unfolding decode_ssl_request pure ◌>>◌
  decode-ssl_request b rest l v short fits other few =
      let packet : Bytes = be32 l ++ (be32 v ++ rest) in
      (
        ssl-writes b,
        ssl-reads rest,
        rw (c.remaining_eq packet, le→leb 8 (length packet) (omega arith))
            (bind-ok (peek_i32 4) _ _ v _ (peek_i32-frame (be32 l) v rest fits)
              ∙ rw (ne→== v body_magic_number other)),
        rw (c.remaining_eq short, lt→leb 8 (length short) few),
      )
