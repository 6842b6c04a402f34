-- ===== src/Messages/Startup/Request/RoundTrip.antt =====
-- `Startup` and `SslRequest` are read back as they were written.
use pgwire.Base.{
  ℕ, zero, suc, ◌+◌, ◌%◌, ◌^◌, ◌≤◌, ◌<◌, ◌≡◌, refl, ap, ◌∙◌, ◌≢◌, none, some, [], ◌∷◌, ◌++◌,
  append-nil, append_assoc, Bytes, All, be16, be32, length, length-append, sum_map, le→leb, ne→==,
  arith,
}
use pgwire.Errors.{invalid_protocol_version}
use pgwire.Buffers.{BytesCrate, ok, err, ◌>>◌, pure, raise, get_u16}
use pgwire.Buffers.Rules.{
  Reads, Writes, Reads-bind, Reads-last, Reads-pure, Reads-get_u16, Writes-then, Writes-put_u16,
  bind-ok, bind-err,
}
use pgwire.Text.{IsCstring}
use pgwire.Text.Lossy.{IsCstring-nil}
use pgwire.Messages.Codec.{get_cstring, decode_packet, encode}
use pgwire.Messages.Codec.Strings.{
  cstring, non_empty, or_empty-non_empty, Reads-get_cstring, Writes-put_cstring,
}
use pgwire.Messages.Codec.Framing.{frame, encode-frame, small, decode_packet-frame, peek_i32-frame}
use pgwire.Messages.Vectors.Rules.{flat, length-flat, sum_map-eq, Writes-for_each}
use pgwire.Messages.Startup.Params.{Params, insert, IsSorted}
use pgwire.Messages.Startup.Params.Insert.{insert-greatest, IsSorted-middle}
use pgwire.Messages.Startup.Request.{
  Startup, new_startup, put_param, decode_params, decode_all_params, startup_message, check_version,
  decode_startup, is_protocol_version_supported,
}

abbrev param_bytes : Bytes × Bytes → Bytes
param_bytes (k, v) = cstring k ++ cstring v

-- Keys are not empty: an empty one would read as the end.
abbrev pub IsParam : Bytes × Bytes → Type 0
IsParam (k, v) = IsCstring k × (k ≢ []) × IsCstring v

abbrev params_bytes : Params → Bytes
params_bytes m = flat param_bytes m ++ cstring []

-- A request of protocol 3.0.
abbrev pub with_params : Params → Startup
with_params m = record new_startup { parameters = m }

abbrev pub startup_body : Startup → Bytes
startup_body s =
    be16 s.protocol_number_major ++ (be16 s.protocol_number_minor ++ params_bytes s.parameters)

length-param_bytes : (e : Bytes × Bytes) → length (param_bytes e) ≡ length e.0 + length e.1 + 2
length-param_bytes (k, v) = omega (
  arith,
  length-append (cstring k) (cstring v),
  length-append k (0 ∷ []),
  length-append v (0 ∷ []),
)

length-le-sum :
    (m : Params) → length m ≤ sum_map (λ (e : Bytes × Bytes). length e.0 + length e.1 + 2) m
length-le-sum [] = omega arith
length-le-sum (e ∷ m) = omega (arith, length-le-sum m)

module _ ⦃c : BytesCrate⦄ where
  Writes-put_param : (e : Bytes × Bytes) → Writes (put_param e) (param_bytes e)
  unfolding put_param
  Writes-put_param (k, v) = Writes-then _ _ (Writes-put_cstring k) (Writes-put_cstring v)

  pub startup-Writes : (s : Startup) → Writes (startup_message.encode_body s) (startup_body s)
  unfolding startup_message
  startup-Writes s = Writes-then _ _ (Writes-put_u16 _) (
      Writes-then _ _ (Writes-put_u16 _) (
        Writes-then _ _ (Writes-for_each put_param param_bytes s.parameters Writes-put_param)
          (Writes-put_cstring [])))

  Reads-param :
      (fuel : ℕ) (acc : Params) (k v : Bytes) (x : Bytes) (r : Params)
      → IsParam (k, v)
      → Reads (decode_params fuel (insert k v acc)) x r
      → Reads (decode_params (suc fuel) acc) (cstring k ++ (cstring v ++ x)) r
  unfolding decode_params
  Reads-param fuel acc [] v x r h hr = absurd (h.1 refl)
  Reads-param fuel acc (b ∷ k) v x r h hr =
      Reads-bind get_cstring _ (some (b ∷ k)) r (Reads-get_cstring (b ∷ k) h.0) (
        Reads-bind get_cstring _ (non_empty v) r (Reads-get_cstring v h.2)
          (rw (or_empty-non_empty v) hr))

  params_step :
      (k v : Bytes) (m : Params)
      → params_bytes ((k, v) ∷ m) ≡ cstring k ++ (cstring v ++ params_bytes m)
  params_step k v m =
      append_assoc (cstring k ++ cstring v) (flat param_bytes m) (cstring [])
      ∙ append_assoc (cstring k) (cstring v) (params_bytes m)

  -- The map that the loop has built is a prefix of the map that was written.
  Reads-decode_params :
      (fuel : ℕ) (acc m : Params)
      → length m < fuel
      → All IsParam m
      → IsSorted (acc ++ m)
      → Reads (decode_params fuel acc) (params_bytes m) (acc ++ m)
  Reads-decode_params zero acc m hf hm hs = absurd (omega arith)
  Reads-decode_params (suc fuel) acc [] hf hm hs =
      unfold decode_params in
      rw (append-nil acc) (
        Reads-bind get_cstring _ {y = []} none acc (Reads-get_cstring [] IsCstring-nil)
          (Reads-pure acc))
  Reads-decode_params (suc fuel) acc ((k, v) ∷ m) hf hm hs = rw (params_step k v m) (
      Reads-param fuel acc k v (params_bytes m) (acc ++ (k, v) ∷ m) hm.0 (
        rw
          (
            insert-greatest k v acc (IsSorted-middle acc k v m hs),
            ← append_assoc acc ((k, v) ∷ []) m,
          )
          (Reads-decode_params fuel (acc ++ (k, v) ∷ []) m (omega arith) hm.1
            (rw (append_assoc acc ((k, v) ∷ []) m) hs))))

  length-params_bytes :
      (m : Params)
      → length (params_bytes m) ≡ 1 + sum_map (λ (e : Bytes × Bytes). length e.0 + length e.1 + 2) m
  length-params_bytes m = omega (
    arith,
    length-append (flat param_bytes m) (cstring []),
    length-flat param_bytes m,
    sum_map-eq _ _ m length-param_bytes,
  )

  Reads-decode_all_params :
      (m : Params) → All IsParam m → IsSorted m → Reads decode_all_params (params_bytes m) m
  unfolding decode_all_params
  Reads-decode_all_params m hm hs = record {
    at = λ rest.
        ap (λ (n : ℕ). decode_params (suc n) [] (params_bytes m ++ rest))
          (c.remaining_eq (params_bytes m ++ rest))
        ∙ (Reads-decode_params (suc (length (params_bytes m ++ rest))) [] m
              (omega (
                arith,
                length-append (params_bytes m) rest,
                length-params_bytes m,
                length-le-sum m,
              ))
              hm hs).at
            rest;
  }

  pub startup-Reads :
      (s : Startup) (n : ℕ)
      → s.protocol_number_major < 2 ^ 16
      → s.protocol_number_minor < 2 ^ 16
      → All IsParam s.parameters
      → IsSorted s.parameters
      → Reads (startup_message.decode_body n) (startup_body s) s
  unfolding startup_message
  startup-Reads s n h1 h2 hm hs =
      Reads-bind get_u16 _ s.protocol_number_major s (Reads-get_u16 _ h1) (
        Reads-bind get_u16 _ s.protocol_number_minor s (Reads-get_u16 _ h2) (
          Reads-last decode_all_params _ s.parameters (Reads-decode_all_params s.parameters hm hs)))

  pub startup-length :
      (s : Startup) → startup_message.message_length s ≡ 4 + length (startup_body s)
  unfolding startup_message
  startup-length s = omega (arith, length-params_bytes s.parameters)

  pub check_version-supported :
      (l : ℕ) (rest : Bytes)
      → check_version (be32 l ++ (be32 196608 ++ rest)) ≡ ok tt (be32 l ++ (be32 196608 ++ rest))
  unfolding check_version pure is_protocol_version_supported
  check_version-supported l rest =
      rw
        (
          c.remaining_eq (be32 l ++ (be32 196608 ++ rest)),
          le→leb 8 (length (be32 l ++ (be32 196608 ++ rest))) (omega arith),
        )
        (bind-ok _ _ _ 196608 _ (peek_i32-frame (be32 l) 196608 rest (omega arith)))

  check_version-unsupported :
      (l v : ℕ) (rest : Bytes)
      → v < 2 ^ 32
      → v ≢ 196608
      → check_version (be32 l ++ (be32 v ++ rest))
        ≡ err (invalid_protocol_version v) (be32 l ++ (be32 v ++ rest))
  unfolding check_version raise is_protocol_version_supported
  check_version-unsupported l v rest h ne =
      rw
        (
          c.remaining_eq (be32 l ++ (be32 v ++ rest)),
          le→leb 8 (length (be32 l ++ (be32 v ++ rest))) (omega arith),
        )
        (bind-ok _ _ _ v _ (peek_i32-frame (be32 l) v rest h) ∙ rw (ne→== v 196608 ne))

  -- A startup packet with a protocol version other than 3.0 is an InvalidProtocolVersion error as
  -- soon as eight bytes are there, and nothing is taken.
  pub decode_startup-version :
      (l v : ℕ) (rest : Bytes)
      → v < 2 ^ 32
      → v ≢ 196608
      → decode_startup (be32 l ++ (be32 v ++ rest))
        ≡ err (invalid_protocol_version v) (be32 l ++ (be32 v ++ rest))
  unfolding decode_startup ◌>>◌
  decode_startup-version l v rest h ne =
      bind-err check_version (λ _. decode_packet 0 startup_message.decode_body)
        (be32 l ++ (be32 v ++ rest)) (invalid_protocol_version v) _
        (check_version-unsupported l v rest h ne)

  pub decode_startup-frame :
      (m : Params)
      → All IsParam m
      → IsSorted m
      → startup_message.message_length (with_params m) < 2 ^ 31
      → Reads decode_startup
          (frame startup_message (with_params m) (startup_body (with_params m)))
          (some (with_params m))
  unfolding decode_startup ◌>>◌ startup_message
  decode_startup-frame m hm hs fits =
      let s = with_params m in
      let n = startup_message.message_length s in
      record {
        at = λ rest.
            bind-ok check_version _ _ tt _
              (check_version-supported (n % 2 ^ 32) (params_bytes m ++ rest))
            ∙ rw (small (n) (omega arith)) (
                (decode_packet-frame [] n startup_message.decode_body s (startup_body s)
                    (omega arith) fits (omega (arith, startup-length s))
                    (startup-Reads s n (omega arith) (omega arith) hm hs)).at
                  rest);
      }

  -- A Startup of protocol 3.0 is written, and read back from what was written, whatever follows.
  -- Its parameters are strings without a zero byte, with keys that are not empty and in order, and
  -- its length fits the length field.
  pub decode-encode_startup :
      (m : Params) (b rest : Bytes)
      → All IsParam m
      → IsSorted m
      → startup_message.message_length (with_params m) < 2 ^ 31
      → (encode startup_message (with_params m) b
          ≡ ok tt (b ++ frame startup_message (with_params m) (startup_body (with_params m))))
        × (decode_startup
              (frame startup_message (with_params m) (startup_body (with_params m)) ++ rest)
            ≡ ok (some (with_params m)) rest)
  decode-encode_startup m b rest hm hs fits = (
    (encode-frame startup_message (with_params m) _ (startup-Writes (with_params m))).at b,
    (decode_startup-frame m hm hs fits).at rest,
  )
