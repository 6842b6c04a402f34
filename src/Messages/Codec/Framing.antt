-- ===== src/Messages/Codec/Framing.antt =====
-- What `encode` writes round a body, and what `decode` makes of it, whole or cut short.
use native.Mathlib.Decide.{dec_le}
use pgwire.Base.{
  ℕ, ◌+◌, ◌%◌, ◌^◌, ◌≤◌, ◌<◌, ◌≡◌, refl, sym, ap, ◌∙◌, Option, none, some, [], ◌∷◌, ◌++◌,
  append_assoc, Bytes, length, length-append, drop-length, le→leb, lt→leb, be32, i32_as_usize,
  arith,
}
use pgwire.Buffers.{BytesCrate, ok, Action, ◌>>=◌, ◌>>◌, pure, advance}
use pgwire.Buffers.Rules.{
  Reads, Writes, Reads-last, Reads-advance, Writes-then, Writes-pure, Writes-put_i32, Writes-put_u8,
  bind-ok, be32_word,
}
use pgwire.Messages.Codec.{
  peek_i32, get_length, decode_packet, Message, type_offset, put_message_type, encode, decode,
  usize_add,
}

abbrev pub type_bytes : Option ℕ → Bytes
type_bytes none = []
type_bytes (some mt) = mt ∷ []

-- The bytes of a message with a given body.
abbrev pub frame : {A : Type 0} → Message A → A → Bytes → Bytes
frame m a body = type_bytes m.message_type ++ (be32 (m.message_length a % 2 ^ 32) ++ body)

-- A value whose body is written and read back, and whose length field fits an `i32` and is
-- `missing` less than the length of the message without its type.
pub record RoundTrips {A : Type 0} (m : Message A) (a : A) (body : Bytes) (missing : ℕ)
    : Type 0 where
  pub writes : Writes (m.encode_body a) body
  pub reads : Reads (m.decode_body (m.message_length a)) body a
  pub announced : m.message_length a + missing ≡ 4 + length body
  pub fits : m.message_length a < 2 ^ 31

-- The same where the length field is exact.
pub round_trips :
    {A : Type 0} (m : Message A) (a : A) (body : Bytes)
    → Writes (m.encode_body a) body
    → Reads (m.decode_body (m.message_length a)) body a
    → m.message_length a ≡ 4 + length body
    → m.message_length a < 2 ^ 31
    → RoundTrips m a body 0
round_trips m a body w r e f = record {
  writes = w;
  reads = r;
  announced = omega (arith, e);
  fits = f;
}

length-type_bytes : (o : Option ℕ) → length (type_bytes o) ≡ type_offset o
unfolding type_offset
length-type_bytes none = refl
length-type_bytes (some mt) = refl

type_bytes_short : (o : Option ℕ) → length (type_bytes o) ≤ 1
type_bytes_short none = omega arith
type_bytes_short (some mt) = omega arith

pub small : (n : ℕ) → n < 2 ^ 32 → n % 2 ^ 32 ≡ n
small n h = omega arith

pub prefix_split :
    (x p : Bytes) {y q : Bytes}
    → x ++ y ≡ p ++ q
    → length x ≤ length p
    → (z : Bytes) × (p ≡ x ++ z) × (y ≡ z ++ q)
prefix_split [] p e h = (p, refl, e)
prefix_split (a ∷ x) [] e h = absurd (omega arith)
prefix_split (a ∷ x) (b ∷ p) {y = y} {q = q} e h =
    let tails : x ++ y ≡ p ++ q = cc in
    let r = prefix_split x p tails (omega arith) in (r.0, cc (r.1), r.2)

module _ ⦃c : BytesCrate⦄ where
  pub get_length-short :
      (offset : ℕ) (b : Bytes) → length b < 4 + offset → get_length offset b ≡ ok none b
  unfolding get_length
  get_length-short offset b h = rw (c.remaining_eq b, lt→leb (4 + offset) (length b) h)

  pub peek_i32-frame :
      (t : Bytes) (n : ℕ) (rest : Bytes)
      → n < 2 ^ 32
      → peek_i32 (length t) (t ++ (be32 n ++ rest)) ≡ ok n (t ++ (be32 n ++ rest))
  unfolding peek_i32
  peek_i32-frame t n rest h =
      rw (drop-length t (be32 n ++ rest), peek_i32)
        (rw (c.get_i32_eq _ _ _ _ [], peek_i32)
          (ap (λ (w : ℕ). ok w (t ++ (be32 n ++ rest))) (be32_word n h)))

  i32_as_usize-small : (n : ℕ) → n < 2 ^ 31 → i32_as_usize n ≡ n
  i32_as_usize-small n h = ground arith

  pub get_length-frame :
      (t : Bytes) (n : ℕ) (rest : Bytes)
      → n < 2 ^ 31
      → get_length (length t) (t ++ (be32 n ++ rest)) ≡ ok (some n) (t ++ (be32 n ++ rest))
  unfolding get_length pure
  get_length-frame t n rest h =
      rw
        (
          c.remaining_eq (t ++ (be32 n ++ rest)),
          le→leb (4 + length t) (length (t ++ (be32 n ++ rest)))
              (omega (arith, length-append t (be32 n ++ rest))),
        )
        (bind-ok _ _ _ n _ (peek_i32-frame t n rest (omega arith))
          ∙ ap (λ (w : ℕ). ok (some w) (t ++ (be32 n ++ rest))) (i32_as_usize-small n h))

  Writes-put_message_type : (o : Option ℕ) → Writes (put_message_type o) (type_bytes o)
  unfolding put_message_type
  Writes-put_message_type none = Writes-pure
  Writes-put_message_type (some mt) = Writes-put_u8 mt

  pub encode-frame :
      {A : Type 0} (m : Message A) (a : A) (body : Bytes)
      → Writes (m.encode_body a) body
      → Writes (encode m a) (frame m a body)
  unfolding encode
  encode-frame m a body h =
      Writes-then _ _ (Writes-put_message_type m.message_type)
        (Writes-then _ _ (Writes-put_i32 _) h)

  Reads-header : (t : Bytes) (n : ℕ) → Reads (advance (length t + 4)) (t ++ be32 n) tt
  Reads-header t n =
      Reads-advance (t ++ be32 n) (length t + 4) (omega (arith, length-append t (be32 n)))

  -- With as many bytes as the header announces, the body is decoded from what follows the header.
  pub decode_packet-run :
      {A : Type 0} (t : Bytes) (n : ℕ) (f : ℕ → Action A) (body : Bytes)
      → length t ≤ 1
      → n < 2 ^ 31
      → n ≤ 4 + length body
      → decode_packet (length t) f (t ++ (be32 n ++ body)) ≡ (f n >>= λ r. pure (some r)) body
  unfolding decode_packet ◌>>◌
  decode_packet-run t n f body ht hn hb =
      let b : Bytes = t ++ (be32 n ++ body) in
      bind-ok (get_length (length t)) _ b (some n) b (get_length-frame t n body hn)
      ∙ rw
          (
            c.remaining_eq b,
            le→leb (usize_add n (length t)) (length b)
                (omega (arith, length-append t (be32 n ++ body))),
          )
          (ap (advance (length t + 4) >>= λ _. f n >>= λ r. pure (some r))
              (sym (append_assoc t (be32 n) body))
            ∙ bind-ok (advance (length t + 4)) (λ _. f n >>= λ r. pure (some r))
                ((t ++ be32 n) ++ body) tt body ((Reads-header t n).at body))

  pub decode_packet-frame :
      {A : Type 0} (t : Bytes) (n : ℕ) (f : ℕ → Action A) (a : A) (body : Bytes)
      → length t ≤ 1
      → n < 2 ^ 31
      → n ≤ 4 + length body
      → Reads (f n) body a
      → Reads (decode_packet (length t) f) (t ++ (be32 n ++ body)) (some a)
  decode_packet-frame t n f a body ht hn hb hr = record {
    at = λ rest.
        ap (decode_packet (length t) f) (append_assoc t (be32 n ++ body) rest)
        ∙ decode_packet-run t n f (body ++ rest) ht hn (omega (arith, length-append body rest))
        ∙ (Reads-last (f n) some a hr).at rest;
  }

  -- A message is decoded from its frame, whatever follows.
  pub decode-frame :
      {A : Type 0} (m : Message A) (a : A) (body : Bytes) (missing : ℕ)
      → RoundTrips m a body missing
      → Reads (decode m) (frame m a body) (some a)
  unfolding decode
  decode-frame m a body missing h =
      rw (small (m.message_length a) (omega (arith, h.fits)), ← length-type_bytes m.message_type)
        (decode_packet-frame (type_bytes m.message_type) (m.message_length a) m.decode_body a body
          (type_bytes_short m.message_type) h.fits (omega (arith, h.announced)) h.reads)

  -- With fewer bytes than the header, or than the header announces, nothing is taken.
  pub decode_packet-short :
      {A : Type 0} (offset : ℕ) (f : ℕ → Action A) (b : Bytes)
      → length b < 4 + offset
      → decode_packet offset f b ≡ ok none b
  unfolding decode_packet pure
  decode_packet-short offset f b h = bind-ok _ _ b none b (get_length-short offset b h)

  pub decode_packet-incomplete :
      {A : Type 0} (t : Bytes) (n : ℕ) (f : ℕ → Action A) (part : Bytes)
      → length t ≤ 1
      → n < 2 ^ 31
      → 4 + length part < n
      → decode_packet (length t) f (t ++ (be32 n ++ part)) ≡ ok none (t ++ (be32 n ++ part))
  unfolding decode_packet
  decode_packet-incomplete t n f part ht hn hp =
      let b : Bytes = t ++ (be32 n ++ part) in
      bind-ok _ _ b (some n) b (get_length-frame t n part hn)
      ∙ rw (
        c.remaining_eq b,
        lt→leb (usize_add n (length t)) (length b)
            (omega (arith, length-append t (be32 n ++ part))),
      )

  -- A proper prefix of a frame whose length field is exact is left in the buffer, undecoded.
  pub decode-prefix :
      {A : Type 0} (m : Message A) (a : A) (body p q : Bytes)
      → m.message_length a ≡ 4 + length body
      → m.message_length a < 2 ^ 31
      → frame m a body ≡ p ++ q
      → 0 < length q
      → decode m p ≡ ok none p
  unfolding decode
  decode-prefix m a body p q exact fits e hq =
      let t = type_bytes m.message_type in
      let n = m.message_length a in
      let whole : t ++ (be32 n ++ body) ≡ p ++ q = rw (small n (omega arith)) at e in
      rw (← length-type_bytes m.message_type) (elim (dec_le (4 + length t) (length p)) [
        | no few ↦ decode_packet-short (length t) m.decode_body p (omega arith)
        | yes many ↦
            let (part, at_p, at_body) =
              prefix_split (t ++ be32 n) p (append_assoc t (be32 n) body ∙ whole)
                (omega (arith, length-append t (be32 n))) in
            rw (at_p ∙ append_assoc t (be32 n) part) (
              decode_packet-incomplete t n m.decode_body part (type_bytes_short m.message_type) fits
                (omega (arith, ap (λ (l : Bytes). length l) at_body, length-append part q)))
      ])
