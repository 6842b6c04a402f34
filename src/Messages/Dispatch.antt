-- ===== src/Messages/Dispatch.antt =====
-- What the two `decode` functions of messages/mod.rs share: a look at the first byte, and the
-- decoder that it selects.
use pgwire.Base.{
  ℕ, ◌+◌, ◌^◌, ◌≤◌, ◌<◌, ◌≡◌, refl, ap, ◌∙◌, Option, none, some, [], ◌∷◌, ◌++◌, Bytes, length, ltb,
  lt→ltb, le→ltb, sym, if◌then◌else◌, be32, arith, ◌%◌,
}
use pgwire.Buffers.{BytesCrate, ok, panic, Action, ◌>>=◌, pure}
use pgwire.Buffers.Rules.{Reads, Reads-last, bind-ok}
use pgwire.Messages.Codec.{Message, decode, get_length}
use pgwire.Messages.Codec.Framing.{
  frame, RoundTrips, decode-frame, decode-prefix, type_bytes, small, get_length-frame,
}

-- `v.map(Self::X)`
unfoldable pub map_option : {A B : Type 0} → (A → B) → Option A → Option B
map_option wrap none = none
map_option wrap (some a) = some (wrap a)

module _ ⦃c : BytesCrate⦄ where
  -- `X::decode(buf).map(|v| v.map(Self::X))`
  unfoldable pub decode_as : {A B : Type 0} → Message A → (A → B) → Action (Option B)
  decode_as m wrap = do v ← decode m; pure (map_option wrap v)

  -- `if buf.remaining() > 1 { match buf[0] { … } } else { Ok(None) }`; `buf[0]` panics on an empty
  -- buffer.
  unfoldable pub decode_by_first_byte : {B : Type 0} → (ℕ → Action (Option B)) → Action (Option B)
  decode_by_first_byte select b =
      if ltb 1 (c.remaining b)
      then elim b [ [] ↦ panic | first ∷ rest ↦ select first (first ∷ rest) ]
      else ok none b

  pub by_first_byte-cons :
      {B : Type 0} (select : ℕ → Action (Option B)) (t : ℕ) (b : Bytes)
      → 0 < length b
      → decode_by_first_byte select (t ∷ b) ≡ select t (t ∷ b)
  unfolding decode_by_first_byte
  by_first_byte-cons select t b h =
      rw (c.remaining_eq (t ∷ b), lt→ltb 1 (length (t ∷ b)) (omega arith))

  pub by_first_byte-short :
      {B : Type 0} (select : ℕ → Action (Option B)) (b : Bytes)
      → length b ≤ 1
      → decode_by_first_byte select b ≡ ok none b
  unfolding decode_by_first_byte
  by_first_byte-short select b h = rw (c.remaining_eq b, le→ltb 1 (length b) h)

-- A message that `select` sends to the decoder of its type, with its wire form.
pub record Selected ⦃c : BytesCrate⦄ {B : Type 0} (select : ℕ → Action (Option B)) (b : B)
    (wire : Bytes) (missing : ℕ) : Type 1 where
  pub A : Type 0
  pub m : Message A
  pub wrap : A → B
  pub a : A
  pub body : Bytes
  pub type_byte : ℕ
  pub typed : m.message_type ≡ some type_byte
  pub selects : select type_byte ≡ decode_as m wrap
  pub trips : RoundTrips m a body missing
  pub framed : wire ≡ frame m a body
  pub wrapped : wrap a ≡ b

pub Selected-as :
    ⦃c : BytesCrate⦄ {A B : Type 0} (select : ℕ → Action (Option B)) (m : Message A) (wrap : A → B)
    (a : A) (type_byte : ℕ) {body : Bytes} {missing : ℕ}
    → m.message_type ≡ some type_byte
    → select type_byte ≡ decode_as m wrap
    → RoundTrips m a body missing
    → Selected select (wrap a) (frame m a body) missing
Selected-as {A = A} select m wrap a type_byte {body = body} typed selects trips = record {
  A = A;
  m = m;
  wrap = wrap;
  a = a;
  body = body;
  type_byte = type_byte;
  typed = typed;
  selects = selects;
  trips = trips;
  framed = refl;
  wrapped = refl;
}

module _ ⦃c : BytesCrate⦄ {B : Type 0} (select : ℕ → Action (Option B)) (b : B) (wire : Bytes)
    (missing : ℕ) (s : Selected select b wire missing) where
  open s use {A, m, wrap, a, body, type_byte, typed, selects, trips, framed, wrapped}

  tail : Bytes
  tail = be32 (m.message_length a % 2 ^ 32) ++ body

  wire-eq : wire ≡ type_byte ∷ tail
  unfolding tail
  wire-eq =
      framed
      ∙ ap (λ (o : Option ℕ). type_bytes o ++ (be32 (m.message_length a % 2 ^ 32) ++ body)) typed

  pub Reads-selected : Reads (decode_by_first_byte select) wire (some b)
  unfolding decode_as map_option tail
  Reads-selected = record {
    at = λ rest.
        ap (λ (x : Bytes). decode_by_first_byte select (x ++ rest)) wire-eq
        ∙ by_first_byte-cons select type_byte (tail ++ rest) (omega arith)
        ∙ ap (λ (f : Action (Option B)). f (type_byte ∷ (tail ++ rest))) selects
        ∙ ap (λ (x : Bytes). decode_as m wrap (x ++ rest)) (sym wire-eq ∙ framed)
        ∙ (Reads-last (decode m) (map_option wrap) (some a)
              (decode-frame m a body missing trips)).at
            rest
        ∙ ap (λ (x : B). ok (some x) rest) wrapped;
  }

  -- The length field is read where it stands, and says how long the message is.
  pub get_length-selected :
      (rest : Bytes)
      → (n : ℕ) × (get_length 1 (wire ++ rest) ≡ ok (some n) (wire ++ rest))
        × (1 + n + missing ≡ length wire)
  unfolding tail
  get_length-selected rest =
      let n = m.message_length a in
      (
        n,
        rw (wire-eq, small n (omega (arith, trips.fits)))
            (get_length-frame (type_byte ∷ []) n (body ++ rest) trips.fits),
        omega (arith, trips.announced, ap (λ (x : Bytes). length x) wire-eq),
      )

  -- A proper prefix is left in the buffer, where the length field is exact.
  pub prefix-selected :
      (p q : Bytes)
      → missing ≡ 0
      → wire ≡ p ++ q
      → 0 < length q
      → decode_by_first_byte select p ≡ ok none p
  unfolding decode_as map_option pure
  prefix-selected [] q exact e hq = by_first_byte-short select [] (omega arith)
  prefix-selected (x ∷ []) q exact e hq = by_first_byte-short select (x ∷ []) (omega arith)
  prefix-selected (x ∷ y ∷ p) q exact e hq =
      let same : type_byte ≡ x = cc (e, wire-eq) in
      by_first_byte-cons select x (y ∷ p) (omega arith)
      ∙ ap (λ (f : Action (Option B)). f (x ∷ y ∷ p)) (ap select (sym same) ∙ selects)
      ∙ bind-ok (decode m) (λ v. pure (map_option wrap v)) (x ∷ y ∷ p) none (x ∷ y ∷ p)
          (decode-prefix m a body (x ∷ y ∷ p) q (omega (arith, trips.announced)) trips.fits
            (sym framed ∙ e) hq)
