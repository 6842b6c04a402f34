-- ===== src/Server/Sockets/Peek.antt =====
-- Which connections are found to ask for TLS.
use pgwire.Base.{
  ℕ, zero, suc, ◌+◌, ◌*◌, ◌^◌, ◌≤◌, ◌<◌, ◌≡◌, ◌⊎◌, inl, inr, refl, ap, ◌∙◌, Bool, true, false, some,
  [], ◌∷◌, Bytes, length, take, ◌==◌, if◌then◌else◌, arith, Bool-cases, length-append, length-take,
}
use pgwire.Buffers.{BytesCrate}
use pgwire.Messages.Startup.Request.{body_size, body_magic_number}
use pgwire.Server.Sockets.{
  IoResult, io_ok, io_error, TcpSocket, Peeked, answered, broken, take_request, answer_request,
  second_i32, check_request, peek_loop, peek_for_sslrequest,
}

pub IoResult-cases :
    {S A : Type 0} (o : IoResult S A)
    → ((a : A) × (s : S) × (o ≡ io_ok a s)) ⊎ ((e : Bytes) × (o ≡ io_error e))
IoResult-cases (io_ok a s) = inl (a, s, refl)
IoResult-cases (io_error e) = inr (e, refl)

module _ ⦃c : BytesCrate⦄ (t : TcpSocket) where
  -- The buffer after a peek is longer by what was peeked.
  pub grows :
      (s s' : t.Socket) (buf buf' : Bytes) (size : ℕ)
      → t.poll_peek s buf ≡ io_ok (size, buf') s'
      → length buf' ≡ length buf + size
  grows s s' buf buf' size h =
      let (_, few, same) = t.poll_peek_fits s s' buf buf' size h in
      ap length same
      ∙ length-append buf (take size (t.arrived s'))
      ∙ omega (arith, length-take size (t.arrived s') few)

  -- The loop after a peek that gave something, but not all.
  pub later_false :
      (fuel : ℕ) (ssl_supported : Bool) (buf : Bytes) (s : t.Socket)
      → 0 < length buf
      → length buf ≤ 8
      → 9 ≤ fuel + length buf
      → ((s' : t.Socket) × (peek_loop t fuel ssl_supported buf s ≡ answered false s'))
        ⊎ ((e : Bytes) × (peek_loop t fuel ssl_supported buf s ≡ broken e))
  unfolding peek_loop
  later_false zero ssl_supported buf s h k enough = absurd (omega arith)
  later_false (suc fuel) ssl_supported buf s h k enough =
      let later = later_false fuel ssl_supported in
      elim (IoResult-cases (t.poll_peek s buf)) [
        | inr (e, gone) ↦ inr (e, rw (gone, peek_loop) refl)
        | inl ((size, buf'), s', here) ↦
            let longer = grows s s' buf buf' size here in
            let few = (t.poll_peek_fits s s' buf buf' size here).0 in
            elim (Bool-cases (size == 0)) [
              | inl none_left ↦ inl (s', rw (here, peek_loop) (rw (none_left) refl))
              | inr some_left ↦
                  let part : (size == body_size) ≡ false = ground arith in
                  rw (here, peek_loop)
                    (rw (some_left)
                      (rw (part) (later buf' s' (omega arith) (omega arith) (ground arith))))
            ]
      ]

  Ends : Peeked t.Socket → Type 0
  Ends o = ((ssl : Bool) × (s' : t.Socket) × (o ≡ answered ssl s')) ⊎ ((e : Bytes) × (o ≡ broken e))

  take_request-Ends :
      (ssl : Bool) (reply : Bytes) (s : t.Socket) → Ends (take_request t ssl reply s)
  unfolding take_request Ends
  take_request-Ends ssl reply s = elim (IoResult-cases (t.read_exact s body_size)) [
    | inr (e, gone) ↦ inr (e, rw (gone, take_request) refl)
    | inl (a, s1, here) ↦
        rw (here, take_request)
          (elim (IoResult-cases (t.write_all s1 reply)) [
            | inr (e, gone) ↦ inr (e, rw (gone) refl)
            | inl (b, s2, there) ↦ inl (ssl, s2, rw (there) refl)
          ])
  ]

  answer_request-Ends :
      (ssl_supported : Bool) (s : t.Socket) → Ends (answer_request t ssl_supported s)
  unfolding answer_request
  answer_request-Ends true s = take_request-Ends true _ s
  answer_request-Ends false s = take_request-Ends false _ s

  -- The eight bytes of two words, the second of them a number.
  pub record Words (buf : Bytes) (code : ℕ) : Type 0 where
    pub first : ℕ × ℕ × ℕ × ℕ
    pub second : ℕ × ℕ × ℕ × ℕ
    pub bytes : buf ≡ (
        let (x, y, z, w) = first in let (a, b, d, e) = second in x ∷ y ∷ z ∷ w ∷ a ∷ b ∷ d ∷ e ∷ [])
    pub number : (let (a, b, d, e) = second in a * 2 ^ 24 + b * 2 ^ 16 + d * 2 ^ 8 + e ≡ code)

  -- What is read as the second word.
  pub second_i32-Words : (buf : Bytes) (code : ℕ) → Words buf code → second_i32 t buf ≡ some code
  unfolding second_i32
  second_i32-Words buf code v =
      let (x, y, z, w) = v.first in
      let (a, b, d, e) = v.second in
      rw (v.bytes) (
        rw (c.get_i32_eq x y z w (a ∷ b ∷ d ∷ e ∷ []), second_i32)
          (rw (c.get_i32_eq a b d e []) (ap some v.number)))

  -- Eight bytes are two words.
  pub eight_Words : (buf : Bytes) → length buf ≡ 8 → (code : ℕ) × Words buf code
  eight_Words (x ∷ y ∷ z ∷ w ∷ a ∷ b ∷ d ∷ e ∷ []) h = (
    a * 2 ^ 24 + b * 2 ^ 16 + d * 2 ^ 8 + e,
    record { first = (x, y, z, w); second = (a, b, d, e); bytes = refl; number = refl },
  )
  eight_Words [] h = absurd (omega arith)
  eight_Words (x ∷ []) h = absurd (omega arith)
  eight_Words (x ∷ y ∷ []) h = absurd (omega arith)
  eight_Words (x ∷ y ∷ z ∷ []) h = absurd (omega arith)
  eight_Words (x ∷ y ∷ z ∷ w ∷ []) h = absurd (omega arith)
  eight_Words (x ∷ y ∷ z ∷ w ∷ a ∷ []) h = absurd (omega arith)
  eight_Words (x ∷ y ∷ z ∷ w ∷ a ∷ b ∷ []) h = absurd (omega arith)
  eight_Words (x ∷ y ∷ z ∷ w ∷ a ∷ b ∷ d ∷ []) h = absurd (omega arith)
  eight_Words (x ∷ y ∷ z ∷ w ∷ a ∷ b ∷ d ∷ e ∷ f ∷ buf) h = absurd (omega arith)

  -- After the first peek.
  unfoldable pub first_round : ℕ → Bytes → Bool → t.Socket → Peeked t.Socket
  first_round size buf ssl_supported s =
      let rest = peek_loop t 8 ssl_supported buf s in
      if size == 0
      then answered false s
      else if size == body_size
      then check_request t ssl_supported buf s
      else rest

  pub first-peek :
      (ssl_supported : Bool) (s s1 : t.Socket) (size : ℕ) (buf : Bytes)
      → t.poll_peek s [] ≡ io_ok (size, buf) s1
      → peek_for_sslrequest t ssl_supported s ≡ first_round size buf ssl_supported s1
  unfolding peek_for_sslrequest peek_loop first_round
  first-peek ssl_supported s s1 size buf here = rw (here, peek_loop) refl

  check_request-Ends :
      (ssl_supported : Bool) (buf : Bytes) (s : t.Socket)
      → length buf ≡ 8
      → Ends (check_request t ssl_supported buf s)
  unfolding check_request Ends
  check_request-Ends ssl_supported buf s h =
      let (code, words) = eight_Words buf h in
      rw (second_i32-Words buf code words, check_request)
        (elim (Bool-cases (code == body_magic_number)) [
          | inl request ↦ rw (request) (answer_request-Ends ssl_supported s)
          | inr other ↦ rw (other) (inl (false, s, refl))
        ])

  first_round-Ends :
      (size : ℕ) (buf : Bytes) (ssl_supported : Bool) (s : t.Socket)
      → length buf ≡ size
      → size ≤ 8
      → Ends (first_round size buf ssl_supported s)
  unfolding first_round Ends
  first_round-Ends size buf ssl_supported s long few = elim (Bool-cases (size == 0)) [
    | inl none_left ↦ rw (none_left) (inl (false, s, refl))
    | inr some_left ↦ rw (some_left) (elim (Bool-cases (size == body_size)) [
      | inl whole ↦ rw (whole) (check_request-Ends ssl_supported buf s (ground arith))
      | inr part ↦
          rw (part)
            (elim (later_false 8 ssl_supported buf s (ground arith) (omega arith) (ground arith)) [
              | inl (s', e) ↦ inl (false, s', e)
              | inr broke ↦ inr broke
            ])
    ])
  ]

  -- Looking for a request for TLS ends with an answer or with an error of the socket, and does not
  -- panic: nine rounds are enough, whatever arrives.
  pub peek_for_sslrequest-ends :
      (ssl_supported : Bool) (s : t.Socket)
      → ((ssl : Bool) × (s' : t.Socket) × (peek_for_sslrequest t ssl_supported s ≡ answered ssl s'))
        ⊎ ((e : Bytes) × (peek_for_sslrequest t ssl_supported s ≡ broken e))
  unfolding Ends
  peek_for_sslrequest-ends ssl_supported s = elim (IoResult-cases (t.poll_peek s [])) [
    | inr (e, gone) ↦ inr (e, unfold peek_for_sslrequest peek_loop in rw (gone, peek_loop) refl)
    | inl ((size, buf), s1, here) ↦ rw (first-peek ssl_supported s s1 size buf here) (
        first_round-Ends size buf ssl_supported s1 (grows s s1 [] buf size here ∙ omega arith)
          (omega (arith, (t.poll_peek_fits s s1 [] buf size here).0)))
  ]
