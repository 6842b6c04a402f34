-- ===== src/Server/Sockets/Tls.antt =====
-- When a connection goes on with TLS.
use pgwire.Base.{
  ℕ, ◌≡◌, ◌↔◌, inl, inr, refl, sym, ap, subst, ◌+◌, ◌*◌, ◌^◌, ◌∙◌, Bool, true, false, some, [], ◌∷◌,
  Bytes, ◌==◌, arith, Bool-cases, Option-cases,
}
use pgwire.Buffers.{BytesCrate}
use pgwire.Messages.Startup.Request.{body_size, body_magic_number}
use pgwire.Server.Sockets.{
  io_ok, TcpSocket, Peeked, answered, take_request, answer_request, second_i32, check_request,
  peek_loop, peek_for_sslrequest,
}
use pgwire.Server.Sockets.Peek.{
  IoResult-cases, grows, later_false, Words, second_i32-Words, eight_Words, first_round, first-peek,
}

module _ ⦃c : BytesCrate⦄ (t : TcpSocket) where
  -- The first peek shows eight bytes, of which the last four are the code of an SslRequest, 1234 in
  -- the high half and 5679 in the low one. The eight bytes are then read and answered by `S`.
  pub record Requests (s s' : t.Socket) : Type 0 where
    pub buf : Bytes
    pub seen : t.Socket
    pub request : Bytes
    pub read : t.Socket
    pub peeked : t.poll_peek s [] ≡ io_ok (8, buf) seen
    pub code : Words t buf (1234 * 2 ^ 16 + 5679)
    pub reads : t.read_exact seen 8 ≡ io_ok request read
    pub writes : t.write_all read (b'S' ∷ []) ≡ io_ok tt s'

  take_request-inv :
      (ssl : Bool) (reply : Bytes) (s s' : t.Socket)
      → take_request t ssl reply s ≡ answered true s'
      → (ssl ≡ true)
        × (request : Bytes) × (read : t.Socket) × (t.read_exact s body_size ≡ io_ok request read)
        × (t.write_all read reply ≡ io_ok tt s')
  unfolding take_request
  take_request-inv ssl reply s s' h = elim (IoResult-cases (t.read_exact s body_size)) [
    | inr (e, gone) ↦ cc (rw (gone, take_request) at h)
    | inl (a, s1, here) ↦ elim (IoResult-cases (t.write_all s1 reply)) [
      | inr (e, gone) ↦ cc (rw (here, gone, take_request) at h)
      | inl (_, s2, there) ↦
          let same : Peeked.answered ssl s2 ≡ answered true s' =
            rw (here, there, take_request) at h in
          (cc same, a, s1, here, there ∙ ap (io_ok tt) (cc same))
    ]
  ]

  answer_request-inv :
      (ssl_supported : Bool) (s s' : t.Socket)
      → answer_request t ssl_supported s ≡ answered true s'
      → (ssl_supported ≡ true)
        × (request : Bytes) × (read : t.Socket) × (t.read_exact s body_size ≡ io_ok request read)
        × (t.write_all read (b'S' ∷ []) ≡ io_ok tt s')
  unfolding answer_request
  answer_request-inv true s s' h = take_request-inv true _ s s' h
  answer_request-inv false s s' h = cc ((take_request-inv false _ s s' h).0)

  check_request-inv :
      (ssl_supported : Bool) (buf : Bytes) (s s' : t.Socket)
      → check_request t ssl_supported buf s ≡ answered true s'
      → (ssl_supported ≡ true)
        × (second_i32 t buf ≡ some body_magic_number)
        × (request : Bytes) × (read : t.Socket) × (t.read_exact s body_size ≡ io_ok request read)
        × (t.write_all read (b'S' ∷ []) ≡ io_ok tt s')
  unfolding check_request
  check_request-inv ssl_supported buf s s' h = elim (Option-cases (second_i32 t buf)) [
    | inl gone ↦ cc (rw (gone, check_request) at h)
    | inr (code, here) ↦ elim (Bool-cases (code == body_magic_number)) [
      | inr other ↦ cc (rw (here, other, check_request) at h)
      | inl same ↦
          let (supported, request, read, reads, writes) =
            answer_request-inv ssl_supported s s' (rw (here, same, check_request) at h) in
          (supported, here ∙ ap some (ground arith), request, read, reads, writes)
    ]
  ]

  first_round-inv :
      (size : ℕ) (buf : Bytes) (ssl_supported : Bool) (s seen s' : t.Socket)
      → t.poll_peek s [] ≡ io_ok (size, buf) seen
      → first_round t size buf ssl_supported seen ≡ answered true s'
      → (ssl_supported ≡ true) × Requests s s'
  unfolding first_round
  first_round-inv size buf ssl_supported s seen s' here h =
      let long = grows t s seen [] buf size here in
      let few = (t.poll_peek_fits s seen [] buf size here).0 in
      elim (Bool-cases (size == 0)) [
        | inl none_left ↦ cc (rw (none_left) at h)
        | inr some_left ↦ elim (Bool-cases (size == body_size)) [
          | inl whole ↦
              let (supported, code, request, read, reads, writes) =
                check_request-inv ssl_supported buf seen s' (rw (some_left, whole) at h) in
              let eight : size ≡ body_size = ground arith in
              let (word, words) = eight_Words t buf (omega (arith, long, eight)) in
              let same : word ≡ 1234 * 2 ^ 16 + 5679 =
                cc (sym (second_i32-Words t buf word words) ∙ code) in
              (
                supported,
                record {
                  buf = buf;
                  seen = seen;
                  request = request;
                  read = read;
                  peeked = here ∙ ap (λ n. io_ok (n, buf) seen) eight;
                  code = subst (λ n. Words t buf n) same words;
                  reads = reads;
                  writes = writes;
                },
              )
          | inr part ↦
              elim (later_false t 8 ssl_supported buf seen (ground arith) (omega arith)
                (ground arith)) [
                  | inl (s1, e) ↦ cc (sym e ∙ rw (some_left, part) at h)
                  | inr (x, e) ↦ cc (sym e ∙ rw (some_left, part) at h)
                ]
        ]
      ]

  asks :
      (ssl_supported : Bool) (s s' : t.Socket)
      → peek_for_sslrequest t ssl_supported s ≡ answered true s'
      → (ssl_supported ≡ true) × Requests s s'
  asks ssl_supported s s' h = elim (IoResult-cases (t.poll_peek s [])) [
    | inr (e, gone) ↦ unfold peek_for_sslrequest peek_loop in cc (rw (gone, peek_loop) at h)
    | inl ((size, buf), seen, here) ↦
        first_round-inv size buf ssl_supported s seen s' here
          (sym (first-peek t ssl_supported s seen size buf here) ∙ h)
  ]

  answers : (s s' : t.Socket) → Requests s s' → peek_for_sslrequest t true s ≡ answered true s'
  answers s s' r =
      first-peek t true s r.seen body_size r.buf r.peeked
      ∙ unfold first_round check_request answer_request take_request in
        (rw (second_i32-Words t r.buf _ r.code, check_request)
          (rw (r.reads, take_request) (rw (r.writes) refl)))

  -- A connection is found to ask for TLS exactly if TLS is supported and the first peek shows
  -- eight bytes of which the last four are the code of an SslRequest, 1234 * 2^16 + 5679, and
  -- which are then read and answered by S.
  pub peek_for_sslrequest-exact :
      (ssl_supported : Bool) (s s' : t.Socket)
      → (peek_for_sslrequest t ssl_supported s ≡ answered true s')
        ↔ ((ssl_supported ≡ true) × Requests s s')
  peek_for_sslrequest-exact ssl_supported s s' =
      (asks ssl_supported s s', λ (yes_, r). rw (yes_) (answers s s' r))
