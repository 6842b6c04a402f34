-- ===== src/Server/Sockets.antt =====
-- tokio.rs: what `process_socket` does before the first message of the protocol.
pub mod Peek
pub mod Tls
use pgwire.Base.{
  ℕ, zero, suc, ◌+◌, ◌-◌, ◌^◌, ◌≤◌, ◌≡◌, Bool, true, false, Option, none, some, List, [], ◌∷◌, ◌++◌,
  Bytes, length, take, ◌==◌, if◌then◌else◌,
}
use pgwire.Buffers.{BytesCrate}
use pgwire.Messages.Startup.Request.{body_size, body_magic_number}
use pgwire.Api.Client.{Client, new_client}

-- What an operation on a socket gives: a value and the socket after it, or the text of an error.
pub data IoResult (S A : Type 0) : Type 0 where
  io_ok : A → S → IoResult S A
  io_error : Bytes → IoResult S A

-- The socket of the crate `tokio`, over the state of its connection. A `ReadBuf` of eight bytes is
-- what is filled of it. A peek, awaited, adds to the buffer what has arrived and fits into the part
-- that is not filled, says how much, and leaves it in the socket.
pub record TcpSocket : Type 1 where
  pub Socket : Type 0
  pub arrived : Socket → Bytes
  pub peer_addr : Socket → IoResult Socket Bytes
  pub poll_peek : Socket → Bytes → IoResult Socket (ℕ × Bytes)
  pub read_exact : Socket → ℕ → IoResult Socket Bytes
  pub write_all : Socket → Bytes → IoResult Socket (Unit {0})
  pub poll_peek_fits :
      (s s' : Socket) (buf buf' : Bytes) (size : ℕ)
      → poll_peek s buf ≡ io_ok (size, buf') s'
      → (size ≤ body_size - length buf)
        × (size ≤ length (arrived s'))
        × (buf' ≡ buf ++ take size (arrived s'))

-- How the loop of `peek_for_sslrequest` ends.
pub data Peeked (S : Type 0) : Type 0 where
  answered : Bool → S → Peeked S
  broken : Bytes → Peeked S
  panicked : Peeked S
  no_fuel : Peeked S

module _ ⦃c : BytesCrate⦄ (t : TcpSocket) where
  -- `read_exact(…).await?; write_all(…).await?`, and the answer.
  unfoldable pub take_request : Bool → Bytes → t.Socket → Peeked t.Socket
  take_request ssl reply s = elim (t.read_exact s body_size) [
    | io_error e ↦ broken e
    | io_ok _ s1 ↦ elim (t.write_all s1 reply) [
      | io_error e ↦ broken e
      | io_ok _ s2 ↦ answered ssl s2
    ]
  ]

  unfoldable pub answer_request : Bool → t.Socket → Peeked t.Socket
  unfolding take_request
  answer_request true s = take_request true (b'S' ∷ []) s
  answer_request false s = take_request false (b'N' ∷ []) s

  -- The two reads of `get_i32` from what is filled.
  unfoldable pub second_i32 : Bytes → Option ℕ
  second_i32 buf = elim (c.get_i32 buf) [
    | none ↦ none
    | some (_, rest) ↦ elim (c.get_i32 rest) [ none ↦ none | some (code, _) ↦ some code ]
  ]

  unfoldable pub check_request : Bool → Bytes → t.Socket → Peeked t.Socket
  unfolding answer_request second_i32
  check_request ssl_supported buf s = elim (second_i32 buf) [
    | none ↦ panicked
    | some code ↦
        if code == body_magic_number then answer_request ssl_supported s else answered false s
  ]

  -- One buffer serves all rounds.
  unfoldable pub peek_loop : ℕ → Bool → Bytes → t.Socket → Peeked t.Socket
  peek_loop zero ssl_supported buf s = no_fuel
  peek_loop (suc fuel) ssl_supported buf s = elim (t.poll_peek s buf) [
    | io_error e ↦ broken e
    | io_ok (size, buf') s' ↦
        let rest = peek_loop fuel ssl_supported buf' s' in
        if size == 0
        then answered false s'
        else if size == body_size
        then check_request ssl_supported buf' s'
        else rest
  ]

  -- A round adds at least one byte to the buffer, so nine rounds are enough.
  unfoldable pub peek_for_sslrequest : Bool → t.Socket → Peeked t.Socket
  unfolding peek_loop
  peek_for_sslrequest ssl_supported s = peek_loop 9 ssl_supported [] s
