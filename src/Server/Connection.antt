-- ===== src/Server/Connection.antt =====
-- tokio.rs: `process_socket`, from the socket to the last message of a connection.
pub mod Chunks
pub mod Safe
pub mod Session
use pgwire.Base.{
  ℕ, zero, suc, ◌<◌, ◌≡◌, Bool, true, false, Option, none, some, List, [], ◌∷◌, ◌++◌, Bytes, length,
}
use pgwire.Errors.{PgWireError}
use pgwire.Buffers
use pgwire.Buffers.{BytesCrate, Action}
use pgwire.Messages.Frontend.{PgWireFrontendMessage}
use pgwire.Api.Step.{Outcome, done, failed, panicked, Step}
use pgwire.Api.Client.{Client, new_client, Sink}
use pgwire.Server.{server_decode, Handlers, serve}
use pgwire.Server.Sockets.{IoResult, io_ok, io_error, TcpSocket, Peeked, peek_for_sslrequest}
use pgwire.Server.Sockets

-- What `socket.next().await` gives.
pub data Next (C : Type 0) : Type 0 where
  item : PgWireFrontendMessage → C → Next C
  decode_failed : Next C
  decode_panicked : Next C
  ended : Next C

-- `Framed` of the crate `tokio_util`: a stream with a buffer of what was read and not yet decoded.
-- `incoming` are the reads to come, in the sizes in which they come. The decoder is called on the
-- buffer; if it wants more, the next read is appended and it is called again.
pub record Framed : Type 1 where
  pub Stream : Type 0
  pub buffered : Stream → Bytes
  pub incoming : Stream → List Bytes
  pub next : Action (Option PgWireFrontendMessage) → Stream → Next Stream
  pub next_item :
      (decode : Action (Option PgWireFrontendMessage)) (f : Stream) (m : PgWireFrontendMessage)
      (rest : Bytes)
      → decode (buffered f) ≡ Buffers.ok (some m) rest
      → (f' : Stream) × (next decode f ≡ item m f')
        × (buffered f' ≡ rest)
        × (incoming f' ≡ incoming f)
  pub next_more :
      (decode : Action (Option PgWireFrontendMessage)) (f : Stream) (rest chunk : Bytes)
      (chunks : List Bytes)
      → decode (buffered f) ≡ Buffers.ok none rest
      → incoming f ≡ chunk ∷ chunks
      → 0 < length chunk
      → (f' : Stream) × (next decode f ≡ next decode f')
        × (buffered f' ≡ rest ++ chunk)
        × (incoming f' ≡ chunks)
  pub next_end :
      (decode : Action (Option PgWireFrontendMessage)) (f : Stream)
      → decode (buffered f) ≡ Buffers.ok none []
      → incoming f ≡ []
      → next decode f ≡ ended

-- How a connection ends: the loop is left, an error could not be reported, or a panic.
pub data Ended (W : Type 0) : Type 0 where
  finished : W → Ended W
  aborted : PgWireError → W → Ended W
  io_failed : Bytes → Ended W
  crashed : Ended W
  no_fuel : Ended W

module _ ⦃c : BytesCrate⦄ ⦃s : Sink⦄ (framed : Framed) where
  module _ {W : Type 0} (h : Handlers W) (display : PgWireError → Bytes) where
    -- `while let Some(Ok(msg)) = socket.next().await { … }`
    unfoldable pub connection : ℕ → framed.Stream → W → Ended W
    connection zero f w = no_fuel
    connection (suc fuel) f w = elim (framed.next (server_decode (h.state w)) f) [
      | ended ↦ finished w
      | decode_failed ↦ finished w
      | decode_panicked ↦ crashed
      | item m f' ↦ elim (serve h display m w) [
        | done _ w' ↦ connection fuel f' w'
        | failed e w' ↦ aborted e w'
        | panicked ↦ crashed
      ]
    ]

  -- `TlsAcceptor` of the crate `tokio_rustls`, and `Framed::new` on the two kinds of sockets.
  pub record Transport (t : TcpSocket) : Type 1 where
    pub TlsStream : Type 0
    pub accept : t.Socket → IoResult TlsStream (Unit {0})
    pub framed_tcp : t.Socket → framed.Stream
    pub framed_tls : TlsStream → framed.Stream

  module _ {W : Type 0} (h : Handlers W) (display : PgWireError → Bytes) (start : Client → W)
      (t : TcpSocket) (tr : Transport t) (fuel : ℕ) where
    -- `tls_acceptor.unwrap().accept(tcp_socket).await?`; `tls` is whether there is an acceptor.
    unfoldable pub run_tls : Bool → Bytes → t.Socket → Ended W
    unfolding connection
    run_tls false addr s = crashed
    run_tls true addr s = elim (tr.accept s) [
      | io_error e ↦ io_failed e
      | io_ok _ stream ↦
          connection h display fuel (tr.framed_tls stream) (start (new_client addr true))
    ]

    unfoldable pub run_socket : Bool → Bytes → Peeked t.Socket → Ended W
    unfolding run_tls connection
    run_socket tls addr (Peeked.answered true s) = run_tls tls addr s
    run_socket tls addr (Peeked.answered false s) =
        connection h display fuel (tr.framed_tcp s) (start (new_client addr false))
    run_socket tls addr (Peeked.broken e) = io_failed e
    run_socket tls addr Peeked.panicked = crashed
    run_socket tls addr Peeked.no_fuel = no_fuel

    -- The handlers of a connection are those that are made for its client.
    unfoldable pub process_socket : Bool → t.Socket → Ended W
    unfolding run_socket
    process_socket tls s = elim (t.peer_addr s) [
      | io_error e ↦ io_failed e
      | io_ok addr s1 ↦ run_socket tls addr (peek_for_sslrequest t tls s1)
    ]
