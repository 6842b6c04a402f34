-- ===== src/Server/Connection/Safe.antt =====
-- `tls_acceptor.unwrap()` is safe: a connection goes on with TLS only if there is an acceptor.
use pgwire.Base.{ℕ, ◌≡◌, inl, inr, Bool, true, false, Bytes}
use pgwire.Errors.{PgWireError}
use pgwire.Buffers.{BytesCrate}
use pgwire.Api.Client.{Client, new_client, Sink}
use pgwire.Server.{Handlers}
use pgwire.Server.Sockets.{io_ok, TcpSocket}
use pgwire.Server.Sockets.Peek.{IoResult-cases, peek_for_sslrequest-ends}
use pgwire.Server.Sockets.Tls.{Requests, peek_for_sslrequest-exact}
use pgwire.Server.Connection.{
  Framed, Transport, Ended, io_failed, connection, run_tls, run_socket, process_socket,
}

module _ ⦃c : BytesCrate⦄ ⦃s : Sink⦄ (framed : Framed) {W : Type 0} (h : Handlers W)
    (display : PgWireError → Bytes) (start : Client → W) (t : TcpSocket) (tr : Transport framed t)
    (fuel : ℕ) where
  -- How a connection is run: over TLS after a request that is granted, or in the clear.
  pub data Run (tls : Bool) (sock : t.Socket) : Ended W → Type 0 where
    no_connection : (e : Bytes) → Run tls sock (io_failed e)
    over_tls :
        (addr : Bytes) (s1 s2 : t.Socket) (stream : tr.TlsStream)
        → t.peer_addr sock ≡ io_ok addr s1
        → tls ≡ true
        → Requests t s1 s2
        → tr.accept s2 ≡ io_ok tt stream
        → Run tls sock
            (connection framed h display fuel (tr.framed_tls stream) (start (new_client addr true)))
    in_clear :
        (addr : Bytes) (s1 s2 : t.Socket)
        → t.peer_addr sock ≡ io_ok addr s1
        → Run tls sock
            (connection framed h display fuel (tr.framed_tcp s2) (start (new_client addr false)))

  run_tls-Run :
      (tls : Bool) (sock s1 s2 : t.Socket) (addr : Bytes)
      → t.peer_addr sock ≡ io_ok addr s1
      → (tls ≡ true) × Requests t s1 s2
      → Run tls sock (run_tls framed h display start t tr fuel tls addr s2)
  unfolding run_tls
  run_tls-Run false sock s1 s2 addr from (no_, r) = cc (no_)
  run_tls-Run true sock s1 s2 addr from (yes_, r) = elim (IoResult-cases (tr.accept s2)) [
    | inr (e, gone) ↦ rw (gone, run_tls) (no_connection e)
    | inl (_, stream, here) ↦ rw (here, run_tls) (over_tls addr s1 s2 stream from yes_ r here)
  ]

  -- A connection fails before its first message, or goes on in the clear as not secure, or goes on
  -- over TLS as secure; the last only with an acceptor, after a request for TLS and an accepted
  -- handshake.
  pub process_socket-Run :
      (tls : Bool) (sock : t.Socket)
      → Run tls sock (process_socket framed h display start t tr fuel tls sock)
  unfolding process_socket run_socket
  process_socket-Run tls sock = elim (IoResult-cases (t.peer_addr sock)) [
    | inr (e, gone) ↦ rw (gone, process_socket) (no_connection e)
    | inl (addr, s1, here) ↦
        rw (here, process_socket)
          (elim (peek_for_sslrequest-ends t tls s1) [
            | inr (e, gone) ↦ rw (gone, run_socket) (no_connection e)
            | inl (true, s2, asked) ↦
                rw (asked, run_socket)
                  (run_tls-Run tls sock s1 s2 addr here
                    ((peek_for_sslrequest-exact t tls s1 s2).0 asked))
            | inl (false, s2, asked) ↦ rw (asked, run_socket) (in_clear addr s1 s2 here)
          ])
  ]
