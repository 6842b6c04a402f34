-- ===== src/Tests/Connections.antt =====
-- Connections over a socket and a framed stream that are lists of bytes.
use pgwire.Tests.Standins.{open_sink}
use pgwire.Base.{
  ℕ, ◌-◌, ◌≤◌, ◌≡◌, ◌↔◌, refl, sym, ap, ◌∙◌, Bool, true, false, Option, none, some, List, [], ◌∷◌,
  ◌++◌, Bytes, length, take, drop, leb, if◌then◌else◌, arith,
}
use pgwire.Buffers
use pgwire.Buffers.{Action, Reply}
use pgwire.Buffers.Standard.{standard}
use pgwire.Messages.Frontend.{PgWireFrontendMessage}
use pgwire.Messages.Startup.Request.{body_size}
use pgwire.Api.Step.{done}
use pgwire.Api.Client.{awaiting_startup, ready_for_query}
use pgwire.Server.{Handlers}
use pgwire.Server.Connection.{process_socket, Transport}
use pgwire.Server.Connection.Safe.{Run, process_socket-Run}
use pgwire.Server.Sockets.{answered, peek_for_sslrequest}
use pgwire.Server.Sockets.Tls.{Requests, peek_for_sslrequest-exact}
use pgwire.Server.Sockets.{IoResult, io_ok, TcpSocket}
use pgwire.Server.Connection.{Framed, Next, item, decode_failed, decode_panicked, ended}

-- A socket whose bytes have all arrived.
abbrev size_of : Bytes → Bytes → ℕ
size_of s buf = if leb (body_size - length buf) (length s) then body_size - length buf else length s

abbrev peek_arrived : Bytes → Bytes → IoResult Bytes (ℕ × Bytes)
peek_arrived s buf = io_ok (size_of s buf, buf ++ take (size_of s buf) s) s

pub fits :
    (s s' buf buf' : Bytes) (size : ℕ)
    → peek_arrived s buf ≡ io_ok (size, buf') s'
    → (size ≤ body_size - length buf) × (size ≤ length s') × (buf' ≡ buf ++ take size s')
fits s s' buf buf' size h =
    let same : size_of s buf ≡ size = cc h in
    let sock : s ≡ s' = cc h in
    let text : buf ++ take (size_of s buf) s ≡ buf' = cc h in
    (
      ground (arith, same),
      ground (arith, same, ap length sock),
      sym text ∙ ap (λ n. buf ++ take n s) same ∙ ap (λ t. buf ++ take size t) sock,
    )

abbrev still : TcpSocket
still = record {
  Socket = Bytes;
  arrived = λ s. s;
  peer_addr = λ s. io_ok [] s;
  poll_peek = peek_arrived;
  read_exact = λ s n. io_ok (take n s) (drop n s);
  write_all = λ s _. io_ok tt s;
  poll_peek_fits = fits;
}

-- A stream of chunks.
pub record Chunked : Type 0 where
  pub held : Bytes
  pub coming : List Bytes

abbrev pub step_on :
    Reply (Option PgWireFrontendMessage) → List Bytes → (Bytes → Next Chunked) → Next Chunked
step_on (Buffers.ok (some m) rest) chunks more = item m (record { held = rest; coming = chunks })
step_on (Buffers.ok none rest) chunks more = more rest
step_on (Buffers.err e b) chunks more = decode_failed
step_on Buffers.panic chunks more = decode_panicked
step_on Buffers.no_fuel chunks more = decode_panicked

abbrev pub at_end : Bytes → Next Chunked
at_end [] = ended
at_end (x ∷ rest) = decode_failed

abbrev pub next_of : Action (Option PgWireFrontendMessage) → List Bytes → Bytes → Next Chunked
next_of decode [] held = step_on (decode held) [] at_end
next_of decode (chunk ∷ chunks) held =
    step_on (decode held) (chunk ∷ chunks) (λ rest. next_of decode chunks (rest ++ chunk))

pub of_item :
    (decode : Action (Option PgWireFrontendMessage)) (f : Chunked) (m : PgWireFrontendMessage)
    (rest : Bytes) (chunks : List Bytes)
    → f.coming ≡ chunks
    → decode f.held ≡ Buffers.ok (some m) rest
    → next_of decode f.coming f.held ≡ item m (record { held = rest; coming = chunks })
of_item decode f m rest [] c e =
    ap (λ cs. next_of decode cs f.held) c ∙ ap (λ o. step_on o [] at_end) e
of_item decode f m rest (chunk ∷ chunks) c e =
    ap (λ cs. next_of decode cs f.held) c
    ∙ ap (λ o. step_on o (chunk ∷ chunks) (λ r. next_of decode chunks (r ++ chunk))) e

abbrev pub chunked : Framed
chunked = record {
  Stream = Chunked;
  buffered = λ f. f.held;
  incoming = λ f. f.coming;
  next = λ decode f. next_of decode f.coming f.held;
  next_item = λ decode f m rest e. (
    record { held = rest; coming = f.coming },
    of_item decode f m rest f.coming refl e,
    refl,
    refl,
  );
  next_more = λ decode f rest chunk chunks e c full. (
    record { held = rest ++ chunk; coming = chunks },
    ap (λ cs. next_of decode cs f.held) c
        ∙ ap (λ o. step_on o (chunk ∷ chunks) (λ r. next_of decode chunks (r ++ chunk))) e,
    refl,
    refl,
  );
  next_end =
      λ decode f e c. ap (λ cs. next_of decode cs f.held) c ∙ ap (λ o. step_on o [] at_end) e;
}

-- The request for TLS, and what follows.
abbrev asking : Bytes
asking = 0 ∷ 0 ∷ 0 ∷ 8 ∷ 4 ∷ 210 ∷ 22 ∷ 47 ∷ 22 ∷ 3 ∷ []

peek_for_sslrequest-exact_example :
    (peek_for_sslrequest still true asking ≡ answered true (22 ∷ 3 ∷ []))
    ↔ ((true ≡ true) × Requests still asking (22 ∷ 3 ∷ []))
peek_for_sslrequest-exact_example = peek_for_sslrequest-exact still true asking (22 ∷ 3 ∷ [])

-- Handlers that let everybody in and do nothing.
abbrev toy : Handlers Bool
toy = record {
  state = λ w. if w then ready_for_query else awaiting_startup;
  on_startup = λ _ w. done tt true;
  on_query = λ _ w. done tt w;
  on_parse = λ _ w. done tt w;
  on_bind = λ _ w. done tt w;
  on_execute = λ _ w. done tt w;
  on_describe = λ _ w. done tt w;
  on_sync = λ _ w. done tt w;
  on_close = λ _ w. done tt w;
  on_client = λ _ w. done tt w;
}

abbrev plain_transport : Transport chunked still
plain_transport = record {
  TlsStream = Bytes;
  accept = λ s. io_ok tt s;
  framed_tcp = λ s. record { held = []; coming = s ∷ [] };
  framed_tls = λ s. record { held = []; coming = s ∷ [] };
}

process_socket-Run_example :
    Run chunked toy
      (λ _. [])
      (λ _. false)
      still
      plain_transport
      3
      true
      asking
      (process_socket chunked toy (λ _. []) (λ _. false) still plain_transport 3 true asking)
process_socket-Run_example =
    process_socket-Run chunked toy (λ _. []) (λ _. false) still plain_transport 3 true asking
