-- ===== src/Server/Connection/Session.antt =====
-- A connection from its startup packet on.
use pgwire.Base.{
  ℕ, zero, suc, ◌^◌, ◌<◌, ◌≡◌, ◌≢◌, refl, sym, ap, subst, ◌∙◌, none, some, List, [], ◌∷◌, ◌++◌,
  Bytes, All, length, map, arith,
}
use pgwire.Errors.{PgWireError}
use pgwire.Buffers
use pgwire.Buffers.{BytesCrate, Action}
use pgwire.Buffers.Rules.{bind-ok}
use pgwire.Messages.Codec.Framing.{frame}
use pgwire.Messages.Dispatch.{map_option}
use pgwire.Messages.Vectors.Rules.{flat}
use pgwire.Messages.Startup.Params.{Params, IsSorted}
use pgwire.Messages.Startup.Request.{startup_message, decode_startup}
use pgwire.Messages.Startup.Request.RoundTrip.{
  with_params, startup_body, IsParam, decode-encode_startup,
}
use pgwire.Messages.Startup.Request.Partial.{decode_startup-prefix}
use pgwire.Messages.Frontend.{PgWireFrontendMessage, startup}
use pgwire.Messages.Frontend.Clients.{IsSent, client_wire}
use pgwire.Messages.Frontend.RoundTrip.{received}
use pgwire.Api.Step.{done}
use pgwire.Api.Client.{awaiting_startup, Sink}
use pgwire.Server.{server_decode, Handlers, serve, serve_all}
use pgwire.Server.Connection.{Framed, connection}
use pgwire.Server.Connection.Chunks.{
  join, NonEmpty, Delivers, next-item, served, Proceeds, round, connection-wire,
}

module _ ⦃c : BytesCrate⦄ where
  -- The bytes of a startup packet.
  abbrev pub startup_wire : Params → Bytes
  startup_wire m = frame startup_message (with_params m) (startup_body (with_params m))

  startup-Delivers :
      (framed : Framed) (m : Params)
      → All IsParam m
      → IsSorted m
      → startup_message.message_length (with_params m) < 2 ^ 31
      → Delivers framed (server_decode awaiting_startup) (startup_wire m) (startup (with_params m))
  unfolding server_decode Buffers.pure map_option
  startup-Delivers framed m params sorted fits = record {
    whole = λ rest.
        bind-ok decode_startup (λ first. Buffers.pure (map_option startup first)) _
          (some (with_params m)) rest (decode-encode_startup m [] rest params sorted fits).1;
    part = λ p q e left.
        bind-ok decode_startup (λ first. Buffers.pure (map_option startup first)) p none p
          (decode_startup-prefix m p q fits e left);
  }

module _ ⦃c : BytesCrate⦄ ⦃s : Sink⦄ (framed : Framed) {W : Type 0} (h : Handlers W)
    (display : PgWireError → Bytes) where
  -- A connection that begins with a startup packet and goes on with well-formed messages other
  -- than Parse is handled as the startup and then each message as it is received, in their order,
  -- and ends as the handlers leave it, however the reads that are not empty cut the bytes. The
  -- parameters are strings without a zero byte, with keys that are not empty and in order, and the
  -- length fits. No handler brings the connection back to before the startup, and the startup
  -- leads past it. Two rounds more than there are messages after the startup are fuel enough.
  pub connection-session :
      (fuel : ℕ) (m : Params) (ms : List PgWireFrontendMessage) (f : framed.Stream) (w : W)
      → Proceeds framed h display
      → ((w' : W)
          → serve h display (startup (with_params m)) w ≡ done tt w'
          → h.state w' ≢ awaiting_startup)
      → suc (length ms) < fuel
      → All IsParam m
      → IsSorted m
      → startup_message.message_length (with_params m) < 2 ^ 31
      → All IsSent ms
      → NonEmpty (framed.incoming f)
      → framed.buffered f ++ join (framed.incoming f) ≡ startup_wire m ++ flat client_wire ms
      → h.state w ≡ awaiting_startup
      → connection framed h display fuel f w
        ≡ served (serve_all h display (startup (with_params m) ∷ map received ms) w)
  connection-session zero m ms f w keep starts few params sorted fits wfs full e st =
      absurd (omega arith)
  connection-session (suc fuel) m ms f w keep starts few params sorted fits wfs full e st =
      let (f', chunks, given, comes, full', e') =
        next-item framed (server_decode awaiting_startup) (startup_wire m) (flat client_wire ms)
          (startup (with_params m)) (startup-Delivers framed m params sorted fits)
          (framed.incoming f) f refl full e in
      round framed h display fuel f f' w (startup (with_params m)) (map received ms)
        (ap (λ state. framed.next (server_decode state) f) st ∙ given)
        (λ w' runs.
          connection-wire framed h display fuel ms f' w' keep (omega arith) wfs
            (subst NonEmpty (sym comes) full') (ap (λ cs. framed.buffered f' ++ join cs) comes ∙ e')
            (starts w' runs))
