-- ===== src/Server/Routing.antt =====
-- Which handler a message reaches, and which messages the codec gives.
use pgwire.Base.{◌≡◌, ◌≢◌, refl, Option, none, some, Bytes}
use pgwire.Buffers
use pgwire.Buffers.{BytesCrate, ok}
use pgwire.Buffers.Ends.{bind-inv}
use pgwire.Messages.Dispatch.{map_option}
use pgwire.Messages.Startup.Request.{Startup, decode_startup}
use pgwire.Messages.Frontend.{PgWireFrontendMessage, startup}
use pgwire.Api.Client.{
  PgWireConnectionState, awaiting_startup, authentication_in_progress, ready_for_query,
  query_in_progress,
}
use pgwire.Server.{server_decode, Handlers, process_in, process_message}

module _ {W : Type 0} (h others : Handlers W) where
  -- `h` with the query handlers of `others`.
  abbrev pub with_queries : Handlers W
  with_queries = record others { state = h.state; on_startup = h.on_startup }

  same_in :
      (st : PgWireConnectionState) (m : PgWireFrontendMessage) (w : W)
      → st ≢ ready_for_query
      → st ≢ query_in_progress
      → process_in with_queries st m w ≡ process_in h st m w
  unfolding process_in
  same_in awaiting_startup m w r q = refl
  same_in authentication_in_progress m w r q = refl
  same_in ready_for_query m w r q = absurd (r refl)
  same_in query_in_progress m w r q = absurd (q refl)

  -- Until a client is ready, what is done with a message does not depend on the query handlers.
  pub process_message-unready :
      (m : PgWireFrontendMessage) (w : W)
      → h.state w ≢ ready_for_query
      → h.state w ≢ query_in_progress
      → process_message with_queries m w ≡ process_message h m w
  unfolding process_message
  process_message-unready m w r q = same_in (h.state w) m w r q

module _ ⦃c : BytesCrate⦄ where
  mapped-inv :
      (o : Option Startup) (m : PgWireFrontendMessage)
      → map_option startup o ≡ some m
      → (request : Startup) × (m ≡ startup request)
  unfolding map_option
  mapped-inv none m e = cc e
  mapped-inv (some request) m e = (request, cc e)

  -- While the startup is awaited the codec gives no message but a Startup.
  pub server_decode-awaiting :
      (b b' : Bytes) (m : PgWireFrontendMessage)
      → server_decode awaiting_startup b ≡ ok (some m) b'
      → (request : Startup) × (m ≡ startup request)
  unfolding server_decode Buffers.pure
  server_decode-awaiting b b' m e =
      let (o, left, first, last) = bind-inv decode_startup _ b (some m) b' e in
      mapped-inv o m (cc last)
