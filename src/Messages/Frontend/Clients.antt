-- ===== src/Messages/Frontend/Clients.antt =====
-- What a client writes whose length fields are all exact, those of Parse included.
use pgwire.Base.{◌+◌, ◌^◌, ◌<◌, ◌≡◌, refl, none, some, ◌++◌, Bytes, length, arith}
use pgwire.Buffers
use pgwire.Buffers.{BytesCrate}
use pgwire.Buffers.Rules.{Reads}
use pgwire.Messages.Codec.{Message, decode}
use pgwire.Messages.Codec.Framing.{frame, RoundTrips}
use pgwire.Messages.Dispatch.{Selected, Selected-as, Reads-selected, prefix-selected, decode_as}
use pgwire.Messages.ExtendedQuery.{Parse, parse_message}
use pgwire.Messages.ExtendedQuery.RoundTrip.{IsParse, parse_body, parse-RoundTrips}
use pgwire.Messages.Frontend
use pgwire.Messages.Frontend.{
  PgWireFrontendMessage, startup, password_message_family, query, parse, close, bind, describe,
  execute, flush, sync, terminate, decode_selected,
}
use pgwire.Messages.Frontend.RoundTrip.{IsWellFormed, wire, received, selected}

module _ ⦃c : BytesCrate⦄ where
  -- Parse with the length that it has.
  abbrev pub exact_parse : Message Parse
  exact_parse = record parse_message { message_length = λ m. parse_message.message_length m + 2 }

  -- The messages that a client sends after its startup packet.
  abbrev pub IsSent : PgWireFrontendMessage → Type 0
  IsSent (parse m) = IsParse m × (exact_parse.message_length m < 2 ^ 31)
  IsSent (startup m) = IsWellFormed (startup m)
  IsSent (password_message_family m) = IsWellFormed (password_message_family m)
  IsSent (query m) = IsWellFormed (query m)
  IsSent (close m) = IsWellFormed (close m)
  IsSent (bind m) = IsWellFormed (bind m)
  IsSent (describe m) = IsWellFormed (describe m)
  IsSent (execute m) = IsWellFormed (execute m)
  IsSent (sync m) = IsWellFormed (sync m)
  IsSent (terminate m) = IsWellFormed (terminate m)
  IsSent (flush m) = IsWellFormed (flush m)

  -- Their bytes.
  abbrev pub client_wire : PgWireFrontendMessage → Bytes
  client_wire (parse m) = frame exact_parse m (parse_body m)
  client_wire (startup m) = wire (startup m)
  client_wire (password_message_family m) = wire (password_message_family m)
  client_wire (query m) = wire (query m)
  client_wire (close m) = wire (close m)
  client_wire (bind m) = wire (bind m)
  client_wire (describe m) = wire (describe m)
  client_wire (execute m) = wire (execute m)
  client_wire (sync m) = wire (sync m)
  client_wire (terminate m) = wire (terminate m)
  client_wire (flush m) = wire (flush m)

  exact-RoundTrips :
      (m : Parse)
      → IsParse m
      → exact_parse.message_length m < 2 ^ 31
      → RoundTrips exact_parse m (parse_body m) 0
  unfolding parse_message
  exact-RoundTrips m h fits =
      let trips = parse-RoundTrips m h (omega arith) in
      record {
        writes = trips.writes;
        reads = trips.reads;
        announced = omega (arith, trips.announced);
        fits = fits;
      }

  sent :
      (m : PgWireFrontendMessage)
      → IsSent m
      → Selected decode_selected (received m) (client_wire m) 0
  unfolding decode_selected parse_message decode decode_as
  sent (parse m) h =
      Selected-as decode_selected exact_parse parse m b'P' refl refl (exact-RoundTrips m h.0 h.1)
  sent (startup m) h = absurd h
  sent (password_message_family m) h = selected (password_message_family m) h
  sent (query m) h = selected (query m) h
  sent (close m) h = selected (close m) h
  sent (bind m) h = selected (bind m) h
  sent (describe m) h = selected (describe m) h
  sent (execute m) h = selected (execute m) h
  sent (sync m) h = selected (sync m) h
  sent (terminate m) h = selected (terminate m) h
  sent (flush m) h = absurd h

  pub Reads-sent :
      (m : PgWireFrontendMessage)
      → IsSent m
      → Reads Frontend.decode (client_wire m) (some (received m))
  unfolding Frontend.decode
  Reads-sent m h = Reads-selected decode_selected (received m) (client_wire m) 0 (sent m h)

  pub decode-prefix_sent :
      (m : PgWireFrontendMessage) (p q : Bytes)
      → IsSent m
      → client_wire m ≡ p ++ q
      → 0 < length q
      → Frontend.decode p ≡ Buffers.ok none p
  unfolding Frontend.decode
  decode-prefix_sent m p q h e left =
      prefix-selected decode_selected (received m) (client_wire m) 0 (sent m h) p q refl e left
