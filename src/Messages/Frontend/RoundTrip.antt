-- ===== src/Messages/Frontend/RoundTrip.antt =====
-- Every well-formed frontend message with a type byte but `Flush` is read back by `decode`; a
-- message of the password family comes back as its raw body.
use pgwire.Base.{
  ℕ, ◌+◌, ◌%◌, ◌^◌, ◌<◌, ◌≡◌, refl, ap, none, some, [], ◌∷◌, ◌++◌, Bytes, be32, length, arith,
}
use pgwire.Buffers.{BytesCrate, ok}
use pgwire.Buffers.Rules.{Writes}
use pgwire.Text.{IsCstring}
use pgwire.Messages.Codec.{get_length}
use pgwire.Messages.Codec.Strings.{cstring, IsName}
use pgwire.Messages.Codec.Framing.{frame, encode-frame}
use pgwire.Messages.Dispatch.{
  Selected, Selected-as, Reads-selected, prefix-selected, get_length-selected,
}
use pgwire.Messages.Units.{sync_message, terminate_message}
use pgwire.Messages.Units.RoundTrip.{unit-RoundTrips}
use pgwire.Messages.Response.{query_message}
use pgwire.Messages.Response.RoundTrip.{query-RoundTrips}
use pgwire.Messages.ExtendedQuery.{
  parse_message, close_message, bind_message, describe_message, execute_message,
}
use pgwire.Messages.ExtendedQuery.RoundTrip.{
  IsParse, IsBind, parse_body, target_body, bind_body, execute_body, parse-RoundTrips,
  close-RoundTrips, bind-RoundTrips, describe-RoundTrips, execute-RoundTrips,
}
use pgwire.Messages.Startup.Passwords.{PasswordMessageFamily, raw, family_length, family_message}
use pgwire.Messages.Startup.Passwords.RoundTrip.{
  family_body, raw-RoundTrips, family-length, Writes-family,
}
use pgwire.Messages.Frontend.{
  PgWireFrontendMessage, startup, password_message_family, query, parse, close, bind, describe,
  execute, flush, sync, terminate, encode, decode_selected, decode,
}

module _ ⦃c : BytesCrate⦄ where
  -- What is asked of a message. `Startup` and `Flush` are left out: `decode` has no case for them.
  abbrev pub IsWellFormed : PgWireFrontendMessage → Type 0
  IsWellFormed (startup _) = ⊥
  IsWellFormed (password_message_family m) = family_length m < 2 ^ 31
  IsWellFormed (query m) = IsCstring m.query × (query_message.message_length m < 2 ^ 31)
  IsWellFormed (parse m) = IsParse m × (parse_message.message_length m < 2 ^ 31)
  IsWellFormed (close m) = IsName m.name × (close_message.message_length m < 2 ^ 31)
  IsWellFormed (bind m) = IsBind m × (bind_message.message_length m < 2 ^ 31)
  IsWellFormed (describe m) = IsName m.name × (describe_message.message_length m < 2 ^ 31)
  IsWellFormed (execute m) =
      IsName m.name × (m.max_rows < 2 ^ 32) × (execute_message.message_length m < 2 ^ 31)
  IsWellFormed (sync m) = Unit
  IsWellFormed (terminate m) = Unit
  IsWellFormed (flush _) = ⊥

  -- The bytes of a message.
  abbrev pub wire : PgWireFrontendMessage → Bytes
  wire (startup _) = []
  wire (password_message_family m) = frame family_message m (family_body m)
  wire (query m) = frame query_message m (cstring m.query)
  wire (parse m) = frame parse_message m (parse_body m)
  wire (close m) = frame close_message m (target_body m.target_type m.name)
  wire (bind m) = frame bind_message m (bind_body m)
  wire (describe m) = frame describe_message m (target_body m.target_type m.name)
  wire (execute m) = frame execute_message m (execute_body m)
  wire (sync m) = frame sync_message m ([])
  wire (terminate m) = frame terminate_message m ([])
  wire (flush _) = []

  -- By how much the length field is short.
  abbrev pub missing : PgWireFrontendMessage → ℕ
  missing (parse _) = 2
  missing (startup _) = 0
  missing (password_message_family _) = 0
  missing (query _) = 0
  missing (close _) = 0
  missing (bind _) = 0
  missing (describe _) = 0
  missing (execute _) = 0
  missing (sync _) = 0
  missing (terminate _) = 0
  missing (flush _) = 0

  -- What the server receives: the type of a password message is not known from the message.
  abbrev pub received : PgWireFrontendMessage → PgWireFrontendMessage
  received (password_message_family m) = password_message_family (raw (family_body m))
  received (startup m) = startup m
  received (query m) = query m
  received (parse m) = parse m
  received (close m) = close m
  received (bind m) = bind m
  received (describe m) = describe m
  received (execute m) = execute m
  received (sync m) = sync m
  received (terminate m) = terminate m
  received (flush m) = flush m

  family-framed :
      (m : PasswordMessageFamily)
      → frame family_message m (family_body m)
        ≡ frame family_message (raw (family_body m)) (family_body m)
  unfolding family_message
  family-framed m =
      ap (λ (n : ℕ). b'p' ∷ (be32 (n % 2 ^ 32) ++ family_body m))
        (omega (arith, family-length m, family-length (raw (family_body m))))

  -- The decoder that the type byte of each message selects reads it back.
  pub selected :
      (m : PgWireFrontendMessage)
      → IsWellFormed m
      → Selected decode_selected (received m) (wire m) (missing m)
  unfolding decode_selected family_message query_message parse_message close_message bind_message
      describe_message execute_message sync_message terminate_message
  selected (startup _) h = absurd h
  selected (password_message_family m) h = rw (family-framed m) (
      Selected-as decode_selected family_message password_message_family (raw (family_body m)) b'p'
        refl refl (raw-RoundTrips (family_body m) (omega (arith, family-length m))))
  selected (query m) h =
      Selected-as decode_selected query_message query m b'Q' refl refl (query-RoundTrips m h.0 h.1)
  selected (parse m) h =
      Selected-as decode_selected parse_message parse m b'P' refl refl (parse-RoundTrips m h.0 h.1)
  selected (close m) h =
      Selected-as decode_selected close_message close m b'C' refl refl (close-RoundTrips m h.0 h.1)
  selected (bind m) h =
      Selected-as decode_selected bind_message bind m b'B' refl refl (bind-RoundTrips m h.0 h.1)
  selected (describe m) h =
      Selected-as decode_selected describe_message describe m b'D' refl refl
        (describe-RoundTrips m h.0 h.1)
  selected (execute m) h =
      Selected-as decode_selected execute_message execute m b'E' refl refl
        (execute-RoundTrips m h.0 h.1 h.2)
  selected (sync m) h =
      Selected-as decode_selected sync_message sync m b'S' refl refl (unit-RoundTrips b'S' m)
  selected (terminate m) h =
      Selected-as decode_selected terminate_message terminate m b'X' refl refl
        (unit-RoundTrips b'X' m)
  selected (flush _) h = absurd h

  Writes-encode : (m : PgWireFrontendMessage) → IsWellFormed m → Writes (encode m) (wire m)
  unfolding encode sync_message terminate_message
  Writes-encode (startup _) h = absurd h
  Writes-encode (password_message_family m) h =
      unfold family_message in encode-frame family_message m _ (Writes-family m)
  Writes-encode (query m) h = encode-frame query_message m _ (query-RoundTrips m h.0 h.1).writes
  Writes-encode (parse m) h = encode-frame parse_message m _ (parse-RoundTrips m h.0 h.1).writes
  Writes-encode (close m) h = encode-frame close_message m _ (close-RoundTrips m h.0 h.1).writes
  Writes-encode (bind m) h = encode-frame bind_message m _ (bind-RoundTrips m h.0 h.1).writes
  Writes-encode (describe m) h =
      encode-frame describe_message m _ (describe-RoundTrips m h.0 h.1).writes
  Writes-encode (execute m) h =
      encode-frame execute_message m _ (execute-RoundTrips m h.0 h.1 h.2).writes
  Writes-encode (sync m) h = encode-frame sync_message m _ (unit-RoundTrips b'S' m).writes
  Writes-encode (terminate m) h = encode-frame terminate_message m _ (unit-RoundTrips b'X' m).writes
  Writes-encode (flush _) h = absurd h

  -- For every well-formed frontend message except Startup and Flush (its strings are text without
  -- a zero byte, its names are not empty, its numbers, sequences and length fit their fields),
  -- encode appends the wire form and decode, given the wire form followed by any bytes, returns
  -- the message, one of the password family as its raw body, and leaves those bytes.
  pub decode-encode_frontend :
      (m : PgWireFrontendMessage) (b rest : Bytes)
      → IsWellFormed m
      → (encode m b ≡ ok tt (b ++ wire m)) × (decode (wire m ++ rest) ≡ ok (some (received m)) rest)
  unfolding decode
  decode-encode_frontend m b rest h = (
    (Writes-encode m h).at b,
    (Reads-selected decode_selected (received m) (wire m) (missing m) (selected m h)).at rest,
  )

  -- A proper prefix of the wire form of a well-formed frontend message other than Startup, Flush
  -- and Parse is left in the buffer, and decode returns None.
  pub decode-prefix_frontend :
      (m : PgWireFrontendMessage) (p q : Bytes)
      → IsWellFormed m
      → missing m ≡ 0
      → wire m ≡ p ++ q
      → 0 < length q
      → decode p ≡ ok none p
  unfolding decode
  decode-prefix_frontend m p q h exact e hq =
      prefix-selected decode_selected (received m) (wire m) (missing m) (selected m h) p q exact e
        hq

  -- The length read from the header of a well-formed frontend message other than Startup and Flush
  -- is the length of the message without its type byte, but for Parse, which announces two less.
  pub get_length-wire_frontend :
      (m : PgWireFrontendMessage) (rest : Bytes)
      → IsWellFormed m
      → (n : ℕ) × (get_length 1 (wire m ++ rest) ≡ ok (some n) (wire m ++ rest))
        × (1 + n + missing m ≡ length (wire m))
  get_length-wire_frontend m rest h =
      get_length-selected decode_selected (received m) (wire m) (missing m) (selected m h) rest
