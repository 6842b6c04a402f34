-- ===== src/Api/Client.antt =====
-- api/mod.rs: the state of a connection, and the client as the handlers see it: its information
-- and a sink of messages.
use pgwire.Base.{Bool, Option, none, some, List, [], ◌∷◌, ◌++◌, Bytes}
use pgwire.Errors.{PgWireError}
use pgwire.Messages.Backend.{PgWireBackendMessage}
use pgwire.Api.Step.{done, failed, Step, ◌>>◌}

-- `"POSTGRESQL_DEFAULT_NAME"`
abbrev pub default_name : Bytes
default_name =
    b'P' ∷ b'O' ∷ b'S' ∷ b'T' ∷ b'G' ∷ b'R' ∷ b'E' ∷ b'S' ∷ b'Q' ∷ b'L' ∷ b'_' ∷ b'D' ∷ b'E' ∷ b'F'
    ∷ b'A' ∷ b'U' ∷ b'L' ∷ b'T' ∷ b'_' ∷ b'N' ∷ b'A' ∷ b'M' ∷ b'E' ∷ []

-- `name.unwrap_or(DEFAULT_NAME)`
unfoldable pub or_default : Option Bytes → Bytes
or_default none = default_name
or_default (some name) = name

pub data PgWireConnectionState : Type 0 where
  awaiting_startup : PgWireConnectionState
  authentication_in_progress : PgWireConnectionState
  ready_for_query : PgWireConnectionState
  query_in_progress : PgWireConnectionState

-- What a sink is asked to do.
pub data Event : Type 0 where
  fed : PgWireBackendMessage → Event
  flushed : Event
  closed : Event

-- A `ClientInfo` that is a sink, with what the sink has done so far.
pub record Client : Type 0 where
  pub socket_addr : Bytes
  pub is_secure : Bool
  pub state : PgWireConnectionState
  pub metadata : List (Bytes × Bytes)
  pub events : List Event

-- `ClientInfoHolder::new`
unfoldable pub new_client : Bytes → Bool → Client
new_client socket_addr is_secure = record {
  socket_addr = socket_addr;
  is_secure = is_secure;
  state = awaiting_startup;
  metadata = [];
  events = [];
}

unfoldable pub set_state : PgWireConnectionState → Step Client (Unit {0})
set_state new_state c = done tt (record c { state = new_state })

-- The sink is not part of the library: it may refuse any event, and it may know all before.
pub record Sink : Type 0 where
  pub refuses : List Event → Event → Option PgWireError

module _ ⦃s : Sink⦄ where
  unfoldable pub emit : Event → Step Client (Unit {0})
  emit e c = elim (s.refuses c.events e) [
    | none ↦ done tt (record c { events = c.events ++ e ∷ [] })
    | some error ↦ failed error c
  ]

  -- `SinkExt::feed`, `SinkExt::flush` and `SinkExt::close`
  unfoldable pub feed : PgWireBackendMessage → Step Client (Unit {0})
  unfolding emit
  feed m = emit (fed m)

  unfoldable pub flush : Step Client (Unit {0})
  unfolding emit
  flush = emit flushed

  unfoldable pub close : Step Client (Unit {0})
  unfolding emit
  close = emit closed

  -- `SinkExt::send`
  unfoldable pub send : PgWireBackendMessage → Step Client (Unit {0})
  unfolding feed flush
  send m = do feed m; flush
