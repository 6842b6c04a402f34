-- ===== src/Api/Query.antt =====
-- api/query.rs: the handlers of queries. What the server's author writes, `do_query` and
-- `do_describe`, is a parameter.
pub mod Emits
pub mod Simple
pub mod Extended
pub mod Kept
use pgwire.Base.{
  ℕ, zero, suc, ◌+◌, ◌==◌, if◌then◌else◌, Bool, true, false, Option, none, some, List, [], ◌∷◌,
  Bytes, map, i32_as_usize,
}
use pgwire.Errors.{
  PgWireError, portal_not_found, statement_not_found, invalid_target_type, ErrorInfo,
}
use pgwire.Messages.Response.{Query, ready_status_idle}
use pgwire.Messages.Data.{DataRow}
use pgwire.Messages.ExtendedQuery.{
  Parse, Close, Bind, Describe, Execute, target_type_byte_statement, target_type_byte_portal,
}
use pgwire.Messages.Units.{Sync}
use pgwire.Messages.Backend.{
  PgWireBackendMessage, empty_query_response, error_response, ready_for_query, row_description,
  data_row, command_complete, parse_complete, bind_complete, close_complete, parameter_description,
}
use pgwire.Messages.Backend.Reported.{from_error_info}
use pgwire.Api.Step.{Outcome, done, failed, panicked, Step, ◌>>=◌, ◌>>◌, pure, raise, for_each}
use pgwire.Api.Client.{Client, Sink, query_in_progress, set_state, feed, flush, send, or_default}
use pgwire.Api.Client
use pgwire.Api.Statements.{
  PgWireResult, ok, err, PostgresTypes, StoredStatement, QueryParser, parse_statement,
}
use pgwire.Api.Portals.{Portal, try_new}
use pgwire.Api.Store.{
  MemPortalStore, put_statement, rm_statement, get_statement, put_portal, rm_portal, get_portal,
}
use pgwire.Api.Results.{
  Tag, new_for_query, from_tag, into_row_description, QueryResponse, DescribeResponse, Response,
  query, execution, error,
}

-- `?` on a result that is there.
unfoldable pub lift : {W A : Type 0} → PgWireResult A → Step W A
lift (ok a) = pure a
lift (err e) = raise e

-- `ReadyForQuery::new(READY_STATUS_IDLE)`
abbrev pub idle : PgWireBackendMessage
idle = ready_for_query (record { status = ready_status_idle })

module _ ⦃p : PostgresTypes⦄ where
  -- What a `SimpleQueryHandler` adds: it sees the client, and answers with responses or an error.
  pub record SimpleQueryHandler : Type 0 where
    pub do_query : Client → Bytes → PgWireResult (List Response)

  pub data StatementOrPortal (S : Type 0) : Type 0 where
    statement : StoredStatement S → StatementOrPortal S
    portal : Portal S → StatementOrPortal S

  -- What an `ExtendedQueryHandler` adds. Both calls may use the client.
  pub record ExtendedQueryHandler (S : Type 0) : Type 0 where
    pub query_parser : QueryParser S
    pub do_describe : StatementOrPortal S → Step Client DescribeResponse
    pub do_query : Portal S → ℕ → Step Client Response

  -- The client with the store of the handler.
  pub record Session (S : Type 0) : Type 0 where
    pub client : Client
    pub store : MemPortalStore S

  module _ {S : Type 0} where
    unfoldable pub on_client : {A : Type 0} → Step Client A → Step (Session S) A
    on_client m w = elim (m w.client) [
      | done a c ↦ done a (record w { client = c })
      | failed e c ↦ failed e (record w { client = c })
      | panicked ↦ panicked
    ]

    unfoldable pub on_store : (MemPortalStore S → MemPortalStore S) → Step (Session S) (Unit {0})
    on_store f w = done tt (record w { store = f w.store })

    unfoldable pub close_target : Close → MemPortalStore S → MemPortalStore S
    close_target m s =
        if m.target_type == target_type_byte_statement
        then rm_statement (or_default m.name) s
        else if m.target_type == target_type_byte_portal
        then rm_portal (or_default m.name) s
        else s

module _ ⦃s : Sink⦄ where
  -- The loop over the rows, which counts them.
  unfoldable pub send_rows : ℕ → List (PgWireResult DataRow) → Step Client ℕ
  send_rows rows [] = pure rows
  send_rows rows (err e ∷ rest) = raise e
  send_rows rows (ok row ∷ rest) = do send (data_row row); send_rows (rows + 1) rest

  unfoldable pub send_execution_response : Tag → Step Client (Unit {0})
  send_execution_response tag = send (command_complete (from_tag tag))

module _ ⦃s : Sink⦄ ⦃p : PostgresTypes⦄ where
  unfoldable pub send_query_response : QueryResponse → Bool → Step Client (Unit {0})
  send_query_response results send_describe = do
    if send_describe
        then send (row_description (into_row_description results.row_schema))
        else pure tt
    rows ← send_rows 0 results.data_rows
    send (command_complete (from_tag (new_for_query rows)))

  unfoldable pub send_response : Response → Step Client (Unit {0})
  send_response (query results) = send_query_response results true
  send_response (execution tag) = send_execution_response tag
  send_response (error e) = feed (error_response (from_error_info e))

  -- The query string is not empty.
  unfoldable pub answer_query : SimpleQueryHandler → Bytes → Step Client (Unit {0})
  answer_query h text = do resp ← (λ c. lift (h.do_query c text) c); for_each send_response resp

  -- The test on the query string.
  unfoldable pub run_query : SimpleQueryHandler → Bytes → Step Client (Unit {0})
  run_query h [] = feed (empty_query_response (record {}))
  run_query h (b ∷ text) = answer_query h (b ∷ text)

  unfoldable pub on_query : SimpleQueryHandler → Query → Step Client (Unit {0})
  unfolding run_query
  on_query h q = do
    set_state query_in_progress
    run_query h q.query
    feed idle
    flush
    set_state Client.ready_for_query

  unfoldable pub send_execute_response : Response → Step Client (Unit {0})
  send_execute_response (query results) = send_query_response results false
  send_execute_response (execution tag) = send_execution_response tag
  send_execute_response (error e) = send (error_response (from_error_info e))

  -- `if let Some(parameter_types) = describe_response.parameters() { … }`
  unfoldable pub send_parameters : Option (List p.PgType) → Step Client (Unit {0})
  send_parameters none = pure tt
  send_parameters (some types) =
      send (parameter_description (record { types = map (λ t. p.oid t) types }))

  module _ {S : Type 0} where
    unfoldable pub on_parse : ExtendedQueryHandler S → Parse → Step (Session S) (Unit {0})
    on_parse h m = do
      stmt ← lift (parse_statement m h.query_parser)
      on_store (put_statement stmt)
      on_client (send (parse_complete (record {})))

    unfoldable pub bind_found : Bind → Option (StoredStatement S) → Step (Session S) (Unit {0})
    bind_found m none = raise (statement_not_found (or_default m.statement_name))
    bind_found m (some stmt) = do
      bound ← lift (try_new m stmt)
      on_store (put_portal bound)
      on_client (send (bind_complete (record {})))

    unfoldable pub on_bind : Bind → Step (Session S) (Unit {0})
    unfolding bind_found
    on_bind m w = bind_found m (get_statement (or_default m.statement_name) w.store) w

    unfoldable pub execute_found :
        ExtendedQueryHandler S → Execute → Option (Portal S) → Step Client (Unit {0})
    execute_found h m none = raise (portal_not_found (or_default m.name))
    execute_found h m (some found) = do
      resp ← h.do_query found (i32_as_usize m.max_rows)
      send_execute_response resp
      send idle

    unfoldable pub on_execute : ExtendedQueryHandler S → Execute → Step (Session S) (Unit {0})
    unfolding execute_found
    on_execute h m w = on_client (execute_found h m (get_portal (or_default m.name) w.store)) w

    unfoldable pub describe_statement :
        ExtendedQueryHandler S → Describe → Option (StoredStatement S) → Step Client (Unit {0})
    describe_statement h m none = raise (statement_not_found (or_default m.name))
    describe_statement h m (some stmt) = do
      response ← h.do_describe (statement stmt)
      send_parameters response.parameters
      send (row_description (into_row_description response.fields))
      send idle

    unfoldable pub describe_portal :
        ExtendedQueryHandler S → Describe → Option (Portal S) → Step Client (Unit {0})
    describe_portal h m none = raise (portal_not_found (or_default m.name))
    describe_portal h m (some found) = do
      response ← h.do_describe (portal found)
      send (row_description (into_row_description response.fields))

    unfoldable pub on_describe : ExtendedQueryHandler S → Describe → Step (Session S) (Unit {0})
    unfolding describe_statement describe_portal
    on_describe h m w =
        if m.target_type == target_type_byte_statement
        then on_client (describe_statement h m (get_statement (or_default m.name) w.store)) w
        else if m.target_type == target_type_byte_portal
        then on_client (describe_portal h m (get_portal (or_default m.name) w.store)) w
        else raise (invalid_target_type m.target_type) w

    unfoldable pub on_sync : Sync → Step (Session S) (Unit {0})
    on_sync m = on_client flush

    unfoldable pub on_close : Close → Step (Session S) (Unit {0})
    unfolding close_target
    on_close m = do
      on_store (close_target m)
      on_client (send (close_complete (record {})))
      on_client (send idle)
