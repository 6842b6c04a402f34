-- ===== src/Tests/Handlers.antt =====
-- Handlers run on a client whose sink accepts everything, with numbers for the types of values and
-- `NoopQueryParser`.
use pgwire.Tests.Standins.{open_sink, numbered}
use pgwire.Base.{◌≡◌, refl, inl, false, true, Option, none, some, [], ◌∷◌, ◌++◌, Bytes, map, arith}
use pgwire.Errors.{statement_not_found, user_name_required}
use pgwire.Messages.Data.{DataRow}
use pgwire.Messages.ExtendedQuery.{Parse, Close, Bind, Execute}
use pgwire.Messages.Backend.{parse_complete, bind_complete, close_complete}
use pgwire.Messages.Startup.Params.{compare_bytes}
use pgwire.Api.Step.{done, failed, ◌>>◌}
use pgwire.Api.Client.{Client, fed, flushed, ready_for_query, default_name, or_default}
use pgwire.Api.Statements.{
  PgWireResult, ok, err, StoredStatement, parse_statement, types_of_oids, type_of_oid, cons_result,
}
use pgwire.Api.Results.{query}
use pgwire.Api.Portals.{Portal, portal_of, FromSql, parameter}
use pgwire.Api.Portals.Parameters.{Parameter, parameter-portal_of, parameter-panics}
use pgwire.Api.Store.{
  new_store, get, put_statement, rm_statement, put_portal, rm_portal, get_portal,
}
use pgwire.Api.Store.Laws.{view, update, view-store}
use pgwire.Api.Query.{
  idle, SimpleQueryHandler, ExtendedQueryHandler, Session, on_query, on_parse, on_bind, on_execute,
  on_close,
}
use pgwire.Api.Query.Emits.{after, flat_events, sent, row_events}
use pgwire.Api.Query.Simple.{rows, to_response, reply_events, on_query-answers}
use pgwire.Api.Query.Extended.{execute_events, execute-bind-parse, execute-row_error, bind-close}

abbrev guest : Client
guest = record {
  socket_addr = [];
  is_secure = false;
  state = ready_for_query;
  metadata = [];
  events = [];
}

abbrev one_row : DataRow
one_row = record { fields = some (b'1' ∷ []) ∷ [] }

abbrev no_name : Bind
no_name = record {
  portal_name = none;
  statement_name = none;
  parameter_format_codes = [];
  parameters = some (b'7' ∷ []) ∷ [];
  result_column_format_codes = [];
}

abbrev prepared : StoredStatement Bytes
prepared = record { id = default_name; statement = b's' ∷ []; parameter_types = 23 ∷ [] }

abbrev bytes_from_sql : FromSql Bytes
bytes_from_sql = record { accepts = λ _. true; from_sql = λ _ b. some b; failure = λ _ b. b }

parameter-portal_of_example :
    (r : PgWireResult (Option Bytes)) × (parameter bytes_from_sql (portal_of no_name prepared) 0
      ≡ some r)
    × Parameter bytes_from_sql no_name prepared 0 r
parameter-portal_of_example =
    parameter-portal_of bytes_from_sql no_name prepared 0 (inl (omega arith))

-- Two formats for three parameters.
abbrev three : Bind
three = record no_name { parameter_format_codes = 0 ∷ 1 ∷ []; parameters = none ∷ none ∷ none ∷ [] }

parameter-panics_example : parameter bytes_from_sql (portal_of three prepared) 2 ≡ none
parameter-panics_example =
    parameter-panics bytes_from_sql three prepared 2 (omega arith) (omega arith) (omega arith)

abbrev opened : Portal Bytes
opened = record (portal_of no_name prepared) { name = b'p' ∷ [] }

view-store_example :
    (view {S = Bytes} new_store ≡ (λ _. none, λ _. none))
    × (view (put_statement prepared new_store)
        ≡ (update prepared.id (some prepared) (view new_store).0, (view new_store).1))
    × (view {S = Bytes} (rm_statement default_name new_store)
        ≡ (update default_name none (view new_store).0, (view new_store).1))
    × (view (put_portal opened new_store)
        ≡ ((view new_store).0, update opened.name (some opened) (view new_store).1))
    × (view {S = Bytes} (rm_portal default_name new_store)
        ≡ ((view new_store).0, update default_name none (view new_store).1))
view-store_example = view-store prepared opened default_name new_store

-- A handler that answers every query with one row.
abbrev simple : SimpleQueryHandler
simple = record { do_query = λ _ _. ok (to_response (rows [] (one_row ∷ [])) ∷ []) }

on_query-answers_example :
    on_query simple (record { query = b's' ∷ [] }) guest
    ≡ done tt
        (record (after guest
          (flat_events reply_events (rows [] (one_row ∷ []) ∷ []) ++ (fed idle ∷ flushed ∷ []))) {
            state = ready_for_query;
          })
on_query-answers_example =
    on_query-answers (λ _ _. refl) simple guest b's' [] (rows [] (one_row ∷ []) ∷ []) refl

-- A handler that answers a portal with one row, and after it an error if there is a limit.
abbrev extended : ExtendedQueryHandler Bytes
extended = record {
  query_parser = record { parse_sql = λ sql _. ok sql };
  do_describe = λ _ c. done (record { parameters = none; fields = [] }) c;
  do_query =
      λ _ _ c. done (query (record { row_schema = []; data_rows = map ok (one_row ∷ []) })) c;
}

abbrev breaking : ExtendedQueryHandler Bytes
breaking = record extended {
  do_query = λ _ _ c.
      done
        (query (record {
          row_schema = [];
          data_rows = map ok (one_row ∷ []) ++ err user_name_required ∷ [];
        }))
        c;
}

abbrev begun : Session Bytes
begun = record { client = guest; store = record { statements = []; portals = [] } }

abbrev to_parse : Parse
to_parse = record { name = none; query = b's' ∷ []; type_oids = 23 ∷ [] }

abbrev to_execute : Execute
to_execute = record { name = none; max_rows = 0 }

execute-bind-parse_example :
    (do on_parse extended to_parse; on_bind no_name; on_execute extended to_execute) begun
    ≡ done tt (record {
      client = after guest (
          sent (parse_complete (record {}))
          ++ (sent (bind_complete (record {})) ++ execute_events (one_row ∷ [])));
      store = put_portal (portal_of no_name prepared) (put_statement prepared begun.store);
    })
execute-bind-parse_example =
    execute-bind-parse (λ _ _. refl) extended to_parse no_name to_execute prepared [] (one_row ∷ [])
      begun (unfold parse_statement types_of_oids type_of_oid cons_result or_default in refl)
      (unfold or_default in refl) refl (λ c. refl)

abbrev bound : Session Bytes
bound = record {
  client = guest;
  store = record { statements = []; portals = (default_name, portal_of no_name prepared) ∷ [] };
}

execute-row_error_example :
    on_execute breaking to_execute bound
    ≡ failed user_name_required (record bound { client = after guest (row_events (one_row ∷ [])) })
execute-row_error_example =
    execute-row_error (λ _ _. refl) breaking to_execute (portal_of no_name prepared) []
      (one_row ∷ []) user_name_required [] bound
      (unfold get_portal get compare_bytes or_default in refl) (λ c. refl)

abbrev to_close : Close
to_close = record { target_type = b'S'; name = none }

bind-close_example :
    (do on_close to_close; on_bind no_name) begun
    ≡ failed (statement_not_found (or_default none)) (record {
      client = after guest (sent (close_complete (record {})) ++ sent idle);
      store = rm_statement (or_default none) begun.store;
    })
bind-close_example = bind-close (λ _ _. refl) to_close no_name begun refl refl
