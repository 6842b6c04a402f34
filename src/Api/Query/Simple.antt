-- ===== src/Api/Query/Simple.antt =====
-- What a simple query is answered with.
use pgwire.Base.{ℕ, ◌≡◌, ap, ◌∙◌, none, List, [], ◌∷◌, ◌++◌, append_assoc, Bytes, map, length}
use pgwire.Errors.{PgWireError, ErrorInfo}
use pgwire.Messages.Response.{Query}
use pgwire.Messages.Data.{DataRow}
use pgwire.Messages.Backend.{
  empty_query_response, error_response, row_description, command_complete,
}
use pgwire.Messages.Backend.Reported.{from_error_info}
use pgwire.Api.Query.Emits.{Emits-select, select_events}
use pgwire.Api.Step.{done, failed, ◌>>◌, pure, raise, for_each, bind-done, bind-failed}
use pgwire.Api.Client.{Client, Event, fed, flushed, Sink, feed, flush, set_state, query_in_progress}
use pgwire.Api.Client
use pgwire.Api.Statements.{ok, err, PostgresTypes}
use pgwire.Api.Results.{
  Tag, from_tag, FieldInfo, into_row_description, Response, query, execution, error,
}
use pgwire.Api.Query.{
  lift, idle, send_rows, send_execution_response, send_query_response, SimpleQueryHandler,
  send_response, answer_query, run_query, on_query,
}
use pgwire.Api.Query.Emits.{
  after, Emits, Emits-pure, Emits-bind, Emits-then, flat_events, sent, row_events, Emits-feed,
  Emits-flush, Emits-send, Emits-send_all_rows,
}

module _ ⦃p : PostgresTypes⦄ where
  -- A response as data: its rows, all of which can be produced, a tag or an error.
  pub data Reply : Type 0 where
    rows : List FieldInfo → List DataRow → Reply
    tagged : Tag → Reply
    refused : ErrorInfo → Reply

  abbrev pub to_response : Reply → Response
  to_response (rows schema given) = query (record { row_schema = schema; data_rows = map ok given })
  to_response (tagged tag) = execution tag
  to_response (refused e) = error e

  -- What the client receives for it: the description of the rows, the rows and their number; or the
  -- tag; or the error, which is not flushed.
  abbrev pub reply_events : Reply → List Event
  reply_events (rows schema given) =
      sent (row_description (into_row_description schema))
      ++ (row_events given ++ select_events (length given))
  reply_events (tagged tag) = sent (command_complete (from_tag tag))
  reply_events (refused e) = fed (error_response (from_error_info e)) ∷ []

module _ ⦃s : Sink⦄ ⦃p : PostgresTypes⦄
    (accepts : (es : List Event) (e : Event) → s.refuses es e ≡ none) where
  Emits-send_response : (r : Reply) → Emits (send_response (to_response r)) tt (reply_events r)
  unfolding send_response send_query_response send_execution_response
  Emits-send_response (rows schema given) = Emits-then _ _ tt tt (Emits-send accepts _) (
      Emits-bind (send_rows 0 (map ok given)) _ (length given) tt
        (Emits-send_all_rows accepts given) (Emits-select accepts (length given)))
  Emits-send_response (tagged tag) = Emits-send accepts _
  Emits-send_response (refused e) = Emits-feed accepts _

  Emits-responses :
      (rs : List Reply)
      → Emits (for_each send_response (map to_response rs)) tt (flat_events reply_events rs)
  unfolding for_each
  Emits-responses [] = Emits-pure tt
  Emits-responses (r ∷ rs) =
      Emits-then (send_response (to_response r)) (for_each send_response (map to_response rs)) tt tt
        (Emits-send_response r) (Emits-responses rs)

  -- The end of the handler, from the messages of the answer on.
  finished :
      (es : List Event) (q : Query) (h : SimpleQueryHandler) (c : Client)
      → run_query h q.query (record c { state = query_in_progress })
        ≡ done tt (after (record c { state = query_in_progress }) es)
      → on_query h q c
        ≡ done tt
            (record (after c (es ++ (fed idle ∷ flushed ∷ []))) { state = Client.ready_for_query })
  unfolding on_query set_state ◌>>◌
  finished es q h c answered =
      let c1 : Client = record c { state = query_in_progress } in
      bind-done (run_query h q.query) _ c1 tt (after c1 es) answered
      ∙ bind-done (feed idle) _ (after c1 es) tt _ ((Emits-feed accepts idle).at (after c1 es))
      ∙ bind-done flush _ _ tt _ ((Emits-flush accepts).at (after (after c1 es) (fed idle ∷ [])))
      ∙ ap (λ gs. done tt (record c { state = Client.ready_for_query; events = gs }))
          (append_assoc (c.events ++ es) (fed idle ∷ []) (flushed ∷ [])
            ∙ append_assoc c.events es (fed idle ∷ flushed ∷ []))

  -- A query that is not empty is answered by the messages of each response in their order, then
  -- ReadyForQuery and a flush, and the client is ready for the next query. do_query, which sees
  -- the client with a query in progress, gives responses whose rows can all be produced, and the
  -- sink accepts everything.
  pub on_query-answers :
      (h : SimpleQueryHandler) (c : Client) (first : ℕ) (text : Bytes) (rs : List Reply)
      → h.do_query (record c { state = query_in_progress }) (first ∷ text) ≡ ok (map to_response rs)
      → on_query h (record { query = first ∷ text }) c
        ≡ done tt (record (after c (flat_events reply_events rs ++ (fed idle ∷ flushed ∷ []))) {
          state = Client.ready_for_query;
        })
  unfolding run_query answer_query lift pure
  on_query-answers h c first text rs e =
      finished (flat_events reply_events rs) (record { query = first ∷ text }) h c
        (bind-done (λ c0. lift (h.do_query c0 (first ∷ text)) c0) (for_each send_response)
            (record c { state = query_in_progress }) (map to_response rs)
            (record c { state = query_in_progress }) (rw (e, lift))
          ∙ (Emits-responses rs).at (record c { state = query_in_progress }))

  -- An empty query is answered by EmptyQueryResponse and ReadyForQuery, and the client is ready
  -- for the next query. The sink accepts everything.
  pub on_query-empty :
      (h : SimpleQueryHandler) (c : Client)
      → on_query h (record { query = [] }) c
        ≡ done tt
            (record (after c (fed (empty_query_response (record {})) ∷ fed idle ∷ flushed ∷ [])) {
              state = Client.ready_for_query;
            })
  unfolding run_query
  on_query-empty h c =
      finished (fed (empty_query_response (record {})) ∷ []) (record { query = [] }) h c
        ((Emits-feed accepts (empty_query_response (record {}))).at
          (record c { state = query_in_progress }))

module _ ⦃s : Sink⦄ ⦃p : PostgresTypes⦄ where
  -- Where do_query fails on a query that is not empty, nothing is sent, the error is passed on and
  -- the client is left with a query in progress.
  pub on_query-fails :
      (h : SimpleQueryHandler) (c : Client) (first : ℕ) (text : Bytes) (e : PgWireError)
      → h.do_query (record c { state = query_in_progress }) (first ∷ text) ≡ err e
      → on_query h (record { query = first ∷ text }) c
        ≡ failed e (record c { state = query_in_progress })
  unfolding on_query run_query answer_query lift raise set_state ◌>>◌
  on_query-fails h c first text e gone =
      let c1 : Client = record c { state = query_in_progress } in
      bind-failed (run_query h (first ∷ text)) _ c1 e c1 (
        bind-failed (λ c0. lift (h.do_query c0 (first ∷ text)) c0) (for_each send_response) c1 e c1
          (rw (gone, lift)))
