-- ===== src/Api/Query/Extended.antt =====
-- What the messages of the extended query do to the client and to the store.
use pgwire.Base.{
  ◌≡◌, sym, ap, ◌∙◌, Option, none, some, List, [], ◌∷◌, ◌++◌, map, length, i32_as_usize,
}
use pgwire.Errors.{PgWireError, statement_not_found}
use pgwire.Messages.Data.{DataRow}
use pgwire.Messages.ExtendedQuery.{Parse, Close, Bind, Execute, target_type_byte_statement}
use pgwire.Messages.Backend.{parse_complete, bind_complete, close_complete}
use pgwire.Api.Step.{done, failed, Step, ◌>>◌, pure, raise, bind-done}
use pgwire.Api.Client.{Client, Event, Sink, send, or_default}
use pgwire.Api.Statements.{PgWireResult, ok, err, PostgresTypes, StoredStatement, parse_statement}
use pgwire.Api.Portals.{Portal, portal_of, try_new}
use pgwire.Api.Store.{
  MemPortalStore, put_statement, rm_statement, get_statement, put_portal, get_portal,
}
use pgwire.Api.Store.Laws.{get_statement-put, get_portal-put, get_statement-rm}
use pgwire.Api.Query.Emits.{Emits-select, select_events}
use pgwire.Api.Results.{FieldInfo, query}
use pgwire.Api.Query.{
  lift, idle, send_rows, send_query_response, ExtendedQueryHandler, Session, on_client, on_store,
  on_parse, bind_found, on_bind, send_execute_response, execute_found, on_execute, close_target,
  on_close,
}
use pgwire.Api.Query.Emits.{
  after, after-nil, after-append, Emits, Fails, Emits-pure, Emits-bind, Emits-then, Fails-bind,
  Fails-first, sent, row_events, Emits-send, Emits-send_all_rows, Fails-send_rows,
}

-- The rows, their number and `ReadyForQuery`.
abbrev pub execute_events : List DataRow → List Event
execute_events rows = (row_events rows ++ select_events (length rows)) ++ sent idle

Emits-answers :
    {A : Type 0} (m : Step Client A) (a : A) → ((c : Client) → m c ≡ done a c) → Emits m a []
Emits-answers m a h = record { at = λ c. h c ∙ ap (done a) (sym (after-nil c)) }

closes_statement :
    ⦃p : PostgresTypes⦄ {S : Type 0} (m : Close) (t : MemPortalStore S)
    → m.target_type ≡ target_type_byte_statement
    → close_target m t ≡ rm_statement (or_default m.name) t
unfolding close_target
closes_statement m t h = rw (h, close_target)

module _ ⦃s : Sink⦄ ⦃p : PostgresTypes⦄ {S : Type 0} where
  on_client-Emits :
      {A : Type 0} (m : Step Client A) (a : A) (es : List Event) (w : Session S)
      → Emits m a es
      → on_client m w ≡ done a (record w { client = after w.client es })
  unfolding on_client
  on_client-Emits m a es w h = rw (h.at w.client, on_client)

  on_client-Fails :
      {A : Type 0} (m : Step Client A) (e : PgWireError) (es : List Event) (w : Session S)
      → Fails m e es
      → on_client m w ≡ failed e (record w { client = after w.client es })
  unfolding on_client
  on_client-Fails m e es w h = rw (h.at w.client, on_client)

module _ ⦃s : Sink⦄ ⦃p : PostgresTypes⦄ {S : Type 0}
    (accepts : (es : List Event) (e : Event) → s.refuses es e ≡ none) where
  parse-done :
      (h : ExtendedQueryHandler S) (m : Parse) (stmt : StoredStatement S) (w : Session S)
      → parse_statement m h.query_parser ≡ ok stmt
      → on_parse h m w
        ≡ done tt (record {
          client = after w.client (sent (parse_complete (record {})));
          store = put_statement stmt w.store;
        })
  unfolding on_parse lift pure on_store ◌>>◌
  parse-done h m stmt w parsed =
      bind-done (lift (parse_statement m h.query_parser)) _ w stmt w (rw (parsed, lift))
      ∙ on_client-Emits (send (parse_complete (record {}))) tt _
          (record w { store = put_statement stmt w.store })
          (Emits-send accepts (parse_complete (record {})))

  bind-stored :
      (m : Bind) (stmt : StoredStatement S) (w : Session S)
      → get_statement (or_default m.statement_name) w.store ≡ some stmt
      → on_bind m w
        ≡ done tt (record {
          client = after w.client (sent (bind_complete (record {})));
          store = put_portal (portal_of m stmt) w.store;
        })
  unfolding on_bind bind_found try_new lift pure on_store ◌>>◌
  bind-stored m stmt w found =
      ap (λ (o : Option (StoredStatement S)). bind_found m o w) found
      ∙ on_client-Emits (send (bind_complete (record {}))) tt _
          (record w { store = put_portal (portal_of m stmt) w.store })
          (Emits-send accepts (bind_complete (record {})))

  execute-rows :
      (h : ExtendedQueryHandler S) (x : Execute) (portal : Portal S) (schema : List FieldInfo)
      (rows : List DataRow) (w : Session S)
      → get_portal (or_default x.name) w.store ≡ some portal
      → ((c : Client)
          → h.do_query portal (i32_as_usize x.max_rows) c
            ≡ done (query (record { row_schema = schema; data_rows = map ok rows })) c)
      → on_execute h x w ≡ done tt (record w { client = after w.client (execute_events rows) })
  unfolding on_execute execute_found send_execute_response send_query_response
  execute-rows h x portal schema rows w found answers =
      ap (λ (o : Option (Portal S)). on_client (execute_found h x o) w) found
      ∙ on_client-Emits (execute_found h x (some portal)) tt (execute_events rows) w (
          Emits-bind (h.do_query portal (i32_as_usize x.max_rows)) _ _ tt
            (Emits-answers _ _ answers)
            (Emits-then _ (send idle) tt tt
              (Emits-then _ _ tt tt (Emits-pure tt) (
                Emits-bind (send_rows 0 (map ok rows)) _ (length rows) tt
                  (Emits-send_all_rows accepts rows) (Emits-select accepts (length rows))))
              (Emits-send accepts idle)))

  -- Where a row of an executed portal cannot be produced, the rows before it are sent and the
  -- error is passed on, with no CommandComplete and no ReadyForQuery. do_query leaves the client
  -- alone and the sink accepts everything.
  pub execute-row_error :
      (h : ExtendedQueryHandler S) (x : Execute) (portal : Portal S) (schema : List FieldInfo)
      (rows : List DataRow) (e : PgWireError) (rest : List (PgWireResult DataRow)) (w : Session S)
      → get_portal (or_default x.name) w.store ≡ some portal
      → ((c : Client)
          → h.do_query portal (i32_as_usize x.max_rows) c
            ≡ done
                (query (record { row_schema = schema; data_rows = map ok rows ++ err e ∷ rest }))
                c)
      → on_execute h x w ≡ failed e (record w { client = after w.client (row_events rows) })
  unfolding on_execute execute_found send_execute_response send_query_response ◌>>◌
  execute-row_error h x portal schema rows e rest w found answers =
      ap (λ (o : Option (Portal S)). on_client (execute_found h x o) w) found
      ∙ on_client-Fails (execute_found h x (some portal)) e (row_events rows) w (
          Fails-bind (h.do_query portal (i32_as_usize x.max_rows)) _ _ e (Emits-answers _ _ answers)
            (Fails-first _ _ e (
              Fails-bind (pure tt) _ tt e (Emits-pure tt) (
                Fails-first (send_rows 0 (map ok rows ++ err e ∷ rest)) _ e
                  (Fails-send_rows accepts 0 rows e rest)))))

  -- Parse, Bind and Execute with names that agree, or with none, are answered by ParseComplete, by
  -- BindComplete and by the rows of do_query with their number and ReadyForQuery, and the store
  -- then holds the statement and the portal. The parser accepts the query, do_query answers the
  -- portal with rows that can all be produced and leaves the client alone, and the sink accepts
  -- everything.
  pub execute-bind-parse :
      (h : ExtendedQueryHandler S) (m : Parse) (b : Bind) (x : Execute) (stmt : StoredStatement S)
      (schema : List FieldInfo) (rows : List DataRow) (w : Session S)
      → parse_statement m h.query_parser ≡ ok stmt
      → or_default b.statement_name ≡ stmt.id
      → or_default x.name ≡ or_default b.portal_name
      → ((c : Client)
          → h.do_query (portal_of b stmt) (i32_as_usize x.max_rows) c
            ≡ done (query (record { row_schema = schema; data_rows = map ok rows })) c)
      → (do on_parse h m; on_bind b; on_execute h x) w
        ≡ done tt (record {
          client = after w.client (
              sent (parse_complete (record {}))
              ++ (sent (bind_complete (record {})) ++ execute_events rows));
          store = put_portal (portal_of b stmt) (put_statement stmt w.store);
        })
  unfolding ◌>>◌
  execute-bind-parse h m b x stmt schema rows w parsed named bound answers =
      let w1 : Session S = record {
        client = after w.client (sent (parse_complete (record {})));
        store = put_statement stmt w.store;
      } in
      let w2 : Session S = record {
        client = after w1.client (sent (bind_complete (record {})));
        store = put_portal (portal_of b stmt) w1.store;
      } in
      bind-done (on_parse h m) _ w tt w1 (parse-done h m stmt w parsed)
      ∙ bind-done (on_bind b) _ w1 tt w2 (
          bind-stored b stmt w1
            (ap (λ n. get_statement n w1.store) named ∙ get_statement-put stmt w.store))
      ∙ execute-rows h x (portal_of b stmt) schema rows w2
          (ap (λ n. get_portal n w2.store) bound
            ∙ unfold portal_of in get_portal-put (portal_of b stmt) w1.store)
          answers
      ∙ ap (λ (c : Client). done tt (record w2 { client = c }))
          (after-append w1.client (sent (bind_complete (record {}))) _
            ∙ after-append w.client (sent (parse_complete (record {}))) _)

  closed :
      (m : Close) (w : Session S)
      → m.target_type ≡ target_type_byte_statement
      → on_close m w
        ≡ done tt (record {
          client = after (after w.client (sent (close_complete (record {})))) (sent idle);
          store = rm_statement (or_default m.name) w.store;
        })
  unfolding on_close on_store ◌>>◌
  closed m w closes =
      let w1 : Session S = record w { store = close_target m w.store } in
      let w2 : Session S = record w1 {
        client = after w1.client (sent (close_complete (record {})));
      } in
      bind-done (on_client (send (close_complete (record {})))) _ w1 tt w2 (
        on_client-Emits (send (close_complete (record {}))) tt _ w1
          (Emits-send accepts (close_complete (record {}))))
      ∙ on_client-Emits (send idle) tt _ w2 (Emits-send accepts idle)
      ∙ ap (λ t. done tt (record w2 { client = after w2.client (sent idle); store = t }))
          (closes_statement m w.store closes)

  -- Close of a statement is answered by CloseComplete and ReadyForQuery, whether or not the
  -- statement was there, and a later Bind of its name is StatementNotFound and changes nothing
  -- more. The sink accepts everything.
  pub bind-close :
      (m : Close) (b : Bind) (w : Session S)
      → m.target_type ≡ target_type_byte_statement
      → or_default b.statement_name ≡ or_default m.name
      → (do on_close m; on_bind b) w
        ≡ failed (statement_not_found (or_default b.statement_name)) (record {
          client = after w.client (sent (close_complete (record {})) ++ sent idle);
          store = rm_statement (or_default m.name) w.store;
        })
  unfolding on_bind bind_found raise ◌>>◌
  bind-close m b w closes same =
      let w1 : Session S = record w { store = rm_statement (or_default m.name) w.store } in
      let w2 : Session S = record w1 {
        client = after w1.client (sent (close_complete (record {})));
      } in
      let w3 : Session S = record w2 { client = after w2.client (sent idle) } in
      bind-done (on_close m) _ w tt w3 (closed m w closes)
      ∙ ap (λ (o : Option (StoredStatement S)). bind_found b o w3)
          (ap (λ n. get_statement n w1.store) same ∙ get_statement-rm (or_default m.name) w.store)
      ∙ ap
          (λ (c : Client).
            failed (statement_not_found (or_default b.statement_name)) (record w1 { client = c }))
          (after-append w.client (sent (close_complete (record {}))) (sent idle))
