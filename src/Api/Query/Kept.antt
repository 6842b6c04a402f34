-- ===== src/Api/Query/Kept.antt =====
-- Predicates on the state of a connection that hold while a query is in progress and when it is
-- ready: the query handlers preserve them, if what the server's author writes does.
use pgwire.Base.{
  ℕ, ◌+◌, ◌≡◌, refl, ◌==◌, Bool, true, false, Bool-cases, inl, inr, Option, none, some, List, [],
  ◌∷◌, Bytes,
}
use pgwire.Messages.Response.{Query}
use pgwire.Messages.Data.{DataRow}
use pgwire.Messages.ExtendedQuery.{
  Parse, Close, Bind, Describe, Execute, target_type_byte_statement, target_type_byte_portal,
}
use pgwire.Messages.Units.{Sync}
use pgwire.Api.Step.{Outcome, done, failed, panicked, Step, raise}
use pgwire.Api.Client.{
  Client, PgWireConnectionState, ready_for_query, query_in_progress, Sink, or_default,
}
use pgwire.Api.Statements.{PgWireResult, ok, err, PostgresTypes, StoredStatement, parse_statement}
use pgwire.Api.Portals.{Portal, try_new}
use pgwire.Api.Store.{MemPortalStore, get_statement, get_portal}
use pgwire.Api.Results.{QueryResponse, Response, query, execution, error}
use pgwire.Api.Preserved.{
  Ends, Preserves, OfClient, Preserves-bind, Preserves-then, Preserves-pure, Preserves-raise,
  Preserves-lift, Preserves-for_each, Preserves-set_state, Preserves-feed, Preserves-flush,
  Preserves-send,
}
use pgwire.Api.Query.{
  SimpleQueryHandler, StatementOrPortal, ExtendedQueryHandler, Session, on_client, on_store,
  send_rows, send_execution_response, send_query_response, send_response, answer_query, run_query,
  on_query, send_execute_response, send_parameters, on_parse, bind_found, on_bind, execute_found,
  on_execute, describe_statement, describe_portal, on_describe, on_sync, on_close,
}

module _ (P : PgWireConnectionState → Type 0) where
  abbrev pub OfSession : ⦃p : PostgresTypes⦄ {S : Type 0} → Session S → Type 0
  OfSession w = P w.client.state

  module _ ⦃p : PostgresTypes⦄ {S : Type 0} where
    -- What the author of a server writes preserves the predicate.
    pub record Author (h : ExtendedQueryHandler S) : Type 0 where
      pub describes : (t : StatementOrPortal S) → Preserves (OfClient P) (h.do_describe t)
      pub queries :
          (found : Portal S) (max_rows : ℕ) → Preserves (OfClient P) (h.do_query found max_rows)

    on_outcome :
        {A : Type 0} (m : Step Client A) (w : Session S) (o : Outcome Client A)
        → m w.client ≡ o
        → Ends (OfClient P) o
        → Ends (OfSession {S = S}) (on_client m w)
    unfolding on_client
    on_outcome m w (done a c) e h = rw (e, on_client) h
    on_outcome m w (failed x c) e h = rw (e, on_client) h
    on_outcome m w panicked e h = rw (e, on_client) tt

    pub Preserves-on_client :
        {A : Type 0} (m : Step Client A)
        → Preserves (OfClient P) m
        → Preserves (OfSession {S = S}) (on_client m)
    Preserves-on_client m h = record {
      at = λ w u. on_outcome m w (m w.client) refl (h.at w.client u);
    }

    Preserves-on_store :
        (f : MemPortalStore S → MemPortalStore S) → Preserves (OfSession {S = S}) (on_store f)
    unfolding on_store
    Preserves-on_store f = record { at = λ w u. u }

  module _ ⦃s : Sink⦄ where
    Preserves-send_rows :
        (n : ℕ) (rows : List (PgWireResult DataRow)) → Preserves (OfClient P) (send_rows n rows)
    unfolding send_rows
    Preserves-send_rows n [] = Preserves-pure (OfClient P) n
    Preserves-send_rows n (err e ∷ rest) = Preserves-raise (OfClient P) e
    Preserves-send_rows n (ok row ∷ rest) =
        Preserves-then (OfClient P) _ _ (Preserves-send P _) (Preserves-send_rows (n + 1) rest)

    module _ ⦃p : PostgresTypes⦄ where
      Preserves-send_query_response :
          (results : QueryResponse) (send_describe : Bool)
          → Preserves (OfClient P) (send_query_response results send_describe)
      unfolding send_query_response
      Preserves-send_query_response results true =
          Preserves-then (OfClient P) _ _ (Preserves-send P _) (
            Preserves-bind (OfClient P) _ _ (Preserves-send_rows 0 results.data_rows)
              (λ n. Preserves-send P _))
      Preserves-send_query_response results false =
          Preserves-then (OfClient P) _ _ (Preserves-pure (OfClient P) tt) (
            Preserves-bind (OfClient P) _ _ (Preserves-send_rows 0 results.data_rows)
              (λ n. Preserves-send P _))

      Preserves-send_response : (resp : Response) → Preserves (OfClient P) (send_response resp)
      unfolding send_response send_execution_response
      Preserves-send_response (query results) = Preserves-send_query_response results true
      Preserves-send_response (execution tag) = Preserves-send P _
      Preserves-send_response (error e) = Preserves-feed P _

      Preserves-send_execute_response :
          (resp : Response) → Preserves (OfClient P) (send_execute_response resp)
      unfolding send_execute_response send_execution_response
      Preserves-send_execute_response (query results) = Preserves-send_query_response results false
      Preserves-send_execute_response (execution tag) = Preserves-send P _
      Preserves-send_execute_response (error e) = Preserves-send P _

      Preserves-run_query :
          (h : SimpleQueryHandler) (text : Bytes) → Preserves (OfClient P) (run_query h text)
      unfolding run_query answer_query
      Preserves-run_query h [] = Preserves-feed P _
      Preserves-run_query h (b ∷ text) =
          Preserves-bind (OfClient P) _ _
            (record { at = λ c u. (Preserves-lift (OfClient P) (h.do_query c (b ∷ text))).at c u })
            (λ resp. Preserves-for_each (OfClient P) _ resp Preserves-send_response)

      -- The simple protocol.
      pub Preserves-on_query :
          (h : SimpleQueryHandler) (q : Query)
          → P query_in_progress
          → P ready_for_query
          → Preserves (OfClient P) (on_query h q)
      unfolding on_query
      Preserves-on_query h q working ready =
          Preserves-then (OfClient P) _ _ (Preserves-set_state P query_in_progress working) (
            Preserves-then (OfClient P) _ _ (Preserves-run_query h q.query) (
              Preserves-then (OfClient P) _ _ (Preserves-feed P _) (
                Preserves-then (OfClient P) _ _ (Preserves-flush P)
                  (Preserves-set_state P ready_for_query ready))))

      Preserves-send_parameters :
          (types : Option (List p.PgType)) → Preserves (OfClient P) (send_parameters types)
      unfolding send_parameters
      Preserves-send_parameters none = Preserves-pure (OfClient P) tt
      Preserves-send_parameters (some types) = Preserves-send P _

      -- The extended protocol.
      module _ {S : Type 0} (h : ExtendedQueryHandler S) (author : Author h) where
        pub Preserves-on_parse : (m : Parse) → Preserves OfSession (on_parse h m)
        unfolding on_parse
        Preserves-on_parse m =
            Preserves-bind OfSession _ _
              (Preserves-lift OfSession (parse_statement m h.query_parser))
              (λ stmt.
                Preserves-then OfSession _ _ (Preserves-on_store _)
                  (Preserves-on_client _ (Preserves-send P _)))

        Preserves-bind_found :
            (m : Bind) (found : Option (StoredStatement S))
            → Preserves OfSession (bind_found m found)
        unfolding bind_found
        Preserves-bind_found m none = Preserves-raise OfSession _
        Preserves-bind_found m (some stmt) =
            Preserves-bind OfSession _ _ (Preserves-lift OfSession (try_new m stmt)) (λ bound.
              Preserves-then OfSession _ _ (Preserves-on_store _)
                (Preserves-on_client _ (Preserves-send P _)))

        pub Preserves-on_bind : (m : Bind) → Preserves OfSession (on_bind {S = S} m)
        unfolding on_bind
        Preserves-on_bind m = record { at = λ w u. (Preserves-bind_found m _).at w u }

        Preserves-execute_found :
            (m : Execute) (found : Option (Portal S))
            → Preserves (OfClient P) (execute_found h m found)
        unfolding execute_found
        Preserves-execute_found m none = Preserves-raise (OfClient P) _
        Preserves-execute_found m (some found) =
            Preserves-bind (OfClient P) _ _ (author.queries found _) (λ resp.
              Preserves-then (OfClient P) _ _ (Preserves-send_execute_response resp)
                (Preserves-send P _))

        pub Preserves-on_execute : (m : Execute) → Preserves OfSession (on_execute h m)
        unfolding on_execute
        Preserves-on_execute m = record {
          at = λ w u.
              (Preserves-on_client _
                  (Preserves-execute_found m (get_portal (or_default m.name) w.store))).at
                w u;
        }

        Preserves-describe_statement :
            (m : Describe) (found : Option (StoredStatement S))
            → Preserves (OfClient P) (describe_statement h m found)
        unfolding describe_statement
        Preserves-describe_statement m none = Preserves-raise (OfClient P) _
        Preserves-describe_statement m (some stmt) =
            Preserves-bind (OfClient P) _ _ (author.describes _) (λ response.
              Preserves-then (OfClient P) _ _ (Preserves-send_parameters response.parameters)
                (Preserves-then (OfClient P) _ _ (Preserves-send P _) (Preserves-send P _)))

        Preserves-describe_portal :
            (m : Describe) (found : Option (Portal S))
            → Preserves (OfClient P) (describe_portal h m found)
        unfolding describe_portal
        Preserves-describe_portal m none = Preserves-raise (OfClient P) _
        Preserves-describe_portal m (some found) =
            Preserves-bind (OfClient P) _ _ (author.describes _) (λ response. Preserves-send P _)

        pub Preserves-on_describe : (m : Describe) → Preserves OfSession (on_describe h m)
        unfolding on_describe raise
        Preserves-on_describe m = record {
          at = λ w u. elim (Bool-cases (m.target_type == target_type_byte_statement)) [
            | inl statement ↦ rw (statement) (
                (Preserves-on_client _
                    (Preserves-describe_statement m (get_statement (or_default m.name) w.store))).at
                  w u)
            | inr other ↦ rw (other) (elim (Bool-cases (m.target_type == target_type_byte_portal)) [
              | inl portal ↦ rw (portal) (
                  (Preserves-on_client _
                      (Preserves-describe_portal m (get_portal (or_default m.name) w.store))).at
                    w u)
              | inr neither ↦ rw (neither) u
            ])
          ];
        }

        pub Preserves-on_sync : (m : Sync) → Preserves OfSession (on_sync {S = S} m)
        unfolding on_sync
        Preserves-on_sync m = Preserves-on_client _ (Preserves-flush P)

        pub Preserves-on_close : (m : Close) → Preserves OfSession (on_close {S = S} m)
        unfolding on_close
        Preserves-on_close m = Preserves-then OfSession _ _ (Preserves-on_store _) (
            Preserves-then OfSession _ _ (Preserves-on_client _ (Preserves-send P _))
              (Preserves-on_client _ (Preserves-send P _)))
