-- ===== src/Api/Statements.antt =====
-- api/stmt.rs. The types of the crate `postgres_types` and the parser of the server are not part of
-- the library.
use pgwire.Base.{ℕ, Option, none, some, List, [], ◌∷◌, Bytes}
use pgwire.Errors.{PgWireError, unknown_type_id}
use pgwire.Messages.ExtendedQuery.{Parse}
use pgwire.Api.Client.{or_default}

-- A `Result<A, PgWireError>`.
pub data PgWireResult (A : Type 0) : Type 0 where
  ok : A → PgWireResult A
  err : PgWireError → PgWireResult A

-- `postgres_types::Type`
pub record PostgresTypes : Type 1 where
  pub PgType : Type 0
  pub from_oid : ℕ → Option PgType
  pub oid : PgType → ℕ
  pub name : PgType → Bytes

module _ ⦃p : PostgresTypes⦄ where
  pub record StoredStatement (S : Type 0) : Type 0 where
    pub id : Bytes
    pub statement : S
    pub parameter_types : List p.PgType

  -- The trait `QueryParser`.
  pub record QueryParser (S : Type 0) : Type 0 where
    pub parse_sql : Bytes → List p.PgType → PgWireResult S

  -- `Type::from_oid(*oid).ok_or_else(|| PgWireError::UnknownTypeId(*oid))`
  unfoldable pub type_of_oid : ℕ → PgWireResult p.PgType
  type_of_oid n = elim (p.from_oid n) [ none ↦ err (unknown_type_id n) | some t ↦ ok t ]

  unfoldable pub cons_result :
      {A : Type 0} → PgWireResult A → PgWireResult (List A) → PgWireResult (List A)
  cons_result (err e) rest = err e
  cons_result (ok a) (err e) = err e
  cons_result (ok a) (ok rest) = ok (a ∷ rest)

  -- `collect::<PgWireResult<Vec<Type>>>()` stops at the first error.
  unfoldable pub types_of_oids : List ℕ → PgWireResult (List p.PgType)
  unfolding type_of_oid cons_result
  types_of_oids [] = ok []
  types_of_oids (n ∷ ns) = cons_result (type_of_oid n) (types_of_oids ns)

  unfoldable pub parse_statement :
      {S : Type 0} → Parse → QueryParser S → PgWireResult (StoredStatement S)
  parse_statement m parser = elim (types_of_oids m.type_oids) [
    | err e ↦ err e
    | ok types ↦ elim (parser.parse_sql m.query types) [
      | err e ↦ err e
      | ok s ↦ ok (record { id = or_default m.name; statement = s; parameter_types = types })
    ]
  ]

  -- `NoopQueryParser`: the statement is the query string.
  unfoldable pub noop_query_parser : QueryParser Bytes
  noop_query_parser = record { parse_sql = λ sql _. ok sql }
