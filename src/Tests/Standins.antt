-- ===== src/Tests/Standins.antt =====
-- What the runs put in the place of code that is not part of the library.
use pgwire.Base.{ℕ, none, some, []}
use pgwire.Api.Client.{Sink}
use pgwire.Api.Statements.{PostgresTypes}

-- A sink that accepts everything.
instance abbrev pub open_sink : Sink
open_sink = record { refuses = λ _ _. none }

-- Types that are their oid.
instance abbrev pub numbered : PostgresTypes
numbered = record { PgType = ℕ; from_oid = some; oid = λ t. t; name = λ _. [] }
