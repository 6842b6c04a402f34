-- ===== src/Api/Store.antt =====
-- api/store.rs: `MemPortalStore`, two ordered maps from names. A map is the list of its entries in
-- the order of the keys.
pub mod Laws
use Prim.Native.Nat.{Ordering}
use pgwire.Base.{ℕ, ◌≡◌, Option, none, some, List, [], ◌∷◌, Bytes}
use pgwire.Messages.Startup.Params.{compare_bytes, insert}
use pgwire.Api.Statements.{PostgresTypes, StoredStatement}
use pgwire.Api.Portals.{Portal}

-- `BTreeMap::get`
unfoldable pub get : {V : Type 0} → Bytes → List (Bytes × V) → Option V
get k [] = none
get k ((j, w) ∷ m) = elim (compare_bytes k j) [ Ordering.eq ↦ some w | _ ↦ get k m ]

-- `BTreeMap::remove`
unfoldable pub remove : {V : Type 0} → Bytes → List (Bytes × V) → List (Bytes × V)
remove k [] = []
remove k ((j, w) ∷ m) = elim (compare_bytes k j) [
  | Ordering.eq ↦ remove k m
  | _ ↦ (j, w) ∷ remove k m
]

module _ ⦃p : PostgresTypes⦄ where
  pub record MemPortalStore (S : Type 0) : Type 0 where
    pub statements : List (Bytes × StoredStatement S)
    pub portals : List (Bytes × Portal S)

  module _ {S : Type 0} where
    unfoldable pub new_store : MemPortalStore S
    new_store = record { statements = []; portals = [] }

    unfoldable pub put_statement : StoredStatement S → MemPortalStore S → MemPortalStore S
    put_statement statement s = record s { statements = insert statement.id statement s.statements }

    unfoldable pub rm_statement : Bytes → MemPortalStore S → MemPortalStore S
    rm_statement name s = record s { statements = remove name s.statements }

    unfoldable pub get_statement : Bytes → MemPortalStore S → Option (StoredStatement S)
    get_statement name s = get name s.statements

    unfoldable pub put_portal : Portal S → MemPortalStore S → MemPortalStore S
    put_portal portal s = record s { portals = insert portal.name portal s.portals }

    unfoldable pub rm_portal : Bytes → MemPortalStore S → MemPortalStore S
    rm_portal name s = record s { portals = remove name s.portals }

    unfoldable pub get_portal : Bytes → MemPortalStore S → Option (Portal S)
    get_portal name s = get name s.portals
