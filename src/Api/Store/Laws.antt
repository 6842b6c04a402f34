-- ===== src/Api/Store/Laws.antt =====
-- The store against its abstract view: a function from names to what they stand for.
use Prim.Native.Nat.{Ordering}
use std.Path.{fun_ext}
use pgwire.Base.{
  ◌≡◌, ◌≢◌, refl, sym, ap, ◌∙◌, Bool, true, false, Option, none, some, List, [], ◌∷◌, Bytes,
  if◌then◌else◌, arith,
}
use pgwire.Messages.Startup.Params.{compare_bytes, insert}
use pgwire.Api.Statements.{PostgresTypes, StoredStatement}
use pgwire.Api.Portals.{Portal}
use pgwire.Api.Store.{
  get, remove, MemPortalStore, new_store, put_statement, rm_statement, get_statement, put_portal,
  rm_portal, get_portal,
}

-- Equality of names, as a map compares keys.
abbrev pub same_name : Bytes → Bytes → Bool
same_name k j = elim (compare_bytes k j) [ Ordering.eq ↦ true | _ ↦ false ]

compare_bytes-eq : (a b : Bytes) → compare_bytes a b ≡ Ordering.eq → a ≡ b
unfolding compare_bytes
compare_bytes-eq [] [] h = refl
compare_bytes-eq [] (b ∷ bs) h = ground arith
compare_bytes-eq (a ∷ as') [] h = ground arith
compare_bytes-eq (a ∷ as') (b ∷ bs) h = ground (arith, compare_bytes-eq as' bs)

compare_bytes_refl : (a : Bytes) → compare_bytes a a ≡ Ordering.eq
unfolding compare_bytes
compare_bytes_refl [] = refl
compare_bytes_refl (a ∷ as') = ground (arith, compare_bytes_refl as')

pub same_name_refl : (a : Bytes) → same_name a a ≡ true
same_name_refl a = rw (compare_bytes_refl a, same_name)

differs : (a b : Bytes) (o : Ordering) → compare_bytes a b ≡ o → o ≢ Ordering.eq → a ≢ b
differs a b o h ne e =
    ne (sym h ∙ ap (λ (t : Bytes). compare_bytes a t) (sym e) ∙ compare_bytes_refl a)

-- Two names are the same, and compare as such, or they do not.
data SameName (a b : Bytes) : Type 0 where
  same : a ≡ b → same_name a b ≡ true → SameName a b
  other : a ≢ b → same_name a b ≡ false → SameName a b

same_or_other : (a b : Bytes) (o : Ordering) → compare_bytes a b ≡ o → SameName a b
same_or_other a b Ordering.lt h =
    other (λ e. differs a b Ordering.lt h (λ k. ground arith) e) (rw (h, same_name))
same_or_other a b Ordering.eq h = same (compare_bytes-eq a b h) (rw (h, same_name))
same_or_other a b Ordering.gt h =
    other (λ e. differs a b Ordering.gt h (λ k. ground arith) e) (rw (h, same_name))

get-cons :
    {V : Type 0} (k j : Bytes) (w : V) (m : List (Bytes × V))
    → get k ((j, w) ∷ m) ≡ (if same_name k j then some w else get k m)
unfolding get
get-cons k j w m = ground arith

true-false : true ≢ false
true-false h = ground arith

pub same_name-ne : (a b : Bytes) → a ≢ b → same_name a b ≡ false
same_name-ne a b ne = elim (same_or_other a b (compare_bytes a b) refl) [
  | same e h ↦ absurd (ne e)
  | other _ h ↦ h
]

pub same_name-true : (a b : Bytes) → same_name a b ≡ true → a ≡ b
same_name-true a b h = elim (same_or_other a b (compare_bytes a b) refl) [
  | same e _ ↦ e
  | other _ k ↦ absurd (true-false (sym h ∙ k))
]

-- Where `j` and `i` differ, a name that is `i` is not `j`.
same_name-apart : (k j i : Bytes) → j ≢ i → same_name k i ≡ true → same_name k j ≡ false
same_name-apart k j i ne h = same_name-ne k j (λ e. ne (sym e ∙ same_name-true k i h))

-- An entry in front that the other side of a test does not see.
choose-commutes :
    {V : Type 0} (a b : Bool) (v w o : Option V)
    → (a ≡ true → b ≡ false)
    → (if a then w else (if b then v else o)) ≡ (if b then v else (if a then w else o))
choose-commutes true true v w o h = absurd (true-false (h refl))
choose-commutes true false v w o h = refl
choose-commutes false b v w o h = refl

choose-covers :
    {V : Type 0} (a : Bool) (v w o : Option V)
    → (if a then v else o) ≡ (if a then v else (if a then w else o))
choose-covers true v w o = refl
choose-covers false v w o = refl

get-insert_at :
    {V : Type 0} (k j i : Bytes) (v w : V) (m : List (Bytes × V)) (o : Ordering)
    → compare_bytes j i ≡ o
    → get k (insert j v m) ≡ (if same_name k j then some v else get k m)
    → get k (insert j v ((i, w) ∷ m)) ≡ (if same_name k j then some v else get k ((i, w) ∷ m))
unfolding insert
get-insert_at k j i v w m Ordering.lt h ih = rw (h, insert) (get-cons k j v ((i, w) ∷ m))
get-insert_at k j i v w m Ordering.eq h ih =
    rw (h, insert)
      (get-cons k i v m
        ∙ rw (get-cons k i w m, compare_bytes-eq j i h)
            (choose-covers (same_name k i) (some v) (some w) (get k m)))
get-insert_at k j i v w m Ordering.gt h ih =
    rw (h, insert)
      (get-cons k i w (insert j v m)
        ∙ rw (get-cons k i w m, ih)
            (choose-commutes (same_name k i) (same_name k j) (some v) (some w) (get k m)
              (same_name-apart k j i (differs j i Ordering.gt h (λ e. ground arith)))))

get-insert :
    {V : Type 0} (k j : Bytes) (v : V) (m : List (Bytes × V))
    → get k (insert j v m) ≡ (if same_name k j then some v else get k m)
get-insert k j v [] = unfold insert in get-cons k j v []
get-insert k j v ((i, w) ∷ m) =
    get-insert_at k j i v w m (compare_bytes j i) refl (get-insert k j v m)

if-same : {V : Type 0} (a : Bool) → ◌≡◌ {A = Option V} none (if a then none else none)
if-same true = refl
if-same false = refl

get-remove_other :
    {V : Type 0} (k j i : Bytes) (w : V) (m : List (Bytes × V))
    → j ≢ i
    → get k (remove j m) ≡ (if same_name k j then none else get k m)
    → get k ((i, w) ∷ remove j m) ≡ (if same_name k j then none else get k ((i, w) ∷ m))
get-remove_other k j i w m ne ih =
    get-cons k i w (remove j m)
    ∙ rw (get-cons k i w m, ih)
        (choose-commutes (same_name k i) (same_name k j) none (some w) (get k m)
          (same_name-apart k j i ne))

get-remove_at :
    {V : Type 0} (k j i : Bytes) (w : V) (m : List (Bytes × V)) (o : Ordering)
    → compare_bytes j i ≡ o
    → get k (remove j m) ≡ (if same_name k j then none else get k m)
    → get k (remove j ((i, w) ∷ m)) ≡ (if same_name k j then none else get k ((i, w) ∷ m))
unfolding remove
get-remove_at k j i w m Ordering.lt h ih =
    rw (h, remove) (get-remove_other k j i w m (differs j i Ordering.lt h (λ e. ground arith)) ih)
get-remove_at k j i w m Ordering.eq h ih =
    rw (h, remove)
      (ih
        ∙ rw (get-cons k i w m, compare_bytes-eq j i h)
            (choose-covers (same_name k i) none (some w) (get k m)))
get-remove_at k j i w m Ordering.gt h ih =
    rw (h, remove) (get-remove_other k j i w m (differs j i Ordering.gt h (λ e. ground arith)) ih)

get-remove :
    {V : Type 0} (k j : Bytes) (m : List (Bytes × V))
    → get k (remove j m) ≡ (if same_name k j then none else get k m)
get-remove k j [] = unfold remove get in if-same (same_name k j)
get-remove k j ((i, w) ∷ m) = get-remove_at k j i w m (compare_bytes j i) refl (get-remove k j m)

-- The abstract view: what each name stands for.
abbrev pub View : Type 0 → Type 0
View V = Bytes → Option V

abbrev pub update : {V : Type 0} → Bytes → Option V → View V → View V
update j o names k = if same_name k j then o else names k

module _ ⦃p : PostgresTypes⦄ {S : Type 0} where
  abbrev pub view : MemPortalStore S → View (StoredStatement S) × View (Portal S)
  view s = (λ name. get_statement name s, λ name. get_portal name s)

  -- Seen as two functions from names, the store is empty when new; putting and removing a
  -- statement or a portal update one function at one name and leave the other function and all
  -- other names as they were.
  pub view-store :
      (statement : StoredStatement S) (portal : Portal S) (name : Bytes) (s : MemPortalStore S)
      → (view new_store ≡ (λ _. none, λ _. none))
        × (view (put_statement statement s)
            ≡ (update statement.id (some statement) (view s).0, (view s).1))
        × (view (rm_statement name s) ≡ (update name none (view s).0, (view s).1))
        × (view (put_portal portal s) ≡ ((view s).0, update portal.name (some portal) (view s).1))
        × (view (rm_portal name s) ≡ ((view s).0, update name none (view s).1))
  unfolding new_store put_statement rm_statement get_statement put_portal rm_portal get_portal get
  view-store statement portal name s = (
    refl,
    ap (λ (f : View (StoredStatement S)). (f, (view s).1))
        (fun_ext (λ k. get-insert k statement.id statement s.statements)),
    ap (λ (f : View (StoredStatement S)). (f, (view s).1))
        (fun_ext (λ k. get-remove k name s.statements)),
    ap (λ (f : View (Portal S)). ((view s).0, f))
        (fun_ext (λ k. get-insert k portal.name portal s.portals)),
    ap (λ (f : View (Portal S)). ((view s).0, f)) (fun_ext (λ k. get-remove k name s.portals)),
  )

  -- What was put is found, for the handlers.
  pub get_statement-put :
      (statement : StoredStatement S) (s : MemPortalStore S)
      → get_statement statement.id (put_statement statement s) ≡ some statement
  unfolding get_statement put_statement
  get_statement-put statement s =
      get-insert statement.id statement.id statement s.statements ∙ rw (same_name_refl statement.id)

  pub get_portal-put :
      (portal : Portal S) (s : MemPortalStore S)
      → get_portal portal.name (put_portal portal s) ≡ some portal
  unfolding get_portal put_portal
  get_portal-put portal s =
      get-insert portal.name portal.name portal s.portals ∙ rw (same_name_refl portal.name)

  pub get_statement-rm :
      (name : Bytes) (s : MemPortalStore S) → get_statement name (rm_statement name s) ≡ none
  unfolding get_statement rm_statement
  get_statement-rm name s = get-remove name name s.statements ∙ rw (same_name_refl name)
