-- ===== src/Store/Sql.antt =====
-- What the statements of src/store.rs do to the tables. An `Action` is a part of a transaction: it
-- returns a value and the changed tables, or the error at which the transaction is dropped, so
-- that the database stays as it was. A WHERE clause with the whole primary key touches one row at
-- most; the other statements go through a table.
use termux_stacks.Prelude.{
  ℕ, ◌+◌, Bool, false, not, ◌&&◌, ◌||◌, List, [], ◌∷◌, Option, none, some, ltb, if◌then◌else◌,
}
use termux_stacks.Prelude.Outcome.{Outcome, done, failed}
use termux_stacks.Ordered.Key.{Key, Text, text_key, nat_key, pair_key, pair_cmp, ◌==◌}
use termux_stacks.Ordered.Map
use termux_stacks.Ordered.Map.{BTreeMap, get}
use termux_stacks.Store.Tables.{
  Database, StackRow, ServiceRow, GenerationRow, Operation, OperationService, ServiceKey,
  is_candidate, is_current, is_null,
}

-- A message is kept as its subject. `panic` stands for a panic of the source.
pub data Error : Type 0 where
  io constraint bad_row panic : Error
  conflict not_found : Text → Error

abbrev pub Action : Type 0 → Type 0
Action A = Database → Outcome Error (A × Database)

-- Not an `abbrev`: the proofs go through a chain of statements by its structure.
infixl 5 ◌>>=◌ ◌>>◌
unfoldable pub ◌>>=◌ : {A B : Type 0} → Action A → (A → Action B) → Action B
◌>>=◌ m k db = elim (m db) [ done (a, db') ↦ k a db' | failed e ↦ failed e ]

unfoldable pub ◌>>◌ : {B : Type 0} → Action (Unit {0}) → Action B → Action B
unfolding ◌>>=◌
m >> k = m >>= λ _. k

unfoldable pub pure : {A : Type 0} → A → Action A
pure a db = done (a, db)

unfoldable pub fail : {A : Type 0} → Error → Action A
fail e db = failed e

-- A SELECT.
unfoldable pub query : {A : Type 0} → (Database → A) → Action A
query f db = done (f db, db)

-- `if test { return Err(..) }`
unfoldable pub deny : Bool → Error → Action (Unit {0})
deny test e db = if test then failed e else done (tt, db)

-- `.optional()?.ok_or_else(..)?`, and `query_row(..)?` with the error `bad_row`.
unfoldable pub expect : {A : Type 0} → Option A → Error → Action A
expect none e db = failed e
expect (some a) e db = done (a, db)

unfoldable pub for_each : {A : Type 0} → List A → (A → Action (Unit {0})) → Action (Unit {0})
unfolding pure
for_each [] body = pure tt
for_each (x ∷ xs) body = body x >> for_each xs body

-- The same with the position of each element.
unfoldable pub for_each_from :
    {A : Type 0} → ℕ → List A → (ℕ → A → Action (Unit {0})) → Action (Unit {0})
unfolding pure
for_each_from i [] body = pure tt
for_each_from i (x ∷ xs) body = body i x >> for_each_from (i + 1) xs body

-- `changed += ..` over a loop.
unfoldable pub sum_each : {A : Type 0} → List A → (A → Action ℕ) → Action ℕ
unfolding pure
sum_each [] body = pure 0
sum_each (x ∷ xs) body = body x >>= λ n. sum_each xs body >>= λ rest. pure (n + rest)

-- `unix_time`: the clock's reading, where it can be read.
unfoldable pub unix_time : Option ℕ → Action ℕ
unix_time none db = failed io
unix_time (some now) db = done (now, db)

-- `require_one` on the number of rows that a statement changed.
unfoldable pub require_one : ℕ → Text → Action (Unit {0})
require_one changed subject db = if changed == 1 then done (tt, db) else failed (not_found subject)

module _ {K V : Type 0} ⦃o : Key K⦄ where
  -- UPDATE .. SET f WHERE the primary key is `k` AND guard.
  unfoldable pub update_row : K → (V → Bool) → (V → V) → BTreeMap K V → ℕ × BTreeMap K V
  update_row k guard f m = elim (get k m) [
    | none ↦ (0, m)
    | some v ↦ if guard v then (1, Map.insert k (f v) m) else (0, m)
  ]

module _ {K V : Type 0} where
  -- UPDATE .. SET f WHERE p.
  unfoldable pub update_where : (K → V → Bool) → (V → V) → BTreeMap K V → BTreeMap K V
  update_where p f [] = []
  update_where p f ((k, v) ∷ m) = (k, if p k v then f v else v) ∷ update_where p f m

  -- SELECT count(*) .. WHERE p.
  unfoldable pub count : (K → V → Bool) → BTreeMap K V → ℕ
  count p [] = 0
  count p ((k, v) ∷ m) = (if p k v then 1 else 0) + count p m

  unfoldable pub exists : (K → V → Bool) → BTreeMap K V → Bool
  exists p [] = false
  exists p ((k, v) ∷ m) = p k v || exists p m

  -- SELECT f WHERE p, in the order of the primary key.
  unfoldable pub select : {A : Type 0} → (K → V → Bool) → (K → V → A) → BTreeMap K V → List A
  select p f [] = []
  select p f ((k, v) ∷ m) = let rest = select p f m in if p k v then f k v ∷ rest else rest

-- The statements on each table; they return the number of changed rows.
unfoldable pub update_stack : Text → (StackRow → Bool) → (StackRow → StackRow) → Action ℕ
unfolding update_row
update_stack k guard f db =
    let (n, m) = update_row k guard f db.stacks in done (n, record db { stacks = m })

unfoldable pub update_service :
    ServiceKey → (ServiceRow → Bool) → (ServiceRow → ServiceRow) → Action ℕ
unfolding update_row pair_cmp
update_service k guard f db =
    let (n, m) = update_row k guard f db.services in done (n, record db { services = m })

unfoldable pub update_services :
    (ServiceKey → ServiceRow → Bool) → (ServiceRow → ServiceRow) → Action (Unit {0})
unfolding update_where
update_services p f db = done (tt, record db { services = update_where p f db.services })

unfoldable pub update_operation : Text → (Operation → Bool) → (Operation → Operation) → Action ℕ
unfolding update_row
update_operation k guard f db =
    let (n, m) = update_row k guard f db.operations in done (n, record db { operations = m })

unfoldable pub update_operation_service :
    Text × Text → (OperationService → Bool) → (OperationService → OperationService) → Action ℕ
unfolding update_row pair_cmp
update_operation_service k guard f db =
    let (n, m) = update_row k guard f db.operation_services in
    done (n, record db { operation_services = m })

unfoldable pub update_operation_services :
    (Text × Text → OperationService → Bool)
    → (OperationService → OperationService)
    → Action (Unit {0})
unfolding update_where
update_operation_services p f db =
    done (tt, record db { operation_services = update_where p f db.operation_services })

unfoldable pub update_generation :
    ServiceKey × ℕ → (GenerationRow → Bool) → (GenerationRow → GenerationRow) → Action ℕ
unfolding update_row pair_cmp
update_generation k guard f db =
    let (n, m) = update_row k guard f db.generations in done (n, record db { generations = m })

unfoldable pub update_generations :
    (ServiceKey × ℕ → GenerationRow → Bool) → (GenerationRow → GenerationRow) → Action (Unit {0})
unfolding update_where
update_generations p f db = done (tt, record db { generations = update_where p f db.generations })

-- The unique indexes on the roles of a service's generations.
abbrev has_two : ServiceKey → (GenerationRow → Bool) → Database → Bool
has_two k test db = ltb 1 (count (λ j g. j.0 == k && test g) db.generations)

-- A statement that breaks a constraint fails.
unfoldable pub unless : (Database → Bool) → (Database → Database) → Action (Unit {0})
unless broken change db = if broken db then failed constraint else done (tt, change db)

unfoldable pub check_roles : ServiceKey → Action (Unit {0})
unfolding count pair_cmp unless
check_roles k =
    unless (λ db. has_two k (λ g. is_candidate g.role) db || has_two k (λ g. is_current g.role) db)
      (λ db. db)

-- An INSERT fails where its primary key is taken, its parent row is missing, or a unique index is
-- broken.
unfoldable pub insert_stack : Text → StackRow → Action (Unit {0})
unfolding unless
insert_stack k v =
    unless (λ db. Map.contains_key k db.stacks)
      (λ db. record db { stacks = Map.insert k v db.stacks })

unfoldable pub insert_service : ServiceKey → ServiceRow → Action (Unit {0})
unfolding unless pair_cmp
insert_service k v =
    unless (λ db. Map.contains_key k db.services || not (Map.contains_key k.0 db.stacks))
      (λ db. record db { services = Map.insert k v db.services })

unfoldable pub insert_generation : ServiceKey × ℕ → GenerationRow → Action (Unit {0})
unfolding unless exists pair_cmp
insert_generation k v =
    unless
      (λ db.
        Map.contains_key k db.generations
        || not (Map.contains_key k.0 db.services)
        || exists
            (λ j g.
              g.alias == v.alias
              || (j.0 == k.0
                  && ((is_candidate g.role && is_candidate v.role)
                      || (is_current g.role && is_current v.role))))
            db.generations)
      (λ db. record db { generations = Map.insert k v db.generations })

unfoldable pub insert_operation : Text → Operation → Action (Unit {0})
unfolding unless exists
insert_operation k v =
    unless
      (λ db.
        Map.contains_key k db.operations
        || not (Map.contains_key v.stack_name db.stacks)
        || exists (λ _ o. o.stack_name == v.stack_name && is_null o.outcome && is_null v.outcome)
            db.operations)
      (λ db. record db { operations = Map.insert k v db.operations })

unfoldable pub insert_operation_service : Text × Text → OperationService → Action (Unit {0})
unfolding unless exists pair_cmp
insert_operation_service k v =
    unless
      (λ db.
        Map.contains_key k db.operation_services
        || not (Map.contains_key k.0 db.operations)
        || exists (λ j r. j.0 == k.0 && r.ordinal == v.ordinal) db.operation_services)
      (λ db. record db { operation_services = Map.insert k v db.operation_services })

-- A whole transaction: an error leaves the database as it was.
abbrev pub commit_or_drop :
    {A : Type 0} → Database → Outcome Error (A × Database) → Outcome Error A × Database
commit_or_drop db (done (a, db')) = (done a, db')
commit_or_drop db (failed e) = (failed e, db)

unfoldable pub transaction : {A : Type 0} → Action A → Database → Outcome Error A × Database
transaction body db = commit_or_drop db (body db)
