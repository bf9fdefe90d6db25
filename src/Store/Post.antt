-- ===== src/Store/Post.antt =====
-- What an action of src/store.rs ends with, read backwards along its statements.
use termux_stacks.Prelude.{
  ℕ, ◌≡◌, refl, Bool, true, false, Option, none, some, Option-cases, Bool-cases, inl, inr, subst,
  if◌then◌else◌, arith,
}
use termux_stacks.Prelude.Outcome.{Outcome, done, failed}
use termux_stacks.Ordered.Key.{Key, Text, text_key, nat_key, pair_key, ◌==◌, ==_refl}
use termux_stacks.Ordered.Map
use termux_stacks.Ordered.Map.{BTreeMap, get}
use termux_stacks.Ordered.MapLaws.{get-insert}
use termux_stacks.Store.Tables.{Database, StackRow, ServiceKey, GenerationRow, OperationService}
use termux_stacks.Store.Sql.{
  Error, Action, ◌>>=◌, ◌>>◌, query, deny, expect, unix_time, require_one, update_row, update_stack,
  unless, pure, constraint, insert_generation, insert_operation_service,
}
use termux_stacks.Store.Effect.{Keeps, Ensures, Holds, Holds-both}

abbrev Ends : {A : Type 0} → (A → Database → Type 0) → Outcome Error (A × Database) → Type 0
Ends Q (done x) = Q x.0 x.1
Ends Q (failed e) = Unit

-- `Q` holds of the value and the tables of a result that is no error.
pub record Post {A : Type 0} (Q : A → Database → Type 0) (o : Outcome Error (A × Database))
    : Type 0 where
  pub ends : Ends Q o

pub done-Post :
    {A : Type 0} (Q : A → Database → Type 0) (o : Outcome Error (A × Database)) (a : A)
    (db : Database)
    → Post Q o
    → o ≡ done (a, db)
    → Q a db
done-Post Q o a db h e = subst (Ends Q) e h.ends

bind_outcome :
    {A B : Type 0} (Q : B → Database → Type 0) (k : A → Action B) (o : Outcome Error (A × Database))
    → Ends (λ a db. Post Q (k a db)) o
    → Ends Q (elim o [ done (a, db) ↦ k a db | failed e ↦ failed e ])
bind_outcome Q k (done (a, db)) h = h.ends
bind_outcome Q k (failed e) h = tt

pub bind-Post :
    {A B : Type 0} {Q : B → Database → Type 0} (m : Action A) (k : A → Action B) (db : Database)
    → Post (λ a mid. Post Q (k a mid)) (m db)
    → Post Q ((m >>= k) db)
unfolding ◌>>=◌
bind-Post {Q} m k db h = record { ends = bind_outcome Q k (m db) h.ends }

pub seq-Post :
    {B : Type 0} {Q : B → Database → Type 0} (m : Action (Unit {0})) (k : Action B) (db : Database)
    → Post (λ _ mid. Post Q (k mid)) (m db)
    → Post Q ((m >> k) db)
unfolding ◌>>◌
seq-Post m k db h = bind-Post m (λ _. k) db h

pub query-Post :
    {A : Type 0} {Q : A → Database → Type 0} (f : Database → A) (db : Database)
    → Q (f db) db
    → Post Q (query f db)
unfolding query
query-Post f db q = record { ends = q }

pub expect-Post :
    {A : Type 0} {Q : A → Database → Type 0} (found : Option A) (e : Error) (db : Database)
    → ((a : A) → found ≡ some a → Q a db)
    → Post Q (expect found e db)
unfolding expect
expect-Post none e db h = record { ends = tt }
expect-Post (some a) e db h = record { ends = h a refl }

pub deny-Post :
    {Q : Unit {0} → Database → Type 0} (test : Bool) (e : Error) (db : Database)
    → (test ≡ false → Q tt db)
    → Post Q (deny test e db)
unfolding deny
deny-Post true e db h = record { ends = tt }
deny-Post false e db h = record { ends = h refl }

pub unix_time-Post :
    {Q : ℕ → Database → Type 0} (clock : Option ℕ) (db : Database)
    → ((now : ℕ) → Q now db)
    → Post Q (unix_time clock db)
unfolding unix_time
unix_time-Post none db h = record { ends = tt }
unix_time-Post (some now) db h = record { ends = h now }

require_one_outcome :
    (Q : Unit {0} → Database → Type 0) (test : Bool) (e : Error) (db : Database)
    → (test ≡ true → Q tt db)
    → Ends Q (if test then done (tt, db) else failed e)
require_one_outcome Q true e db h = h refl
require_one_outcome Q false e db h = tt

pub require_one-Post :
    {Q : Unit {0} → Database → Type 0} (n : ℕ) (subject : Text) (db : Database)
    → ((n == 1) ≡ true → Q tt db)
    → Post Q (require_one n subject db)
unfolding require_one
require_one-Post {Q} n subject db h = record { ends = require_one_outcome Q (n == 1) _ db h }

map_outcome :
    {A : Type 0} (P Q : A → Database → Type 0) (o : Outcome Error (A × Database))
    → ((a : A) (after : Database) → P a after → Q a after)
    → Ends P o
    → Ends Q o
map_outcome P Q (done x) f h = f x.0 x.1 h
map_outcome P Q (failed e) f h = tt

pub Post-map :
    {A : Type 0} {P Q : A → Database → Type 0} {o : Outcome Error (A × Database)}
    → Post P o
    → ((a : A) (after : Database) → P a after → Q a after)
    → Post Q o
Post-map {P} {Q} {o} h f = record { ends = map_outcome P Q o f h.ends }

keeps_outcome :
    {A : Type 0} (P : Database → Type 0) (Q : A → Database → Type 0)
    (o : Outcome Error (A × Database))
    → Holds P o
    → ((a : A) (after : Database) → P after → Q a after)
    → Ends Q o
keeps_outcome P Q (done x) h f = f x.0 x.1 h
keeps_outcome P Q (failed e) h f = tt

pub Keeps-Post :
    {A : Type 0} {Q : A → Database → Type 0} (R : Database → Database → Type 0) (m : Action A)
    (db : Database)
    → Keeps R m
    → ((a : A) (after : Database) → R db after → Q a after)
    → Post Q (m db)
Keeps-Post {Q} R m db h f = record { ends = keeps_outcome (R db) Q (m db) (h.run db) f }

-- The same, with what the action ensures.
pub ensures-Post :
    {A : Type 0} {Q : A → Database → Type 0} (R : Database → Database → Type 0)
    (P : Database → Type 0) (m : Action A) (db : Database)
    → Keeps R m
    → Ensures P m
    → ((a : A) (after : Database) → R db after → P after → Q a after)
    → Post Q (m db)
ensures-Post {Q} R P m db h g f = record {
  ends =
      keeps_outcome (λ after. R db after × P after) Q (m db)
        (Holds-both (R db) P (m db) (h.run db) (g.ensured db)) λ a after (r, p). f a after r p;
}

module _ {K V : Type 0} ⦃o : Key K⦄ where
  -- An update that changed a row: its guard held, and the row is as the update has it.
  pub update_row-one :
      (k : K) (guard : V → Bool) (f : V → V) (m : BTreeMap K V)
      → ((update_row k guard f m).0 == 1) ≡ true
      → (v : V) × (get k m ≡ some v)
        × (guard v ≡ true)
        × (get k (update_row k guard f m).1 ≡ some (f v))
  unfolding update_row
  update_row-one k guard f m changed = elim (Option-cases (get k m)) [
    | inl none_found ↦ ground (arith, rw (update_row, none_found) at changed)
    | inr (v, e) ↦ elim (Bool-cases (guard v)) [
      | inl g ↦ (v, e, g, rw (update_row, e, g, get-insert k k (f v) m, ==_refl k) refl)
      | inr g ↦ ground (arith, rw (update_row, e, g) at changed)
    ]
  ]

pub update_stack-Post :
    {Q : ℕ → Database → Type 0} (k : Text) (guard : StackRow → Bool) (f : StackRow → StackRow)
    (db : Database)
    → Q
        (update_row k guard f db.stacks).0
        (record db { stacks = (update_row k guard f db.stacks).1 })
    → Post Q (update_stack k guard f db)
unfolding update_stack
update_stack-Post k guard f db q = record { ends = q }

unless_outcome :
    {Q : Unit {0} → Database → Type 0} (test : Bool) (db : Database)
    → Q tt db
    → Post Q (if test then failed constraint else done (tt, db))
unless_outcome true db q = record { ends = tt }
unless_outcome false db q = record { ends = q }

pub insert_operation_service-Post :
    {Q : Unit {0} → Database → Type 0} (k : Text × Text) (v : OperationService) (db : Database)
    → Q tt (record db { operation_services = Map.insert k v db.operation_services })
    → Post Q (insert_operation_service k v db)
unfolding insert_operation_service unless
insert_operation_service-Post k v db q = unless_outcome _ _ q

pub insert_generation-Post :
    {Q : Unit {0} → Database → Type 0} (k : ServiceKey × ℕ) (v : GenerationRow) (db : Database)
    → Q tt (record db { generations = Map.insert k v db.generations })
    → Post Q (insert_generation k v db)
unfolding insert_generation unless
insert_generation-Post k v db q = unless_outcome _ _ q

pub pure-Post :
    {A : Type 0} {Q : A → Database → Type 0} (a : A) (db : Database) → Q a db → Post Q (pure a db)
unfolding pure
pure-Post a db q = record { ends = q }
