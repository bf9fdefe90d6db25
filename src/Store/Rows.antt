-- ===== src/Store/Rows.antt =====
-- The helpers that the operations of src/store.rs share (`refresh_stack_state`, `operation_rows`
-- and others).
use termux_stacks.Prelude.{
  ℕ, Bool, true, not, ◌&&◌, ◌||◌, List, [], ◌∷◌, leb, any, all, if◌then◌else◌,
}
use termux_stacks.Ordered.Key.{Text, text_key, pair_key, pair_cmp, ◌==◌}
use termux_stacks.Ordered.Map.{get}
use termux_stacks.Ordered.Set
use termux_stacks.Ordered.Set.{BTreeSet}
use termux_stacks.Store.Tables.{
  Desired, Observed, Phase, ServiceKey, ServiceRow, OperationService, Database, is_running, ◌is◌,
  is_null,
}
use termux_stacks.Store.Sql
use termux_stacks.Store.Sql.{
  Action, ◌>>=◌, ◌>>◌, query, expect, require_one, update_stack, update_service,
  update_operation_service, update_generations, select, exists, deny, conflict, not_found,
}

-- The active services of a stack.
abbrev pub is_of : Text → ServiceKey → ServiceRow → Bool
is_of stack k v = k.0 == stack && v.active

-- The state of a stack, from its desired state and the states of its active services.
unfoldable pub stack_state : Desired → List Observed → Observed
stack_state desired states =
    if any (λ s. s is Observed.unknown) states
    then Observed.unknown
    else if not (is_running desired)
    then (if all (λ s. s is Observed.stopped) states then Observed.stopped else Observed.stopping)
    else if all (λ s. s is Observed.running) states
    then Observed.running
    else if any (λ s. s is Observed.failed) states
    then Observed.failed
    else if any (λ s. s is Observed.stopping || s is Observed.restarting) states
    then Observed.restarting
    else Observed.starting

unfoldable pub active_states : Text → Database → List Observed
unfolding select
active_states stack db = select (is_of stack) (λ k v. v.observed_state) db.services

unfoldable pub refresh_stack_state : Text → ℕ → Action (Unit {0})
unfolding stack_state active_states
refresh_stack_state stack now = do
  found ← query (λ db. get stack db.stacks)
  row ← expect found (not_found stack)
  states ← query (active_states stack)
  changed ←
      update_stack stack (λ _. true)
        (λ v. record v { observed_state = stack_state row.desired_state states; updated_at = now })
  require_one changed stack

-- Some operation of the stack has no outcome.
unfoldable pub has_unfinished : Text → Database → Bool
unfolding exists
has_unfinished stack db = exists (λ _ o. o.stack_name == stack && is_null o.outcome) db.operations

unfoldable pub reject_unfinished_operation : Text → Action (Unit {0})
unfolding has_unfinished
reject_unfinished_operation stack = do
  unfinished ← query (has_unfinished stack)
  deny unfinished (conflict stack)

unfoldable pub service_names : Text → Database → BTreeSet Text
unfolding select
service_names stack db = select (is_of stack) (λ k v. k.1) db.services

abbrev pub set_of : List Text → BTreeSet Text
set_of [] = []
set_of (n ∷ ns) = Set.insert n (set_of ns)

unfoldable pub service_stack_names : Database → List Text
unfolding select Set.insert
service_stack_names db = set_of (select (λ k v. v.active) (λ k v. k.0) db.services)

-- A row of `operation_services` with its key: the request and the service.
abbrev pub OperationRow : Type 0
OperationRow = (Text × Text) × OperationService

-- ORDER BY: rows that `le` does not tell apart stay in the order of the primary key.
unfoldable pub insert_by : {A : Type 0} → (A → A → Bool) → A → List A → List A
insert_by le x [] = x ∷ []
insert_by le x (y ∷ ys) = let later = y ∷ insert_by le x ys in if le x y then x ∷ y ∷ ys else later

unfoldable pub sort_by : {A : Type 0} → (A → A → Bool) → List A → List A
unfolding insert_by
sort_by le [] = []
sort_by le (x ∷ xs) = insert_by le x (sort_by le xs)

abbrev pub ordinal_le : OperationRow → OperationRow → Bool
ordinal_le row other = leb row.1.ordinal other.1.ordinal

unfoldable pub operation_rows : Text → Database → List OperationRow
unfolding select sort_by
operation_rows request db =
    sort_by ordinal_le (select (λ k r. k.0 == request) (λ k r. (k, r)) db.operation_services)

unfoldable pub set_service_phase : Text → Text → Text → Phase → ℕ → Action (Unit {0})
set_service_phase request stack service phase now = do
  n ←
      update_operation_service (request, service) (λ r. r.stack_name == stack && is_null r.outcome)
        (λ r. record r { phase = phase })
  require_one n service
  changed ←
      update_service (stack, service) (λ v. v.active)
        (λ v. record v { effect_phase = phase; updated_at = now })
  require_one changed service

-- The row is missing, or its generation is NULL, which is no integer.
unfoldable pub operation_generation : Text → Text → Text → Action ℕ
unfolding pair_cmp
operation_generation request stack service = do
  found ← query (λ db. get (request, service) db.operation_services)
  row ← expect found (not_found service)
  deny (not (row.stack_name == stack)) (not_found service)
  expect row.generation Sql.bad_row
