-- ===== src/Store/Cold.antt =====
-- What a daemon does with the tables that another left (`reconcile_cold_start` of src/store.rs).
mod Parts
unfoldable pub use Parts.*
use termux_stacks.Prelude.{
  ℕ, Ordering, ◌+◌, Bool, true, false, not, ◌&&◌, ◌||◌, List, Option, none, some, ltb, leb, any,
  if◌then◌else◌,
}
use termux_stacks.Ordered.Key.{Text, text, text_key, nat_key, pair_key, pair_cmp, text_cmp, ◌==◌}
use termux_stacks.Ordered.Map.{BTreeMap, get}
use termux_stacks.Store.Tables.{
  Desired, Observed, Phase, RootfsState, Role, Ending, ServiceRow, ServiceKey, GenerationRow,
  Operation, OperationService, Database, ◌is◌, is_running, is_null, is_current, is_success,
  is_unknown_phase,
}
use termux_stacks.Store.Sql.{
  Action, ◌>>=◌, ◌>>◌, pure, query, unix_time, for_each, sum_each, require_one, update_stack,
  update_service, update_operation, update_operation_service, update_generation, select, exists,
  count,
}
use termux_stacks.Store.Rows.{
  OperationRow, is_of, sort_by, refresh_stack_state, service_stack_names,
}
use termux_stacks.Store.Down.{has_no_identity, is_active_state, is_proven_backoff}

-- ORDER BY on texts.
abbrev text_le : Text → Text → Bool
text_le a b = elim (text_key.cmp a b) [ Ordering.gt ↦ false | _ ↦ true ]

abbrev is_open : Option Operation → Bool
is_open none = false
is_open (some o) = is_null o.outcome

abbrev by_stack_and_ordinal : OperationRow → OperationRow → Bool
by_stack_and_ordinal r s =
    if r.1.stack_name == s.1.stack_name
    then leb r.1.ordinal s.1.ordinal
    else text_le r.1.stack_name s.1.stack_name

-- The parts without an outcome, of operations without one.
unfoldable pub unfinished_operation_rows : Database → List OperationRow
unfolding select sort_by text_cmp
unfinished_operation_rows db = sort_by by_stack_and_ordinal (
    select (λ k r. is_open (get k.0 db.operations) && is_null r.outcome) (λ k r. (k, r))
      db.operation_services)

-- An operation with its request.
abbrev pub Parent : Type 0
Parent = Text × Operation

abbrev pub by_stack_and_time : Parent → Parent → Bool
by_stack_and_time p q =
    if p.1.stack_name == q.1.stack_name
    then leb p.1.created_at q.1.created_at
    else text_le p.1.stack_name q.1.stack_name

unfoldable pub unfinished_parent_operations : Database → List Parent
unfolding select sort_by
unfinished_parent_operations db =
    sort_by by_stack_and_time (select (λ k o. is_null o.outcome) (λ k o. (k, o)) db.operations)

-- The services that seem to have an effect under way, or a process.
abbrev has_effect : ServiceRow → Bool
has_effect v = v.active && (is_active_state v.observed_state || not (has_no_identity v))

unfoldable pub active_service_rows : Database → List (ServiceKey × ServiceRow)
unfolding select
active_service_rows db = select (λ k v. has_effect v) (λ k v. (k, v)) db.services

-- `effectful_parent_without_children`, by the phase.
abbrev is_effectful : Phase → Bool
is_effectful Phase.install_invoked = true
is_effectful Phase.start_invoked = true
is_effectful Phase.starting = true
is_effectful Phase.running = true
is_effectful Phase.stop_invoked = true
is_effectful Phase.restart_stop_invoked = true
is_effectful Phase.restart_start_invoked = true
is_effectful _ = false

abbrev is_stopped_phase : Phase → Bool
is_stopped_phase Phase.stopped = true
is_stopped_phase _ = false

-- A service that `down` has proved stopped.
abbrev is_down : ServiceRow → Bool
is_down v =
    not (is_running v.desired_state)
    && v.observed_state is Observed.stopped
    && is_stopped_phase v.effect_phase
    && has_no_identity v
    && is_null v.child_starttime
    && is_null v.boot_id
    && is_null v.next_restart_at

abbrev children : Text → Database → ℕ
children request db = count (λ k r. k.0 == request) db.operation_services

-- Every part of a `down` succeeded, and every service of the stack is down.
unfoldable pub is_safe_down : Parent → Database → Bool
unfolding count text_cmp
is_safe_down (request, parent) db =
    parent.operation == text "down"
    && ltb 0 (children request db)
    && children request db == count (is_of parent.stack_name) db.services
    && count (λ k r. k.0 == request && not (is_success r.outcome)) db.operation_services == 0
    && count (λ k v. is_of parent.stack_name k v && not (is_down v)) db.services == 0

unfoldable pub is_ambiguous_parent : Parent → Database → Bool
unfolding exists count
is_ambiguous_parent (request, parent) db =
    exists (λ k r. k.0 == request && is_unknown_phase r.phase) db.operation_services
    || exists
        (λ k v.
          is_of parent.stack_name k v
          && (v.observed_state is Observed.unknown || is_unknown_phase v.effect_phase))
        db.services
    || (children request db == 0 && is_effectful parent.phase)

-- One round of the loop over the unfinished operations.
unfoldable pub settle_parent : (now : ℕ) → Parent → Action (Unit {0})
unfolding is_safe_down is_ambiguous_parent
settle_parent now (request, parent) = do
  safe_down ← query (is_safe_down (request, parent))
  ambiguous ← query (is_ambiguous_parent (request, parent))
  let stop = do
    n ←
        update_stack parent.stack_name (λ _. true)
          (λ v. record v {
            desired_state = Desired.stopped;
            observed_state = Observed.stopped;
            updated_at = now;
          })
    require_one n parent.stack_name
    changed ←
        update_operation request (λ o. is_null o.outcome)
          (λ o. record o { phase = Phase.stopped; outcome = some Ending.success; updated_at = now })
    require_one changed request
  let interrupt = do
    n ←
        update_operation request (λ o. is_null o.outcome)
          (λ o. record o {
            phase = if ambiguous then Phase.unknown else Phase.failed;
            outcome = some Ending.failure;
            error = some (
              if ambiguous then text "cold_start_unknown" else text "interrupted",
              text "daemon stopped before the operation committed; no effect was retried",
            );
            updated_at = now;
          })
    require_one n request
  if safe_down then stop else interrupt

unfoldable pub reconcile_cold_start : Option ℕ → Action ℕ
unfolding unfinished_operation_rows unfinished_parent_operations active_service_rows settle_part
    lose_service settle_parent service_stack_names
reconcile_cold_start clock = do
  now ← unix_time clock
  parents ← query unfinished_parent_operations
  unfinished ← query unfinished_operation_rows
  settled ← sum_each unfinished (settle_part now)
  active ← query active_service_rows
  changed ← sum_each active (lose_service now unfinished)
  for_each parents (settle_parent now)
  stacks ← query service_stack_names
  for_each stacks (λ stack. refresh_stack_state stack now)
  pure (settled + changed)
