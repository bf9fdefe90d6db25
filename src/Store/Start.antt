-- ===== src/Store/Start.antt =====
-- Starting the committed rootfs of services, and the manual restart of one (src/store.rs:
-- `begin_start_current` to `finish_start_current`).
use termux_stacks.Prelude.{
  ℕ, Bool, true, false, not, ◌&&◌, ◌||◌, List, [], ◌∷◌, Option, none, some, any, is_empty,
  if◌then◌else◌, length,
}
use termux_stacks.Ordered.Key.{Text, text, text_key, nat_key, pair_key, pair_cmp, text_cmp, ◌==◌}
use termux_stacks.Ordered.Map.{get}
use termux_stacks.Ordered.Set
use termux_stacks.Manifest.Literal.{ℤ}
use termux_stacks.Store.Tables.{
  Desired, Observed, Phase, RootfsState, Ending, ServiceRow, ServiceKey, GenerationRow, Operation,
  Database, ◌is◌, is_running, is_null, is_current, is_installed, is_restart_stop_intent,
  is_restart_stop_invoked,
}
use termux_stacks.Store.Sql.{
  Action, ◌>>=◌, ◌>>◌, query, expect, deny, unix_time, for_each, for_each_from, require_one,
  update_stack, update_service, update_operation, update_operation_service, insert_operation,
  insert_operation_service, conflict, not_found,
}
use termux_stacks.Store.Rows.{
  OperationRow, set_of, operation_rows, refresh_stack_state, reject_unfinished_operation,
}
use termux_stacks.Store.Commit.{incomplete}
use termux_stacks.Store.Down.{active_service}
use termux_stacks.Store.Backoff.{wants_running}

abbrev of_current : Option GenerationRow → Option RootfsState
of_current none = none
of_current (some g) = if is_current g.role then some g.state else none

-- The JOIN of an active service with the rootfs of its current generation.
unfoldable pub current_rootfs : ServiceKey → Database → Option (ServiceRow × ℕ × RootfsState)
unfolding active_service pair_cmp
current_rootfs k db = elim (active_service k db) [
  | none ↦ none
  | some v ↦ elim v.current [
    | none ↦ none
    | some (alias, generation) ↦ elim (of_current (get (k, generation) db.generations)) [
      | none ↦ none
      | some state ↦ some (v, generation, state)
    ]
  ]
]

abbrev misses_target : List Text → Option Text → Bool
misses_target ordered_services none = false
misses_target (service ∷ []) (some target) = not (service == target)
misses_target _ (some target) = true

-- One is given without the other.
abbrev is_alone : Option Text → Option Text → Bool
is_alone none none = false
is_alone (some a) (some b) = false
is_alone _ _ = true

-- One round of the loop over the services.
unfoldable pub start_service :
    (request stack : Text) → (now ordinal : ℕ) → (service : Text) → Action (Unit {0})
unfolding current_rootfs
start_service request stack now ordinal service = do
  found ← query (current_rootfs (stack, service))
  joined ← expect found (not_found service)
  deny (not (is_installed joined.2)) (conflict service)
  n ←
      update_service (stack, service) (λ v. v.active)
        (λ v. record v {
          desired_state = Desired.running;
          observed_state = Observed.starting;
          effect_phase = Phase.start_intent;
          session_id = none;
          child_pid = none;
          child_starttime = none;
          boot_id = none;
          last_exit_code = none;
          last_exit_signal = none;
          next_restart_at = none;
          updated_at = now;
        })
  require_one n service
  insert_operation_service (request, service)
      (record {
        stack_name = stack;
        ordinal = ordinal;
        phase = Phase.start_intent;
        outcome = none;
        candidate_config_json = none;
        generation = some joined.1;
        error = none;
      })

unfoldable pub begin_start_current :
    Option ℕ
    → (request stack operation : Text) → List Text
    → (target_service : Option Text) → (candidate_manifest manifest_base : Option Text)
    → Action (Unit {0})
unfolding start_service Set.insert
begin_start_current clock request stack operation services target_service candidate_manifest
      manifest_base =
    do
      deny (is_empty services || is_empty operation) (conflict stack)
      deny
          (not (length (set_of services) == length services)
            || misses_target services target_service)
          (conflict stack)
      deny (is_alone candidate_manifest manifest_base) (conflict stack)
      now ← unix_time clock
      reject_unfinished_operation stack
      found ← query (λ db. get stack db.stacks)
      row ← expect found (not_found stack)
      insert_operation request (record {
        stack_name = stack;
        operation = operation;
        phase = Phase.start_intent;
        candidate_manifest = candidate_manifest;
        manifest_base = manifest_base;
        candidate_revision = some row.committed_revision;
        target_service = target_service;
        outcome = none;
        error = none;
        response_json = none;
        created_at = now;
        updated_at = now;
      })
      for_each_from 0 services (start_service request stack now)
      n ←
          update_stack stack (λ _. true)
            (λ v. record v {
              desired_state = Desired.running;
              observed_state = Observed.starting;
              updated_at = now;
            })
      require_one n stack

-- `WHERE .. operation = 'restart' AND outcome IS NULL`.
abbrev is_open_restart : Operation → Bool
is_open_restart o = o.operation == text "restart" && is_null o.outcome

abbrev open_target : (request stack : Text) → Database → Option Text
open_target request stack db = elim (get request db.operations) [
  | none ↦ none
  | some o ↦ if o.stack_name == stack && is_open_restart o then o.target_service else none
]

abbrev targets : Text → Option Text → Bool
targets service none = false
targets service (some target) = target == service

module _ (clock : Option ℕ) (request stack : Text) where
  unfoldable pub begin_restart : (service : Text) → Action (Unit {0})
  unfolding current_rootfs
  begin_restart service = do
    now ← unix_time clock
    reject_unfinished_operation stack
    found ← query (λ db. get stack db.stacks)
    row ← expect found (not_found service)
    rootfs ← query (current_rootfs (stack, service))
    joined ← expect rootfs (not_found service)
    deny (not (is_running joined.0.desired_state)) (not_found service)
    deny
        (not (is_installed joined.2)
          || not (joined.0.observed_state is Observed.running)
          || is_null joined.0.session_id
          || is_null joined.0.child_pid)
        (conflict service)
    insert_operation request (record {
      stack_name = stack;
      operation = text "restart";
      phase = Phase.restart_stop_intent;
      candidate_manifest = none;
      manifest_base = none;
      candidate_revision = some row.committed_revision;
      target_service = some service;
      outcome = none;
      error = none;
      response_json = none;
      created_at = now;
      updated_at = now;
    })
    insert_operation_service (request, service)
        (record {
          stack_name = stack;
          ordinal = 0;
          phase = Phase.restart_stop_intent;
          outcome = none;
          candidate_config_json = none;
          generation = some joined.1;
          error = none;
        })
    n ←
        update_service (stack, service) (λ v. v.active)
          (λ v. record v { effect_phase = Phase.restart_stop_intent; updated_at = now })
    require_one n service

  unfoldable pub mark_restart_stop_invoked : (service : Text) → Action (Unit {0})
  unfolding text_cmp
  mark_restart_stop_invoked service = do
    now ← unix_time clock
    n ←
        update_operation_service (request, service)
          (λ r. r.stack_name == stack && is_restart_stop_intent r.phase && is_null r.outcome)
          (λ r. record r { phase = Phase.restart_stop_invoked })
    require_one n service
    changed ←
        update_service (stack, service)
          (λ v. v.active && not (is_null v.session_id) && not (is_null v.child_pid))
          (λ v. record v {
            observed_state = Observed.stopping;
            effect_phase = Phase.restart_stop_invoked;
            updated_at = now;
          })
    require_one changed service
    marked ←
        update_operation request is_open_restart
          (λ o. record o { phase = Phase.restart_stop_invoked; updated_at = now })
    require_one marked request
    refresh_stack_state stack now

  unfoldable pub mark_restart_stopped :
      (service : Text) → (exit_code exit_signal : Option ℤ) → Action (Unit {0})
  unfolding text_cmp
  mark_restart_stopped service exit_code exit_signal = do
    now ← unix_time clock
    n ←
        update_operation_service (request, service)
          (λ r. r.stack_name == stack && is_restart_stop_invoked r.phase && is_null r.outcome)
          (λ r. record r { phase = Phase.shutdown_proven })
    require_one n service
    changed ←
        update_service (stack, service) wants_running
          (λ v. record v {
            observed_state = Observed.stopped;
            effect_phase = Phase.shutdown_proven;
            session_id = none;
            child_pid = none;
            child_starttime = none;
            boot_id = none;
            last_exit_code = exit_code;
            last_exit_signal = exit_signal;
            next_restart_at = none;
            updated_at = now;
          })
    require_one changed service
    marked ←
        update_operation request is_open_restart
          (λ o. record o { phase = Phase.shutdown_proven; updated_at = now })
    require_one marked request
    refresh_stack_state stack now

  -- One round of the loop of `finish_start_current`.
  unfoldable pub commit_start : ℕ → OperationRow → Action (Unit {0})
  commit_start now row = do
    n ←
        update_service (stack, row.0.1) (λ v. v.active && v.observed_state is Observed.running)
          (λ v. record v { effect_phase = Phase.committed; updated_at = now })
    require_one n row.0.1

  unfoldable pub finish_start_current : Action (Unit {0})
  unfolding incomplete operation_rows commit_start
  finish_start_current = do
    now ← unix_time clock
    missing ← query (incomplete request)
    deny (not (missing == 0)) (conflict request)
    rows ← query (operation_rows request)
    deny (is_empty rows || any (λ r. not (r.1.stack_name == stack)) rows) (not_found request)
    for_each rows (commit_start now)
    n ←
        update_operation request (λ o. o.stack_name == stack && is_null o.outcome)
          (λ o. record o {
            phase = Phase.committed;
            outcome = some Ending.success;
            updated_at = now;
          })
    require_one n request
    refresh_stack_state stack now

  unfoldable pub finish_restart : (service : Text) → Action (Unit {0})
  unfolding finish_start_current text_cmp
  finish_restart service = do
    target ← query (open_target request stack)
    deny (not (targets service target)) (not_found request)
    finish_start_current
