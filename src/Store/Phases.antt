-- ===== src/Store/Phases.antt =====
-- The phases of a service in an operation (src/store.rs: `mark_logs_prepared` to
-- `finalize_operation_failure`, and the phases of a stop).
use termux_stacks.Prelude.{
  ℕ, Bool, true, false, not, ◌&&◌, ◌||◌, Option, none, some, ltb, if◌then◌else◌,
}
use termux_stacks.Ordered.Key.{Text, text_key, pair_key, pair_cmp, ◌==◌}
use termux_stacks.Ordered.Map.{get}
use termux_stacks.Manifest.Literal.{ℤ}
use termux_stacks.Store.Tables.{
  Desired, Observed, Phase, RootfsState, Ending, Database, is_null, is_failure, is_unknown_phase,
}
use termux_stacks.Store.Sql
use termux_stacks.Store.Sql.{
  Action, ◌>>=◌, ◌>>◌, query, expect, deny, unix_time, require_one, update_service,
  update_generation, update_operation, update_operation_service, exists, conflict, not_found,
}
use termux_stacks.Store.Rows.{refresh_stack_state, set_service_phase, operation_generation}

-- The phase of a part that fails: what came before tells whether the engine was invoked.
abbrev pub failed_phase : Bool → Phase → Phase
failed_phase true phase = Phase.unknown
failed_phase false Phase.intent = Phase.failed_pre_effect
failed_phase false Phase.logs_prepared = Phase.failed_pre_effect
failed_phase false _ = Phase.failed

module _ (clock : Option ℕ) (request stack service : Text) where
  unfoldable pub set_candidate_phase : Phase → Action (Unit {0})
  set_candidate_phase phase = do
    now ← unix_time clock
    set_service_phase request stack service phase now

  unfoldable pub mark_logs_prepared : Action (Unit {0})
  unfolding set_candidate_phase
  mark_logs_prepared = set_candidate_phase Phase.logs_prepared

  unfoldable pub mark_install_invoked : Action (Unit {0})
  unfolding set_candidate_phase
  mark_install_invoked = set_candidate_phase Phase.install_invoked

  unfoldable pub mark_start_invoked : Action (Unit {0})
  unfolding set_candidate_phase
  mark_start_invoked = set_candidate_phase Phase.start_invoked

  unfoldable pub mark_stop_invoked : Action (Unit {0})
  unfolding set_candidate_phase
  mark_stop_invoked = set_candidate_phase Phase.stop_invoked

  unfoldable pub mark_installed : Action (Unit {0})
  mark_installed = do
    now ← unix_time clock
    generation ← operation_generation request stack service
    n ←
        update_generation ((stack, service), generation) (λ _. true)
          (λ g. record g { state = RootfsState.installed; updated_at = now })
    require_one n service
    set_service_phase request stack service Phase.installed now

  unfoldable pub mark_rootfs_unknown : Action (Unit {0})
  mark_rootfs_unknown = do
    now ← unix_time clock
    generation ← operation_generation request stack service
    n ←
        update_generation ((stack, service), generation) (λ _. true)
          (λ g. record g { state = RootfsState.unknown; updated_at = now })
    require_one n service

  unfoldable pub mark_starting : (pid starttime : ℕ) → Text → Action (Unit {0})
  mark_starting pid starttime boot = do
    deny (ltb 9223372036854775807 starttime) Sql.io
    now ← unix_time clock
    set_service_phase request stack service Phase.starting now
    n ←
        update_service (stack, service) (λ v. v.active)
          (λ v. record v {
            observed_state = Observed.starting;
            child_pid = some pid;
            child_starttime = some starttime;
            boot_id = some boot;
            updated_at = now;
          })
    require_one n service
    refresh_stack_state stack now

  unfoldable pub mark_running : (session : ℕ) → Action (Unit {0})
  mark_running session = do
    now ← unix_time clock
    n ←
        update_operation_service (request, service) (λ r. r.stack_name == stack)
          (λ r. record r { phase = Phase.running; outcome = some Ending.success; error = none })
    require_one n service
    changed ←
        update_service (stack, service) (λ v. v.active)
          (λ v. record v {
            observed_state = Observed.running;
            effect_phase = Phase.running;
            session_id = some session;
            restart_attempts = 0;
            restart_window_started_at = none;
            next_restart_at = none;
            updated_at = now;
          })
    require_one changed service
    refresh_stack_state stack now

  unfoldable pub mark_service_failed : (code message : Text) → (unknown : Bool) → Action (Unit {0})
  mark_service_failed code message unknown = do
    now ← unix_time clock
    n ←
        update_service (stack, service) (λ v. v.active)
          (λ v. record v {
            observed_state = if unknown then Observed.unknown else Observed.failed;
            effect_phase = if unknown then Phase.unknown else Phase.failed;
            updated_at = now;
          })
    require_one n service
    changed ←
        update_operation_service (request, service) (λ r. r.stack_name == stack)
          (λ r. record r {
            phase = failed_phase unknown r.phase;
            outcome = some Ending.failure;
            error = some (code, message);
          })
    require_one changed service
    refresh_stack_state stack now

  unfoldable pub mark_stopped : (exit_code exit_signal : Option ℤ) → Action (Unit {0})
  unfolding pair_cmp
  mark_stopped exit_code exit_signal = do
    now ← unix_time clock
    found ← query (λ db. get (request, service) db.operation_services)
    row ← expect found (not_found service)
    deny (not (row.stack_name == stack)) (not_found service)
    deny (is_unknown_phase row.phase || is_failure row.outcome) (conflict service)
    n ←
        update_service (stack, service) (λ v. v.active)
          (λ v. record v {
            desired_state = Desired.stopped;
            observed_state = Observed.stopped;
            effect_phase = Phase.stopped;
            session_id = none;
            child_pid = none;
            child_starttime = none;
            boot_id = none;
            last_exit_code = exit_code;
            last_exit_signal = exit_signal;
            next_restart_at = none;
            updated_at = now;
          })
    require_one n service
    changed ←
        update_operation_service (request, service) (λ r. r.stack_name == stack)
          (λ r. record r { phase = Phase.stopped; outcome = some Ending.success })
    require_one changed service
    refresh_stack_state stack now

-- The EXISTS and NOT EXISTS of the statement on `operations`.
abbrev pub parts_ended : Text → Database → Bool
parts_ended request db =
    exists (λ k r. k.0 == request && is_failure r.outcome) db.operation_services
    && not (exists (λ k r. k.0 == request && is_null r.outcome) db.operation_services)

unfoldable pub finalize_operation_failure :
    Option ℕ → (request stack code message : Text) → Action (Unit {0})
unfolding exists
finalize_operation_failure clock request stack code message = do
  now ← unix_time clock
  ended ← query (parts_ended request)
  n ←
      update_operation request (λ o. o.stack_name == stack && is_null o.outcome && ended)
        (λ o. record o {
          phase = Phase.failed;
          outcome = some Ending.failure;
          error = some (code, message);
          updated_at = now;
        })
  require_one n request
