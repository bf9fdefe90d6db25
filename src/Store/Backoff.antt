-- ===== src/Store/Backoff.antt =====
-- Exits and automatic restarts (src/store.rs: `record_exit` to `mark_restart_running`, and what a
-- graceful shutdown of the daemon records).
use termux_stacks.Prelude.{
  ℕ, Bool, true, false, not, ◌&&◌, List, Option, none, some, ltb, leb, if◌then◌else◌,
}
use termux_stacks.Ordered.Key.{Text, text_key, nat_key, pair_key}
use termux_stacks.Manifest.Literal.{ℤ}
use termux_stacks.Store.Tables.{
  Observed, Phase, ServiceRow, ServiceKey, Database, is_running, ◌is◌, is_null, is_backoff,
  is_restart_invoked, is_shutdown_proven,
}
use termux_stacks.Store.Sql
use termux_stacks.Store.Sql.{
  Action, ◌>>=◌, ◌>>◌, query, expect, deny, unix_time, require_one, update_service, select,
  not_found,
}
use termux_stacks.Store.Rows.{is_of, sort_by, refresh_stack_state}
use termux_stacks.Store.Down.{active_service, has_no_identity}

-- No process of the service is recorded at all.
abbrev pub has_no_process : ServiceRow → Bool
has_no_process v = has_no_identity v && is_null v.child_starttime && is_null v.boot_id

abbrev pub wants_running : ServiceRow → Bool
wants_running v = v.active && is_running v.desired_state

abbrev pub deadline_before : ℕ → Option ℕ → Bool
deadline_before at none = false
deadline_before at (some t) = ltb t at

abbrev pub deadline_reached : ℕ → Option ℕ → Bool
deadline_reached now none = false
deadline_reached now (some t) = leb t now

module _ (clock : Option ℕ) (stack service : Text) where
  unfoldable pub record_exit : (exit_code exit_signal : Option ℤ) → Action (Unit {0})
  unfolding active_service
  record_exit exit_code exit_signal = do
    now ← unix_time clock
    found ← query (active_service (stack, service))
    row ← expect found (not_found service)
    n ←
        update_service (stack, service) (λ v. v.active)
          (λ v. record v {
            observed_state =
                if is_running row.desired_state then Observed.failed else Observed.stopped;
            effect_phase = Phase.exited;
            session_id = none;
            child_pid = none;
            child_starttime = none;
            boot_id = none;
            last_exit_code = exit_code;
            last_exit_signal = exit_signal;
            next_restart_at = none;
            updated_at = now;
          })
    require_one n service
    refresh_stack_state stack now

  unfoldable pub mark_runtime_unknown : Action (Unit {0})
  mark_runtime_unknown = do
    now ← unix_time clock
    n ←
        update_service (stack, service) (λ v. v.active)
          (λ v. record v {
            observed_state = Observed.unknown;
            effect_phase = Phase.unknown;
            next_restart_at = none;
            updated_at = now;
          })
    require_one n service
    refresh_stack_state stack now

  unfoldable pub schedule_restart :
      (attempts window_started_at next_attempt_at : ℕ) → Action (Unit {0})
  schedule_restart attempts window_started_at next_attempt_at = do
    now ← unix_time clock
    n ←
        update_service (stack, service) (λ v. wants_running v && has_no_identity v)
          (λ v. record v {
            observed_state = Observed.restarting;
            effect_phase = Phase.backoff;
            restart_attempts = attempts;
            restart_window_started_at = some window_started_at;
            next_restart_at = some next_attempt_at;
            updated_at = now;
          })
    require_one n service
    refresh_stack_state stack now

  unfoldable pub defer_restart : (next_attempt_at : ℕ) → Action (Unit {0})
  defer_restart next_attempt_at = do
    now ← unix_time clock
    n ←
        update_service (stack, service)
          (λ v.
            wants_running v
            && v.observed_state is Observed.restarting
            && is_backoff v.effect_phase
            && deadline_before next_attempt_at v.next_restart_at
            && has_no_process v)
          (λ v. record v { next_restart_at = some next_attempt_at; updated_at = now })
    require_one n service

  unfoldable pub restore_restart_backoff : (next_attempt_at : ℕ) → Action (Unit {0})
  restore_restart_backoff next_attempt_at = do
    now ← unix_time clock
    n ←
        update_service (stack, service)
          (λ v.
            wants_running v
            && v.observed_state is Observed.starting
            && is_restart_invoked v.effect_phase
            && has_no_process v)
          (λ v. record v {
            observed_state = Observed.restarting;
            effect_phase = Phase.backoff;
            next_restart_at = some next_attempt_at;
            updated_at = now;
          })
    require_one n service

  unfoldable pub mark_restart_invoked : Action (Unit {0})
  mark_restart_invoked = do
    now ← unix_time clock
    n ←
        update_service (stack, service)
          (λ v.
            wants_running v
            && is_backoff v.effect_phase
            && not (is_null v.next_restart_at)
            && has_no_identity v)
          (λ v. record v {
            observed_state = Observed.starting;
            effect_phase = Phase.restart_invoked;
            next_restart_at = none;
            updated_at = now;
          })
    require_one n service

  unfoldable pub mark_restart_starting : (pid starttime : ℕ) → Text → Action (Unit {0})
  mark_restart_starting pid starttime boot = do
    deny (ltb 9223372036854775807 starttime) Sql.io
    now ← unix_time clock
    n ←
        update_service (stack, service) (λ v. v.active)
          (λ v. record v {
            observed_state = Observed.starting;
            effect_phase = Phase.restart_starting;
            child_pid = some pid;
            child_starttime = some starttime;
            boot_id = some boot;
            updated_at = now;
          })
    require_one n service

  unfoldable pub mark_restart_running : (session : ℕ) → Action (Unit {0})
  mark_restart_running session = do
    now ← unix_time clock
    n ←
        update_service (stack, service) (λ v. v.active)
          (λ v. record v {
            observed_state = Observed.running;
            effect_phase = Phase.committed;
            session_id = some session;
            next_restart_at = none;
            updated_at = now;
          })
    require_one n service
    refresh_stack_state stack now

  unfoldable pub record_graceful_stop : (exit_code exit_signal : Option ℤ) → Action (Unit {0})
  record_graceful_stop exit_code exit_signal = do
    now ← unix_time clock
    n ←
        update_service (stack, service) wants_running
          (λ v. record v {
            observed_state = Observed.stopped;
            effect_phase = Phase.shutdown_proven;
            session_id = none;
            child_pid = none;
            child_starttime = none;
            boot_id = none;
            last_exit_code = exit_code;
            last_exit_signal = exit_signal;
            next_restart_at = none;
            updated_at = now;
          })
    require_one n service
    refresh_stack_state stack now

  unfoldable pub record_graceful_backoff_stop : Action (Unit {0})
  record_graceful_backoff_stop = do
    now ← unix_time clock
    n ←
        update_service (stack, service)
          (λ v.
            wants_running v
            && v.observed_state is Observed.restarting
            && is_backoff v.effect_phase
            && not (is_null v.next_restart_at)
            && has_no_process v)
          (λ v. record v {
            observed_state = Observed.stopped;
            effect_phase = Phase.shutdown_proven;
            next_restart_at = none;
            updated_at = now;
          })
    require_one n service
    refresh_stack_state stack now

unfoldable pub resumable_services : (stack : Text) → Database → List Text
unfolding select
resumable_services stack db =
    select
      (λ k v.
        is_of stack k v
        && is_running v.desired_state
        && v.observed_state is Observed.stopped
        && is_shutdown_proven v.effect_phase)
      (λ k v. k.1) db.services

pub record ScheduledRestart : Type 0 where
  pub key : ServiceKey
  pub at : Option ℕ
  pub attempts : ℕ

abbrev pub is_due : ℕ → ServiceRow → Bool
is_due now v =
    wants_running v
    && v.observed_state is Observed.restarting
    && is_backoff v.effect_phase
    && deadline_reached now v.next_restart_at
    && has_no_identity v

abbrev pub deadline_le : Option ℕ → Option ℕ → Bool
deadline_le none b = true
deadline_le (some a) none = false
deadline_le (some a) (some b) = leb a b

-- ORDER BY next_restart_at.
abbrev pub earlier : ScheduledRestart → ScheduledRestart → Bool
earlier r s = deadline_le r.at s.at

unfoldable pub due_restarts : (now : ℕ) → Database → List ScheduledRestart
unfolding select sort_by
due_restarts now db = sort_by earlier (
    select (λ k v. is_due now v)
      (λ k v. record { key = k; at = v.next_restart_at; attempts = v.restart_attempts })
      db.services)
