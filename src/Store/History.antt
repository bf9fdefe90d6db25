-- ===== src/Store/History.antt =====
-- The calls of the store (src/store.rs: `impl Store`) and sequences of them: each call is a
-- transaction, and one that fails leaves the tables as they were.
use termux_stacks.Prelude.{ℕ, Bool, true, false, List, [], ◌∷◌, Option}
use termux_stacks.Ordered.Key.{Text}
use termux_stacks.Ordered.Map.{BTreeMap}
use termux_stacks.Manifest.Literal.{ℤ}
use termux_stacks.Manifest.Types.{Manifest, Service}
use termux_stacks.Store.Tables.{Database}
use termux_stacks.Store.Sql.{Action, ◌>>=◌, pure, transaction}
use termux_stacks.Store.Up.{ServicePlan}
use termux_stacks.Store.Begin
use termux_stacks.Store.Recover
use termux_stacks.Store.Commit
use termux_stacks.Store.Phases
use termux_stacks.Store.Down
use termux_stacks.Store.Start
use termux_stacks.Store.Backoff
use termux_stacks.Store.Cold

pub data Call : Type 0 where
  begin_up : Text → Text → Text → Manifest → BTreeMap Text ServicePlan → Call
  begin_candidate_recovery : Text → Text → Text → Manifest → BTreeMap Text ServicePlan → Call
  commit_up : Text → Text → Call
  record_noop_up : Text → Text → Text → Text → Call
  cache_response : Text → Text → Call
  mark_logs_prepared : Text → Text → Text → Call
  mark_install_invoked : Text → Text → Text → Call
  mark_installed : Text → Text → Text → Call
  mark_rootfs_unknown : Text → Text → Text → Call
  mark_start_invoked : Text → Text → Text → Call
  mark_starting : Text → Text → Text → ℕ → ℕ → Text → Call
  mark_running : Text → Text → Text → ℕ → Call
  mark_service_failed : Text → Text → Text → Text → Text → Bool → Call
  mark_stop_invoked : Text → Text → Text → Call
  mark_stopped : Text → Text → Text → Option ℤ → Option ℤ → Call
  finalize_operation_failure : Text → Text → Text → Text → Call
  begin_down : Text → Text → List Text → Call
  finish_down : Text → Text → Call
  finalize_down_failure : Text → Text → Text → Text → Call
  begin_start_current :
      Text → Text → Text → List Text → Option Text → Option Text → Option Text → Call
  begin_restart : Text → Text → Text → Call
  mark_restart_stop_invoked : Text → Text → Text → Call
  mark_restart_stopped : Text → Text → Text → Option ℤ → Option ℤ → Call
  finish_restart : Text → Text → Text → Call
  finish_start_current : Text → Text → Call
  record_exit : Text → Text → Option ℤ → Option ℤ → Call
  mark_runtime_unknown : Text → Text → Call
  schedule_restart : Text → Text → ℕ → ℕ → ℕ → Call
  defer_restart : Text → Text → ℕ → Call
  restore_restart_backoff : Text → Text → ℕ → Call
  mark_restart_invoked : Text → Text → Call
  mark_restart_starting : Text → Text → ℕ → ℕ → Text → Call
  mark_restart_running : Text → Text → ℕ → Call
  record_graceful_stop : Text → Text → Option ℤ → Option ℤ → Call
  record_graceful_backoff_stop : Text → Text → Call
  reconcile_cold_start : Call

-- Only this call makes a candidate the committed revision.
abbrev pub is_commit : Call → Bool
is_commit (Call.commit_up request stack) = true
is_commit _ = false

unfoldable pub ignore : {A : Type 0} → Action A → Action (Unit {0})
unfolding pure
ignore m = m >>= λ _. pure tt

module _ (config_json : Service → Text) where
  unfoldable pub perform : (clock : Option ℕ) → Call → Action (Unit {0})
  unfolding ignore
  perform clock (Call.begin_up request source manifest_base manifest plans) =
      ignore (Begin.begin_up config_json clock request source manifest_base manifest plans)
  perform clock (Call.begin_candidate_recovery request source manifest_base manifest plans) =
      ignore (
        Recover.begin_candidate_recovery config_json clock request source manifest_base manifest
          plans)
  perform clock (Call.commit_up request stack) = Commit.commit_up clock request stack
  perform clock (Call.record_noop_up request stack candidate_manifest manifest_base) =
      Commit.record_noop_up clock request stack candidate_manifest manifest_base
  perform clock (Call.cache_response request json) = Commit.cache_response clock request json
  perform clock (Call.mark_logs_prepared request stack service) =
      Phases.mark_logs_prepared clock request stack service
  perform clock (Call.mark_install_invoked request stack service) =
      Phases.mark_install_invoked clock request stack service
  perform clock (Call.mark_installed request stack service) =
      Phases.mark_installed clock request stack service
  perform clock (Call.mark_rootfs_unknown request stack service) =
      Phases.mark_rootfs_unknown clock request stack service
  perform clock (Call.mark_start_invoked request stack service) =
      Phases.mark_start_invoked clock request stack service
  perform clock (Call.mark_starting request stack service pid starttime boot) =
      Phases.mark_starting clock request stack service pid starttime boot
  perform clock (Call.mark_running request stack service session) =
      Phases.mark_running clock request stack service session
  perform clock (Call.mark_service_failed request stack service code message unknown) =
      Phases.mark_service_failed clock request stack service code message unknown
  perform clock (Call.mark_stop_invoked request stack service) =
      Phases.mark_stop_invoked clock request stack service
  perform clock (Call.mark_stopped request stack service exit_code exit_signal) =
      Phases.mark_stopped clock request stack service exit_code exit_signal
  perform clock (Call.finalize_operation_failure request stack code message) =
      Phases.finalize_operation_failure clock request stack code message
  perform clock (Call.begin_down request stack stop_order) =
      Down.begin_down clock request stack stop_order
  perform clock (Call.finish_down request stack) = Down.finish_down clock request stack
  perform clock (Call.finalize_down_failure request stack code message) =
      Down.finalize_down_failure clock request stack code message
  perform clock
        (Call.begin_start_current request stack operation services target_service candidate_manifest
          manifest_base) =
      Start.begin_start_current clock request stack operation services target_service
        candidate_manifest manifest_base
  perform clock (Call.begin_restart request stack service) =
      Start.begin_restart clock request stack service
  perform clock (Call.mark_restart_stop_invoked request stack service) =
      Start.mark_restart_stop_invoked clock request stack service
  perform clock (Call.mark_restart_stopped request stack service exit_code exit_signal) =
      Start.mark_restart_stopped clock request stack service exit_code exit_signal
  perform clock (Call.finish_restart request stack service) =
      Start.finish_restart clock request stack service
  perform clock (Call.finish_start_current request stack) =
      Start.finish_start_current clock request stack
  perform clock (Call.record_exit stack service exit_code exit_signal) =
      Backoff.record_exit clock stack service exit_code exit_signal
  perform clock (Call.mark_runtime_unknown stack service) =
      Backoff.mark_runtime_unknown clock stack service
  perform clock (Call.schedule_restart stack service attempts window_started_at next_attempt_at) =
      Backoff.schedule_restart clock stack service attempts window_started_at next_attempt_at
  perform clock (Call.defer_restart stack service next_attempt_at) =
      Backoff.defer_restart clock stack service next_attempt_at
  perform clock (Call.restore_restart_backoff stack service next_attempt_at) =
      Backoff.restore_restart_backoff clock stack service next_attempt_at
  perform clock (Call.mark_restart_invoked stack service) =
      Backoff.mark_restart_invoked clock stack service
  perform clock (Call.mark_restart_starting stack service pid starttime boot) =
      Backoff.mark_restart_starting clock stack service pid starttime boot
  perform clock (Call.mark_restart_running stack service session) =
      Backoff.mark_restart_running clock stack service session
  perform clock (Call.record_graceful_stop stack service exit_code exit_signal) =
      Backoff.record_graceful_stop clock stack service exit_code exit_signal
  perform clock (Call.record_graceful_backoff_stop stack service) =
      Backoff.record_graceful_backoff_stop clock stack service
  perform clock Call.reconcile_cold_start = ignore (Cold.reconcile_cold_start clock)

  -- A sequence of calls, each with the clock's reading.
  unfoldable pub history : List (Option ℕ × Call) → Database → Database
  unfolding perform transaction
  history [] db = db
  history ((clock, call) ∷ calls) db = history calls (transaction (perform clock call) db).1
