-- ===== src/Store/Keeps/Calls.antt =====
-- For every call of the store (src/store.rs): what it keeps of the tables.
use termux_stacks.Prelude.{ℕ, true, false, ◌≡◌, refl, arith, Option}
use termux_stacks.Manifest.Types.{Service}
use termux_stacks.Ordered.Key.{Text}
use termux_stacks.Store.Sql.{Action}
use termux_stacks.Store.History.{Call, is_commit, ignore, perform}
use termux_stacks.Store.Effect.{Keeps, chain, pure-Keeps, weaken}
use termux_stacks.Store.View.{Kept, Kept_frame, Kept-weaken}
use termux_stacks.Store.Keeps.Rules.{KeepsView}
use termux_stacks.Store.Keeps.Up.{begin_up-Keeps, record_noop_up-Keeps, cache_response-Keeps}
use termux_stacks.Store.Keeps.Recover.{begin_candidate_recovery-Keeps}
use termux_stacks.Store.Keeps.Commit.{commit_up-Keeps}
use termux_stacks.Store.Keeps.Phases.{
  mark_logs_prepared-Keeps, mark_install_invoked-Keeps, mark_installed-Keeps,
  mark_rootfs_unknown-Keeps, mark_start_invoked-Keeps, mark_running-Keeps,
  mark_service_failed-Keeps, mark_stop_invoked-Keeps, mark_stopped-Keeps,
  finalize_operation_failure-Keeps,
}
use termux_stacks.Store.Keeps.Starting.{mark_starting-Keeps}
use termux_stacks.Store.Keeps.Down.{
  begin_down-Keeps, finish_down-Keeps, finalize_down_failure-Keeps,
}
use termux_stacks.Store.Keeps.Start.{
  begin_start_current-Keeps, begin_restart-Keeps, mark_restart_stop_invoked-Keeps,
  mark_restart_stopped-Keeps, finish_restart-Keeps, finish_start_current-Keeps,
}
use termux_stacks.Store.Keeps.Backoff.{
  record_exit-Keeps, mark_runtime_unknown-Keeps, schedule_restart-Keeps, defer_restart-Keeps,
  restore_restart_backoff-Keeps, mark_restart_invoked-Keeps, mark_restart_starting-Keeps,
  mark_restart_running-Keeps, record_graceful_stop-Keeps, record_graceful_backoff_stop-Keeps,
}
use termux_stacks.Store.Keeps.Cold.{reconcile_cold_start-Keeps}

ignore-Keeps : {A : Type 0} (m : Action A) → KeepsView m → KeepsView (ignore m)
unfolding ignore
ignore-Keeps m h = chain m _ h λ a. pure-Keeps tt

module _ (config_json : Service → Text) where
  -- All calls but `commit_up`.
  pub perform-KeepsView :
      (clock : Option ℕ) (call : Call)
      → is_commit call ≡ false
      → KeepsView (perform config_json clock call)
  unfolding perform
  perform-KeepsView clock (Call.begin_up request source manifest_base manifest plans) h =
      ignore-Keeps _ (begin_up-Keeps config_json clock request source manifest_base manifest plans)
  perform-KeepsView clock
        (Call.begin_candidate_recovery request source manifest_base manifest plans) h =
      ignore-Keeps _ (
        begin_candidate_recovery-Keeps config_json clock request source manifest_base manifest
          plans)
  perform-KeepsView clock (Call.commit_up request stack) h = ground arith
  perform-KeepsView clock (Call.record_noop_up request stack candidate_manifest manifest_base) h =
      record_noop_up-Keeps clock request stack candidate_manifest manifest_base
  perform-KeepsView clock (Call.cache_response request json) h =
      cache_response-Keeps clock request json
  perform-KeepsView clock (Call.mark_logs_prepared request stack service) h =
      mark_logs_prepared-Keeps clock request stack service
  perform-KeepsView clock (Call.mark_install_invoked request stack service) h =
      mark_install_invoked-Keeps clock request stack service
  perform-KeepsView clock (Call.mark_installed request stack service) h =
      mark_installed-Keeps clock request stack service
  perform-KeepsView clock (Call.mark_rootfs_unknown request stack service) h =
      mark_rootfs_unknown-Keeps clock request stack service
  perform-KeepsView clock (Call.mark_start_invoked request stack service) h =
      mark_start_invoked-Keeps clock request stack service
  perform-KeepsView clock (Call.mark_starting request stack service pid starttime boot) h =
      mark_starting-Keeps clock request stack service pid starttime boot
  perform-KeepsView clock (Call.mark_running request stack service session) h =
      mark_running-Keeps clock request stack service session
  perform-KeepsView clock (Call.mark_service_failed request stack service code message unknown) h =
      mark_service_failed-Keeps clock request stack service code message unknown
  perform-KeepsView clock (Call.mark_stop_invoked request stack service) h =
      mark_stop_invoked-Keeps clock request stack service
  perform-KeepsView clock (Call.mark_stopped request stack service exit_code exit_signal) h =
      mark_stopped-Keeps clock request stack service exit_code exit_signal
  perform-KeepsView clock (Call.finalize_operation_failure request stack code message) h =
      finalize_operation_failure-Keeps clock request stack code message
  perform-KeepsView clock (Call.begin_down request stack stop_order) h =
      begin_down-Keeps clock request stack stop_order
  perform-KeepsView clock (Call.finish_down request stack) h = finish_down-Keeps clock request stack
  perform-KeepsView clock (Call.finalize_down_failure request stack code message) h =
      finalize_down_failure-Keeps clock request stack code message
  perform-KeepsView clock
        (Call.begin_start_current request stack operation services target_service candidate_manifest
          manifest_base)
        h =
      begin_start_current-Keeps clock request stack operation services target_service
        candidate_manifest manifest_base
  perform-KeepsView clock (Call.begin_restart request stack service) h =
      begin_restart-Keeps clock request stack service
  perform-KeepsView clock (Call.mark_restart_stop_invoked request stack service) h =
      mark_restart_stop_invoked-Keeps clock request stack service
  perform-KeepsView clock (Call.mark_restart_stopped request stack service exit_code exit_signal)
        h =
      mark_restart_stopped-Keeps clock request stack service exit_code exit_signal
  perform-KeepsView clock (Call.finish_restart request stack service) h =
      finish_restart-Keeps clock request stack service
  perform-KeepsView clock (Call.finish_start_current request stack) h =
      finish_start_current-Keeps clock request stack
  perform-KeepsView clock (Call.record_exit stack service exit_code exit_signal) h =
      record_exit-Keeps clock stack service exit_code exit_signal
  perform-KeepsView clock (Call.mark_runtime_unknown stack service) h =
      mark_runtime_unknown-Keeps clock stack service
  perform-KeepsView clock
        (Call.schedule_restart stack service attempts window_started_at next_attempt_at) h =
      schedule_restart-Keeps clock stack service attempts window_started_at next_attempt_at
  perform-KeepsView clock (Call.defer_restart stack service next_attempt_at) h =
      defer_restart-Keeps clock stack service next_attempt_at
  perform-KeepsView clock (Call.restore_restart_backoff stack service next_attempt_at) h =
      restore_restart_backoff-Keeps clock stack service next_attempt_at
  perform-KeepsView clock (Call.mark_restart_invoked stack service) h =
      mark_restart_invoked-Keeps clock stack service
  perform-KeepsView clock (Call.mark_restart_starting stack service pid starttime boot) h =
      mark_restart_starting-Keeps clock stack service pid starttime boot
  perform-KeepsView clock (Call.mark_restart_running stack service session) h =
      mark_restart_running-Keeps clock stack service session
  perform-KeepsView clock (Call.record_graceful_stop stack service exit_code exit_signal) h =
      record_graceful_stop-Keeps clock stack service exit_code exit_signal
  perform-KeepsView clock (Call.record_graceful_backoff_stop stack service) h =
      record_graceful_backoff_stop-Keeps clock stack service
  perform-KeepsView clock Call.reconcile_cold_start h =
      ignore-Keeps _ (reconcile_cold_start-Keeps clock)

  pub perform-Keeps :
      (clock : Option ℕ) (call : Call) → Keeps (Kept true) (perform config_json clock call)
  unfolding perform
  perform-Keeps clock (Call.commit_up request stack) = commit_up-Keeps clock request stack
  perform-Keeps clock call =
      weaken (Kept false) (Kept true) _ Kept-weaken (perform-KeepsView clock call refl)
