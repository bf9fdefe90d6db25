-- ===== src/Store/Keeps/Phases.antt =====
-- For the phases of a service in an operation (src/store.rs): what they keep of the tables.
use termux_stacks.Prelude.{ℕ, ◌≡◌, refl, Bool, true, false, Option}
use termux_stacks.Ordered.Key.{Text}
use termux_stacks.Manifest.Literal.{ℤ}
use termux_stacks.Store.Tables.{Phase, is_backoff}
use termux_stacks.Store.Phases.{
  set_candidate_phase, mark_logs_prepared, mark_install_invoked, mark_installed,
  mark_rootfs_unknown, mark_start_invoked, mark_running, mark_service_failed, mark_stop_invoked,
  mark_stopped, finalize_operation_failure,
}
use termux_stacks.Store.View.{Kept_frame}
use termux_stacks.Store.Keeps.Rules.{KeepsView, actions}

module _ (clock : Option ℕ) (request stack service : Text) where
  set_candidate_phase-Keeps :
      (phase : Phase)
      → is_backoff phase ≡ false
      → KeepsView (set_candidate_phase clock request stack service phase)
  unfolding set_candidate_phase
  set_candidate_phase-Keeps phase h = search actions depth 30 fits 3000

  pub mark_logs_prepared-Keeps : KeepsView (mark_logs_prepared clock request stack service)
  unfolding mark_logs_prepared
  mark_logs_prepared-Keeps = set_candidate_phase-Keeps Phase.logs_prepared refl

  pub mark_install_invoked-Keeps : KeepsView (mark_install_invoked clock request stack service)
  unfolding mark_install_invoked
  mark_install_invoked-Keeps = set_candidate_phase-Keeps Phase.install_invoked refl

  pub mark_start_invoked-Keeps : KeepsView (mark_start_invoked clock request stack service)
  unfolding mark_start_invoked
  mark_start_invoked-Keeps = set_candidate_phase-Keeps Phase.start_invoked refl

  pub mark_stop_invoked-Keeps : KeepsView (mark_stop_invoked clock request stack service)
  unfolding mark_stop_invoked
  mark_stop_invoked-Keeps = set_candidate_phase-Keeps Phase.stop_invoked refl

  pub mark_installed-Keeps : KeepsView (mark_installed clock request stack service)
  unfolding mark_installed
  mark_installed-Keeps = search actions depth 30 fits 3000

  pub mark_rootfs_unknown-Keeps : KeepsView (mark_rootfs_unknown clock request stack service)
  unfolding mark_rootfs_unknown
  mark_rootfs_unknown-Keeps = search actions depth 30 fits 3000

  pub mark_running-Keeps :
      (session : ℕ) → KeepsView (mark_running clock request stack service session)
  unfolding mark_running
  mark_running-Keeps session = search actions depth 30 fits 3000

  pub mark_service_failed-Keeps :
      (code message : Text) (unknown : Bool)
      → KeepsView (mark_service_failed clock request stack service code message unknown)
  unfolding mark_service_failed
  mark_service_failed-Keeps code message true = search actions depth 30 fits 3000
  mark_service_failed-Keeps code message false = search actions depth 30 fits 3000

  pub mark_stopped-Keeps :
      (exit_code exit_signal : Option ℤ)
      → KeepsView (mark_stopped clock request stack service exit_code exit_signal)
  unfolding mark_stopped
  mark_stopped-Keeps exit_code exit_signal = search actions depth 30 fits 3000

pub finalize_operation_failure-Keeps :
    (clock : Option ℕ) (request stack code message : Text)
    → KeepsView (finalize_operation_failure clock request stack code message)
unfolding finalize_operation_failure
finalize_operation_failure-Keeps clock request stack code message =
    search actions depth 30 fits 3000
