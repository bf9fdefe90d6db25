-- ===== src/Store/Keeps/Backoff.antt =====
-- For exits and automatic restarts (src/store.rs): what they keep of the tables.
use termux_stacks.Prelude.{ℕ, refl, Option, arith}
use termux_stacks.Ordered.Key.{Text}
use termux_stacks.Manifest.Literal.{ℤ}
use termux_stacks.Store.Backoff.{
  record_exit, mark_runtime_unknown, schedule_restart, defer_restart, restore_restart_backoff,
  mark_restart_invoked, mark_restart_starting, mark_restart_running, record_graceful_stop,
  record_graceful_backoff_stop,
}
use termux_stacks.Store.Effect.{chain, unix_time-Keeps}
use termux_stacks.Store.Statements.{update_service-Keeps}
use termux_stacks.Store.View.{Kept_frame}
use termux_stacks.Store.Keeps.Rules.{KeepsView, actions}

pub record_exit-Keeps :
    (clock : Option ℕ) (stack service : Text) (exit_code exit_signal : Option ℤ)
    → KeepsView (record_exit clock stack service exit_code exit_signal)
unfolding record_exit
record_exit-Keeps clock stack service exit_code exit_signal = search actions depth 40 fits 5000

pub mark_runtime_unknown-Keeps :
    (clock : Option ℕ) (stack service : Text) → KeepsView (mark_runtime_unknown clock stack service)
unfolding mark_runtime_unknown
mark_runtime_unknown-Keeps clock stack service = search actions depth 40 fits 5000

pub schedule_restart-Keeps :
    (clock : Option ℕ) (stack service : Text) (attempts window_started_at next_attempt_at : ℕ)
    → KeepsView (schedule_restart clock stack service attempts window_started_at next_attempt_at)
unfolding schedule_restart
schedule_restart-Keeps clock stack service attempts window_started_at next_attempt_at =
    chain _ _ (unix_time-Keeps clock) λ now.
      chain _ _ (update_service-Keeps _ _ _ (λ v g. (refl, refl)) λ v g i. ground arith)
        λ n. search actions depth 40 fits 5000

pub defer_restart-Keeps :
    (clock : Option ℕ) (stack service : Text) (next_attempt_at : ℕ)
    → KeepsView (defer_restart clock stack service next_attempt_at)
unfolding defer_restart
defer_restart-Keeps clock stack service next_attempt_at = chain _ _ (unix_time-Keeps clock) λ now.
    chain _ _ (update_service-Keeps _ _ _ (λ v g. (refl, refl)) λ v g i. ground arith)
      λ n. search actions depth 40 fits 5000

pub restore_restart_backoff-Keeps :
    (clock : Option ℕ) (stack service : Text) (next_attempt_at : ℕ)
    → KeepsView (restore_restart_backoff clock stack service next_attempt_at)
unfolding restore_restart_backoff
restore_restart_backoff-Keeps clock stack service next_attempt_at =
    chain _ _ (unix_time-Keeps clock) λ now.
      chain _ _ (update_service-Keeps _ _ _ (λ v g. (refl, refl)) λ v g i. ground arith)
        λ n. search actions depth 40 fits 5000

pub mark_restart_invoked-Keeps :
    (clock : Option ℕ) (stack service : Text) → KeepsView (mark_restart_invoked clock stack service)
unfolding mark_restart_invoked
mark_restart_invoked-Keeps clock stack service = search actions depth 40 fits 5000

pub mark_restart_starting-Keeps :
    (clock : Option ℕ) (stack service : Text) (pid starttime : ℕ) (boot : Text)
    → KeepsView (mark_restart_starting clock stack service pid starttime boot)
unfolding mark_restart_starting
mark_restart_starting-Keeps clock stack service pid starttime boot =
    search actions depth 40 fits 5000

pub mark_restart_running-Keeps :
    (clock : Option ℕ) (stack service : Text) (session : ℕ)
    → KeepsView (mark_restart_running clock stack service session)
unfolding mark_restart_running
mark_restart_running-Keeps clock stack service session = search actions depth 40 fits 5000

pub record_graceful_stop-Keeps :
    (clock : Option ℕ) (stack service : Text) (exit_code exit_signal : Option ℤ)
    → KeepsView (record_graceful_stop clock stack service exit_code exit_signal)
unfolding record_graceful_stop
record_graceful_stop-Keeps clock stack service exit_code exit_signal =
    search actions depth 40 fits 5000

pub record_graceful_backoff_stop-Keeps :
    (clock : Option ℕ) (stack service : Text)
    → KeepsView (record_graceful_backoff_stop clock stack service)
unfolding record_graceful_backoff_stop
record_graceful_backoff_stop-Keeps clock stack service = search actions depth 40 fits 5000
