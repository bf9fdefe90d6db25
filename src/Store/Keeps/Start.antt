-- ===== src/Store/Keeps/Start.antt =====
-- For starting the committed rootfs (src/store.rs): what it keeps of the tables.
use termux_stacks.Prelude.{ℕ, List, Option}
use termux_stacks.Ordered.Key.{Text}
use termux_stacks.Manifest.Literal.{ℤ}
use termux_stacks.Store.Rows.{OperationRow}
use termux_stacks.Store.Start.{
  start_service, begin_start_current, begin_restart, mark_restart_stop_invoked,
  mark_restart_stopped, commit_start, finish_start_current, finish_restart,
}
use termux_stacks.Store.View.{Kept_frame}
use termux_stacks.Store.Keeps.Rules.{KeepsView, actions}

start_service-Keeps :
    (request stack : Text) (now ordinal : ℕ) (service : Text)
    → KeepsView (start_service request stack now ordinal service)
unfolding start_service
start_service-Keeps request stack now ordinal service = search actions depth 40 fits 5000

pub begin_start_current-Keeps :
    (clock : Option ℕ) (request stack : Text) (operation : Text) (services : List Text)
    (target_service candidate_manifest manifest_base : Option Text)
    → KeepsView (
        begin_start_current clock request stack operation services target_service candidate_manifest
          manifest_base)
unfolding begin_start_current
begin_start_current-Keeps clock request stack operation services target_service candidate_manifest
      manifest_base =
    search (actions, start_service-Keeps) depth 40 fits 5000

pub begin_restart-Keeps :
    (clock : Option ℕ) (request stack : Text) (service : Text)
    → KeepsView (begin_restart clock request stack service)
unfolding begin_restart
begin_restart-Keeps clock request stack service = search actions depth 40 fits 5000

pub mark_restart_stop_invoked-Keeps :
    (clock : Option ℕ) (request stack : Text) (service : Text)
    → KeepsView (mark_restart_stop_invoked clock request stack service)
unfolding mark_restart_stop_invoked
mark_restart_stop_invoked-Keeps clock request stack service = search actions depth 40 fits 5000

pub mark_restart_stopped-Keeps :
    (clock : Option ℕ) (request stack : Text) (service : Text) (exit_code exit_signal : Option ℤ)
    → KeepsView (mark_restart_stopped clock request stack service exit_code exit_signal)
unfolding mark_restart_stopped
mark_restart_stopped-Keeps clock request stack service exit_code exit_signal =
    search actions depth 40 fits 5000

commit_start-Keeps :
    (clock : Option ℕ) (request stack : Text) (now : ℕ) (row : OperationRow)
    → KeepsView (commit_start clock request stack now row)
unfolding commit_start
commit_start-Keeps clock request stack now row = search actions depth 40 fits 5000

pub finish_start_current-Keeps :
    (clock : Option ℕ) (request stack : Text) → KeepsView (finish_start_current clock request stack)
unfolding finish_start_current
finish_start_current-Keeps clock request stack =
    search (actions, commit_start-Keeps) depth 40 fits 5000

pub finish_restart-Keeps :
    (clock : Option ℕ) (request stack : Text) (service : Text)
    → KeepsView (finish_restart clock request stack service)
unfolding finish_restart
finish_restart-Keeps clock request stack service =
    search (actions, finish_start_current-Keeps) depth 40 fits 5000
