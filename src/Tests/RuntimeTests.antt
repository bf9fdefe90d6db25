-- ===== src/Tests/RuntimeTests.antt =====
-- The runtime's restarts at the stack of the store's tests.
use termux_stacks.Prelude.{
  ℕ, List, [], ◌∷◌, map, Option, none, some, Bool, true, ◌≡◌, ◌↔◌, refl, leb, false,
}
use termux_stacks.Ordered.Key.{Text, text}
use termux_stacks.Manifest.Literal.{ℤ, pos}
use termux_stacks.Manifest.Types.{on_failure}
use termux_stacks.Manifest.Validate.{Parsed, event}
use termux_stacks.Store.Tables.{Database}
use termux_stacks.Store.Backoff
use termux_stacks.Store.Views
use termux_stacks.Runtime.Restarts
use termux_stacks.Runtime.Restarts.{
  Failure, registry_ambiguous, schedule_restart_after_exit, reschedule_after_early_exit,
  exited_child,
}
use termux_stacks.Runtime.Bounded.{
  ShallRun, IsBadConfig, AsksFor, HasPolicy, schedule_restart_after_exit-MayRestart,
  reschedule_after_early_exit-MayRestart,
}
use termux_stacks.Runtime.Schedule.{MayRestart}
use termux_stacks.Runtime.Exits.{IsHandled, exited_child-IsHandled}
use termux_stacks.Manifest.Types.{Service}
use termux_stacks.Store.History.{Call, history}
use termux_stacks.Store.Views.{OperationReplay, replay, operation_replay}
use termux_stacks.Runtime.Replay.{IsRequest, replay_matches, replay_matches-IsRequest}
use termux_stacks.Tests.Sample.{sample_events}
use termux_stacks.Tests.StoreSample.{
  notes, api, request, operation, tables, waiting, clock, store_code,
}

abbrev any_json : Text → Bool
any_json t = true

-- The attempts, the window and the deadline of each service.
abbrev schedule : Database → List (ℕ × Option ℕ × Option ℕ)
schedule db =
    map (λ r. (r.1.restart_attempts, r.1.restart_window_started_at, r.1.next_restart_at))
      db.services

abbrev handled : Option ℤ → Option ℤ → Bool × Database
handled code signal =
    exited_child clock notes api (some 95) any_json on_failure 10 (some 7) (some []) code signal
      tables

restarts : schedule (handled (some (pos 1)) none).1 ≡ (1, some 95, some 96) ∷ []
unfolding store_code exited_child registry_ambiguous Restarts.should_restart
    Restarts.restart_delay_seconds Backoff.record_exit Backoff.schedule_restart Views.existing_stack
restarts = refl

does_not_restart : schedule (handled none (some (pos 9))).1 ≡ (0, none, none) ∷ []
unfolding store_code exited_child Backoff.mark_runtime_unknown
does_not_restart = refl

schedule_restart_after_exit-MayRestart_example :
    MayRestart clock
      (some 95)
      (leb 60 10)
      (λ v. v.restart_attempts)
      (ShallRun true notes waiting)
      (ShallRun false notes waiting)
      (IsBadConfig any_json notes api waiting)
      notes
      api
      waiting
      (schedule_restart_after_exit clock notes api (some 95) any_json 10 waiting)
schedule_restart_after_exit-MayRestart_example =
    schedule_restart_after_exit-MayRestart clock (some 95) notes api waiting any_json 10

abbrev events : Text → List Parsed
events t = map (λ e. event e.0 e.1) sample_events

reschedule_after_early_exit-MayRestart_example :
    MayRestart clock
      (some 95)
      false
      (λ v. 3)
      (HasPolicy (λ p. AsksFor p (some (pos 1)) none) events notes api waiting)
      (HasPolicy (λ p. AsksFor p (some (pos 1)) none → ⊥) events notes api waiting)
      (HasPolicy (λ p. Unit) events notes api waiting → ⊥)
      notes
      api
      waiting
      (reschedule_after_early_exit clock notes api (some 95) events 3 (some (pos 1)) none waiting)
reschedule_after_early_exit-MayRestart_example =
    reschedule_after_early_exit-MayRestart clock (some 95) notes api waiting events 3 (some (pos 1))
      none

exited_child-IsHandled_example :
    IsHandled clock
      (some 95)
      notes
      api
      any_json
      on_failure
      10
      (some 7)
      (some [])
      (some (pos 1))
      none
      tables
      (handled (some (pos 1)) none)
exited_child-IsHandled_example =
    exited_child-IsHandled clock (some 95) notes api any_json on_failure 10 (some 7) (some [])
      (some (pos 1)) none tables

abbrev json : Service → Text
json service = service.name

abbrev calls : List (Option ℕ × Call)
calls = (some 96, Call.mark_restart_invoked notes api) ∷ []

replay_matches-IsRequest_example :
    (q : OperationReplay) × (operation_replay request (history json calls tables) ≡ some q)
    × ((replay_matches q (text "up") notes (some (text "new")) (some (text "/srv")) none ≡ true)
        ↔ IsRequest operation (text "up") notes (some (text "new")) (some (text "/srv")) none)
unfolding store_code operation_replay
replay_matches-IsRequest_example =
    replay_matches-IsRequest (text "up") notes (some (text "new")) (some (text "/srv")) none json
      calls tables request operation refl
