-- ===== src/Runtime/Restarts.antt =====
-- Automatic restarts (src/runtime.rs): what `tick` does with the exit of a child, and how a restart
-- is scheduled within its budget. Code that runs in debug builds only (a restart without delay, a
-- fault injected by a test) is left out, and the logged messages are. The seconds of the clock are
-- taken to stay far below 2^63.
use termux_stacks.Prelude.{
  ℕ, zero, suc, ◌+◌, ◌-◌, Bool, true, false, not, ◌&&◌, ◌||◌, List, [], ◌∷◌, Option, none, some,
  ltb, leb, if◌then◌else◌,
}
use termux_stacks.Prelude.Outcome.{Outcome, done, failed, ◌>>=◌}
use termux_stacks.Ordered.Key.{Text, text_key, nat_key, ◌==◌}
use termux_stacks.Ordered.Map.{get}
use termux_stacks.Manifest.Literal.{ℤ, pos}
use termux_stacks.Manifest.Error
use termux_stacks.Manifest.Error.{Result, fault, err, ok}
use termux_stacks.Manifest.Types.{Manifest, RestartPolicy, never, on_failure, always}
use termux_stacks.Manifest.Validate.{Parsed, parse}
use termux_stacks.Store.Tables.{Database, is_running, is_null}
use termux_stacks.Store.Sql
use termux_stacks.Store.Sql.{not_found}
use termux_stacks.Store.Backoff.{record_exit, mark_runtime_unknown, schedule_restart}
use termux_stacks.Store.Views.{ExistingService, existing_stack}

-- The errors of the runtime that these operations return; `panic` stands for a panic of theirs,
-- and `parser` for a fault of the manifest's reader.
pub data Failure : Type 0 where
  io protocol_state panic : Failure
  store : Sql.Error → Failure
  manifest : Error.Error → Failure
  parser : Error.Fault → Failure

abbrev pub of_store : Outcome Sql.Error (Unit {0} × Database) → Outcome Failure Database
of_store (done x) = done x.1
of_store (failed e) = failed (store e)

abbrev pub of_manifest : Result Manifest → Outcome Failure Manifest
of_manifest (fault f) = failed (parser f)
of_manifest (err e) = failed (manifest e)
of_manifest (ok m) = done m

abbrev pub or_fail : {A : Type 0} → Option A → Failure → Outcome Failure A
or_fail none e = failed e
or_fail (some a) e = done a

abbrev pub stable_window : ℕ
stable_window = 60

abbrev pub max_restart_attempts : ℕ
max_restart_attempts = 5

abbrev restart_delays : List ℕ
restart_delays = 1 ∷ 2 ∷ 4 ∷ 8 ∷ 16 ∷ []

abbrev element : List ℕ → ℕ → Option ℕ
element [] i = none
element (x ∷ xs) zero = some x
element (x ∷ xs) (suc i) = element xs i

-- `none` is the panic of an index out of bounds.
unfoldable pub restart_delay_seconds : (previous_attempts : ℕ) → Option ℕ
restart_delay_seconds previous_attempts = element restart_delays previous_attempts

abbrev is_zero : Option ℤ → Bool
is_zero (some (pos zero)) = true
is_zero _ = false

-- Of an exit status its code and its signal; it is a success if the code is 0.
unfoldable pub should_restart : RestartPolicy → (code signal : Option ℤ) → Bool
should_restart never code signal = false
should_restart on_failure code signal = not (is_zero code)
should_restart always code signal = true

unfoldable pub should_restart_parts : RestartPolicy → (code signal : Option ℤ) → Bool
should_restart_parts policy code (some signal) = false
should_restart_parts never code none = false
should_restart_parts on_failure code none = not (is_null code) && not (is_zero code)
should_restart_parts always code none = not (is_null code)

unfoldable pub active_window : (now : ℕ) → Option ℕ → Option ℕ
active_window now none = none
active_window now (some started) =
    if leb started now && ltb (now - started) stable_window then some started else none

-- `u32::try_from(..).unwrap_or(u32::MAX)`
abbrev pub saturated : ℕ → ℕ
saturated n = if leb n 4294967295 then n else 4294967295

-- The attempts used in the window, and the window's start: a new window where none is active.
abbrev pub budget : (now attempts : ℕ) → Option ℕ → ℕ × ℕ
budget now attempts none = (0, now)
budget now attempts (some started) = (saturated attempts, started)

abbrev pub find_service : Text → List ExistingService → Option ExistingService
find_service name [] = none
find_service name (s ∷ services) =
    let rest = find_service name services in if s.name == name then some s else rest

abbrev pub contains : ℕ → List ℕ → Bool
contains n [] = false
contains n (m ∷ ms) = (m == n) || contains n ms

-- `sessions` is what the engine lists, `none` where it returns an error.
unfoldable pub registry_ambiguous : (session_id : Option ℕ) (sessions : Option (List ℕ)) → Bool
registry_ambiguous none sessions = true
registry_ambiguous (some session) none = true
registry_ambiguous (some session) (some sessions) = contains session sessions

-- `now` is what the runtime read, `clock` what the store reads.
module _ (clock : Option ℕ) (stack service : Text) where
  unfoldable pub schedule_next : (now : ℕ) (used : ℕ × ℕ) → Database → Outcome Failure Database
  schedule_next now (previous, window_started_at) db =
      if leb max_restart_attempts previous then done db else elim (restart_delay_seconds previous) [
        | none ↦ failed panic
        | some delay ↦
            of_store (
              schedule_restart clock stack service (previous + 1) window_started_at (now + delay)
                db)
      ]

  module _ (read_now : Option ℕ) where
    -- `is_json` is the library's parser of the persisted configuration, whose value is not used.
    unfoldable pub schedule_restart_after_exit :
        (is_json : Text → Bool) (elapsed : ℕ) → Database → Outcome Failure Database
    unfolding schedule_next active_window
    schedule_restart_after_exit is_json elapsed db = do
      existing ← or_fail (existing_stack stack db) (store (not_found stack))
      if not (is_running existing.desired_state)
          then done db
          else or_fail (find_service service existing.services) (store (not_found service))
            >>= λ persisted.
                if not (is_json persisted.row.config_json)
                then failed protocol_state
                else or_fail read_now io >>= λ now.
                    schedule_next now
                      (if leb stable_window elapsed
                        then (0, now)
                        else budget now persisted.row.restart_attempts
                            (active_window now persisted.row.restart_window_started_at))
                      db

    unfoldable pub reschedule_after_early_exit :
        (events : Text → List Parsed) (attempts : ℕ) (code signal : Option ℤ)
        → Database
        → Outcome Failure Database
    unfolding schedule_next active_window
    reschedule_after_early_exit events attempts code signal db = do
      existing ← or_fail (existing_stack stack db) (store (not_found stack))
      m ← of_manifest (parse events existing.source)
      definition ← or_fail (get service m.services) (store (not_found service))
      if not (should_restart_parts definition.restart code signal)
          then done db
          else or_fail (find_service service existing.services) (store (not_found service))
            >>= λ persisted. or_fail read_now io >>= λ now.
                schedule_next now
                  (budget now attempts (active_window now persisted.row.restart_window_started_at))
                  db

    -- What `tick` does once a child has exited: the tables, and whether the child is forgotten.
    unfoldable pub exited_child :
        (is_json : Text → Bool) (restart : RestartPolicy) (elapsed : ℕ)
        → (session_id : Option ℕ) (sessions : Option (List ℕ)) (code signal : Option ℤ) → Database
        → Bool × Database
    unfolding schedule_restart_after_exit
    exited_child is_json restart elapsed session_id sessions code signal db =
        if not (is_null signal) || registry_ambiguous session_id sessions
        then elim (mark_runtime_unknown clock stack service db) [
          | done (u, after) ↦ (true, after)
          | failed e ↦ (false, db)
        ]
        else elim (record_exit clock stack service code signal db) [
          | failed e ↦ (false, db)
          | done (u, recorded) ↦ (
            true,
            if should_restart restart code signal
                then elim (schedule_restart_after_exit is_json elapsed recorded) [
                  | done after ↦ after
                  | failed e ↦ recorded
                ]
                else recorded,
          )
        ]
