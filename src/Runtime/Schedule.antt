-- ===== src/Runtime/Schedule.antt =====
-- What a scheduling of a restart may end in (src/runtime.rs: `schedule_restart_after_exit`,
-- `reschedule_after_early_exit`).
use termux_stacks.Prelude.{
  ℕ, ◌+◌, ◌-◌, ◌^◌, ◌≤◌, ◌<◌, ◌≡◌, Bool, true, false, ◌⊎◌, ◌∷◌, Option, none, some,
}
use termux_stacks.Prelude.Outcome.{Outcome, done, failed}
use termux_stacks.Ordered.Key.{Text, text_key, pair_key}
use termux_stacks.Ordered.Map.{BTreeMap, get}
use termux_stacks.Store.Tables.{Database, ServiceRow, ServiceKey}
use termux_stacks.Store.Sql
use termux_stacks.Store.Sql.{select}
use termux_stacks.Store.Backoff.{schedule_restart}
use termux_stacks.Store.Written.{IsBackoff}
use termux_stacks.Runtime.Restarts.{Failure, panic, store}

abbrev pub is_panic : Failure → Bool
is_panic panic = true
is_panic _ = false

-- An active row of the table of services.
pub data IsRow (k : ServiceKey) (v : ServiceRow) : BTreeMap ServiceKey ServiceRow → Type 0 where
  here : {m : BTreeMap ServiceKey ServiceRow} → v.active ≡ true → IsRow k v ((k, v) ∷ m)
  there :
      {e : ServiceKey × ServiceRow} {m : BTreeMap ServiceKey ServiceRow}
      → IsRow k v m
      → IsRow k v (e ∷ m)

-- The window that started then is less than a minute old.
abbrev pub IsActive : (now : ℕ) → Option ℕ → (started : ℕ) → Type 0
IsActive now window started = (window ≡ some started) × (started ≤ now) × (now < started + 60)

-- The next attempt: one more of an active window, or the first of a new one where the service was
-- stable or no window is active.
abbrev pub IsNext :
    (stable : Bool) (now : ℕ) (window : Option ℕ) (used attempts started : ℕ) → Type 0
IsNext stable now window used attempts started =
    ((stable ≡ false) × IsActive now window started × (attempts ≡ used + 1))
    ⊎ (((stable ≡ true) ⊎ ((s : ℕ) → IsActive now window s → ⊥)) × (attempts ≡ 1) × (started ≡ now))

-- `read_now` is the runtime's reading of the clock and `used` the attempts that were used;
-- `Wanted`, `Idle` and `Bad` say that a restart is asked for, that it is not, and that what is
-- persisted cannot be read.
module _ (clock read_now : Option ℕ) (stable : Bool) (used : ServiceRow → ℕ)
    (Wanted Idle Bad : Type 0) (stack service : Text) (db : Database) where
  -- The row is in backoff as the next attempt of at most five, with a delay that doubles.
  pub record IsScheduled (after : Database) : Type 0 where
    pub is_wanted : Wanted
    pub now : ℕ
    pub read : read_now ≡ some now
    pub persisted : ServiceRow
    pub is_row : IsRow (stack, service) persisted db.services
    pub attempts : ℕ
    pub started : ℕ
    pub next :
        IsNext stable now persisted.restart_window_started_at (used persisted) attempts started
    pub bounded : (1 ≤ attempts) × (attempts ≤ 5)
    pub is_backoff :
        IsBackoff attempts started (now + 2 ^ (attempts - 1)) (get (stack, service) after.services)

  -- Five attempts of an active window are used.
  pub record IsUsedUp : Type 0 where
    pub now : ℕ
    pub read : read_now ≡ some now
    pub persisted : ServiceRow
    pub is_row : IsRow (stack, service) persisted db.services
    pub started : ℕ
    pub unstable : stable ≡ false
    pub active : IsActive now persisted.restart_window_started_at started
    pub all_used : 5 ≤ used persisted

  pub data MayRestart : Outcome Failure Database → Type 0 where
    idle : Idle → MayRestart (done db)
    used_up : IsUsedUp → MayRestart (done db)
    scheduled : (after : Database) → IsScheduled after → MayRestart (done after)
    bad : (e : Failure) → is_panic e ≡ false → Bad → MayRestart (failed e)
    no_stack : (e : Sql.Error) → get stack db.stacks ≡ none → MayRestart (failed (store e))
    no_service :
        (e : Sql.Error)
        → ((v : ServiceRow) → IsRow (stack, service) v db.services → ⊥)
        → MayRestart (failed (store e))
    no_clock : (e : Failure) → is_panic e ≡ false → read_now ≡ none → MayRestart (failed e)
    not_stored :
        (e : Sql.Error) (attempts started at : ℕ)
        → schedule_restart clock stack service attempts started at db ≡ failed e
        → MayRestart (failed (store e))
