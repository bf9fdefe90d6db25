-- ===== src/Runtime/Steps.antt =====
-- The steps of a scheduling of a restart (src/runtime.rs), for the proofs on its operations.
use termux_stacks.Prelude.{
  ℕ, zero, suc, ◌+◌, ◌-◌, ◌^◌, ◌≡◌, refl, subst, Bool, true, false, not, ◌&&◌, ◌⊎◌, inl, inr,
  Option, none, some, ltb, leb, if◌then◌else◌, Bool-cases, arith,
}
use termux_stacks.Prelude.Outcome.{Outcome, done, failed, ◌>>=◌}
use termux_stacks.Ordered.Key.{Text, text_key, pair_key}
use termux_stacks.Ordered.Map.{get}
use termux_stacks.Manifest.Error.{Result, fault, err, ok}
use termux_stacks.Manifest.Types.{Manifest}
use termux_stacks.Store.Tables.{Database, ServiceRow}
use termux_stacks.Store.Sql
use termux_stacks.Store.Sql.{select}
use termux_stacks.Store.Backoff.{schedule_restart}
use termux_stacks.Store.Written.{IsBackoff, schedule_restart-IsBackoff}
use termux_stacks.Runtime.Restarts.{
  Failure, manifest, parser, of_store, of_manifest, or_fail, restart_delay_seconds, active_window,
  saturated, budget, schedule_next,
}
use termux_stacks.Runtime.Schedule.{
  is_panic, IsRow, IsActive, IsNext, IsScheduled, MayRestart, scheduled, used_up, not_stored,
}

cancel : (n : ℕ) → n ≡ n + 1 - 1
cancel n = omega arith

restart_delay_seconds_lem : (n : ℕ) → leb 5 n ≡ false → restart_delay_seconds n ≡ some (2 ^ n)
unfolding restart_delay_seconds
restart_delay_seconds_lem zero h = refl
restart_delay_seconds_lem (suc zero) h = refl
restart_delay_seconds_lem (suc (suc zero)) h = refl
restart_delay_seconds_lem (suc (suc (suc zero))) h = refl
restart_delay_seconds_lem (suc (suc (suc (suc zero)))) h = refl
restart_delay_seconds_lem (suc (suc (suc (suc (suc n))))) h = ground arith

-- The budget: that of an active window, or a new one.
abbrev pub IsBudget : (stable : Bool) (now : ℕ) (window : Option ℕ) (used : ℕ) → ℕ × ℕ → Type 0
IsBudget stable now window used (previous, started) =
    ((stable ≡ false) × IsActive now window started × (previous ≡ saturated used))
    ⊎ (((stable ≡ true) ⊎ ((s : ℕ) → IsActive now window s → ⊥)) × (previous ≡ 0) × (started ≡ now))

next_lem :
    (stable : Bool) (now : ℕ) (window : Option ℕ) (used previous started : ℕ)
    → IsBudget stable now window used (previous, started)
    → leb 5 previous ≡ false
    → IsNext stable now window used (previous + 1) started
next_lem stable now window used previous started (inl (unstable, active, same)) e =
    inl (unstable, active, ground arith)
next_lem stable now window used previous started (inr (fresh, zero_used, same)) e =
    inr (fresh, omega arith, same)

pub budget-IsBudget :
    (now used : ℕ) (window : Option ℕ)
    → IsBudget false now window used (budget now used (active_window now window))
unfolding active_window
budget-IsBudget now used none = inr (inr (λ s a. ground arith), refl, refl)
budget-IsBudget now used (some started) =
    elim (Bool-cases (leb started now && ltb (now - started) 60)) [
      | inl e ↦ rw e (inl (refl, (refl, ground arith, ground arith), refl))
      | inr e ↦ rw e (inr (inr (λ s a. ground arith), refl, refl))
    ]

pub stable-IsBudget :
    (stable : Bool) (now used : ℕ) (window : Option ℕ)
    → IsBudget stable now window used
        (if stable then (0, now) else budget now used (active_window now window))
stable-IsBudget true now used window = inr (inl refl, refl, refl)
stable-IsBudget false now used window = budget-IsBudget now used window

module _ (P : Outcome Failure Database → Type 0) where
  pub or_fail_lem :
      {A : Type 0} (o : Option A) (e : Failure) (k : A → Outcome Failure Database)
      → (o ≡ none → P (failed e))
      → ((a : A) → o ≡ some a → P (k a))
      → P (or_fail o e >>= k)
  or_fail_lem none e k f h = f refl
  or_fail_lem (some a) e k f h = h a refl

  pub of_manifest_lem :
      (r : Result Manifest) (k : Manifest → Outcome Failure Database)
      → ((e : Failure) → is_panic e ≡ false → ((m : Manifest) → r ≡ ok m → ⊥) → P (failed e))
      → ((m : Manifest) → r ≡ ok m → P (k m))
      → P (of_manifest r >>= k)
  of_manifest_lem (fault e) k f h = f (parser e) refl λ m h. ground arith
  of_manifest_lem (err e) k f h = f (manifest e) refl λ m h. ground arith
  of_manifest_lem (ok m) k f h = h m refl

  pub unless_lem :
      (test : Bool) (m k : Outcome Failure Database)
      → (test ≡ false → P m)
      → (test ≡ true → P k)
      → P (if not test then m else k)
  unless_lem true m k h next = next refl
  unless_lem false m k h next = h refl

module _ (clock read_now : Option ℕ) (stable : Bool) (used : ServiceRow → ℕ)
    (Wanted Idle Bad : Type 0) (stack service : Text) (db : Database) where
  abbrev May : Outcome Failure Database → Type 0
  May = MayRestart clock read_now stable used Wanted Idle Bad stack service db

  stored_lem :
      (attempts started at : ℕ) (o : Outcome Sql.Error (Unit {0} × Database))
      → schedule_restart clock stack service attempts started at db ≡ o
      → ((after : Database)
          → schedule_restart clock stack service attempts started at db ≡ done (tt, after)
          → IsScheduled clock read_now stable used Wanted Idle Bad stack service db after)
      → May (of_store o)
  stored_lem attempts started at (done (u, after)) e h = scheduled after (h after e)
  stored_lem attempts started at (failed p) e h = not_stored p attempts started at e

  pub schedule_next-MayRestart :
      Wanted
      → (now : ℕ) → read_now ≡ some now
      → (persisted : ServiceRow) → IsRow (stack, service) persisted db.services
      → (b : ℕ × ℕ) → IsBudget stable now persisted.restart_window_started_at (used persisted) b
      → May (schedule_next clock stack service now b db)
  unfolding schedule_next
  schedule_next-MayRestart w now read persisted row (previous, started) b =
      elim (Bool-cases (leb 5 previous)) [
        | inl e ↦ rw e (elim b [
          | inl (unstable, active, same) ↦ used_up (record {
            now = now;
            read = read;
            persisted = persisted;
            is_row = row;
            started = started;
            unstable = unstable;
            active = active;
            all_used = ground arith;
          })
          | inr (fresh, none_used, same) ↦ ground arith
        ])
        | inr e ↦
            rw (e, restart_delay_seconds_lem previous e)
              (stored_lem (previous + 1) started (now + 2 ^ previous) _ refl λ after stored.
                record {
                  is_wanted = w;
                  now = now;
                  read = read;
                  persisted = persisted;
                  is_row = row;
                  attempts = previous + 1;
                  started = started;
                  next =
                      next_lem stable now persisted.restart_window_started_at (used persisted)
                        previous started b e;
                  bounded = (omega arith, ground arith);
                  is_backoff =
                      subst
                        (λ n.
                          IsBackoff (previous + 1) started (now + 2 ^ n)
                            (get (stack, service) after.services))
                        (cancel previous)
                        (schedule_restart-IsBackoff stack service clock db after (previous + 1)
                          started (now + 2 ^ previous) stored);
                })
      ]
