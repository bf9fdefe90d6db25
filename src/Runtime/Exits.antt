-- ===== src/Runtime/Exits.antt =====
-- What becomes of the exit of a child (src/runtime.rs: `tick`).
use termux_stacks.Prelude.{
  ℕ, zero, suc, ◌≡◌, refl, sym, subst, Bool, true, false, not, ◌||◌, List, [], ◌∷◌, Option, none,
  some, if◌then◌else◌, Bool-cases, ◌⊎◌, inl, inr, All, leb, arith,
}
use termux_stacks.Prelude.Outcome.{Outcome, done, failed}
use termux_stacks.Ordered.Key.{Text, text_key, pair_key, nat_key, ==_iff}
use termux_stacks.Ordered.Map.{get}
use termux_stacks.Manifest.Literal.{ℤ, pos, negsuc}
use termux_stacks.Manifest.Types.{RestartPolicy, never, on_failure, always}
use termux_stacks.Store.Tables.{Database, is_null}
use termux_stacks.Store.Sql
use termux_stacks.Store.Backoff.{record_exit, mark_runtime_unknown}
use termux_stacks.Store.Written.{
  IsLost, IsExited, mark_runtime_unknown-IsLost, record_exit-IsExited,
}
use termux_stacks.Runtime.Restarts.{
  Failure, contains, registry_ambiguous, should_restart, schedule_restart_after_exit, exited_child,
}
use termux_stacks.Runtime.Schedule.{MayRestart}
use termux_stacks.Runtime.Bounded.{ShallRun, IsBadConfig, schedule_restart_after_exit-MayRestart}

-- There was no signal, and the engine's list of sessions, which could be read, is without the
-- session of the child.
abbrev pub IsProvenAbsent : (session_id : Option ℕ) (sessions : Option (List ℕ)) → Option ℤ → Type 0
IsProvenAbsent session_id sessions signal =
    (signal ≡ none)
    × ((session : ℕ) × (listed : List ℕ) × (session_id ≡ some session)
        × (sessions ≡ some listed)
        × All (λ t. t ≡ session → ⊥) listed)

-- The policy asks for a restart after an exit with the code.
abbrev pub IsAsked : RestartPolicy → (code : Option ℤ) → Type 0
IsAsked policy code = (policy ≡ always) ⊎ ((policy ≡ on_failure) × (code ≡ some (pos 0) → ⊥))

-- The tables after an operation that changes nothing where it fails.
abbrev pub tables_after : Database → Outcome Failure Database → Database
tables_after db (done after) = after
tables_after db (failed e) = db

-- What `tick` may make of an exit: whether the child is forgotten, and the tables.
module _ (clock read_now : Option ℕ) (stack service : Text) (is_json : Text → Bool)
    (restart : RestartPolicy) (elapsed : ℕ) (session_id : Option ℕ) (sessions : Option (List ℕ))
    (code signal : Option ℤ) (db : Database) where
  abbrev IsRestart : Database → Outcome Failure Database → Type 0
  IsRestart exited o =
      MayRestart clock read_now (leb 60 elapsed) (λ v. v.restart_attempts)
        (ShallRun true stack exited) (ShallRun false stack exited)
        (IsBadConfig is_json stack service exited) stack service exited o

  pub data IsHandled : Bool × Database → Type 0 where
    loss_kept :
        (IsProvenAbsent session_id sessions signal → ⊥)
        → (e : Sql.Error) → mark_runtime_unknown clock stack service db ≡ failed e
        → IsHandled (false, db)
    exit_kept :
        IsProvenAbsent session_id sessions signal
        → (e : Sql.Error) → record_exit clock stack service code signal db ≡ failed e
        → IsHandled (false, db)
    lost :
        (IsProvenAbsent session_id sessions signal → ⊥)
        → (after : Database) → IsLost (get (stack, service) after.services)
        → IsHandled (true, after)
    recorded :
        IsProvenAbsent session_id sessions signal
        → (IsAsked restart code → ⊥)
        → (exited : Database)
        → IsExited code signal
            (get (stack, service) db.services)
            (get (stack, service) exited.services)
        → IsHandled (true, exited)
    restarted :
        IsProvenAbsent session_id sessions signal
        → IsAsked restart code
        → (exited : Database)
        → IsExited code signal
            (get (stack, service) db.services)
            (get (stack, service) exited.services)
        → (o : Outcome Failure Database) → IsRestart exited o
        → IsHandled (true, tables_after exited o)

contains-All : (n : ℕ) (ms : List ℕ) → contains n ms ≡ false → All (λ t. t ≡ n → ⊥) ms
contains-All n [] h = tt
contains-All n (m ∷ ms) h = ((λ e. ground (arith, ==_iff m n)), contains-All n ms (ground arith))

not-contains-All : (n : ℕ) (ms : List ℕ) → contains n ms ≡ true → All (λ t. t ≡ n → ⊥) ms → ⊥
not-contains-All n [] h a = ground arith
not-contains-All n (m ∷ ms) h (f, a) = ground (arith, ==_iff m n, f, not-contains-All n ms, a)

some_inj : {A : Type 0} {a b : A} → some a ≡ some b → a ≡ b
some_inj {A} {a} {b} e = ground arith

proven_lem :
    (session_id : Option ℕ) (sessions : Option (List ℕ)) (signal : Option ℤ)
    → (not (is_null signal) || registry_ambiguous session_id sessions) ≡ false
    → IsProvenAbsent session_id sessions signal
unfolding registry_ambiguous
proven_lem session_id sessions (some s) h = ground arith
proven_lem none sessions none h = ground arith
proven_lem (some session) none none h = ground arith
proven_lem (some session) (some listed) none h =
    (refl, (session, listed, refl, refl, contains-All session listed h))

unproven_lem :
    (session_id : Option ℕ) (sessions : Option (List ℕ)) (signal : Option ℤ)
    → (not (is_null signal) || registry_ambiguous session_id sessions) ≡ true
    → IsProvenAbsent session_id sessions signal
    → ⊥
unfolding registry_ambiguous
unproven_lem session_id sessions (some s) h a = ground arith
unproven_lem none sessions none h a = ground arith
unproven_lem (some session) none none h a = ground arith
unproven_lem (some session) (some listed) none h (e, (s, l, p, q, absent)) =
    not-contains-All session listed h (
      subst (λ x. All (λ t. t ≡ x → ⊥) listed) (sym (some_inj p))
        (subst (All (λ t. t ≡ s → ⊥)) (sym (some_inj q)) absent))

should_restart-IsAsked :
    (policy : RestartPolicy) (code signal : Option ℤ)
    → should_restart policy code signal ≡ true
    → IsAsked policy code
unfolding should_restart
should_restart-IsAsked never code signal h = ground arith
should_restart-IsAsked on_failure none signal h = inr (refl, λ e. ground arith)
should_restart-IsAsked on_failure (some (pos zero)) signal h = ground arith
should_restart-IsAsked on_failure (some (pos (suc n))) signal h = inr (refl, λ e. ground arith)
should_restart-IsAsked on_failure (some (negsuc n)) signal h = inr (refl, λ e. ground arith)
should_restart-IsAsked always code signal h = inl refl

not-IsAsked :
    (policy : RestartPolicy) (code signal : Option ℤ)
    → should_restart policy code signal ≡ false
    → IsAsked policy code
    → ⊥
unfolding should_restart
not-IsAsked never code signal h a = ground arith
not-IsAsked on_failure none signal h a = ground arith
not-IsAsked on_failure (some (pos zero)) signal h a = ground arith
not-IsAsked on_failure (some (pos (suc n))) signal h a = ground arith
not-IsAsked on_failure (some (negsuc n)) signal h a = ground arith
not-IsAsked always code signal h a = ground arith

module _ (clock read_now : Option ℕ) (stack service : Text) (is_json : Text → Bool)
    (restart : RestartPolicy) (elapsed : ℕ) (session_id : Option ℕ) (sessions : Option (List ℕ))
    (code signal : Option ℤ) (db : Database) where
  abbrev Handled : Bool × Database → Type 0
  Handled =
      IsHandled clock read_now stack service is_json restart elapsed session_id sessions code signal
        db

  unknown_lem :
      (IsProvenAbsent session_id sessions signal → ⊥)
      → (o : Outcome Sql.Error (Unit {0} × Database))
      → mark_runtime_unknown clock stack service db ≡ o
      → Handled (elim o [ done (u, after) ↦ (true, after) | failed e ↦ (false, db) ])
  unknown_lem h (done (u, after)) e =
      lost h after (mark_runtime_unknown-IsLost stack service clock db after e)
  unknown_lem h (failed problem) e = loss_kept h problem e

  exit_lem :
      IsProvenAbsent session_id sessions signal
      → (o : Outcome Sql.Error (Unit {0} × Database))
      → record_exit clock stack service code signal db ≡ o
      → Handled (elim o [
        | failed e ↦ (false, db)
        | done (u, exited) ↦ (
          true,
          if should_restart restart code signal
              then elim (schedule_restart_after_exit clock stack service read_now is_json elapsed
                  exited) [ done after ↦ after | failed e ↦ exited ]
              else exited,
        )
      ])
  exit_lem h (failed problem) e = exit_kept h problem e
  exit_lem h (done (u, exited)) e =
      let is_exited = record_exit-IsExited stack service clock db exited code signal e in
      elim (Bool-cases (should_restart restart code signal)) [
        | inl r ↦ rw r (
            restarted h (should_restart-IsAsked restart code signal r) exited is_exited _ (
              schedule_restart_after_exit-MayRestart clock read_now stack service exited is_json
                elapsed))
        | inr r ↦ rw r (recorded h (not-IsAsked restart code signal r) exited is_exited)
      ]

  -- A child that exited stays owned, with the tables as they were, only if the store fails to record
  -- its exit. Else it is forgotten. Its row is unknown, with no restart due, if it was ended by a
  -- signal or the absence of its session is not proved. Otherwise the row has the exit, with the
  -- code, no session and no child, as failed exactly if the service should have run. If the policy
  -- asks for a restart, one is then scheduled in its budget, or the tables stay so because the stack
  -- shall be stopped, the budget is used up or scheduling failed; if it does not, they stay so.
  pub exited_child-IsHandled : Handled (
      exited_child clock stack service read_now is_json restart elapsed session_id sessions code
        signal db)
  unfolding exited_child
  exited_child-IsHandled =
      elim (Bool-cases (not (is_null signal) || registry_ambiguous session_id sessions)) [
        | inl h ↦ rw h (
            unknown_lem (unproven_lem session_id sessions signal h)
              (mark_runtime_unknown clock stack service db) refl)
        | inr h ↦ rw h (
            exit_lem (proven_lem session_id sessions signal h)
              (record_exit clock stack service code signal db) refl)
      ]
