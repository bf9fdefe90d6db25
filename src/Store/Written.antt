-- ===== src/Store/Written.antt =====
-- What the statements of src/store.rs on exits and restarts write into the row of a service
-- (`record_exit`, `mark_runtime_unknown`, `schedule_restart`).
use termux_stacks.Prelude.{
  ℕ, ◌≡◌, refl, ◌∙◌, sym, subst, Bool, true, Option, none, some, if◌then◌else◌, arith,
}
use termux_stacks.Prelude.Outcome.{done}
use termux_stacks.Ordered.Key.{Text, text_key, nat_key, pair_key}
use termux_stacks.Ordered.Map.{get}
use termux_stacks.Manifest.Literal.{ℤ}
use termux_stacks.Store.Tables.{
  Database, StackRow, ServiceRow, ServiceKey, Phase, Observed, is_running,
}
use termux_stacks.Store.Sql.{◌>>=◌, ◌>>◌, update_stack, update_service, require_one, update_row}
use termux_stacks.Store.Rows.{refresh_stack_state}
use termux_stacks.Store.Down.{active_service}
use termux_stacks.Store.Backoff.{record_exit, mark_runtime_unknown, schedule_restart}
use termux_stacks.Store.Effect.{IsFrame, Keeps, chain, query-Keeps, expect-Keeps, require_one-Keeps}
use termux_stacks.Store.Post.{
  Post, done-Post, bind-Post, seq-Post, query-Post, expect-Post, unix_time-Post, require_one-Post,
  Keeps-Post, Post-map, update_row-one,
}

abbrev SameServices : Database → Database → Type 0
SameServices db after = after.services ≡ db.services

instance abbrev SameServices_frame : IsFrame SameServices
SameServices_frame = record { stay = λ db. refl; join = λ a b c p q. q ∙ p }

update_stack-SameServices :
    (k : Text) (guard : StackRow → Bool) (f : StackRow → StackRow)
    → Keeps SameServices (update_stack k guard f)
unfolding update_stack
update_stack-SameServices k guard f = record { run = λ db. refl }

refresh_stack_state-SameServices :
    (stack : Text) (now : ℕ) → Keeps SameServices (refresh_stack_state stack now)
unfolding refresh_stack_state
refresh_stack_state-SameServices stack now =
    search (chain, query-Keeps, expect-Keeps, require_one-Keeps, update_stack-SameServices) depth 40
      fits 5000

pub update_service-Post :
    {Q : ℕ → Database → Type 0} (k : ServiceKey) (guard : ServiceRow → Bool)
    (f : ServiceRow → ServiceRow) (db : Database)
    → Q
        (update_row k guard f db.services).0
        (record db { services = (update_row k guard f db.services).1 })
    → Post Q (update_service k guard f db)
unfolding update_service
update_service-Post k guard f db q = record { ends = q }

-- The row of a service was `v`, for which the guard held, and is `f v`.
abbrev pub IsWritten :
    ServiceKey → (ServiceRow → Bool) → (ServiceRow → ServiceRow) → Database → Database → Type 0
IsWritten k guard f db after =
    (v : ServiceRow) × (get k db.services ≡ some v)
    × (guard v ≡ true)
    × (get k after.services ≡ some (f v))

-- Waiting for an attempt of a window until a deadline.
abbrev pub IsBackoff : (attempts started at : ℕ) → Option ServiceRow → Type 0
IsBackoff attempts started at found =
    (row : ServiceRow) × (found ≡ some row)
    × (row.effect_phase ≡ Phase.backoff)
    × (row.restart_attempts ≡ attempts)
    × (row.restart_window_started_at ≡ some started)
    × (row.next_restart_at ≡ some at)

abbrev pub IsLost : Option ServiceRow → Type 0
IsLost found =
    (row : ServiceRow) × (found ≡ some row)
    × (row.observed_state ≡ Observed.unknown)
    × (row.effect_phase ≡ Phase.unknown)
    × (row.next_restart_at ≡ none)

-- Exited, with the code and the signal, from a row with a desired state: failed if the service
-- should have run.
abbrev pub IsExited : (code signal : Option ℤ) → (found after : Option ServiceRow) → Type 0
IsExited code signal found after =
    (before row : ServiceRow) × (found ≡ some before)
    × (after ≡ some row)
    × (row.effect_phase ≡ Phase.exited)
    × (row.observed_state
        ≡ (if is_running before.desired_state then Observed.failed else Observed.stopped))
    × (row.session_id ≡ none)
    × (row.child_pid ≡ none)
    × (row.last_exit_code ≡ code)
    × (row.last_exit_signal ≡ signal)
    × (row.next_restart_at ≡ none)

pub is_active-some :
    (found : Option ServiceRow) (before : ServiceRow)
    → elim found [ none ↦ none | some v ↦ if v.active then some v else none ] ≡ some before
    → found ≡ some before
is_active-some none before e = ground arith
is_active-some (some v) before e = ground arith

module _ (stack service : Text) where
  pub write-Post :
      (guard : ServiceRow → Bool) (f : ServiceRow → ServiceRow) (now : ℕ) (db : Database)
      → Post
          (λ _ after. IsWritten (stack, service) guard f db after)
          ((update_service (stack, service) guard f >>= λ n.
              require_one n service >> refresh_stack_state stack now)
            db)
  write-Post guard f now db = bind-Post _ _ db (
      update_service-Post (stack, service) guard f db
        (seq-Post _ _ _ (
          require_one-Post _ _ _ λ changed.
            Keeps-Post SameServices _ _ (refresh_stack_state-SameServices stack now) λ _ after kept.
              let (v, e, held, got) = update_row-one (stack, service) guard f db.services changed in
              (v, e, held, subst (λ m. get (stack, service) m ≡ some (f v)) (sym kept) got))))

  module _ (clock : Option ℕ) (db after : Database) where
    pub schedule_restart-IsBackoff :
        (attempts started at : ℕ)
        → schedule_restart clock stack service attempts started at db ≡ done (tt, after)
        → IsBackoff attempts started at (get (stack, service) after.services)
    unfolding schedule_restart
    schedule_restart-IsBackoff attempts started at ended =
        done-Post (λ _ end. IsBackoff attempts started at (get (stack, service) end.services)) _ tt
          after
          (bind-Post _ _ db (
            unix_time-Post clock db λ now.
              Post-map (write-Post _ _ now db)
                λ _ end (v, e, held, got). (_, got, refl, refl, refl, refl)))
          ended

    pub mark_runtime_unknown-IsLost :
        mark_runtime_unknown clock stack service db ≡ done (tt, after)
        → IsLost (get (stack, service) after.services)
    unfolding mark_runtime_unknown
    mark_runtime_unknown-IsLost ended =
        done-Post (λ _ end. IsLost (get (stack, service) end.services)) _ tt after
          (bind-Post _ _ db (
            unix_time-Post clock db λ now.
              Post-map (write-Post _ _ now db)
                λ _ end (v, e, held, got). (_, got, refl, refl, refl)))
          ended

    pub record_exit-IsExited :
        (code signal : Option ℤ)
        → record_exit clock stack service code signal db ≡ done (tt, after)
        → IsExited code signal
            (get (stack, service) db.services)
            (get (stack, service) after.services)
    unfolding record_exit active_service
    record_exit-IsExited code signal ended =
        done-Post
          (λ _ end.
            IsExited code signal (get (stack, service) db.services)
              (get (stack, service) end.services))
          _ tt after
          (bind-Post _ _ db (
            unix_time-Post clock db λ now. bind-Post _ _ db (
              query-Post _ db (
                bind-Post _ _ db (
                  expect-Post _ _ db λ before found.
                    Post-map (write-Post _ _ now db) λ _ end (v, e, held, got). (
                      before,
                      _,
                      is_active-some (get (stack, service) db.services) before found,
                      got,
                      refl,
                      refl,
                      refl,
                      refl,
                      refl,
                      refl,
                      refl,
                    ))))))
          ended
