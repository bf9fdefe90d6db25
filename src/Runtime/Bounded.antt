-- ===== src/Runtime/Bounded.antt =====
-- When an exit is followed by a restart, and when (src/runtime.rs: `schedule_restart_after_exit`,
-- `reschedule_after_early_exit`).
use termux_stacks.Prelude.{
  ℕ, zero, suc, ◌≡◌, refl, ap, sym, ◌∙◌, Bool, true, false, ◌⊎◌, inl, inr, Option, none, some, List,
  leb, arith,
}
use termux_stacks.Prelude.Outcome.{done, failed}
use termux_stacks.Ordered.Key.{Text, text_key}
use termux_stacks.Ordered.Map.{get}
use termux_stacks.Manifest.Literal.{ℤ, pos, negsuc}
use termux_stacks.Manifest.Error.{ok}
use termux_stacks.Manifest.Types.{Manifest, Service, RestartPolicy, never, on_failure, always}
use termux_stacks.Manifest.Validate.{Parsed, parse}
use termux_stacks.Store.Tables.{Database, StackRow, ServiceRow, is_running}
use termux_stacks.Store.Sql.{not_found}
use termux_stacks.Store.Views.{existing_stack}
use termux_stacks.Runtime.Restarts.{
  io, protocol_state, store, should_restart_parts, find_service, schedule_restart_after_exit,
  reschedule_after_early_exit,
}
use termux_stacks.Runtime.Schedule.{IsRow, MayRestart, idle, bad, no_stack, no_service, no_clock}
use termux_stacks.Runtime.Rows.{existing_stack_lem, no_stack_lem, is_row_lem, no_row_lem}
use termux_stacks.Runtime.Steps.{
  budget-IsBudget, stable-IsBudget, or_fail_lem, of_manifest_lem, unless_lem,
  schedule_next-MayRestart,
}

-- The stack shall run, or shall be stopped.
abbrev pub ShallRun : Bool → Text → Database → Type 0
ShallRun b stack db =
    (row : StackRow) × (get stack db.stacks ≡ some row) × (is_running row.desired_state ≡ b)

abbrev pub IsBadConfig : (is_json : Text → Bool) → (stack service : Text) → Database → Type 0
IsBadConfig is_json stack service db =
    (v : ServiceRow) × IsRow (stack, service) v db.services × (is_json v.config_json ≡ false)

-- A restart after an exit with a code and with no signal: always, or on failure if the code is not
-- zero.
abbrev pub AsksFor : RestartPolicy → (code signal : Option ℤ) → Type 0
AsksFor policy code signal =
    (signal ≡ none)
    × ((c : ℤ) × (code ≡ some c) × ((policy ≡ always) ⊎ ((policy ≡ on_failure) × (c ≡ pos 0 → ⊥))))

-- The service is in the committed manifest, and its policy is such.
abbrev pub HasPolicy :
    (RestartPolicy → Type 0) → (Text → List Parsed) → (stack service : Text) → Database → Type 0
HasPolicy P events stack service db =
    (row : StackRow) × (m : Manifest) × (s : Service) × (get stack db.stacks ≡ some row)
    × (parse events row.manifest ≡ ok m)
    × (get service m.services ≡ some s)
    × P s.restart

should_restart_parts-AsksFor :
    (policy : RestartPolicy) (code signal : Option ℤ)
    → should_restart_parts policy code signal ≡ true
    → AsksFor policy code signal
unfolding should_restart_parts
should_restart_parts-AsksFor policy code (some s) h = ground arith
should_restart_parts-AsksFor never code none h = ground arith
should_restart_parts-AsksFor on_failure none none h = ground arith
should_restart_parts-AsksFor on_failure (some (pos zero)) none h = ground arith
should_restart_parts-AsksFor on_failure (some (pos (suc n))) none h =
    (refl, (pos (suc n), refl, inr (refl, λ e. ground arith)))
should_restart_parts-AsksFor on_failure (some (negsuc n)) none h =
    (refl, (negsuc n, refl, inr (refl, λ e. ground arith)))
should_restart_parts-AsksFor always none none h = ground arith
should_restart_parts-AsksFor always (some c) none h = (refl, (c, refl, inl refl))

not-AsksFor :
    (policy : RestartPolicy) (code signal : Option ℤ)
    → should_restart_parts policy code signal ≡ false
    → AsksFor policy code signal
    → ⊥
unfolding should_restart_parts
not-AsksFor policy code (some s) h a = ground arith
not-AsksFor policy none none h a = ground arith
not-AsksFor never (some c) none h a = ground arith
not-AsksFor on_failure (some (pos zero)) none h a = ground arith
not-AsksFor on_failure (some (pos (suc n))) none h a = ground arith
not-AsksFor on_failure (some (negsuc n)) none h a = ground arith
not-AsksFor always (some c) none h a = ground arith

some_inj : {a b : StackRow} → some a ≡ some b → a ≡ b
some_inj {a} {b} e = ground arith

ok_inj : {a b : Manifest} → ok a ≡ ok b → a ≡ b
ok_inj {a} {b} e = ground arith

same_manifest :
    {found : Option StackRow} {r q : StackRow} (events : Text → List Parsed)
    → found ≡ some r
    → found ≡ some q
    → parse events r.manifest ≡ parse events q.manifest
same_manifest events a b = ap (λ x. parse events x.manifest) (some_inj (sym a ∙ b))

no_service_lem :
    (service : Text) (m m' : Manifest) (s : Service)
    → get service m.services ≡ none
    → m ≡ m'
    → get service m'.services ≡ some s
    → ⊥
no_service_lem service m m' s n e h =
    let h' = ap (λ x. get service x.services) e ∙ h in ground (arith, sym n ∙ h')

module _ (clock read_now : Option ℕ) (stack service : Text) (db : Database) where
  -- Where the stack shall run, an exit is followed by the next attempt of at most five: one more of
  -- a window less than a minute old, or the first of a new window if the service ran for a minute
  -- or there is no such window. Its row is then in backoff with that attempt and window, until
  -- 2 ^ (attempt - 1) seconds after the runtime's reading of the clock. The tables stay as they are
  -- only if the stack shall be stopped or five attempts are used; an error is returned only for a
  -- missing stack or service, an unreadable configuration or clock, or by the store. No index of a
  -- delay is out of bounds.
  pub schedule_restart_after_exit-MayRestart :
      (is_json : Text → Bool) (elapsed : ℕ)
      → MayRestart clock read_now
          (leb 60 elapsed)
          (λ v. v.restart_attempts)
          (ShallRun true stack db)
          (ShallRun false stack db)
          (IsBadConfig is_json stack service db)
          stack
          service
          db
          (schedule_restart_after_exit clock stack service read_now is_json elapsed db)
  unfolding schedule_restart_after_exit
  schedule_restart_after_exit-MayRestart is_json elapsed =
      let P =
        MayRestart clock read_now (leb 60 elapsed) (λ v. v.restart_attempts)
          (ShallRun true stack db) (ShallRun false stack db) (IsBadConfig is_json stack service db)
          stack service db in
      or_fail_lem P (existing_stack stack db) (store (not_found stack)) _
        (λ n. no_stack _ (no_stack_lem stack db n))
        λ e found.
          let (row, got, same) = existing_stack_lem stack db e found in
          unless_lem P (is_running e.desired_state) (done db) _
            (λ h. idle (row, got, ap (λ x. is_running x.desired_state) (sym same) ∙ h))
            λ h.
              or_fail_lem P (find_service service e.services) (store (not_found service)) _
                (λ n. no_service _ (no_row_lem stack service db e found n))
                λ p listed.
                  let r = is_row_lem stack service db e p found listed in
                  unless_lem P (is_json p.row.config_json) (failed protocol_state) _
                    (λ j. bad _ refl (p.row, r, j))
                    λ j.
                      or_fail_lem P read_now io _ (λ n. no_clock _ refl n)
                        λ now read.
                          schedule_next-MayRestart clock read_now (leb 60 elapsed)
                            (λ v. v.restart_attempts) (ShallRun true stack db)
                            (ShallRun false stack db) (IsBadConfig is_json stack service db) stack
                            service db
                            (row, got, ap (λ x. is_running x.desired_state) (sym same) ∙ h) now read
                            p.row r _
                            (stable-IsBudget (leb 60 elapsed) now p.row.restart_attempts
                              p.row.restart_window_started_at)

  -- Where the policy of the committed manifest asks for it, a service that exited while it was being
  -- restarted has the next attempt of at most five: one more of a window less than a minute old, or
  -- the first of a new window if there is none. Its row is then in backoff with that attempt and
  -- window, until 2 ^ (attempt - 1) seconds after the runtime's reading of the clock. The tables
  -- stay as they are only if the policy does not ask for it, as where there is a signal or no code,
  -- or five attempts are used; an error is returned only for a missing stack or service, a manifest
  -- that cannot be read, the clock, or by the store. No index of a delay is out of bounds.
  pub reschedule_after_early_exit-MayRestart :
      (events : Text → List Parsed) (attempts : ℕ) (code signal : Option ℤ)
      → MayRestart clock read_now false
          (λ v. attempts)
          (HasPolicy (λ p. AsksFor p code signal) events stack service db)
          (HasPolicy (λ p. AsksFor p code signal → ⊥) events stack service db)
          (HasPolicy (λ p. Unit) events stack service db → ⊥)
          stack
          service
          db
          (reschedule_after_early_exit clock stack service read_now events attempts code signal db)
  unfolding reschedule_after_early_exit
  reschedule_after_early_exit-MayRestart events attempts code signal =
      let Wanted = HasPolicy (λ p. AsksFor p code signal) events stack service db in
      let Idle = HasPolicy (λ p. AsksFor p code signal → ⊥) events stack service db in
      let Bad = HasPolicy (λ p. Unit) events stack service db → ⊥ in
      let P = MayRestart clock read_now false (λ v. attempts) Wanted Idle Bad stack service db in
      or_fail_lem P (existing_stack stack db) (store (not_found stack)) _
        (λ n. no_stack _ (no_stack_lem stack db n))
        λ e found.
          let (row, got, same) = existing_stack_lem stack db e found in
          let source = ap (λ x. parse events x.source) same in
          of_manifest_lem P (parse events e.source) _
            (λ f nf none_read. bad f nf λ (row', m, s, got', read, has, u).
              none_read m (source ∙ (same_manifest events got got' ∙ read)))
            λ m read.
              or_fail_lem P (get service m.services) (store (not_found service)) _
                (λ n. bad _ refl λ (row', m', s, got', read', has, u).
                  no_service_lem service m m' s n
                    (ok_inj (sym read ∙ (source ∙ (same_manifest events got got' ∙ read')))) has)
                λ s has.
                  unless_lem P (should_restart_parts s.restart code signal) (done db) _
                    (λ h.
                      idle (
                        row,
                        m,
                        s,
                        got,
                        sym source ∙ read,
                        has,
                        not-AsksFor s.restart code signal h,
                      ))
                    λ h.
                      or_fail_lem P (find_service service e.services) (store (not_found service)) _
                        (λ n. no_service _ (no_row_lem stack service db e found n))
                        λ p listed.
                          or_fail_lem P read_now io _ (λ n. no_clock _ refl n)
                            λ now at.
                              schedule_next-MayRestart clock read_now false (λ v. attempts) Wanted
                                Idle Bad stack service db
                                (
                                  row,
                                  m,
                                  s,
                                  got,
                                  sym source ∙ read,
                                  has,
                                  should_restart_parts-AsksFor s.restart code signal h,
                                )
                                now at p.row (is_row_lem stack service db e p found listed) _
                                (budget-IsBudget now attempts p.row.restart_window_started_at)
