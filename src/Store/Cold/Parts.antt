-- ===== src/Store/Cold/Parts.antt =====
-- How a cold start settles the parts of the operations that another daemon left, and the services
-- that had an effect under way (`reconcile_cold_start` of src/store.rs).
use termux_stacks.Prelude.{
  ℕ, Bool, true, false, not, ◌&&◌, ◌||◌, List, Option, none, some, any, if◌then◌else◌,
}
use termux_stacks.Ordered.Key.{Text, text, text_key, nat_key, pair_key, pair_cmp, ◌==◌}
use termux_stacks.Ordered.Map.{get}
use termux_stacks.Store.Tables.{
  Observed, Phase, RootfsState, Role, Ending, ServiceRow, ServiceKey, GenerationRow, Database, ◌is◌,
  is_current,
}
use termux_stacks.Store.Sql.{
  Action, ◌>>=◌, ◌>>◌, pure, query, update_service, update_operation_service, update_generation,
}
use termux_stacks.Store.Rows.{OperationRow}
use termux_stacks.Store.Down.{has_no_identity, is_proven_backoff}

-- How an interrupted part is settled.
pub data Verdict : Type 0 where
  start_safe before_effect after_install lost : Verdict

abbrev role_is_current : Option GenerationRow → Bool
role_is_current none = false
role_is_current (some g) = is_current g.role

-- The part would have started a committed rootfs.
unfoldable pub is_current_start : OperationRow → Database → Bool
unfolding pair_cmp
is_current_start (key, row) db = elim row.generation [
  | none ↦ false
  | some generation ↦ role_is_current (get ((row.stack_name, key.1), generation) db.generations)
]

unfoldable pub verdict : Phase → (is_current_start : Bool) → Verdict
verdict Phase.intent _ = Verdict.before_effect
verdict Phase.logs_prepared _ = Verdict.before_effect
verdict Phase.installed _ = Verdict.after_install
verdict Phase.start_intent true = Verdict.start_safe
verdict Phase.shutdown_proven true = Verdict.start_safe
verdict _ _ = Verdict.lost

abbrev verdict_observed : Verdict → Observed
verdict_observed Verdict.start_safe = Observed.stopped
verdict_observed Verdict.before_effect = Observed.failed
verdict_observed Verdict.after_install = Observed.failed
verdict_observed Verdict.lost = Observed.unknown

abbrev pub verdict_phase : Verdict → Phase
verdict_phase Verdict.start_safe = Phase.shutdown_proven
verdict_phase Verdict.before_effect = Phase.failed
verdict_phase Verdict.after_install = Phase.failed
verdict_phase Verdict.lost = Phase.unknown

abbrev verdict_error : Verdict → Text × Text
verdict_error Verdict.start_safe = (
  text "interrupted_before_engine",
  text "daemon stopped before invoking start on the committed rootfs",
)
verdict_error Verdict.before_effect =
    (text "interrupted_before_engine", text "daemon stopped before the engine invocation")
verdict_error Verdict.after_install = (
  text "interrupted_after_install",
  text "rootfs was installed but service start was not invoked",
)
verdict_error Verdict.lost = (
  text "cold_start_unknown",
  text "daemon lost ownership during an engine effect; no effect was retried",
)

-- What becomes of the rootfs generation of a part.
abbrev pub settle_rootfs : Phase → ℕ → GenerationRow → GenerationRow
settle_rootfs Phase.intent now g = record g {
  state = RootfsState.absent;
  role = Role.retired;
  updated_at = now;
}
settle_rootfs Phase.logs_prepared now g = record g {
  state = RootfsState.absent;
  role = Role.retired;
  updated_at = now;
}
settle_rootfs Phase.install_invoked now g = record g {
  state = RootfsState.unknown;
  updated_at = now;
}
settle_rootfs _ now g = g

unfoldable pub settle_generation : ServiceKey → Option ℕ → Phase → ℕ → Action (Unit {0})
settle_generation k none phase now = pure tt
settle_generation k (some generation) phase now = do
  n ← update_generation (k, generation) (λ _. true) (settle_rootfs phase now)
  pure tt

abbrev same_phase : Verdict → Phase → Bool
same_phase Verdict.start_safe Phase.shutdown_proven = true
same_phase Verdict.before_effect Phase.failed = true
same_phase Verdict.after_install Phase.failed = true
same_phase Verdict.lost Phase.unknown = true
same_phase _ _ = false

-- A service whose process is not known to run.
abbrev pub detach : Observed → Phase → ℕ → ServiceRow → ServiceRow
detach observed phase now v = record v {
  observed_state = observed;
  effect_phase = phase;
  session_id = none;
  child_pid = none;
  child_starttime = none;
  boot_id = none;
  next_restart_at = none;
  updated_at = now;
}

abbrev is_settled : Verdict → ServiceRow → Bool
is_settled found v =
    v.observed_state is verdict_observed found
    && same_phase found v.effect_phase
    && has_no_identity v

-- One round of the loop over the unfinished parts; the number of changed services.
unfoldable pub settle_part : (now : ℕ) → OperationRow → Action ℕ
unfolding is_current_start verdict settle_generation
settle_part now ((request, service), row) = do
  current_start ← query (is_current_start ((request, service), row))
  let found = verdict row.phase current_start
  settle_generation (row.stack_name, service) row.generation row.phase now
  changed ←
      update_service (row.stack_name, service) (λ v. v.active && not (is_settled found v))
        (detach (verdict_observed found) (verdict_phase found) now)
  n ←
      update_operation_service (request, service) (λ r. r.stack_name == row.stack_name)
        (λ r. record r {
          phase = verdict_phase found;
          outcome = some Ending.failure;
          error = some (verdict_error found);
        })
  pure changed

-- One round of the loop over the active services.
unfoldable pub lose_service : (now : ℕ) → List OperationRow → ServiceKey × ServiceRow → Action ℕ
unfolding pair_cmp
lose_service now handled (k, v) =
    if any (λ r. (r.1.stack_name, r.0.1) == k) handled || is_proven_backoff v
    then pure 0
    else update_service k (λ v. v.active) (detach Observed.unknown Phase.unknown now)
