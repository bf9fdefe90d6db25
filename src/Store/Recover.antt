-- ===== src/Store/Recover.antt =====
-- A failed candidate taken up again: `begin_candidate_recovery` of src/store.rs.
use termux_stacks.Prelude.{
  ℕ, ◌+◌, Bool, true, false, not, ◌&&◌, ◌||◌, List, [], ◌∷◌, Option, none, some, ltb, is_empty,
  if◌then◌else◌, length, map, all,
}
use termux_stacks.Ordered.Key.{Text, text, text_key, nat_key, pair_key, text_cmp, ◌==◌}
use termux_stacks.Ordered.Map
use termux_stacks.Ordered.Map.{BTreeMap, get, keys}
use termux_stacks.Ordered.Set
use termux_stacks.Manifest.Types.{Manifest, Service}
use termux_stacks.Manifest.Order.{start_order}
use termux_stacks.Store.Tables.{Desired, Observed, Phase, RootfsState, Role, ServiceRow, is_null}
use termux_stacks.Store.Sql
use termux_stacks.Store.Sql.{
  Action, ◌>>=◌, ◌>>◌, pure, query, expect, deny, unix_time, count, require_one, update_stack,
  update_service, update_generation, insert_generation, insert_operation, insert_operation_service,
  conflict, not_found,
}
use termux_stacks.Store.Rows.{OperationRow, set_of, service_names, reject_unfinished_operation}
use termux_stacks.Store.Up.{ServicePlan, same_names, is_unsafe, any_allows_fresh_up, try}
use termux_stacks.Store.Begin.{order_of}
use termux_stacks.Store.Recovery.{
  CandidateGeneration, Candidate, failed_operations, prior_operations, find_previous,
  judge_candidates,
}

-- A service of the result: its plan, and whether its rootfs is reused.
pub record CandidateRecoveryService : Type 0 where
  pub plan : ServicePlan
  pub reuse_installed : Bool

pub record CandidateRecovery : Type 0 where
  pub revision : ℕ
  pub services : BTreeMap Text CandidateRecoveryService

abbrev plan_of : CandidateGeneration → ServicePlan
plan_of c = record { alias = c.row.alias; stdout_log = c.stdout_log; stderr_log = c.stderr_log }

-- The previous generation is given up for the next one.
unfoldable pub replace_generation :
    (stack name image : Text) → (generation : ℕ) → ServicePlan → (now : ℕ) → Action (Unit {0})
replace_generation stack name image generation plan now = do
  n ←
      update_generation ((stack, name), generation) (λ _. true)
        (λ g. record g { state = RootfsState.absent; role = Role.retired; updated_at = now })
  require_one n name
  insert_generation ((stack, name), generation + 1)
      (record {
        alias = plan.alias;
        image = image;
        state = RootfsState.preparing;
        role = Role.candidate;
        created_at = now;
        updated_at = now;
      })

abbrev recovered_phase : Bool → Phase
recovered_phase true = Phase.installed
recovered_phase false = Phase.intent

abbrev recovered_observed : Bool → Observed
recovered_observed true = Observed.starting
recovered_observed false = Observed.preparing

unfoldable pub recovered_row : Bool → ServicePlan → ℕ → ServiceRow → ServiceRow
recovered_row reuse plan now v = record v {
  desired_state = Desired.running;
  observed_state = recovered_observed reuse;
  effect_phase = recovered_phase reuse;
  session_id = none;
  child_pid = none;
  child_starttime = none;
  boot_id = none;
  last_exit_code = none;
  last_exit_signal = none;
  restart_attempts = 0;
  restart_window_started_at = none;
  next_restart_at = none;
  stdout_log_path = plan.stdout_log;
  stderr_log_path = plan.stderr_log;
  updated_at = now;
}

-- The end of a round, the same whether the rootfs is reused or not.
unfoldable pub journal_recovery :
    (request stack name config : Text)
    → (generation : ℕ) → Bool
    → ServicePlan
    → (now ordinal : ℕ) → Action CandidateRecoveryService
unfolding recovered_row
journal_recovery request stack name config generation reuse plan now ordinal = do
  n ← update_service (stack, name) (λ v. v.active) (recovered_row reuse plan now)
  require_one n name
  insert_operation_service (request, name)
      (record {
        stack_name = stack;
        ordinal = ordinal;
        phase = recovered_phase reuse;
        outcome = none;
        candidate_config_json = some config;
        generation = some generation;
        error = none;
      })
  pure (record { plan = plan; reuse_installed = reuse })

module _ (config_json : Service → Text) where
  -- One round of the loop over the start order.
  unfoldable pub recover_service :
      (request : Text)
      → Manifest
      → BTreeMap Text ServicePlan
      → BTreeMap Text Candidate
      → (now ordinal : ℕ) → (name : Text) → Action CandidateRecoveryService
  unfolding replace_generation journal_recovery text_cmp
  recover_service request manifest fresh_plans candidates now ordinal name = do
    candidate ← expect (get name candidates) Sql.panic
    service ← expect (get name manifest.services) Sql.panic
    plan ← expect (get name fresh_plans) Sql.panic
    let previous = candidate.0
    let reuse =
        journal_recovery request manifest.name name (config_json service) previous.generation true
          (plan_of previous) now ordinal
    let replace =
        replace_generation manifest.name name service.image previous.generation plan now
        >> journal_recovery request manifest.name name (config_json service)
            (previous.generation + 1) false plan now ordinal
    if candidate.1 then reuse else replace

  unfoldable pub recover_services :
      (request : Text)
      → Manifest
      → BTreeMap Text ServicePlan
      → BTreeMap Text Candidate
      → (now ordinal : ℕ) → List Text
      → BTreeMap Text CandidateRecoveryService
      → Action (BTreeMap Text CandidateRecoveryService)
  unfolding recover_service text_cmp
  recover_services request manifest fresh_plans candidates now ordinal [] services = pure services
  recover_services request manifest fresh_plans candidates now ordinal (name ∷ names) services = do
    service ← recover_service request manifest fresh_plans candidates now ordinal name
    recover_services request manifest fresh_plans candidates now (ordinal + 1) names
        (Map.insert name service services)

  abbrev config_map : BTreeMap Text Service → BTreeMap Text Text
  config_map [] = []
  config_map ((name, service) ∷ services) = (name, config_json service) ∷ config_map services

  -- The rows of the failed `up` that is taken up again, or a refusal.
  unfoldable pub choose_previous :
      Manifest → (source base : Text) → (revision : ℕ) → Action (List OperationRow)
  unfolding service_names count failed_operations any_allows_fresh_up find_previous keys
  choose_previous manifest source base revision = do
    current_names ← query (service_names manifest.name)
    deny
        (ltb 0 revision
          && (not (same_names current_names (keys manifest.services)) || is_empty current_names))
        (conflict manifest.name)
    unsafe_services ← query (λ db. count (is_unsafe manifest.name) db.services)
    deny (not (unsafe_services == 0)) (conflict manifest.name)
    operations ← query (failed_operations manifest.name (revision + 1))
    deny (is_empty operations) (not_found manifest.name)
    safe ←
        try (λ db. any_allows_fresh_up manifest.name current_names db (map (λ o. o.0) operations))
    let changed = not (same_names current_names (keys manifest.services))
    deny (changed && revision == 0 && safe) (not_found manifest.name)
    deny changed (conflict manifest.name)
    let prior = prior_operations source base operations
    deny (is_empty prior && safe) (not_found manifest.name)
    deny (is_empty prior) (conflict manifest.name)
    found ← try (λ db.
        find_previous manifest.name (keys manifest.services) (config_map manifest.services) db prior
          false)
    deny (is_null found.1 && found.0 && safe) (not_found manifest.name)
    expect found.1 (conflict manifest.name)

  unfoldable pub begin_candidate_recovery :
      Option ℕ
      → (request source base : Text) → Manifest
      → BTreeMap Text ServicePlan
      → Action CandidateRecovery
  unfolding choose_previous judge_candidates recover_services start_order keys Set.insert
  begin_candidate_recovery clock request source base manifest fresh_plans = do
    deny (not (same_names (keys manifest.services) (keys fresh_plans))) (conflict manifest.name)
    let aliases = map (λ p. p.1.alias) fresh_plans
    deny (not (length (set_of aliases) == length aliases)) (conflict manifest.name)
    now ← unix_time clock
    reject_unfinished_operation manifest.name
    existing ← query (λ db. get manifest.name db.stacks)
    row ← expect existing (not_found manifest.name)
    rows ← choose_previous manifest source base row.committed_revision
    candidates ← judge_candidates manifest fresh_plans rows (keys manifest.services) []
    insert_operation request (record {
      stack_name = manifest.name;
      operation = text "up";
      phase = recovered_phase (all (λ c. c.1.1) candidates);
      candidate_manifest = some source;
      manifest_base = some base;
      candidate_revision = some (row.committed_revision + 1);
      target_service = none;
      outcome = none;
      error = none;
      response_json = none;
      created_at = now;
      updated_at = now;
    })
    n ←
        update_stack manifest.name (λ _. true)
          (λ v. record v {
            desired_state = Desired.running;
            observed_state = Observed.starting;
            updated_at = now;
          })
    require_one n manifest.name
    order ← expect (order_of (start_order manifest)) Sql.panic
    services ← recover_services request manifest fresh_plans candidates now 0 order []
    pure (record { revision = row.committed_revision + 1; services = services })
