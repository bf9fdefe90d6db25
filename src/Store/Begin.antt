-- ===== src/Store/Begin.antt =====
-- `begin_up` of src/store.rs: a complete candidate is recorded before any effect.
use termux_stacks.Prelude.{ℕ, ◌+◌, Bool, true, not, List, Option, none, some, if◌then◌else◌}
use termux_stacks.Ordered.Key.{Text, text, text_key, nat_key, pair_key}
use termux_stacks.Ordered.Map.{BTreeMap, get, keys}
use termux_stacks.Manifest.Error.{Result, ok}
use termux_stacks.Manifest.Types.{Manifest, Service}
use termux_stacks.Manifest.Order.{start_order}
use termux_stacks.Store.Tables.{
  Desired, Observed, Phase, RootfsState, Role, StackRow, ServiceRow, is_null,
}
use termux_stacks.Store.Sql
use termux_stacks.Store.Sql.{
  Action, ◌>>=◌, ◌>>◌, pure, fail, query, expect, deny, unix_time, for_each_from, require_one,
  update_service, insert_service, insert_generation, insert_operation, insert_operation_service,
  conflict,
}
use termux_stacks.Store.Rows.{reject_unfinished_operation}
use termux_stacks.Store.Up.{
  ServicePlan, same_names, max_generation, retire_candidate, reopen_stack, create_stack,
}

-- A service that there is starts over; its configuration and its rootfs stay those committed.
unfoldable pub reset_service : ServicePlan → ℕ → ServiceRow → ServiceRow
reset_service plan now v = record v {
  active = true;
  desired_state = Desired.running;
  observed_state = Observed.preparing;
  effect_phase = Phase.intent;
  session_id = none;
  child_pid = none;
  child_starttime = none;
  boot_id = none;
  last_exit_code = none;
  last_exit_signal = none;
  restart_attempts = 0;
  restart_window_started_at = none;
  next_restart_at = none;
  stdout_log_path = plan.stdout_log;
  stderr_log_path = plan.stderr_log;
  updated_at = now;
}

unfoldable pub new_service : Text → ServicePlan → ℕ → ServiceRow
new_service config plan now = record {
  active = true;
  config_json = config;
  desired_state = Desired.running;
  observed_state = Observed.preparing;
  current = none;
  effect_phase = Phase.intent;
  session_id = none;
  child_pid = none;
  child_starttime = none;
  boot_id = none;
  last_exit_code = none;
  last_exit_signal = none;
  restart_attempts = 0;
  restart_window_started_at = none;
  next_restart_at = none;
  stdout_log_path = plan.stdout_log;
  stderr_log_path = plan.stderr_log;
  created_at = now;
  updated_at = now;
}

abbrev some_service : Option ServiceRow → Bool
some_service found = not (is_null found)

unfoldable pub place_service : (stack name config : Text) → ServicePlan → ℕ → Action (Unit {0})
unfolding reset_service new_service
place_service stack name config plan now = do
  found ← query (λ db. get (stack, name) db.services)
  let update = do
    n ← update_service (stack, name) (λ _. true) (reset_service plan now)
    require_one n name
  if some_service found then update else insert_service (stack, name) (new_service config plan now)

abbrev pub order_of : Result (List Text) → Option (List Text)
order_of (ok order) = some order
order_of _ = none

abbrev revision_of : Option StackRow → ℕ
revision_of none = 0
revision_of (some row) = row.committed_revision

-- The stack as the new operation finds it.
unfoldable pub open_stack :
    Option StackRow → Text → (manifest_names : List Text) → ℕ → Action (Unit {0})
unfolding reopen_stack create_stack
open_stack none stack manifest_names now = create_stack stack now
open_stack (some row) stack manifest_names now =
    reopen_stack stack manifest_names row.committed_revision now

-- `service_config_json` writes JSON by a library: a parameter.
module _ (config_json : Service → Text) where
  -- One round of the loop over the start order.
  unfoldable pub prepare_service :
      (request : Text)
      → Manifest
      → BTreeMap Text ServicePlan
      → (now ordinal : ℕ) → (name : Text) → Action (Unit {0})
  unfolding place_service retire_candidate max_generation
  prepare_service request manifest plans now ordinal name = do
    service ← expect (get name manifest.services) Sql.panic
    plan ← expect (get name plans) Sql.panic
    retire_candidate (manifest.name, name) now
    latest ← query (λ db. max_generation (manifest.name, name) db.generations)
    place_service manifest.name name (config_json service) plan now
    insert_generation ((manifest.name, name), latest + 1)
        (record {
          alias = plan.alias;
          image = service.image;
          state = RootfsState.preparing;
          role = Role.candidate;
          created_at = now;
          updated_at = now;
        })
    insert_operation_service (request, name)
        (record {
          stack_name = manifest.name;
          ordinal = ordinal;
          phase = Phase.intent;
          outcome = none;
          candidate_config_json = some (config_json service);
          generation = some (latest + 1);
          error = none;
        })

  unfoldable pub begin_up :
      Option ℕ
      → (request source manifest_base : Text) → Manifest
      → BTreeMap Text ServicePlan
      → Action ℕ
  unfolding open_stack prepare_service keys start_order
  begin_up clock request source manifest_base manifest plans = do
    deny (not (same_names (keys manifest.services) (keys plans))) (conflict manifest.name)
    now ← unix_time clock
    reject_unfinished_operation manifest.name
    existing ← query (λ db. get manifest.name db.stacks)
    open_stack existing manifest.name (keys manifest.services) now
    insert_operation request (record {
      stack_name = manifest.name;
      operation = text "up";
      phase = Phase.intent;
      candidate_manifest = some source;
      manifest_base = some manifest_base;
      candidate_revision = some (revision_of existing + 1);
      target_service = none;
      outcome = none;
      error = none;
      response_json = none;
      created_at = now;
      updated_at = now;
    })
    order ← expect (order_of (start_order manifest)) Sql.panic
    for_each_from 0 order (prepare_service request manifest plans now)
    pure (revision_of existing + 1)
