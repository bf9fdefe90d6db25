-- ===== src/Tests/StoreSample.antt =====
-- A stack of the store with a committed service, an `up` that is ready to commit, and a service in
-- backoff.
use termux_stacks.Prelude.{ℕ, [], ◌∷◌, Option, none, some, true}
use termux_stacks.Prelude.Outcome.{Outcome, done, failed}
use termux_stacks.Ordered.Key.{Text, text, text_cmp, pair_cmp}
use termux_stacks.Ordered.Map
use termux_stacks.Ordered.Set
use termux_stacks.Store.Tables.{
  Database, Desired, Observed, Phase, RootfsState, Role, Ending, StackRow, ServiceRow,
  GenerationRow, Operation, OperationService,
}
use termux_stacks.Store.Sql
use termux_stacks.Store.Sql.{Error}
use termux_stacks.Store.Rows
use termux_stacks.Store.Up
use termux_stacks.Store.Commit
use termux_stacks.Store.Down
use termux_stacks.Store.Backoff
use termux_stacks.Store.Cold
use termux_stacks.Store.History

abbrev pub notes : Text
notes = text "notes"

abbrev pub api : Text
api = text "api"

abbrev pub request : Text
request = text "r1"

abbrev pub stack_row : StackRow
stack_row = record {
  desired_state = Desired.running;
  observed_state = Observed.starting;
  manifest = text "old";
  manifest_base = text "/srv";
  committed_revision = 1;
  created_at = 10;
  updated_at = 10;
}

abbrev pub api_row : ServiceRow
api_row = record {
  active = true;
  config_json = text "{}";
  desired_state = Desired.running;
  observed_state = Observed.running;
  current = some (text "a1", 1);
  effect_phase = Phase.running;
  session_id = some 7;
  child_pid = some 42;
  child_starttime = some 5;
  boot_id = some (text "b");
  last_exit_code = none;
  last_exit_signal = none;
  restart_attempts = 0;
  restart_window_started_at = none;
  next_restart_at = none;
  stdout_log_path = text "/o";
  stderr_log_path = text "/e";
  created_at = 10;
  updated_at = 10;
}

abbrev pub generation : Text → RootfsState → Role → GenerationRow
generation alias state role = record {
  alias = alias;
  image = text "alpine";
  state = state;
  role = role;
  created_at = 10;
  updated_at = 10;
}

abbrev pub operation : Operation
operation = record {
  stack_name = notes;
  operation = text "up";
  phase = Phase.intent;
  candidate_manifest = some (text "new");
  manifest_base = some (text "/srv");
  candidate_revision = some 2;
  target_service = none;
  outcome = none;
  error = none;
  response_json = none;
  created_at = 20;
  updated_at = 20;
}

abbrev pub part : OperationService
part = record {
  stack_name = notes;
  ordinal = 0;
  phase = Phase.running;
  outcome = some Ending.success;
  candidate_config_json = some (text "{new}");
  generation = some 2;
  error = none;
}

abbrev pub tables : Database
tables = record {
  stacks = (notes, stack_row) ∷ [];
  services = ((notes, api), api_row) ∷ [];
  generations =
      (((notes, api), 1), generation (text "a1") RootfsState.installed Role.current)
      ∷ (((notes, api), 2), generation (text "a2") RootfsState.installed Role.candidate)
      ∷ [];
  operations = (request, operation) ∷ [];
  operation_services = ((request, api), part) ∷ [];
}

abbrev pub after : {A : Type 0} → Database → Outcome Error (A × Database) → Database
after db (done x) = x.1
after db (failed e) = db

abbrev pub value : {A : Type 0} → A → Outcome Error (A × Database) → A
value a (done x) = x.0
value a (failed e) = a

abbrev pub clock : Option ℕ
clock = some 100

-- The same stack with the service in backoff until 90, and nothing under way.
abbrev pub waiting_row : ServiceRow
waiting_row = record api_row {
  observed_state = Observed.restarting;
  effect_phase = Phase.backoff;
  session_id = none;
  child_pid = none;
  child_starttime = none;
  boot_id = none;
  next_restart_at = some 90;
}

abbrev pub waiting : Database
waiting = record tables {
  services = ((notes, api), waiting_row) ∷ [];
  operations = [];
  operation_services = [];
}

-- All that a run of the store's code computes with.
unfoldable pub store_code : Unit {0}
unfolding text_cmp pair_cmp Map.get Map.insert Map.contains_key Map.keys Set.insert Sql.◌>>=◌
    Sql.◌>>◌ Sql.pure Sql.query Sql.deny Sql.expect Sql.for_each Sql.sum_each Sql.unix_time
    Sql.require_one Sql.update_row Sql.update_where Sql.count Sql.exists Sql.select Sql.update_stack
    Sql.update_service Sql.update_services Sql.update_operation Sql.update_operation_service
    Sql.update_generation Sql.update_generations Sql.unless Sql.check_roles Sql.transaction
    Rows.stack_state Rows.active_states Rows.refresh_stack_state Rows.has_unfinished
    Rows.service_stack_names Rows.insert_by Rows.sort_by Rows.operation_rows Up.max_generation
    Commit.incomplete Commit.open_up Commit.promote Commit.committed_row Commit.make_visible
    Commit.commit_up Down.evidence_of Backoff.mark_restart_invoked Backoff.due_restarts
    Cold.unfinished_operation_rows Cold.unfinished_parent_operations Cold.active_service_rows
    Cold.is_current_start Cold.verdict Cold.settle_generation Cold.settle_part Cold.lose_service
    Cold.is_safe_down Cold.is_ambiguous_parent Cold.settle_parent Cold.reconcile_cold_start
    History.ignore History.perform History.history
store_code = tt
