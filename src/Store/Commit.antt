-- ===== src/Store/Commit.antt =====
-- `commit_up` of src/store.rs: every service and rootfs of a candidate becomes visible at once.
use termux_stacks.Prelude.{ℕ, Bool, true, not, ◌&&◌, Option, none, some, ltb, if◌then◌else◌}
use termux_stacks.Ordered.Key.{Text, text, text_key, nat_key, pair_key, pair_cmp, text_cmp, ◌==◌}
use termux_stacks.Ordered.Map.{get}
use termux_stacks.Store.Tables.{
  Desired, Observed, Phase, Role, Ending, GenerationRow, Operation, StackRow, Database, is_null,
  is_success, is_candidate, is_current, is_installed,
}
use termux_stacks.Store.Sql
use termux_stacks.Store.Sql.{
  Action, ◌>>=◌, ◌>>◌, query, expect, deny, unix_time, for_each, require_one, update_stack,
  update_service, update_generation, update_generations, update_operation, insert_operation,
  check_roles, count, conflict, not_found,
}
use termux_stacks.Store.Rows.{OperationRow, operation_rows}

-- The parts of an operation that have not succeeded.
unfoldable pub incomplete : Text → Database → ℕ
unfolding count
incomplete request db =
    count (λ k r. k.0 == request && not (is_success r.outcome)) db.operation_services

-- The row of an unfinished `up` of the stack.
abbrev pub is_open_up : Text → Operation → Bool
is_open_up stack o = o.stack_name == stack && o.operation == text "up" && is_null o.outcome

unfoldable pub open_up : (request stack : Text) → Database → Option Operation
unfolding text_cmp
open_up request stack db = elim (get request db.operations) [
  | none ↦ none
  | some o ↦ if is_open_up stack o then some o else none
]

abbrev alias_of_installed : Option GenerationRow → Option Text
alias_of_installed none = none
alias_of_installed (some g) =
    if is_installed g.state && is_candidate g.role then some g.alias else none

-- One round of the loop over the rows.
unfoldable pub promote : Text → ℕ → OperationRow → Action (Unit {0})
unfolding pair_cmp check_roles
promote stack now ((request, service), row) = do
  generation ← expect row.generation (conflict service)
  config ← expect row.candidate_config_json (conflict service)
  found ← query (λ db. get ((stack, service), generation) db.generations)
  alias ← expect (alias_of_installed found) Sql.bad_row
  update_generations (λ j g. j.0 == (stack, service) && is_current g.role)
      (λ g. record g { role = Role.retired; updated_at = now })
  n ←
      update_generation ((stack, service), generation) (λ _. true)
        (λ g. record g { role = Role.current; updated_at = now })
  check_roles (stack, service)
  require_one n service
  changed ←
      update_service (stack, service) (λ v. v.active)
        (λ v. record v {
          config_json = config;
          current = some (alias, generation);
          desired_state = Desired.running;
          observed_state = Observed.running;
          effect_phase = Phase.committed;
          updated_at = now;
        })
  require_one changed service

unfoldable pub committed_row :
    (manifest manifest_base : Text) → (revision now : ℕ) → StackRow → StackRow
committed_row manifest manifest_base revision now v = record v {
  desired_state = Desired.running;
  observed_state = Observed.running;
  manifest = manifest;
  manifest_base = manifest_base;
  committed_revision = revision;
  updated_at = now;
}

-- The end of `commit_up`.
unfoldable pub make_visible :
    (request stack manifest manifest_base : Text) → (revision now : ℕ) → Action (Unit {0})
unfolding committed_row
make_visible request stack manifest manifest_base revision now = do
  n ←
      update_stack stack (λ v. ltb v.committed_revision revision)
        (committed_row manifest manifest_base revision now)
  require_one n stack
  changed ←
      update_operation request (λ o. is_null o.outcome)
        (λ o. record o { phase = Phase.committed; outcome = some Ending.success; updated_at = now })
  require_one changed request

unfoldable pub commit_up : Option ℕ → (request stack : Text) → Action (Unit {0})
unfolding incomplete open_up promote make_visible
commit_up clock request stack = do
  now ← unix_time clock
  found ← query (open_up request stack)
  operation ← expect found (not_found request)
  manifest ← expect operation.candidate_manifest Sql.bad_row
  manifest_base ← expect operation.manifest_base Sql.bad_row
  revision ← expect operation.candidate_revision Sql.bad_row
  missing ← query (incomplete request)
  deny (not (missing == 0)) (conflict request)
  rows ← query (operation_rows request)
  for_each rows (promote stack now)
  make_visible request stack manifest manifest_base revision now

unfoldable pub record_noop_up :
    Option ℕ → (request stack candidate_manifest manifest_base : Text) → Action (Unit {0})
record_noop_up clock request stack candidate_manifest manifest_base = do
  now ← unix_time clock
  found ← query (λ db. get stack db.stacks)
  row ← expect found Sql.bad_row
  insert_operation request (record {
    stack_name = stack;
    operation = text "up";
    phase = Phase.already_running;
    candidate_manifest = some candidate_manifest;
    manifest_base = some manifest_base;
    candidate_revision = some row.committed_revision;
    target_service = none;
    outcome = some Ending.success;
    error = none;
    response_json = none;
    created_at = now;
    updated_at = now;
  })

-- The response is written as JSON by a library.
unfoldable pub cache_response : Option ℕ → (request json : Text) → Action (Unit {0})
cache_response clock request json = do
  now ← unix_time clock
  n ←
      update_operation request (λ _. true)
        (λ o. record o { response_json = some json; updated_at = now })
  Sql.pure tt
