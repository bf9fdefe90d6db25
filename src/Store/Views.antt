-- ===== src/Store/Views.antt =====
-- What is read of the tables without a change (src/store.rs: `stack_status`, `service_identity`,
-- `existing_stack`, `operation_replay`).
use termux_stacks.Prelude.{ℕ, Bool, false, ◌&&◌, ◌||◌, List, [], ◌∷◌, Option, none, some}
use termux_stacks.Prelude.Outcome.{Outcome, done, failed}
use termux_stacks.Ordered.Key.{Text, text, text_key, nat_key, pair_key, pair_cmp, text_cmp, ◌==◌}
use termux_stacks.Ordered.Map.{get}
use termux_stacks.Manifest.Literal.{ℤ}
use termux_stacks.Store.Tables.{
  Desired, Observed, Phase, RootfsState, StackRow, ServiceRow, ServiceKey, GenerationRow, Operation,
  Database, is_null, is_failure, is_candidate,
}
use termux_stacks.Store.Sql
use termux_stacks.Store.Sql.{Error, select, exists, not_found}
use termux_stacks.Store.Rows.{is_of}
use termux_stacks.Store.Down.{active_service}

pub record ServiceStatus : Type 0 where
  pub name : Text
  pub desired_state : Desired
  pub observed_state : Observed
  pub effect_phase : Phase
  pub rootfs_state : RootfsState
  pub alias : Option Text
  pub generation : Option ℕ
  pub session_id : Option ℕ
  pub last_exit_code : Option ℤ
  pub last_exit_signal : Option ℤ
  pub restart_attempts : ℕ
  pub next_restart_at : Option ℕ
  pub stdout_log : Text
  pub stderr_log : Text

pub record StackStatus : Type 0 where
  pub name : Text
  pub desired_state : Desired
  pub observed_state : Observed
  pub revision : ℕ
  pub services : List ServiceStatus

-- The operation is an `up` of the stack that counts for its candidates: one that is unfinished or,
-- where `failed_too`, one that failed.
abbrev counts : Text → (failed_too : Bool) → Option Operation → Bool
counts stack failed_too none = false
counts stack failed_too (some o) =
    o.stack_name == stack
    && o.operation == text "up"
    && (is_null o.outcome || (failed_too && is_failure o.outcome))

abbrev is_number : ℕ → Option ℕ → Bool
is_number n none = false
is_number n (some m) = m == n

-- The EXISTS of the join with the candidate.
unfoldable pub has_part : ServiceKey → ℕ → (failed_too : Bool) → Database → Bool
unfolding exists text_cmp
has_part k generation failed_too db =
    exists
      (λ j r.
        j.1 == k.1
        && is_number generation r.generation
        && counts k.0 failed_too (get j.0 db.operations))
      db.operation_services

abbrev head : List (ℕ × GenerationRow) → Option (ℕ × GenerationRow)
head [] = none
head (x ∷ xs) = some x

-- The candidate generation of a service; a unique index has one at most.
unfoldable pub candidate_of :
    ServiceKey → (failed_too : Bool) → Database → Option (ℕ × GenerationRow)
unfolding select has_part pair_cmp
candidate_of k failed_too db = head (
    select (λ j g. j.0 == k && is_candidate g.role && has_part k j.1 failed_too db)
      (λ j g. (j.1, g)) db.generations)

abbrev current_state : Option GenerationRow → RootfsState
current_state none = RootfsState.absent
current_state (some g) = g.state

abbrev current_generation : ServiceKey → Option (Text × ℕ) → Database → Option GenerationRow
current_generation k none db = none
current_generation k (some (alias, n)) db = get (k, n) db.generations

-- COALESCE of the candidate's column and the current one.
abbrev shown_state : Option (ℕ × GenerationRow) → Option GenerationRow → RootfsState
shown_state none found = current_state found
shown_state (some (n, g)) found = g.state

abbrev shown_alias : Option (ℕ × GenerationRow) → Option (Text × ℕ) → Option Text
shown_alias (some (n, g)) current = some g.alias
shown_alias none none = none
shown_alias none (some (alias, n)) = some alias

abbrev shown_generation : Option (ℕ × GenerationRow) → Option (Text × ℕ) → Option ℕ
shown_generation (some (n, g)) current = some n
shown_generation none none = none
shown_generation none (some (alias, n)) = some n

unfoldable pub service_status :
    (failed_too : Bool) → Database → ServiceKey → ServiceRow → ServiceStatus
unfolding candidate_of pair_cmp
service_status failed_too db k v =
    let candidate = candidate_of k failed_too db in
    record {
      name = k.1;
      desired_state = v.desired_state;
      observed_state = v.observed_state;
      effect_phase = v.effect_phase;
      rootfs_state = shown_state candidate (current_generation k v.current db);
      alias = shown_alias candidate v.current;
      generation = shown_generation candidate v.current;
      session_id = v.session_id;
      last_exit_code = v.last_exit_code;
      last_exit_signal = v.last_exit_signal;
      restart_attempts = v.restart_attempts;
      next_restart_at = v.next_restart_at;
      stdout_log = v.stdout_log_path;
      stderr_log = v.stderr_log_path;
    }

unfoldable pub stack_status : (name : Text) → Database → Option StackStatus
unfolding service_status select
stack_status name db = elim (get name db.stacks) [
  | none ↦ none
  | some row ↦ some record {
    name = name;
    desired_state = row.desired_state;
    observed_state = row.observed_state;
    revision = row.committed_revision;
    services = select (is_of name) (service_status (row.committed_revision == 0) db) db.services;
  }
]

pub record ServiceIdentity : Type 0 where
  pub alias : Text
  pub generation : ℕ
  pub session_id : Option ℕ
  pub child_pid : Option ℕ
  pub child_starttime : Option ℕ
  pub boot_id : Option Text

abbrev shown : Option (ℕ × GenerationRow) → Option (Text × ℕ) → Option (Text × ℕ)
shown (some (n, g)) current = some (g.alias, n)
shown none current = current

-- An alias that is NULL is no text.
unfoldable pub service_identity : ServiceKey → Database → Outcome Error ServiceIdentity
unfolding active_service candidate_of
service_identity k db = elim (active_service k db) [
  | none ↦ failed (not_found k.1)
  | some v ↦ elim (shown (candidate_of k false db) v.current) [
    | none ↦ failed Sql.bad_row
    | some (alias, generation) ↦ done record {
      alias = alias;
      generation = generation;
      session_id = v.session_id;
      child_pid = v.child_pid;
      child_starttime = v.child_starttime;
      boot_id = v.boot_id;
    }
  ]
]

pub record ExistingService : Type 0 where
  pub name : Text
  pub row : ServiceRow
  pub rootfs_state : RootfsState

pub record ExistingStack : Type 0 where
  pub source : Text
  pub manifest_base : Text
  pub revision : ℕ
  pub desired_state : Desired
  pub observed_state : Observed
  pub services : List ExistingService

unfoldable pub existing_services : (name : Text) → Database → List ExistingService
unfolding select pair_cmp
existing_services name db =
    select (is_of name)
      (λ k v. record {
        name = k.1;
        row = v;
        rootfs_state = current_state (current_generation k v.current db);
      })
      db.services

abbrev pub existing : StackRow → List ExistingService → ExistingStack
existing row services = record {
  source = row.manifest;
  manifest_base = row.manifest_base;
  revision = row.committed_revision;
  desired_state = row.desired_state;
  observed_state = row.observed_state;
  services = services;
}

abbrev pub existing_of : Option StackRow → List ExistingService → Option ExistingStack
existing_of none services = none
existing_of (some row) services = some (existing row services)

unfoldable pub existing_stack : (name : Text) → Database → Option ExistingStack
unfolding existing_services
existing_stack name db = existing_of (get name db.stacks) (existing_services name db)

pub record OperationReplay : Type 0 where
  pub operation : Text
  pub stack_name : Text
  pub candidate_manifest : Option Text
  pub manifest_base : Option Text
  pub target_service : Option Text
  pub response_json : Option Text

abbrev pub replay : Operation → OperationReplay
replay o = record {
  operation = o.operation;
  stack_name = o.stack_name;
  candidate_manifest = o.candidate_manifest;
  manifest_base = o.manifest_base;
  target_service = o.target_service;
  response_json = o.response_json;
}

abbrev pub replay_of : Option Operation → Option OperationReplay
replay_of none = none
replay_of (some o) = some (replay o)

unfoldable pub operation_replay : (request : Text) → Database → Option OperationReplay
operation_replay request db = replay_of (get request db.operations)
