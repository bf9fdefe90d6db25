-- ===== src/Store/Up.antt =====
-- A candidate revision, prepared and committed (src/store.rs: `begin_up`, `commit_up`,
-- `record_noop_up`).
use termux_stacks.Prelude.{
  ℕ, Bool, true, false, not, ◌&&◌, ◌||◌, List, [], ◌∷◌, Option, none, some, ltb, is_empty,
  if◌then◌else◌, length, map, any,
}
use termux_stacks.Prelude.Outcome.{Outcome, done, failed}
use termux_stacks.Ordered.Key.{Text, text, text_key, nat_key, pair_key, pair_cmp, text_cmp, ◌==◌}
use termux_stacks.Ordered.Map.{BTreeMap, get}
use termux_stacks.Ordered.Set
use termux_stacks.Ordered.Set.{BTreeSet, contains}
use termux_stacks.Store.Tables.{
  Desired, Observed, Phase, Role, ServiceRow, ServiceKey, GenerationRow, Database, ◌is◌, is_null,
  is_failure, is_candidate, is_current, is_installed, is_unknown_phase, is_preparing, is_absent,
  is_failed_pre_effect,
}
use termux_stacks.Store.Sql.{
  Error, Action, ◌>>=◌, ◌>>◌, pure, query, deny, for_each, require_one, update_stack,
  update_service, update_generations, insert_stack, select, count, conflict,
}
use termux_stacks.Store.Rows.{OperationRow, is_of, service_names, operation_rows, set_of}

pub record ServicePlan : Type 0 where
  pub alias : Text
  pub stdout_log : Text
  pub stderr_log : Text

-- Equality of names, element by element: the sets are in order.
abbrev pub same_names : List Text → List Text → Bool
same_names [] [] = true
same_names (a ∷ s) (b ∷ t) = a == b && same_names s t
same_names _ _ = false

abbrev is_ended : Observed → Bool
is_ended s = s is Observed.stopped || s is Observed.failed

-- The services that keep a new revision from being prepared.
abbrev pub is_unsafe : Text → ServiceKey → ServiceRow → Bool
is_unsafe stack k v =
    is_of stack k v
    && (not (is_ended v.observed_state)
        || is_unknown_phase v.effect_phase
        || not (is_null v.child_pid)
        || not (is_null v.session_id)
        || not (is_null v.child_starttime)
        || not (is_null v.boot_id)
        || not (is_null v.next_restart_at))

-- `SELECT max(generation)`, 0 where there is none.
unfoldable pub max_generation : ServiceKey → BTreeMap (ServiceKey × ℕ) GenerationRow → ℕ
unfolding pair_cmp
max_generation k [] = 0
max_generation k ((j, g) ∷ m) =
    let rest = max_generation k m in if j.0 == k && ltb rest j.1 then j.1 else rest

-- A candidate of which nothing ambiguous would be lost.
abbrev is_safe_candidate : GenerationRow → Phase → Bool
is_safe_candidate g phase =
    (is_installed g.state && not (is_current g.role))
    || (is_absent g.state && not (is_current g.role))
    || (is_preparing g.state && is_candidate g.role && is_failed_pre_effect phase)

unfoldable pub retire_candidate : ServiceKey → ℕ → Action (Unit {0})
unfolding pair_cmp
retire_candidate k now =
    update_generations (λ j g. j.0 == k && is_candidate g.role)
      (λ g. record g { role = Role.retired; updated_at = now })

-- One row of `terminal_candidate_allows_fresh_up`.
unfoldable pub allows_fresh : Text → Database → OperationRow → Outcome Error Bool
unfolding max_generation pair_cmp
allows_fresh stack db ((request, service), row) = elim row.generation [
  | none ↦ done false
  | some generation ↦
      if generation == 0 || not (max_generation (stack, service) db.generations == generation)
      then done false
      else elim (get ((stack, service), generation) db.generations) [
        | none ↦ failed (conflict service)
        | some g ↦ elim (get (stack, service) db.services) [
          | none ↦ failed (conflict service)
          | some v ↦ done (is_safe_candidate g row.phase)
        ]
      ]
]

-- The loop: the first row that is not safe ends it.
unfoldable pub all_allow_fresh : Text → Database → List OperationRow → Outcome Error Bool
unfolding allows_fresh
all_allow_fresh stack db [] = done true
all_allow_fresh stack db (row ∷ rows) =
    let rest = all_allow_fresh stack db rows in
    elim (allows_fresh stack db row) [
      | failed e ↦ failed e
      | done safe ↦ if safe then rest else done false
    ]

unfoldable pub terminal_candidate_allows_fresh_up :
    Text → BTreeSet Text → Database → (request : Text) → Outcome Error Bool
unfolding operation_rows all_allow_fresh Set.insert
terminal_candidate_allows_fresh_up stack expected db request =
    let rows = operation_rows request db in
    if not (same_names (set_of (map (λ r. r.0.1) rows)) expected)
      || not (length rows == length expected)
      || any (λ r. not (r.1.stack_name == stack)) rows
    then done false
    else all_allow_fresh stack db rows

unfoldable pub any_allows_fresh_up :
    Text → BTreeSet Text → Database → List Text → Outcome Error Bool
unfolding terminal_candidate_allows_fresh_up
any_allows_fresh_up stack active db [] = done false
any_allows_fresh_up stack active db (request ∷ requests) =
    let rest = any_allows_fresh_up stack active db requests in
    elim (terminal_candidate_allows_fresh_up stack active db request) [
      | failed e ↦ failed e
      | done allowed ↦ if allowed then done true else rest
    ]

abbrev is_first_revision : Option ℕ → Bool
is_first_revision none = false
is_first_revision (some n) = n == 1

-- The failed attempts at the first revision, in the order of their requests.
unfoldable pub failed_candidates : Text → Database → List Text
unfolding select text_cmp
failed_candidates stack db =
    select
      (λ k o.
        o.stack_name == stack
        && o.operation == text "up"
        && is_failure o.outcome
        && is_first_revision o.candidate_revision)
      (λ k o. k) db.operations

unfoldable pub revision_zero_candidate_allows_fresh_up :
    Text → BTreeSet Text → Database → Outcome Error Bool
unfolding failed_candidates any_allows_fresh_up
revision_zero_candidate_allows_fresh_up stack active db =
    if is_empty active
    then done true
    else any_allows_fresh_up stack active db (failed_candidates stack db)

-- A query that may fail.
unfoldable pub try : {A : Type 0} → (Database → Outcome Error A) → Action A
try f db = elim (f db) [ failed e ↦ failed e | done a ↦ done (a, db) ]

-- Services of a never-committed stack that the manifest names no more.
unfoldable pub retire_obsolete : Text → ℕ → Text → Action (Unit {0})
unfolding retire_candidate
retire_obsolete stack now obsolete = do
  retire_candidate (stack, obsolete) now
  n ←
      update_service (stack, obsolete) (λ v. v.active)
        (λ v. record v {
          active = false;
          desired_state = Desired.stopped;
          next_restart_at = none;
          updated_at = now;
        })
  require_one n obsolete

abbrev pub difference : List Text → BTreeSet Text → List Text
difference [] names = []
difference (n ∷ ns) names =
    let rest = difference ns names in if contains n names then rest else n ∷ rest

-- The guards on a stack that there is, and its change.
unfoldable pub reopen_stack : Text → BTreeSet Text → ℕ → ℕ → Action (Unit {0})
unfolding service_names count retire_obsolete revision_zero_candidate_allows_fresh_up
reopen_stack stack manifest_names revision now = do
  current_names ← query (service_names stack)
  deny (ltb 0 revision && not (same_names current_names manifest_names)) (conflict stack)
  unsafe_services ← query (λ db. count (is_unsafe stack) db.services)
  deny (not (unsafe_services == 0)) (conflict stack)
  fresh ← try (λ db.
      if revision == 0
      then revision_zero_candidate_allows_fresh_up stack current_names db
      else done true)
  deny (not fresh) (conflict stack)
  for_each (if revision == 0 then difference current_names manifest_names else [])
      (retire_obsolete stack now)
  n ←
      update_stack stack (λ _. true)
        (λ v. record v {
          desired_state = Desired.running;
          observed_state = Observed.starting;
          updated_at = now;
        })
  pure tt

unfoldable pub create_stack : Text → ℕ → Action (Unit {0})
create_stack stack now = insert_stack stack (record {
  desired_state = Desired.running;
  observed_state = Observed.starting;
  manifest = [];
  manifest_base = [];
  committed_revision = 0;
  created_at = now;
  updated_at = now;
})
