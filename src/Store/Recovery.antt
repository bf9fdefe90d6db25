-- ===== src/Store/Recovery.antt =====
-- A failed candidate taken up again (`begin_candidate_recovery` of src/store.rs): what is judged
-- before anything is changed.
use termux_stacks.Prelude.{
  ℕ, Bool, true, false, not, ◌&&◌, ◌||◌, List, [], ◌∷◌, Option, none, some, if◌then◌else◌, map, any,
  all,
}
use termux_stacks.Prelude.Outcome.{Outcome, done, failed}
use termux_stacks.Ordered.Key.{Text, text, text_key, nat_key, pair_key, pair_cmp, text_cmp, ◌==◌}
use termux_stacks.Ordered.Map
use termux_stacks.Ordered.Map.{BTreeMap, get}
use termux_stacks.Ordered.Set
use termux_stacks.Manifest.Types.{Manifest}
use termux_stacks.Store.Tables.{
  ServiceKey, GenerationRow, Operation, OperationService, Database, is_null, is_failure,
  is_candidate, is_current, is_installed, is_absent, is_preparing, is_failed_pre_effect,
}
use termux_stacks.Store.Sql
use termux_stacks.Store.Sql.{
  Error, Action, ◌>>=◌, ◌>>◌, pure, query, expect, deny, select, exists, conflict, not_found,
}
use termux_stacks.Store.Rows.{OperationRow, operation_rows, set_of}
use termux_stacks.Store.Up.{
  ServicePlan, same_names, max_generation, terminal_candidate_allows_fresh_up,
}

pub record CandidateGeneration : Type 0 where
  pub generation : ℕ
  pub row : GenerationRow
  pub stdout_log : Text
  pub stderr_log : Text

-- The JOIN of a rootfs generation with its service.
unfoldable pub recovery_generation : ServiceKey → ℕ → Database → Option CandidateGeneration
unfolding pair_cmp
recovery_generation k generation db = elim (get (k, generation) db.generations) [
  | none ↦ none
  | some g ↦ elim (get k db.services) [
    | none ↦ none
    | some v ↦ some record {
      generation = generation;
      row = g;
      stdout_log = v.stdout_log_path;
      stderr_log = v.stderr_log_path;
    }
  ]
]

abbrev has_revision : ℕ → Option ℕ → Bool
has_revision n none = false
has_revision n (some m) = m == n

-- The failed attempts at a revision, in the order of their requests.
unfoldable pub failed_operations : Text → ℕ → Database → List (Text × Operation)
unfolding select text_cmp
failed_operations stack revision db =
    select
      (λ k o.
        o.stack_name == stack
        && o.operation == text "up"
        && is_failure o.outcome
        && has_revision revision o.candidate_revision)
      (λ k o. (k, o)) db.operations

abbrev is_text : Text → Option Text → Bool
is_text s none = false
is_text s (some t) = t == s

-- Those with the same manifest and base.
abbrev pub prior_operations : (source base : Text) → List (Text × Operation) → List Text
prior_operations source base [] = []
prior_operations source base ((request, o) ∷ operations) =
    let rest = prior_operations source base operations in
    if is_text source o.candidate_manifest && is_text base o.manifest_base
    then request ∷ rest
    else rest

-- The configurations that the rows name.
abbrev configs_of : List OperationRow → BTreeMap Text Text
configs_of [] = []
configs_of ((key, row) ∷ rows) = elim row.candidate_config_json [
  | none ↦ configs_of rows
  | some config ↦ Map.insert key.1 config (configs_of rows)
]

abbrev same_configs : BTreeMap Text Text → BTreeMap Text Text → Bool
same_configs [] [] = true
same_configs ((a, x) ∷ s) ((b, y) ∷ t) = a == b && x == y && same_configs s t
same_configs _ _ = false

unfoldable pub is_structural : List Text → BTreeMap Text Text → List OperationRow → Bool
unfolding Set.insert Map.insert text_cmp
is_structural names configs rows =
    same_names (set_of (map (λ r. r.0.1) rows)) names
    && same_configs (configs_of rows) configs
    && all (λ r. not (is_null r.1.generation)) rows

-- The loop over the prior operations, with the flag `exact_structure`.
unfoldable pub find_previous :
    Text
    → List Text
    → BTreeMap Text Text
    → Database
    → List Text
    → (exact : Bool) → Outcome Error (Bool × Option (List OperationRow))
unfolding operation_rows is_structural terminal_candidate_allows_fresh_up
find_previous stack names configs db [] exact = done (exact, none)
find_previous stack names configs db (request ∷ requests) exact =
    let rows = operation_rows request db in
    let structural =
      not (any (λ r. not (r.1.stack_name == stack)) rows) && is_structural names configs rows in
    let rest = find_previous stack names configs db requests (exact || structural) in
    if structural
    then elim (terminal_candidate_allows_fresh_up stack names db request) [
      | failed e ↦ failed e
      | done allowed ↦ if allowed then done (true, some rows) else rest
    ]
    else rest

abbrev is_reusable : GenerationRow → Bool
is_reusable g = is_installed g.state && is_candidate g.role

-- Nothing was done for it.
abbrev is_replaceable : GenerationRow → OperationService → Bool
is_replaceable g row =
    (is_absent g.state && not (is_current g.role))
    || (is_preparing g.state && is_candidate g.role && is_failed_pre_effect row.phase)

-- A candidate and whether its rootfs is reused.
abbrev pub Candidate : Type 0
Candidate = CandidateGeneration × Bool

abbrev row_of : Text → List OperationRow → Option OperationService
row_of name [] = none
row_of name ((key, row) ∷ rows) =
    let rest = row_of name rows in if key.1 == name then some row else rest

abbrev alias_taken : Text → Database → Bool
alias_taken alias db = exists (λ _ g. g.alias == alias) db.generations

-- One round of the loop over the services of the manifest.
unfoldable pub judge_candidate :
    Manifest → BTreeMap Text ServicePlan → List OperationRow → (name : Text) → Action Candidate
unfolding recovery_generation max_generation exists text_cmp
judge_candidate manifest fresh_plans rows name = do
  row ← expect (row_of name rows) Sql.panic
  generation ← expect row.generation Sql.panic
  found ← query (recovery_generation (manifest.name, name) generation)
  candidate ← expect found (conflict name)
  latest ← query (λ db. max_generation (manifest.name, name) db.generations)
  service ← expect (get name manifest.services) Sql.panic
  deny (not (generation == latest) || not (candidate.row.image == service.image)) (conflict name)
  deny (not (is_reusable candidate.row) && not (is_replaceable candidate.row row)) (conflict name)
  plan ← expect (get name fresh_plans) Sql.panic
  taken ← query (alias_taken plan.alias)
  deny (is_replaceable candidate.row row && taken) (conflict name)
  pure (candidate, is_reusable candidate.row)

unfoldable pub judge_candidates :
    Manifest
    → BTreeMap Text ServicePlan
    → List OperationRow
    → List Text
    → BTreeMap Text Candidate
    → Action (BTreeMap Text Candidate)
unfolding judge_candidate text_cmp
judge_candidates manifest fresh_plans rows [] candidates = pure candidates
judge_candidates manifest fresh_plans rows (name ∷ names) candidates = do
  candidate ← judge_candidate manifest fresh_plans rows name
  judge_candidates manifest fresh_plans rows names (Map.insert name candidate candidates)
