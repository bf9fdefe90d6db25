-- ===== src/Store/Down.antt =====
-- Stopping a stack (src/store.rs: `begin_down`, `finish_down`, `finalize_down_failure`).
use termux_stacks.Prelude.{
  ℕ, ◌+◌, Bool, true, false, not, ◌&&◌, ◌||◌, List, [], ◌∷◌, Option, none, some, is_empty,
  if◌then◌else◌, length,
}
use termux_stacks.Ordered.Key.{Text, text, text_key, nat_key, pair_key, pair_cmp, text_cmp, ◌==◌}
use termux_stacks.Ordered.Map.{get}
use termux_stacks.Ordered.Set
use termux_stacks.Ordered.Set.{BTreeSet}
use termux_stacks.Store.Tables.{
  Desired, Observed, Phase, Ending, ServiceRow, ServiceKey, Operation, Database, ◌is◌, is_null,
  is_success, is_backoff,
}
use termux_stacks.Store.Sql
use termux_stacks.Store.Sql.{
  Action, ◌>>=◌, ◌>>◌, query, expect, deny, unix_time, require_one, pure, update_stack,
  update_service, update_services, update_operation, update_operation_services, insert_operation,
  insert_operation_service, exists, conflict, not_found,
}
use termux_stacks.Store.Rows.{
  is_of, refresh_stack_state, reject_unfinished_operation, service_names, set_of,
}
use termux_stacks.Store.Up.{same_names}
use termux_stacks.Store.Commit.{incomplete}

-- What `down` knows of a service.
pub data Evidence : Type 0 where
  proven_absent ambiguous owned : Evidence

abbrev pub is_active_state : Observed → Bool
is_active_state s =
    s is Observed.preparing
    || s is Observed.starting
    || s is Observed.running
    || s is Observed.stopping
    || s is Observed.restarting

-- No session and no child are recorded.
abbrev pub has_no_identity : ServiceRow → Bool
has_no_identity v = is_null v.session_id && is_null v.child_pid

-- In durable backoff, with nothing recorded that may run.
abbrev pub is_proven_backoff : ServiceRow → Bool
is_proven_backoff v =
    v.observed_state is Observed.restarting
    && is_backoff v.effect_phase
    && not (is_null v.next_restart_at)
    && has_no_identity v

abbrev pub is_proven_absent : ServiceRow → Bool
is_proven_absent v =
    has_no_identity v
    && (v.observed_state is Observed.stopped
        || v.observed_state is Observed.failed
        || is_proven_backoff v)

unfoldable pub evidence_of : ServiceRow → Evidence
evidence_of v =
    if is_proven_absent v
    then Evidence.proven_absent
    else if v.observed_state is Observed.unknown
        || (has_no_identity v && is_active_state v.observed_state)
    then Evidence.ambiguous
    else Evidence.owned

abbrev pub down_observed : Evidence → Observed
down_observed Evidence.proven_absent = Observed.stopped
down_observed Evidence.ambiguous = Observed.unknown
down_observed Evidence.owned = Observed.stopping

abbrev pub down_phase : Evidence → Phase
down_phase Evidence.proven_absent = Phase.stopped
down_phase Evidence.ambiguous = Phase.unknown
down_phase Evidence.owned = Phase.stop_intent

abbrev pub down_outcome : Evidence → Option Ending
down_outcome Evidence.proven_absent = some Ending.success
down_outcome Evidence.ambiguous = some Ending.failure
down_outcome Evidence.owned = none

abbrev pub down_error : Evidence → Option (Text × Text)
down_error Evidence.ambiguous = some (
  text "unowned_unknown",
  text "service state is ambiguous; down did not signal an unowned process",
)
down_error _ = none

abbrev is_ambiguous : Evidence → Bool
is_ambiguous Evidence.ambiguous = true
is_ambiguous _ = false

-- An active service, as `WHERE stack_name = ? AND name = ? AND active = 1` selects it.
unfoldable pub active_service : ServiceKey → Database → Option ServiceRow
unfolding pair_cmp
active_service k db = elim (get k db.services) [
  | none ↦ none
  | some v ↦ if v.active then some v else none
]

-- One round of the loop over the stop order; true if the service is ambiguous.
unfoldable pub stop_service :
    (request stack : Text) → (now ordinal : ℕ) → (service : Text) → Action Bool
unfolding active_service evidence_of
stop_service request stack now ordinal service = do
  found ← query (active_service (stack, service))
  row ← expect found Sql.bad_row
  n ←
      update_service (stack, service) (λ v. v.active)
        (λ v. record v {
          desired_state = Desired.stopped;
          observed_state = down_observed (evidence_of row);
          effect_phase = down_phase (evidence_of row);
          next_restart_at = none;
          updated_at = now;
        })
  require_one n service
  insert_operation_service (request, service)
      (record {
        stack_name = stack;
        ordinal = ordinal;
        phase = down_phase (evidence_of row);
        outcome = down_outcome (evidence_of row);
        candidate_config_json = none;
        generation = none;
        error = down_error (evidence_of row);
      })
  pure (is_ambiguous (evidence_of row))

-- The loop, with the flag `has_unknown`.
unfoldable pub stop_services :
    (request stack : Text) → (now ordinal : ℕ) → List Text → (has_unknown : Bool) → Action Bool
unfolding stop_service
stop_services request stack now ordinal [] has_unknown = pure has_unknown
stop_services request stack now ordinal (service ∷ order) has_unknown = do
  unknown ← stop_service request stack now ordinal service
  stop_services request stack now (ordinal + 1) order (has_unknown || unknown)

-- The end of `begin_down`: an ambiguous service ends the operation at once.
unfoldable pub end_if_unknown : Bool → Text → ℕ → Action (Unit {0})
end_if_unknown false request now = pure tt
end_if_unknown true request now = do
  n ←
      update_operation request (λ _. true)
        (λ o. record o {
          phase = Phase.unknown;
          outcome = some Ending.failure;
          error = some (
            text "unowned_unknown",
            text "one or more services have ambiguous ownership; no unowned process was signalled",
          );
          updated_at = now;
        })
  require_one n request

unfoldable pub begin_down : Option ℕ → (request stack : Text) → List Text → Action (Unit {0})
unfolding stop_services end_if_unknown Set.insert
begin_down clock request stack stop_order = do
  now ← unix_time clock
  reject_unfinished_operation stack
  current_names ← query (service_names stack)
  deny (is_empty current_names) (not_found stack)
  deny
      (not (same_names current_names (set_of stop_order))
        || not (length stop_order == length (set_of stop_order)))
      (conflict stack)
  found ← query (λ db. get stack db.stacks)
  row ← expect found Sql.bad_row
  insert_operation request (record {
    stack_name = stack;
    operation = text "down";
    phase = Phase.stop_intent;
    candidate_manifest = none;
    manifest_base = none;
    candidate_revision = some row.committed_revision;
    target_service = none;
    outcome = none;
    error = none;
    response_json = none;
    created_at = now;
    updated_at = now;
  })
  n ←
      update_stack stack (λ _. true)
        (λ v. record v {
          desired_state = Desired.stopped;
          observed_state = Observed.stopping;
          updated_at = now;
        })
  require_one n stack
  has_unknown ← stop_services request stack now 0 stop_order false
  refresh_stack_state stack now
  end_if_unknown has_unknown request now

unfoldable pub finish_down : Option ℕ → (request stack : Text) → Action (Unit {0})
unfolding incomplete
finish_down clock request stack = do
  now ← unix_time clock
  missing ← query (incomplete request)
  deny (not (missing == 0)) (conflict request)
  n ←
      update_stack stack (λ _. true)
        (λ v. record v {
          desired_state = Desired.stopped;
          observed_state = Observed.stopped;
          updated_at = now;
        })
  require_one n stack
  changed ←
      update_operation request (λ o. o.stack_name == stack && is_null o.outcome)
        (λ o. record o { phase = Phase.stopped; outcome = some Ending.success; updated_at = now })
  require_one changed request

abbrev pub is_open_down : Text → Operation → Bool
is_open_down stack o = o.stack_name == stack && o.operation == text "down" && is_null o.outcome

abbrev open_down : Text → Option Operation → Bool
open_down stack none = false
open_down stack (some o) = is_open_down stack o

-- The service has a part of the operation that has not succeeded.
unfoldable pub is_unproven : (request stack : Text) → Database → ServiceKey → Bool
unfolding pair_cmp
is_unproven request stack db k = elim (get (request, k.1) db.operation_services) [
  | none ↦ false
  | some r ↦ r.stack_name == stack && not (is_success r.outcome)
]

unfoldable pub finalize_down_failure :
    Option ℕ → (request stack code message : Text) → Action (Unit {0})
unfolding is_unproven text_cmp
finalize_down_failure clock request stack code message = do
  now ← unix_time clock
  unfinished ← query (λ db. open_down stack (get request db.operations))
  deny (not unfinished) (not_found request)
  unproven ← query (is_unproven request stack)
  update_services (λ k v. is_of stack k v && unproven k)
      (λ v. record v {
        desired_state = Desired.stopped;
        observed_state = Observed.unknown;
        effect_phase = Phase.unknown;
        updated_at = now;
      })
  update_operation_services
      (λ k r. k.0 == request && r.stack_name == stack && not (is_success r.outcome))
      (λ r. record r {
        phase = Phase.unknown;
        outcome = some Ending.failure;
        error = some (code, message);
      })
  n ← update_operation request (is_open_down stack) (λ o. record o {
    phase = Phase.unknown;
    outcome = some Ending.failure;
    error = some (code, message);
    updated_at = now;
  })
  require_one n request
  changed ←
      update_stack stack (λ _. true)
        (λ v. record v {
          desired_state = Desired.stopped;
          observed_state = Observed.unknown;
          updated_at = now;
        })
  require_one changed stack
