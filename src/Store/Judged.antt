-- ===== src/Store/Judged.antt =====
-- What `down` makes of a service (src/store.rs: the loop of `begin_down`).
use termux_stacks.Prelude.{
  ℕ, ◌≡◌, refl, Bool, true, false, ◌||◌, ◌&&◌, Bool-cases, ◌⊎◌, inl, inr, Option, none, some, arith,
}
use termux_stacks.Prelude.Outcome.{done}
use termux_stacks.Ordered.Key.{Text, text_key, nat_key, pair_key, ==_refl}
use termux_stacks.Ordered.Map
use termux_stacks.Ordered.Map.{get}
use termux_stacks.Ordered.MapLaws.{get-insert}
use termux_stacks.Store.Tables.{
  Database, ServiceRow, OperationService, Desired, Observed, Phase, Ending, ◌is◌,
}
use termux_stacks.Store.Down.{
  Evidence, evidence_of, is_proven_absent, has_no_identity, is_active_state, active_service,
  down_observed, down_phase, down_outcome, stop_service,
}
use termux_stacks.Store.Post.{
  Post, done-Post, bind-Post, seq-Post, query-Post, expect-Post, require_one-Post, pure-Post,
  update_row-one, insert_operation_service-Post,
}
use termux_stacks.Store.Written.{update_service-Post, is_active-some}

-- Neither a session nor a child is recorded.
abbrev pub HasNothing : ServiceRow → Type 0
HasNothing v = (v.session_id ≡ none) × (v.child_pid ≡ none)

-- A state in which nothing of the service runs: stopped, failed, or a durable backoff.
abbrev pub IsAtRest : ServiceRow → Type 0
IsAtRest v =
    (v.observed_state ≡ Observed.stopped)
    ⊎ ((v.observed_state ≡ Observed.failed)
        ⊎ ((v.observed_state ≡ Observed.restarting)
            × (v.effect_phase ≡ Phase.backoff)
            × (v.next_restart_at ≡ none → ⊥)))

-- What the row of a service, its part of the operation and the answer become.
pub data IsVerdict (before : ServiceRow)
    : (observed : Observed) (phase : Phase) (outcome : Option Ending) (ambiguous : Bool)
      → Type 0 where
  absent :
      HasNothing before
      → IsAtRest before
      → IsVerdict before Observed.stopped Phase.stopped (some Ending.success) false
  owned :
      (HasNothing before → ⊥)
      → (before.observed_state ≡ Observed.unknown → ⊥)
      → IsVerdict before Observed.stopping Phase.stop_intent none false
  ambiguous :
      (before.observed_state ≡ Observed.unknown) ⊎ (HasNothing before × (IsAtRest before → ⊥))
      → IsVerdict before Observed.unknown Phase.unknown (some Ending.failure) true

abbrev pub is_ambiguous : Evidence → Bool
is_ambiguous Evidence.ambiguous = true
is_ambiguous _ = false

rest_lem : (v : ServiceRow) → is_proven_absent v ≡ true → HasNothing v × IsAtRest v
rest_lem v e = (ground arith, ground arith)

not_rest_lem : (v : ServiceRow) → is_proven_absent v ≡ false → HasNothing v → IsAtRest v → ⊥
not_rest_lem v e nothing (inl s) = ground arith
not_rest_lem v e nothing (inr (inl s)) = ground arith
not_rest_lem v e nothing (inr (inr s)) = ground arith

abbrev is_unclear : ServiceRow → Bool
is_unclear v =
    v.observed_state is Observed.unknown || (has_no_identity v && is_active_state v.observed_state)

unclear_lem :
    (v : ServiceRow) → is_unclear v ≡ true → (v.observed_state ≡ Observed.unknown) ⊎ HasNothing v
unclear_lem v e = ground arith

clear_lem :
    (v : ServiceRow)
    → is_proven_absent v ≡ false
    → is_unclear v ≡ false
    → (HasNothing v → ⊥) × (v.observed_state ≡ Observed.unknown → ⊥)
clear_lem v e h = ((λ n. ground arith), (λ n. ground arith))

evidence-IsVerdict :
    (v : ServiceRow)
    → IsVerdict v
        (down_observed (evidence_of v))
        (down_phase (evidence_of v))
        (down_outcome (evidence_of v))
        (is_ambiguous (evidence_of v))
unfolding evidence_of
evidence-IsVerdict v = elim (Bool-cases (is_proven_absent v)) [
  | inl e ↦ let (nothing, rest) = rest_lem v e in rw e (absent nothing rest)
  | inr e ↦ elim (Bool-cases (is_unclear v)) [
    | inl h ↦
        rw (e, h)
          (ambiguous (elim (unclear_lem v h) [
            | inl unknown ↦ inl unknown
            | inr nothing ↦ inr (nothing, not_rest_lem v e nothing)
          ]))
    | inr h ↦ let (some_id, known) = clear_lem v e h in rw (e, h) (owned some_id known)
  ]
]

pub record IsJudged (request stack service : Text) (db after : Database) (unknown : Bool)
    : Type 0 where
  pub before : ServiceRow
  pub row : ServiceRow
  pub part : OperationService
  pub was : get (stack, service) db.services ≡ some before
  pub now_is : get (stack, service) after.services ≡ some row
  pub recorded : get (request, service) after.operation_services ≡ some part
  pub shall_stop : row.desired_state ≡ Desired.stopped
  pub no_restart : row.next_restart_at ≡ none
  pub same_phase : part.phase ≡ row.effect_phase
  pub verdict : IsVerdict before row.observed_state row.effect_phase part.outcome unknown

got_inserted :
    (k : Text × Text) (v : OperationService) (db : Database)
    → get k (Map.insert k v db.operation_services) ≡ some v
got_inserted k v db = rw (get-insert k k v db.operation_services, ==_refl k) refl

stop_service-Post :
    (request stack : Text) (now ordinal : ℕ) (service : Text) (db : Database)
    → Post
        (λ unknown after. IsJudged request stack service db after unknown)
        (stop_service request stack now ordinal service db)
unfolding stop_service active_service
stop_service-Post request stack now ordinal service db = bind-Post _ _ db (
    query-Post _ db (
      bind-Post _ _ db (
        expect-Post _ _ db λ before found. bind-Post _ _ db (
          update_service-Post (stack, service) _ _ db
            (seq-Post _ _ _ (
              require_one-Post _ _ _ λ changed. seq-Post _ _ _ (
                insert_operation_service-Post _ _ _ (
                  let (v, e, held, got) = update_row-one (stack, service) _ _ db.services changed in
                  pure-Post _ _ (record {
                    before = before;
                    row = _;
                    part = _;
                    was = is_active-some (get (stack, service) db.services) before found;
                    now_is = got;
                    recorded = got_inserted (request, service) _ db;
                    shall_stop = refl;
                    no_restart = refl;
                    same_phase = refl;
                    verdict = evidence-IsVerdict before;
                  })))))))))

-- Whatever order the loop goes through, where `down` gets past a service, its row shall be stopped
-- and has no restart due, and its part of the operation has the phase of the row. A service with a
-- session or a child, whose state is not unknown, is to be stopped, and its part stays open; one with
-- neither, that is stopped, failed or in durable backoff, is stopped at once with success; every
-- other one is unknown, its part has failed, and the loop is told so.
pub stop_service-IsJudged :
    (request stack : Text) (now ordinal : ℕ) (service : Text) (db after : Database) (unknown : Bool)
    → stop_service request stack now ordinal service db ≡ done (unknown, after)
    → IsJudged request stack service db after unknown
stop_service-IsJudged request stack now ordinal service db after unknown ended =
    done-Post (λ u end. IsJudged request stack service db end u) _ unknown after
      (stop_service-Post request stack now ordinal service db) ended
