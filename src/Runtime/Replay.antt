-- ===== src/Runtime/Replay.antt =====
-- Repeated requests (src/runtime.rs: `replay_matches`).
use termux_stacks.Prelude.{
  ℕ, ◌≡◌, ◌↔◌, refl, subst, Bool, true, false, ◌&&◌, Option, none, some, List, arith,
}
use termux_stacks.Ordered.Key.{Text, text_key, ◌==◌, ==_iff}
use termux_stacks.Ordered.Map.{get}
use termux_stacks.Manifest.Types.{Service}
use termux_stacks.Store.Tables.{Database, Operation}
use termux_stacks.Store.History.{Call, history}
use termux_stacks.Store.Kept.{RowKept}
use termux_stacks.Store.View.{OperationKept}
use termux_stacks.Store.Views.{OperationReplay, replay, replay_of, operation_replay}
use termux_stacks.Store.Safe.{nothing_is_lost}

abbrev same_option : Option Text → Option Text → Bool
same_option none none = true
same_option (some a) (some b) = a == b
same_option _ _ = false

unfoldable pub replay_matches :
    OperationReplay
    → (operation stack : Text) (candidate_manifest manifest_base target_service : Option Text)
    → Bool
replay_matches r operation stack candidate_manifest manifest_base target_service =
    r.operation == operation
    && r.stack_name == stack
    && same_option r.candidate_manifest candidate_manifest
    && same_option r.manifest_base manifest_base
    && same_option r.target_service target_service

same_option_iff : (a b : Option Text) → (same_option a b ≡ true) ↔ (a ≡ b)
same_option_iff none none = ground arith
same_option_iff none (some b) = ground arith
same_option_iff (some a) none = ground arith
same_option_iff (some a) (some b) = ground (arith, ==_iff a b)

-- The request that an operation was recorded with.
abbrev pub IsRequest :
    Operation
    → (operation stack : Text) (candidate_manifest manifest_base target_service : Option Text)
    → Type 0
IsRequest o operation stack candidate_manifest manifest_base target_service =
    (o.operation ≡ operation)
    × (o.stack_name ≡ stack)
    × (o.candidate_manifest ≡ candidate_manifest)
    × (o.manifest_base ≡ manifest_base)
    × (o.target_service ≡ target_service)

module _ (operation stack : Text)
    (candidate_manifest manifest_base target_service : Option Text) where
  replay_matches_iff :
      (o : Operation)
      → (replay_matches (replay o) operation stack candidate_manifest manifest_base target_service
          ≡ true)
        ↔ IsRequest o operation stack candidate_manifest manifest_base target_service
  unfolding replay_matches
  replay_matches_iff o = ground (
    arith,
    ==_iff o.operation operation,
    ==_iff o.stack_name stack,
    same_option_iff o.candidate_manifest candidate_manifest,
    same_option_iff o.manifest_base manifest_base,
    same_option_iff o.target_service target_service,
  )

  kept_iff :
      (o : Operation) (after : Option Operation)
      → RowKept OperationKept (some o) after
      → (q : OperationReplay) × (replay_of after ≡ some q)
        × ((replay_matches q operation stack candidate_manifest manifest_base target_service ≡ true)
            ↔ IsRequest o operation stack candidate_manifest manifest_base target_service)
  kept_iff o none kept = elim kept [ ]
  kept_iff o (some p) kept = (replay p, refl, ground (arith, kept, replay_matches_iff p))

  -- After every sequence of calls the request of a row of the table of operations is found again,
  -- and a further request matches it exactly if it has the operation, the stack, the manifest, the
  -- base and the target of that row.
  pub replay_matches-IsRequest :
      (config_json : Service → Text) (calls : List (Option ℕ × Call)) (db : Database)
      → (request : Text) (o : Operation) → get request db.operations ≡ some o
      → (q : OperationReplay) × (operation_replay request (history config_json calls db) ≡ some q)
        × ((replay_matches q operation stack candidate_manifest manifest_base target_service ≡ true)
            ↔ IsRequest o operation stack candidate_manifest manifest_base target_service)
  unfolding operation_replay
  replay_matches-IsRequest config_json calls db request o e =
      let (_, _, _, operations) = nothing_is_lost config_json calls db in
      kept_iff o (get request (history config_json calls db).operations) (
        subst (λ r. RowKept OperationKept r (get request (history config_json calls db).operations))
          e (operations request))
