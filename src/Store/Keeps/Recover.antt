-- ===== src/Store/Keeps/Recover.antt =====
-- For `begin_candidate_recovery` (src/store.rs): what it keeps of the tables.
use termux_stacks.Prelude.{ℕ, ◌+◌, Bool, true, false, List, [], ◌∷◌, Option}
use termux_stacks.Ordered.Key.{Text, text_key}
use termux_stacks.Ordered.Map
use termux_stacks.Ordered.Map.{BTreeMap}
use termux_stacks.Manifest.Types.{Manifest, Service}
use termux_stacks.Store.Up.{ServicePlan}
use termux_stacks.Store.Rows.{OperationRow}
use termux_stacks.Store.Recovery.{Candidate, judge_candidate, judge_candidates}
use termux_stacks.Store.Recover.{
  CandidateRecoveryService, replace_generation, recovered_row, journal_recovery, recover_service,
  recover_services, choose_previous, begin_candidate_recovery,
}
use termux_stacks.Store.Effect.{chain, pure-Keeps}
use termux_stacks.Store.View.{Kept_frame}
use termux_stacks.Store.Keeps.Rules.{KeepsView, actions}
use termux_stacks.Store.Keeps.Up.{try-Keeps}

judge_candidate-Keeps :
    (manifest : Manifest) (plans : BTreeMap Text ServicePlan) (rows : List OperationRow)
    (name : Text)
    → KeepsView (judge_candidate manifest plans rows name)
unfolding judge_candidate
judge_candidate-Keeps manifest plans rows name = search actions depth 40 fits 5000

judge_candidates-Keeps :
    (manifest : Manifest) (plans : BTreeMap Text ServicePlan) (rows : List OperationRow)
    (names : List Text) (candidates : BTreeMap Text Candidate)
    → KeepsView (judge_candidates manifest plans rows names candidates)
unfolding judge_candidates
judge_candidates-Keeps manifest plans rows [] candidates = pure-Keeps candidates
judge_candidates-Keeps manifest plans rows (name ∷ names) candidates =
    chain _ _ (judge_candidate-Keeps manifest plans rows name) λ candidate.
      judge_candidates-Keeps manifest plans rows names (Map.insert name candidate candidates)

replace_generation-Keeps :
    (stack name image : Text) (generation : ℕ) (plan : ServicePlan) (now : ℕ)
    → KeepsView (replace_generation stack name image generation plan now)
unfolding replace_generation
replace_generation-Keeps stack name image generation plan now = search actions depth 40 fits 5000

journal_recovery-Keeps :
    (request stack name config : Text) (generation : ℕ) (reuse : Bool) (plan : ServicePlan)
    (now ordinal : ℕ)
    → KeepsView (journal_recovery request stack name config generation reuse plan now ordinal)
unfolding journal_recovery recovered_row
journal_recovery-Keeps request stack name config generation true plan now ordinal =
    search actions depth 40 fits 5000
journal_recovery-Keeps request stack name config generation false plan now ordinal =
    search actions depth 40 fits 5000

module _ (config_json : Service → Text) where
  recover_service-Keeps :
      (request : Text) (manifest : Manifest) (plans : BTreeMap Text ServicePlan)
      (candidates : BTreeMap Text Candidate) (now ordinal : ℕ) (name : Text)
      → KeepsView (recover_service config_json request manifest plans candidates now ordinal name)
  unfolding recover_service
  recover_service-Keeps request manifest plans candidates now ordinal name =
      search (actions, replace_generation-Keeps, journal_recovery-Keeps) depth 40 fits 5000

  recover_services-Keeps :
      (request : Text) (manifest : Manifest) (plans : BTreeMap Text ServicePlan)
      (candidates : BTreeMap Text Candidate) (now ordinal : ℕ) (names : List Text)
      (services : BTreeMap Text CandidateRecoveryService)
      → KeepsView (
          recover_services config_json request manifest plans candidates now ordinal names services)
  unfolding recover_services
  recover_services-Keeps request manifest plans candidates now ordinal [] services =
      pure-Keeps services
  recover_services-Keeps request manifest plans candidates now ordinal (name ∷ names) services =
      chain _ _ (recover_service-Keeps request manifest plans candidates now ordinal name)
        λ service.
          recover_services-Keeps request manifest plans candidates now (ordinal + 1) names
            (Map.insert name service services)

  choose_previous-Keeps :
      (manifest : Manifest) (source base : Text) (revision : ℕ)
      → KeepsView (choose_previous config_json manifest source base revision)
  unfolding choose_previous
  choose_previous-Keeps manifest source base revision =
      search (actions, try-Keeps) depth 60 fits 9000

  pub begin_candidate_recovery-Keeps :
      (clock : Option ℕ) (request source base : Text) (manifest : Manifest)
      (plans : BTreeMap Text ServicePlan)
      → KeepsView (begin_candidate_recovery config_json clock request source base manifest plans)
  unfolding begin_candidate_recovery
  begin_candidate_recovery-Keeps clock request source base manifest plans =
      search (actions, choose_previous-Keeps, judge_candidates-Keeps, recover_services-Keeps) depth
        60 fits 9000
