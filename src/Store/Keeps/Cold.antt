-- ===== src/Store/Keeps/Cold.antt =====
-- For the cold start (src/store.rs: `reconcile_cold_start`): what it keeps of the tables.
use termux_stacks.Prelude.{ℕ, refl, false, Bool, ◌≡◌, Option, none, some, List}
use termux_stacks.Store.Tables.{ServiceKey, ServiceRow, GenerationRow, Observed, Phase, is_backoff}
use termux_stacks.Store.Sql.{update_service}
use termux_stacks.Store.Rows.{OperationRow}
use termux_stacks.Store.Cold.{
  Parent, Verdict, verdict_phase, settle_rootfs, detach, settle_generation, settle_part,
  lose_service, settle_parent, reconcile_cold_start,
}
use termux_stacks.Store.Effect.{chain, pure-Keeps}
use termux_stacks.Store.Statements.{update_service-Keeps, update_generation-Keeps}
use termux_stacks.Store.View.{GenerationKept, Kept_frame}
use termux_stacks.Store.Keeps.Rules.{KeepsView, actions}

settle_rootfs-GenerationKept :
    (phase : Phase) (now : ℕ) (g : GenerationRow) → GenerationKept g (settle_rootfs phase now g)
settle_rootfs-GenerationKept Phase.intent now g = (refl, refl)
settle_rootfs-GenerationKept Phase.logs_prepared now g = (refl, refl)
settle_rootfs-GenerationKept Phase.install_invoked now g = (refl, refl)
settle_rootfs-GenerationKept _ now g = (refl, refl)

settle_generation-Keeps :
    (k : ServiceKey) (generation : Option ℕ) (phase : Phase) (now : ℕ)
    → KeepsView (settle_generation k generation phase now)
unfolding settle_generation
settle_generation-Keeps k none phase now = pure-Keeps tt
settle_generation-Keeps k (some generation) phase now =
    chain _ _ (update_generation-Keeps _ _ _ λ g _. settle_rootfs-GenerationKept phase now g)
      λ n. pure-Keeps tt

verdict_phase-not-backoff : (v : Verdict) → is_backoff (verdict_phase v) ≡ false
verdict_phase-not-backoff Verdict.start_safe = refl
verdict_phase-not-backoff Verdict.before_effect = refl
verdict_phase-not-backoff Verdict.after_install = refl
verdict_phase-not-backoff Verdict.lost = refl

detach-Keeps :
    (k : ServiceKey) (guard : ServiceRow → Bool) (observed : Observed) (phase : Phase) (now : ℕ)
    → is_backoff phase ≡ false
    → KeepsView (update_service k guard (detach observed phase now))
detach-Keeps k guard observed phase now h =
    update_service-Keeps _ _ _ (λ v g. (refl, refl)) λ v g i. rw h refl

settle_part-Keeps : (now : ℕ) (row : OperationRow) → KeepsView (settle_part now row)
unfolding settle_part
settle_part-Keeps now row =
    search (actions, settle_generation-Keeps, detach-Keeps, verdict_phase-not-backoff) depth 40 fits
      5000

lose_service-Keeps :
    (now : ℕ) (handled : List OperationRow) (row : ServiceKey × ServiceRow)
    → KeepsView (lose_service now handled row)
unfolding lose_service
lose_service-Keeps now handled row = search actions depth 40 fits 5000

settle_parent-Keeps : (now : ℕ) (parent : Parent) → KeepsView (settle_parent now parent)
unfolding settle_parent
settle_parent-Keeps now parent = search actions depth 60 fits 5000

pub reconcile_cold_start-Keeps : (clock : Option ℕ) → KeepsView (reconcile_cold_start clock)
unfolding reconcile_cold_start
reconcile_cold_start-Keeps clock =
    search (actions, settle_part-Keeps, lose_service-Keeps, settle_parent-Keeps) depth 60 fits 5000
