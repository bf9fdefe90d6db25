-- ===== src/Store/Keeps/Rules.antt =====
-- The rules for what a transaction of src/store.rs keeps of the committed view, statement by
-- statement, and the helpers that the operations share.
use termux_stacks.Prelude.{ℕ, ◌≡◌, refl, Bool, true, false}
use termux_stacks.Ordered.Key.{Text}
use termux_stacks.Store.Tables.{Phase, is_backoff}
use termux_stacks.Store.Sql.{Action}
use termux_stacks.Store.Rows.{
  refresh_stack_state, set_service_phase, operation_generation, reject_unfinished_operation,
}
use termux_stacks.Store.Effect.{
  Keeps, chain, seq, pure-Keeps, query-Keeps, deny-Keeps, expect-Keeps, unix_time-Keeps,
  require_one-Keeps, if-Keeps, for_each-Keeps, for_each_from-Keeps, sum_each-Keeps,
}
use termux_stacks.Store.View.{Kept, Kept_frame}
use termux_stacks.Store.Statements.{
  update_stack-Keeps, update_service-Keeps, update_services-Keeps, update_generation-Keeps,
  update_generations-Keeps, update_operation-Keeps, update_operation_service-Keeps,
  update_operation_services-Keeps, check_roles-Keeps, insert_stack-Keeps, insert_service-Keeps,
  insert_generation-Keeps, insert_operation-Keeps, insert_operation_service-Keeps,
}

-- The action changes nothing of the committed view.
abbrev pub KeepsView : {A : Type 0} → Action A → Type 0
KeepsView m = Keeps (Kept false) m

pub ruleset statements = (
  chain, seq, pure-Keeps, query-Keeps, deny-Keeps, expect-Keeps, unix_time-Keeps, require_one-Keeps,
  for_each-Keeps, for_each_from-Keeps, sum_each-Keeps, if-Keeps, update_stack-Keeps,
  update_service-Keeps, update_services-Keeps, update_generation-Keeps, update_generations-Keeps,
  update_operation-Keeps, update_operation_service-Keeps, update_operation_services-Keeps,
  check_roles-Keeps, insert_stack-Keeps, insert_service-Keeps, insert_generation-Keeps,
  insert_operation-Keeps, insert_operation_service-Keeps,
)

pub refresh_stack_state-Keeps :
    (stack : Text) (now : ℕ) → Keeps (Kept false) (refresh_stack_state stack now)
unfolding refresh_stack_state
refresh_stack_state-Keeps stack now = search statements depth 30 fits 3000

pub set_service_phase-Keeps :
    (request stack service : Text) (phase : Phase) (now : ℕ)
    → is_backoff phase ≡ false
    → Keeps (Kept false) (set_service_phase request stack service phase now)
unfolding set_service_phase
set_service_phase-Keeps request stack service phase now h =
    chain _ _ (update_operation_service-Keeps _ _ _) λ n. seq _ _ (require_one-Keeps _ _) (
      chain _ _ (update_service-Keeps _ _ _ (λ v g. (refl, refl)) λ v g i. rw h refl)
        λ changed. require_one-Keeps _ _)

pub operation_generation-Keeps :
    (request stack service : Text) → Keeps (Kept false) (operation_generation request stack service)
unfolding operation_generation
operation_generation-Keeps request stack service = search statements depth 30 fits 3000

pub reject_unfinished_operation-Keeps :
    (stack : Text) → Keeps (Kept false) (reject_unfinished_operation stack)
unfolding reject_unfinished_operation
reject_unfinished_operation-Keeps stack = search statements depth 30 fits 3000

pub ruleset actions = (
  statements, refresh_stack_state-Keeps, set_service_phase-Keeps, operation_generation-Keeps,
  reject_unfinished_operation-Keeps, refl,
)
