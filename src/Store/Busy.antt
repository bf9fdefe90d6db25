-- ===== src/Store/Busy.antt =====
-- Requests while an operation is unfinished (src/store.rs: `reject_unfinished_operation`).
use termux_stacks.Prelude.{ℕ, ◌≡◌, refl, true, List, Option}
use termux_stacks.Prelude.Outcome.{Outcome, done, failed}
use termux_stacks.Manifest.Types.{Manifest, Service}
use termux_stacks.Ordered.Key.{Text}
use termux_stacks.Ordered.Map.{BTreeMap}
use termux_stacks.Store.Tables.{Database}
use termux_stacks.Store.Sql.{Error, Action, ◌>>=◌, query, deny, commit_or_drop, transaction}
use termux_stacks.Store.Rows.{has_unfinished, reject_unfinished_operation}
use termux_stacks.Store.Up.{ServicePlan}
use termux_stacks.Store.Begin.{begin_up}
use termux_stacks.Store.Recover.{begin_candidate_recovery}
use termux_stacks.Store.Down.{begin_down}
use termux_stacks.Store.Start.{begin_start_current, begin_restart}
use termux_stacks.Store.Effect.{Holds, unix_time-Keeps, deny-Keeps}
use termux_stacks.Store.Denied.{Denies, Spares_frame, denied_later, denied_after, denied_first}

-- Some operation of the stack is unfinished.
abbrev IsBusy : Text → Database → Type 0
IsBusy stack db = has_unfinished stack db ≡ true

reject-Denies : (stack : Text) → Denies (IsBusy stack) (reject_unfinished_operation stack)
unfolding reject_unfinished_operation ◌>>=◌ query deny
reject-Denies stack = record { denied = λ db busy. rw busy tt }

module _ (clock : Option ℕ) (request stack : Text) where
  begin_down-Denies :
      (order : List Text) → Denies (IsBusy stack) (begin_down clock request stack order)
  unfolding begin_down
  begin_down-Denies order =
      denied_later _ _ (unix_time-Keeps clock) λ now. denied_first _ _ (reject-Denies stack)

  begin_restart-Denies :
      (service : Text) → Denies (IsBusy stack) (begin_restart clock request stack service)
  unfolding begin_restart
  begin_restart-Denies service =
      denied_later _ _ (unix_time-Keeps clock) λ now. denied_first _ _ (reject-Denies stack)

  begin_start_current-Denies :
      (operation : Text) (services : List Text) (target manifest base : Option Text)
      → Denies
          (IsBusy stack)
          (begin_start_current clock request stack operation services target manifest base)
  unfolding begin_start_current
  begin_start_current-Denies operation services target manifest base =
      denied_after _ _ (deny-Keeps _ _) (
        denied_after _ _ (deny-Keeps _ _) (
          denied_after _ _ (deny-Keeps _ _) (
            denied_later _ _ (unix_time-Keeps clock)
              λ now. denied_first _ _ (reject-Denies stack))))

begin_up-Denies :
    (config_json : Service → Text) (clock : Option ℕ) (request source base : Text)
    (manifest : Manifest) (plans : BTreeMap Text ServicePlan)
    → Denies (IsBusy manifest.name) (begin_up config_json clock request source base manifest plans)
unfolding begin_up
begin_up-Denies config_json clock request source base manifest plans =
    denied_after _ _ (deny-Keeps _ _) (
      denied_later _ _ (unix_time-Keeps clock)
        λ now. denied_first _ _ (reject-Denies manifest.name))

begin_candidate_recovery-Denies :
    (config_json : Service → Text) (clock : Option ℕ) (request source base : Text)
    (manifest : Manifest) (plans : BTreeMap Text ServicePlan)
    → Denies
        (IsBusy manifest.name)
        (begin_candidate_recovery config_json clock request source base manifest plans)
unfolding begin_candidate_recovery
begin_candidate_recovery-Denies config_json clock request source base manifest plans =
    denied_after _ _ (deny-Keeps _ _) (
      denied_after _ _ (deny-Keeps _ _) (
        denied_later _ _ (unix_time-Keeps clock)
          λ now. denied_first _ _ (reject-Denies manifest.name)))

-- The transaction fails, and the tables stay as they are.
abbrev pub IsRejected : {A : Type 0} → Action A → Database → Type 0
IsRejected m db = (e : Error) × (transaction m db ≡ (failed e, db))

rejected_outcome :
    {A : Type 0} (db : Database) (o : Outcome Error (A × Database))
    → Holds (λ _. ⊥) o
    → (e : Error) × (commit_or_drop db o ≡ (failed e, db))
rejected_outcome db (done x) h = elim h [ ]
rejected_outcome db (failed e) h = (e, refl)

rejected :
    {A : Type 0} (Q : Database → Type 0) (m : Action A) (db : Database)
    → Denies Q m
    → Q db
    → IsRejected m db
unfolding transaction
rejected Q m db h q = rejected_outcome db (m db) (h.denied db q)

-- While a stack has an unfinished operation, `up`, `down`, a start of the committed rootfs, a
-- restart and a recovery are all rejected, whatever they are asked for, and leave the tables as they are.
pub busy_stack-IsRejected :
    (config_json : Service → Text) (clock : Option ℕ) (request source base operation service : Text)
    (manifest : Manifest) (plans : BTreeMap Text ServicePlan) (services : List Text)
    (target replayed replayed_base : Option Text) (db : Database)
    → has_unfinished manifest.name db ≡ true
    → IsRejected (begin_up config_json clock request source base manifest plans) db
      × IsRejected (begin_down clock request manifest.name services) db
      × IsRejected
          (begin_start_current clock request manifest.name operation services target replayed
            replayed_base)
          db
      × IsRejected (begin_restart clock request manifest.name service) db
      × IsRejected
          (begin_candidate_recovery config_json clock request source base manifest plans)
          db
busy_stack-IsRejected config_json clock request source base operation service manifest plans
      services target replayed replayed_base db busy =
    let stack = manifest.name in
    (
      rejected (IsBusy stack) _ db
          (begin_up-Denies config_json clock request source base manifest plans) busy,
      rejected (IsBusy stack) _ db (begin_down-Denies clock request stack services) busy,
      rejected (IsBusy stack) _ db
          (begin_start_current-Denies clock request stack operation services target replayed
            replayed_base)
          busy,
      rejected (IsBusy stack) _ db (begin_restart-Denies clock request stack service) busy,
      rejected (IsBusy stack) _ db
          (begin_candidate_recovery-Denies config_json clock request source base manifest plans)
          busy,
    )
