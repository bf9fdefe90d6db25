-- ===== src/Store/Keeps/Up.antt =====
-- For `begin_up`, `record_noop_up` and `cache_response` (src/store.rs): what they keep of the tables.
use termux_stacks.Prelude.{ℕ, refl, false, Option, none, some, List, arith}
use termux_stacks.Prelude.Outcome.{Outcome, done, failed}
use termux_stacks.Ordered.Key.{Text}
use termux_stacks.Ordered.Map.{BTreeMap}
use termux_stacks.Ordered.Set.{BTreeSet}
use termux_stacks.Manifest.Types.{Manifest, Service}
use termux_stacks.Store.Tables.{Database, StackRow, ServiceKey}
use termux_stacks.Store.Sql.{Error}
use termux_stacks.Store.Up.{
  ServicePlan, try, retire_candidate, retire_obsolete, reopen_stack, create_stack,
}
use termux_stacks.Store.Begin.{
  reset_service, new_service, place_service, prepare_service, open_stack, begin_up,
}
use termux_stacks.Store.Commit.{record_noop_up, cache_response}
use termux_stacks.Store.Effect.{Holds, chain, seq}
use termux_stacks.Store.Statements.{update_service-Keeps}
use termux_stacks.Store.View.{Kept, Kept_refl, Kept_frame}
use termux_stacks.Store.Keeps.Rules.{KeepsView, actions}

try_outcome :
    {A : Type 0} (o : Outcome Error A) (db : Database)
    → Holds (Kept false db) (elim o [ failed e ↦ failed e | done a ↦ done (a, db) ])
try_outcome (failed e) db = tt
try_outcome (done a) db = Kept_refl db

pub try-Keeps : {A : Type 0} (f : Database → Outcome Error A) → KeepsView (try f)
unfolding try
try-Keeps f = record { run = λ db. try_outcome (f db) db }

pub retire_candidate-Keeps : (k : ServiceKey) (now : ℕ) → KeepsView (retire_candidate k now)
unfolding retire_candidate
retire_candidate-Keeps k now = search actions depth 40 fits 5000

retire_obsolete-Keeps :
    (stack : Text) (now : ℕ) (obsolete : Text) → KeepsView (retire_obsolete stack now obsolete)
unfolding retire_obsolete
retire_obsolete-Keeps stack now obsolete = seq _ _ (retire_candidate-Keeps (stack, obsolete) now) (
    chain _ _ (update_service-Keeps _ _ _ (λ v g. (refl, refl)) λ v g i. ground arith)
      λ n. search actions depth 40 fits 5000)

create_stack-Keeps : (stack : Text) (now : ℕ) → KeepsView (create_stack stack now)
unfolding create_stack
create_stack-Keeps stack now = search actions depth 40 fits 5000

reopen_stack-Keeps :
    (stack : Text) (names : BTreeSet Text) (revision now : ℕ)
    → KeepsView (reopen_stack stack names revision now)
unfolding reopen_stack
reopen_stack-Keeps stack names revision now =
    search (actions, try-Keeps, retire_obsolete-Keeps) depth 40 fits 5000

open_stack-Keeps :
    (found : Option StackRow) (stack : Text) (names : List Text) (now : ℕ)
    → KeepsView (open_stack found stack names now)
unfolding open_stack
open_stack-Keeps none stack names now = create_stack-Keeps stack now
open_stack-Keeps (some row) stack names now = reopen_stack-Keeps stack names _ now

pub place_service-Keeps :
    (stack name config : Text) (plan : ServicePlan) (now : ℕ)
    → KeepsView (place_service stack name config plan now)
unfolding place_service reset_service new_service
place_service-Keeps stack name config plan now = search actions depth 40 fits 5000

module _ (config_json : Service → Text) where
  prepare_service-Keeps :
      (request : Text) (manifest : Manifest) (plans : BTreeMap Text ServicePlan) (now ordinal : ℕ)
      (name : Text)
      → KeepsView (prepare_service config_json request manifest plans now ordinal name)
  unfolding prepare_service
  prepare_service-Keeps request manifest plans now ordinal name =
      search (actions, retire_candidate-Keeps, place_service-Keeps) depth 40 fits 5000

  pub begin_up-Keeps :
      (clock : Option ℕ) (request source manifest_base : Text) (manifest : Manifest)
      (plans : BTreeMap Text ServicePlan)
      → KeepsView (begin_up config_json clock request source manifest_base manifest plans)
  unfolding begin_up
  begin_up-Keeps clock request source manifest_base manifest plans =
      search (actions, open_stack-Keeps, prepare_service-Keeps) depth 40 fits 5000

pub record_noop_up-Keeps :
    (clock : Option ℕ) (request stack candidate_manifest manifest_base : Text)
    → KeepsView (record_noop_up clock request stack candidate_manifest manifest_base)
unfolding record_noop_up
record_noop_up-Keeps clock request stack candidate_manifest manifest_base =
    search actions depth 40 fits 5000

pub cache_response-Keeps :
    (clock : Option ℕ) (request json : Text) → KeepsView (cache_response clock request json)
unfolding cache_response
cache_response-Keeps clock request json = search actions depth 40 fits 5000
