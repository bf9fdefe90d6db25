-- ===== src/Store/Keeps/Starting.antt =====
-- For a child that starts (src/store.rs: `mark_starting`): what it keeps of the tables, relying on
-- the phase that was set before the child is recorded.
use termux_stacks.Prelude.{
  ℕ, ◌≡◌, refl, true, false, Bool, Option, some, arith, Option-cases, inl, inr,
}
use termux_stacks.Ordered.Key.{Key, Text, text_key, pair_key, ==_refl}
use termux_stacks.Ordered.Map.{BTreeMap, get}
use termux_stacks.Ordered.MapLaws.{get-insert}
use termux_stacks.Store.Tables.{ServiceKey, ServiceRow, Phase, Database, is_backoff}
use termux_stacks.Store.Sql.{update_row, update_service}
use termux_stacks.Store.Rows.{set_service_phase}
use termux_stacks.Store.Phases.{mark_starting}
use termux_stacks.Store.Effect.{
  Keeps, Ensures, last, last_seq, checked, chain, seq, seq_settled, chain_settled, deny-Keeps,
  unix_time-Keeps, require_one-Keeps,
}
use termux_stacks.Store.Kept.{update_row-TableKept, update_row-AllRows}
use termux_stacks.Store.View.{
  ServiceKept, ServiceKept-refl, IsProven, Kept, Kept_frame, with_services,
}
use termux_stacks.Store.Keeps.Rules.{KeepsView, refresh_stack_state-Keeps, set_service_phase-Keeps}

-- The service, where it is active, is not in backoff.
abbrev IsSettled : ServiceKey → Database → Type 0
IsSettled k db =
    (v : ServiceRow)
    → get k db.services ≡ some v
    → v.active ≡ true
    → is_backoff v.effect_phase ≡ false

module _ {K V : Type 0} ⦃o : Key K⦄ where
  -- The row of an update by primary key, where the guard still holds.
  pub update_row-settled :
      (k : K) (guard test : V → Bool) (f : V → V) (m : BTreeMap K V)
      → ((w : V) → test (f w) ≡ false)
      → (v : V) → get k (update_row k guard f m).1 ≡ some v
      → guard v ≡ true
      → test v ≡ false
  unfolding update_row
  update_row-settled k guard test f m h v e g = elim (Option-cases (get k m)) [
    | inl n ↦ ground (arith, n)
    | inr (w, n) ↦ ground (arith, n, get-insert k k (f w) m, ==_refl k, h w)
  ]

update_service-IsSettled :
    (k : ServiceKey) (f : ServiceRow → ServiceRow)
    → ((v : ServiceRow) → is_backoff (f v).effect_phase ≡ false)
    → Ensures (IsSettled k) (update_service k (λ v. v.active) f)
unfolding update_service
update_service-IsSettled k f h = record {
  ensured =
      λ db. update_row-settled k (λ v. v.active) (λ v. is_backoff v.effect_phase) f db.services h;
}

set_service_phase-IsSettled :
    (request stack service : Text) (phase : Phase) (now : ℕ)
    → is_backoff phase ≡ false
    → Ensures (IsSettled (stack, service)) (set_service_phase request stack service phase now)
unfolding set_service_phase
set_service_phase-IsSettled request stack service phase now h =
    last _ _ λ n. last_seq _ _ (checked _ _ (update_service-IsSettled (stack, service) _ λ v. h))

-- An update of a settled service that leaves its phase.
update-IsSettled :
    (k : ServiceKey) (f : ServiceRow → ServiceRow)
    → ((v : ServiceRow) → ServiceKept false v (f v))
    → ((v : ServiceRow) → (f v).effect_phase ≡ v.effect_phase)
    → Keeps (λ db after. IsSettled k db → Kept false db after) (update_service k (λ v. v.active) f)
unfolding update_service
update-IsSettled k f h same = record {
  run = λ db settled.
      with_services false db _
        (update_row-TableKept (ServiceKept false) (ServiceKept-refl false) k (λ v. v.active) f
          (λ v _. h v) db.services)
        (update_row-AllRows IsProven k (λ v. v.active) f db.services
          λ v e g _. rw (same v, settled v e g) refl);
}

pub mark_starting-Keeps :
    (clock : Option ℕ) (request stack service : Text) (pid starttime : ℕ) (boot : Text)
    → KeepsView (mark_starting clock request stack service pid starttime boot)
unfolding mark_starting
mark_starting-Keeps clock request stack service pid starttime boot = seq _ _ (deny-Keeps _ _) (
    chain _ _ (unix_time-Keeps clock) λ now.
      seq_settled (IsSettled (stack, service)) _ _
        (set_service_phase-Keeps request stack service Phase.starting now refl)
        (set_service_phase-IsSettled request stack service Phase.starting now refl)
        (chain_settled (IsSettled (stack, service)) _ _
          (update-IsSettled (stack, service) _ (λ v. (refl, refl)) λ v. refl)
          λ n.
            seq {R = Kept false} _ _ (require_one-Keeps n service)
              (refresh_stack_state-Keeps stack now)))
