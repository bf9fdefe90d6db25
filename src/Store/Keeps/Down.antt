-- ===== src/Store/Keeps/Down.antt =====
-- For stopping a stack (src/store.rs): what it keeps of the tables.
use termux_stacks.Prelude.{ℕ, ◌≡◌, refl, Bool, true, false, ◌||◌, ◌+◌, List, [], ◌∷◌, Option}
use termux_stacks.Ordered.Key.{Text}
use termux_stacks.Store.Down.{
  Evidence, evidence_of, down_phase, stop_services, stop_service, end_if_unknown, begin_down,
  finish_down, finalize_down_failure,
}
use termux_stacks.Store.Effect.{chain, query-Keeps, expect-Keeps, pure-Keeps}
use termux_stacks.Store.Statements.{update_service-Keeps}
use termux_stacks.Store.Tables.{is_backoff}
use termux_stacks.Store.View.{Kept_frame}
use termux_stacks.Store.Keeps.Rules.{KeepsView, actions}

down_phase-not-backoff : (e : Evidence) → is_backoff (down_phase e) ≡ false
down_phase-not-backoff Evidence.proven_absent = refl
down_phase-not-backoff Evidence.ambiguous = refl
down_phase-not-backoff Evidence.owned = refl

stop_service-Keeps :
    (request stack : Text) (now ordinal : ℕ) (service : Text)
    → KeepsView (stop_service request stack now ordinal service)
unfolding stop_service
stop_service-Keeps request stack now ordinal service = chain _ _ (query-Keeps _) λ found.
    chain _ _ (expect-Keeps _ _) λ row.
      chain _ _
        (update_service-Keeps _ _ _ (λ v g. (refl, refl))
          λ v g i. rw (down_phase-not-backoff (evidence_of row)) refl)
        λ n. search actions depth 40 fits 5000

end_if_unknown-Keeps :
    (unknown : Bool) (request : Text) (now : ℕ) → KeepsView (end_if_unknown unknown request now)
unfolding end_if_unknown
end_if_unknown-Keeps true request now = search actions depth 40 fits 5000
end_if_unknown-Keeps false request now = search actions depth 40 fits 5000

stop_services-Keeps :
    (request stack : Text) (now ordinal : ℕ) (order : List Text) (unknown : Bool)
    → KeepsView (stop_services request stack now ordinal order unknown)
unfolding stop_services
stop_services-Keeps request stack now ordinal [] unknown = pure-Keeps unknown
stop_services-Keeps request stack now ordinal (service ∷ order) unknown =
    chain _ _ (stop_service-Keeps request stack now ordinal service)
      λ found. stop_services-Keeps request stack now (ordinal + 1) order (unknown || found)

pub begin_down-Keeps :
    (clock : Option ℕ) (request stack : Text) (stop_order : List Text)
    → KeepsView (begin_down clock request stack stop_order)
unfolding begin_down
begin_down-Keeps clock request stack stop_order =
    search (actions, stop_services-Keeps, end_if_unknown-Keeps) depth 40 fits 5000

pub finish_down-Keeps :
    (clock : Option ℕ) (request stack : Text) → KeepsView (finish_down clock request stack)
unfolding finish_down
finish_down-Keeps clock request stack = search actions depth 40 fits 5000

pub finalize_down_failure-Keeps :
    (clock : Option ℕ) (request stack : Text) (code message : Text)
    → KeepsView (finalize_down_failure clock request stack code message)
unfolding finalize_down_failure
finalize_down_failure-Keeps clock request stack code message = search actions depth 40 fits 5000
