-- ===== src/Manifest/Order/Count.antt =====
-- Counting what a list holds outside another: the dependencies that are not placed yet.
use termux_stacks.Prelude.{
  ℕ, suc, ◌≡◌, refl, true, false, ◌||◌, List, [], ◌∷◌, ◌++◌, length, arith, if◌then◌else◌,
  Bool-cases, inl, inr,
}
use termux_stacks.Ordered.Key.{Text, text_key, ◌==◌, ==_iff}
use termux_stacks.Ordered.Set.{contains, IsDistinct}

-- How many of `ds` are not in `order`.
abbrev pub pending : List Text → List Text → ℕ
pending order [] = 0
pending order (d ∷ ds) = if contains d order then pending order ds else suc (pending order ds)

pub contains-snoc :
    (m n : Text) (xs : List Text) → contains m (xs ++ n ∷ []) ≡ (contains m xs || m == n)
contains-snoc m n [] = ground arith
contains-snoc m n (x ∷ xs) = ground (arith, contains-snoc m n xs)

pub pending-nil : (ds : List Text) → pending [] ds ≡ length ds
pending-nil [] = refl
pending-nil (d ∷ ds) = ground (arith, pending-nil ds)

-- What is not held is counted as before.
pub pending-snoc_other :
    (order : List Text) (n : Text) (ds : List Text)
    → contains n ds ≡ false
    → pending (order ++ n ∷ []) ds ≡ pending order ds
pending-snoc_other order n [] h = refl
pending-snoc_other order n (d ∷ ds) h =
    ground (arith, pending-snoc_other order n ds, contains-snoc d n order, ==_iff d n, ==_iff n d)

-- Placing a name that is held takes one off the count.
pub pending-snoc :
    (order : List Text) (n : Text) (ds : List Text)
    → IsDistinct ds
    → contains n order ≡ false
    → contains n ds ≡ true
    → suc (pending (order ++ n ∷ []) ds) ≡ pending order ds
pending-snoc order n [] u f h = ground arith
pending-snoc order n (d ∷ ds) (fresh, u) f h = ground (
  arith,
  pending-snoc order n ds u f,
  pending-snoc_other order n ds,
  contains-snoc d n order,
  ==_iff d n,
  ==_iff n d,
)

-- Nothing is left exactly if all are placed.
pub pending-zero :
    (order ds : List Text) (d : Text)
    → pending order ds ≡ 0
    → contains d ds ≡ true
    → contains d order ≡ true
pending-zero order [] d h c = ground arith
pending-zero order (e ∷ ds) d h c = ground (arith, pending-zero order ds d, ==_iff d e)

pub pending-suc :
    (order ds : List Text) (k : ℕ)
    → pending order ds ≡ suc k
    → (d : Text) × (contains d ds ≡ true) × (contains d order ≡ false)
pending-suc order [] k h = absurd (omega arith)
pending-suc order (e ∷ ds) k h = elim (Bool-cases (contains e order)) [
  | inl placed ↦
      let (d, held, free) = pending-suc order ds k (ground arith) in (d, ground arith, free)
  | inr free ↦ (e, ground (arith, ==_iff e e), free)
]
