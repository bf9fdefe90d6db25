-- ===== src/Ordered/Set.antt =====
-- `BTreeSet`: a list in increasing order.
use termux_stacks.Prelude.{Ordering, ◌≡◌, refl, Bool, false, ◌||◌, List, [], ◌∷◌, arith}
use termux_stacks.Ordered.Key.{Key, ◌==◌}

abbrev pub BTreeSet : Type 0 → Type 0
BTreeSet K = List K

module _ {K : Type 0} ⦃o : Key K⦄ where
  abbrev pub contains : K → List K → Bool
  contains k [] = false
  contains k (j ∷ s) = k == j || contains k s

  -- Each element stands once.
  abbrev pub IsDistinct : List K → Type 0
  IsDistinct [] = Unit
  IsDistinct (x ∷ xs) = (contains x xs ≡ false) × IsDistinct xs

  unfoldable pub insert : K → BTreeSet K → BTreeSet K
  insert k [] = k ∷ []
  insert k (j ∷ s) = elim (o.cmp k j) [
    | Ordering.lt ↦ k ∷ j ∷ s
    | Ordering.eq ↦ j ∷ s
    | Ordering.gt ↦ j ∷ insert k s
  ]

  pub contains-insert :
      (j k : K) (s : BTreeSet K) → contains j (insert k s) ≡ (j == k || contains j s)
  unfolding insert
  contains-insert j k [] = refl
  contains-insert j k (i ∷ s) =
      ground (arith, contains-insert j k s, o.cmp-eq_iff k i, o.cmp-eq_iff j k, o.cmp-eq_iff j i)
