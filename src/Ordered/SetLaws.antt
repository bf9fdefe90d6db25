-- ===== src/Ordered/SetLaws.antt =====
-- Laws of `BTreeSet`: the order of its elements, so that each is held once.
use termux_stacks.Prelude.{Ordering, ◌≡◌, refl, false, [], ◌∷◌, arith, All}
use termux_stacks.Ordered.Key.{Key}
use termux_stacks.Ordered.Set.{BTreeSet, contains, insert}

module _ {K : Type 0} ⦃o : Key K⦄ where
  abbrev IsBelow : K → BTreeSet K → Type 0
  IsBelow k s = All (λ j. o.cmp k j ≡ Ordering.lt) s

  -- The elements increase.
  abbrev pub IsSorted : BTreeSet K → Type 0
  IsSorted [] = Unit
  IsSorted (k ∷ s) = All (λ j. o.cmp k j ≡ Ordering.lt) s × IsSorted s

  IsBelow-trans : (j k : K) (s : BTreeSet K) → o.cmp j k ≡ Ordering.lt → IsBelow k s → IsBelow j s
  IsBelow-trans j k [] h b = tt
  IsBelow-trans j k (i ∷ s) h (p, b) = (o.cmp_trans j k i h p, IsBelow-trans j k s h b)

  IsBelow-insert :
      (j k : K) (s : BTreeSet K) → o.cmp j k ≡ Ordering.lt → IsBelow j s → IsBelow j (insert k s)
  unfolding insert
  IsBelow-insert j k [] h b = (h, tt)
  IsBelow-insert j k (i ∷ s) h (p, b) = ground (arith, IsBelow-insert j k s h b)

  pub insert-IsSorted : (k : K) (s : BTreeSet K) → IsSorted s → IsSorted (insert k s)
  unfolding insert
  insert-IsSorted k [] h = (tt, tt)
  insert-IsSorted k (i ∷ s) (b, h) =
      ground (arith, insert-IsSorted k s h, IsBelow-trans k i s, IsBelow-insert i k s, o.cmp-gt k i)

  -- The first element does not stand in the rest.
  pub not-contains_of_IsSorted : (k : K) (s : BTreeSet K) → IsSorted (k ∷ s) → contains k s ≡ false
  not-contains_of_IsSorted k [] h = refl
  not-contains_of_IsSorted k (i ∷ s) ((p, b), h) =
      ground (arith, not-contains_of_IsSorted k s (b, h.1))
