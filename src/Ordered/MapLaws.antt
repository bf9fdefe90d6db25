-- ===== src/Ordered/MapLaws.antt =====
-- Laws of `BTreeMap`: reading after a write, and the order of the keys.
use termux_stacks.Prelude.{
  Ordering, ◌≡◌, refl, false, ◌||◌, [], ◌∷◌, none, some, arith, if◌then◌else◌, All, length, suc,
}
use termux_stacks.Ordered.Key.{Key, ◌==◌}
use termux_stacks.Ordered.Map.{BTreeMap, get, insert, contains_key, keys}
use termux_stacks.Ordered.Set.{contains}

module _ {K V : Type 0} ⦃o : Key K⦄ where
  pub get-insert :
      (j k : K) (v : V) (m : BTreeMap K V)
      → get j (insert k v m) ≡ (if j == k then some v else get j m)
  unfolding get insert
  get-insert j k v [] = ground arith
  get-insert j k v ((i, w) ∷ m) =
      ground (arith, get-insert j k v m, o.cmp-eq_iff k i, o.cmp-eq_iff j k, o.cmp-eq_iff j i)

  pub contains_key-keys : (j : K) (m : BTreeMap K V) → contains_key j m ≡ contains j (keys m)
  unfolding contains_key get keys
  contains_key-keys j [] = refl
  contains_key-keys j ((i, w) ∷ m) = ground (arith, contains_key-keys j m)

  pub contains-keys-insert :
      (j k : K) (v : V) (m : BTreeMap K V)
      → contains j (keys (insert k v m)) ≡ (j == k || contains j (keys m))
  unfolding keys insert
  contains-keys-insert j k v [] = refl
  contains-keys-insert j k v ((i, w) ∷ m) =
      ground
        (arith, contains-keys-insert j k v m, o.cmp-eq_iff k i, o.cmp-eq_iff j k, o.cmp-eq_iff j i)

module _ {K V : Type 0} ⦃o : Key K⦄ where
  -- Every key of the map is greater than `k`.
  abbrev pub IsBelow : K → BTreeMap K V → Type 0
  IsBelow k m = All (λ e. o.cmp k e.0 ≡ Ordering.lt) m

  -- The keys increase.
  abbrev pub IsSorted : BTreeMap K V → Type 0
  IsSorted [] = Unit
  IsSorted ((k, v) ∷ m) = IsBelow k m × IsSorted m

  IsBelow-trans : (j k : K) (m : BTreeMap K V) → o.cmp j k ≡ Ordering.lt → IsBelow k m → IsBelow j m
  IsBelow-trans j k [] h b = tt
  IsBelow-trans j k ((i, w) ∷ m) h (p, b) = (o.cmp_trans j k i h p, IsBelow-trans j k m h b)

  IsBelow-insert :
      (j k : K) (v : V) (m : BTreeMap K V)
      → o.cmp j k ≡ Ordering.lt
      → IsBelow j m
      → IsBelow j (insert k v m)
  unfolding insert
  IsBelow-insert j k v [] h b = (h, tt)
  IsBelow-insert j k v ((i, w) ∷ m) h (p, b) = ground (arith, IsBelow-insert j k v m h b)

  pub insert-IsSorted : (k : K) (v : V) (m : BTreeMap K V) → IsSorted m → IsSorted (insert k v m)
  unfolding insert
  insert-IsSorted k v [] s = (tt, tt)
  insert-IsSorted k v ((i, w) ∷ m) (b, s) =
      ground
        (arith, insert-IsSorted k v m s, IsBelow-trans k i m, IsBelow-insert i k v m, o.cmp-gt k i)

  pub IsBelow-get : (k : K) (m : BTreeMap K V) → IsBelow k m → get k m ≡ none
  unfolding get
  IsBelow-get k [] b = refl
  IsBelow-get k ((i, w) ∷ m) (p, b) = ground (arith, IsBelow-get k m b)

  -- Each key is held once: in the rest of a sorted map the first key is missing.
  pub not-contains-keys_of_IsBelow :
      (k : K) (m : BTreeMap K V) → IsBelow k m → contains k (keys m) ≡ false
  unfolding keys
  not-contains-keys_of_IsBelow k [] b = refl
  not-contains-keys_of_IsBelow k ((i, w) ∷ m) (p, b) =
      ground (arith, not-contains-keys_of_IsBelow k m b)

  -- A new key makes the map longer by one.
  pub length-insert :
      (k : K) (v : V) (m : BTreeMap K V)
      → contains k (keys m) ≡ false
      → length (insert k v m) ≡ suc (length m)
  unfolding keys insert
  length-insert k v [] h = refl
  length-insert k v ((i, w) ∷ m) h = ground (arith, length-insert k v m)
