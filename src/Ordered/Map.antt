-- ===== src/Ordered/Map.antt =====
-- `BTreeMap`: an association list in increasing order of the keys.
use termux_stacks.Prelude.{Ordering, Bool, true, false, List, [], ◌∷◌, Option, none, some}
use termux_stacks.Ordered.Key.{Key}

abbrev pub BTreeMap : Type 0 → Type 0 → Type 0
BTreeMap K V = List (K × V)

module _ {K V : Type 0} ⦃o : Key K⦄ where
  unfoldable pub get : K → BTreeMap K V → Option V
  get k [] = none
  get k ((j, v) ∷ m) = elim (o.cmp k j) [ Ordering.eq ↦ some v | _ ↦ get k m ]

  -- An equal key has its value replaced.
  unfoldable pub insert : K → V → BTreeMap K V → BTreeMap K V
  insert k v [] = (k, v) ∷ []
  insert k v ((j, w) ∷ m) = elim (o.cmp k j) [
    | Ordering.lt ↦ (k, v) ∷ (j, w) ∷ m
    | Ordering.eq ↦ (j, v) ∷ m
    | Ordering.gt ↦ (j, w) ∷ insert k v m
  ]

  unfoldable pub remove : K → BTreeMap K V → BTreeMap K V
  remove k [] = []
  remove k ((j, w) ∷ m) = elim (o.cmp k j) [ Ordering.eq ↦ m | _ ↦ (j, w) ∷ remove k m ]

  unfoldable pub contains_key : K → BTreeMap K V → Bool
  contains_key k m = elim (get k m) [ none ↦ false | some v ↦ true ]

unfoldable pub keys : {K V : Type 0} → BTreeMap K V → List K
keys [] = []
keys ((k, v) ∷ m) = k ∷ keys m
