-- ===== src/Manifest/Order/Dependents.antt =====
-- The table of dependents: at each service stands the ordered set of those that name it.
use termux_stacks.Prelude.{
  ◌≡◌, refl, Bool, true, false, ◌&&◌, ◌||◌, List, [], ◌∷◌, Option, none, some, arith, Option-cases,
  Bool-cases, inl, inr, ◌∙◌,
}
use termux_stacks.Ordered.Key.{Text, text_key, ◌==◌, ==_iff, nat_key}
use termux_stacks.Ordered.Map.{BTreeMap, get, keys}
use termux_stacks.Ordered.MapLaws
use termux_stacks.Ordered.MapLaws.{get-insert, not-contains-keys_of_IsBelow}
use termux_stacks.Ordered.Set
use termux_stacks.Ordered.Set.{BTreeSet, contains, contains-insert}
use termux_stacks.Ordered.SetLaws
use termux_stacks.Manifest.Types.{Service}
use termux_stacks.Manifest.Order.{Services, add_dependent, add_dependents, fill_dependents}
use termux_stacks.Manifest.Order.Spec.{deps}

abbrev pub Table : Type 0
Table = BTreeMap Text (BTreeSet Text)

abbrev pub entry_holds : Text → Option (BTreeSet Text) → Bool
entry_holds m none = false
entry_holds m (some s) = contains m s

-- `m` stands among the dependents of `n`.
abbrev pub holds : Table → Text → Text → Bool
holds t n m = entry_holds m (get n t)

abbrev pub EntrySorted : Option (BTreeSet Text) → Type 0
EntrySorted none = Unit
EntrySorted (some s) = SetLaws.IsSorted s

abbrev pub entry_present : Option (BTreeSet Text) → Bool
entry_present none = false
entry_present (some s) = true

abbrev pub EntriesSorted : Table → Type 0
EntriesSorted t = (n : Text) → EntrySorted (get n t)

abbrev pub present : Table → Text → Bool
present t n = entry_present (get n t)

add_dependent-holds :
    (name d n m : Text) (t : Table)
    → holds (add_dependent name d t) n m ≡ (holds t n m || (n == d && m == name && present t d))
unfolding add_dependent
add_dependent-holds name d n m t = elim (Option-cases (get d t)) [
  | inl missing ↦ ground (arith, ==_iff n d)
  | inr (entries, found) ↦ ground (
    arith,
    get-insert n d (Set.insert name entries) t,
    contains-insert m name entries,
    ==_iff n d,
  )
]

add_dependent-present :
    (name d n : Text) (t : Table) → present (add_dependent name d t) n ≡ present t n
unfolding add_dependent
add_dependent-present name d n t = elim (Option-cases (get d t)) [
  | inl missing ↦ ground arith
  | inr (entries, found) ↦ ground (arith, get-insert n d (Set.insert name entries) t, ==_iff n d)
]

add_dependent-EntriesSorted :
    (name d : Text) (t : Table) → EntriesSorted t → EntriesSorted (add_dependent name d t)
unfolding add_dependent
add_dependent-EntriesSorted name d t h n = elim (Option-cases (get d t)) [
  | inl missing ↦ ground (arith, h n)
  | inr (entries, found) ↦
      let below : SetLaws.IsSorted entries = rw found at (h d) in
      ground (
        arith,
        h n,
        get-insert n d (Set.insert name entries) t,
        SetLaws.insert-IsSorted name entries below,
      )
]

add_dependents-present :
    (name n : Text) (ds : List Text) (t : Table)
    → present (add_dependents name ds t) n ≡ present t n
unfolding add_dependents
add_dependents-present name n [] t = refl
add_dependents-present name n (d ∷ ds) t =
    add_dependents-present name n ds (add_dependent name d t) ∙ add_dependent-present name d n t

add_dependents-EntriesSorted :
    (name : Text) (ds : List Text) (t : Table)
    → EntriesSorted t
    → EntriesSorted (add_dependents name ds t)
unfolding add_dependents
add_dependents-EntriesSorted name [] t h = h
add_dependents-EntriesSorted name (d ∷ ds) t h =
    add_dependents-EntriesSorted name ds (add_dependent name d t)
      (add_dependent-EntriesSorted name d t h)

add_dependents-holds :
    (name n m : Text) (ds : List Text) (t : Table)
    → holds (add_dependents name ds t) n m
      ≡ (holds t n m || (contains n ds && m == name && present t n))
unfolding add_dependents
add_dependents-holds name n m [] t = ground arith
add_dependents-holds name n m (d ∷ ds) t = ground (
  arith,
  add_dependents-holds name n m ds (add_dependent name d t),
  add_dependent-holds name d n m t,
  add_dependent-present name d n t,
  ==_iff n d,
)

pub fill-present :
    (n : Text) (services : Services) (t : Table)
    → present (fill_dependents services t) n ≡ present t n
unfolding fill_dependents
fill-present n [] t = refl
fill-present n ((name, s) ∷ rest) t =
    fill-present n rest (add_dependents name s.depends_on t)
    ∙ add_dependents-present name n s.depends_on t

pub fill-EntriesSorted :
    (services : Services) (t : Table) → EntriesSorted t → EntriesSorted (fill_dependents services t)
unfolding fill_dependents
fill-EntriesSorted [] t h = h
fill-EntriesSorted ((name, s) ∷ rest) t h =
    fill-EntriesSorted rest (add_dependents name s.depends_on t)
      (add_dependents-EntriesSorted name s.depends_on t h)

-- The first of the services, and the rest of them.
pub deps-cons_self :
    (name : Text) (s : Service) (rest : Services) → deps ((name, s) ∷ rest) name ≡ s.depends_on
unfolding get
deps-cons_self name s rest = ground (arith, ==_iff name name)

pub deps-cons_ne :
    (name n : Text) (s : Service) (rest : Services)
    → (n == name) ≡ false
    → deps ((name, s) ∷ rest) n ≡ deps rest n
unfolding get
deps-cons_ne name n s rest h = ground arith

pub contains-keys-cons :
    (name n : Text) (s : Service) (rest : Services)
    → contains n (keys ((name, s) ∷ rest)) ≡ (n == name || contains n (keys rest))
unfolding keys
contains-keys-cons name n s rest = refl

pub fill-holds :
    (n m : Text) (services : Services) (t : Table)
    → MapLaws.IsSorted services
    → holds (fill_dependents services t) n m
      ≡ (holds t n m || (contains m (keys services) && contains n (deps services m) && present t n))
unfolding fill_dependents keys
fill-holds n m [] t h = ground arith
fill-holds n m ((name, s) ∷ rest) t (b, h) = elim (Bool-cases (m == name)) [
  | inl same ↦
      let e = (==_iff m name).0 same in
      ground (
        arith,
        fill-holds n m rest (add_dependents name s.depends_on t) h,
        add_dependents-holds name n m s.depends_on t,
        add_dependents-present name n s.depends_on t,
        deps-cons_self name s rest,
        not-contains-keys_of_IsBelow name rest b,
      )
  | inr other ↦ ground (
    arith,
    fill-holds n m rest (add_dependents name s.depends_on t) h,
    add_dependents-holds name n m s.depends_on t,
    add_dependents-present name n s.depends_on t,
    deps-cons_ne name m s rest other,
  )
]
