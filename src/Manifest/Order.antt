-- ===== src/Manifest/Order.antt =====
-- The start order of the services (src/manifest.rs: `topological_order`, `Manifest::start_order`,
-- `Manifest::stop_order`): Kahn's algorithm over ordered maps and sets.
pub mod Spec
pub mod Count
pub mod Release
pub mod Dependents
pub mod Initial
pub mod Loop
pub mod Theorems
use termux_stacks.Prelude.{
  ℕ, zero, suc, Bool, true, false, not, List, [], ◌∷◌, ◌++◌, reverse, Option, none, some, length,
  if◌then◌else◌,
}
use termux_stacks.Ordered.Key.{Text, text_key, nat_key, ◌==◌}
use termux_stacks.Ordered.Map
use termux_stacks.Ordered.Map.{BTreeMap, get}
use termux_stacks.Ordered.Set
use termux_stacks.Ordered.Set.{BTreeSet}
use termux_stacks.Manifest.Error.{Result, ok, err, fault, panic, out_of_fuel, ◌>>=◌}
use termux_stacks.Manifest.Types.{Service, Manifest}

abbrev pub Services : Type 0
Services = BTreeMap Text Service

-- The `Result<Vec<String>, Vec<String>>` of the source.
pub data Sorting : Type 0 where
  sorted : List Text → Sorting
  cyclic : List Text → Sorting

-- The number of dependencies of each service. Each key is met once.
unfoldable pub incoming_of : Services → BTreeMap Text ℕ
incoming_of [] = []
incoming_of ((name, service) ∷ rest) =
    Map.insert name (length service.depends_on) (incoming_of rest)

unfoldable pub no_dependents : Services → BTreeMap Text (BTreeSet Text)
no_dependents [] = []
no_dependents ((name, service) ∷ rest) = Map.insert name [] (no_dependents rest)

unfoldable pub add_dependent :
    Text → Text → BTreeMap Text (BTreeSet Text) → BTreeMap Text (BTreeSet Text)
add_dependent name dependency m = elim (get dependency m) [
  | none ↦ m
  | some entries ↦ Map.insert dependency (Set.insert name entries) m
]

-- The inner and the outer `for` loop.
unfoldable pub add_dependents :
    Text → List Text → BTreeMap Text (BTreeSet Text) → BTreeMap Text (BTreeSet Text)
add_dependents name [] m = m
add_dependents name (dependency ∷ rest) m =
    add_dependents name rest (add_dependent name dependency m)

unfoldable pub fill_dependents :
    Services → BTreeMap Text (BTreeSet Text) → BTreeMap Text (BTreeSet Text)
fill_dependents [] m = m
fill_dependents ((name, service) ∷ rest) m =
    fill_dependents rest (add_dependents name service.depends_on m)

unfoldable pub dependents_of : Services → BTreeMap Text (BTreeSet Text)
unfolding no_dependents fill_dependents
dependents_of services = fill_dependents services (no_dependents services)

unfoldable pub ready_of : BTreeMap Text ℕ → BTreeSet Text
ready_of [] = []
ready_of ((name, count) ∷ rest) =
    let others = ready_of rest in if count == 0 then Set.insert name others else others

-- The `for` loop over the dependents of a service that was placed. A missing count is the
-- `expect`; a count of zero would overflow.
unfoldable pub release :
    List Text → BTreeMap Text ℕ → BTreeSet Text → Result (BTreeMap Text ℕ × BTreeSet Text)
release [] incoming ready = ok (incoming, ready)
release (dependent ∷ rest) incoming ready = elim (get dependent incoming) [
  | none ↦ fault panic
  | some zero ↦ fault panic
  | some (suc count) ↦
      release rest (Map.insert dependent count incoming)
        (if count == 0 then Set.insert dependent ready else ready)
]

-- The `while` loop, on fuel. A missing entry of `dependents` is the panic of the index.
unfoldable pub drain :
    (fuel : ℕ)
    → BTreeMap Text (BTreeSet Text)
    → BTreeSet Text
    → BTreeMap Text ℕ
    → List Text
    → Result (List Text × BTreeMap Text ℕ)
drain zero dependents ready incoming order = fault out_of_fuel
drain (suc f) dependents [] incoming order = ok (order, incoming)
drain (suc f) dependents (name ∷ ready) incoming order = elim (get name dependents) [
  | none ↦ fault panic
  | some waiting ↦
      release waiting incoming ready >>= λ r. drain f dependents r.1 r.0 (order ++ name ∷ [])
]

unfoldable pub blocked : BTreeMap Text ℕ → List Text
blocked [] = []
blocked ((name, count) ∷ rest) =
    let others = blocked rest in if count == 0 then others else name ∷ others

unfoldable pub finish : Services → List Text × BTreeMap Text ℕ → Sorting
finish services r = if length r.0 == length services then sorted r.0 else cyclic (blocked r.1)

unfoldable pub topological_order : Services → Result Sorting
unfolding incoming_of dependents_of ready_of
topological_order services = do
  let incoming = incoming_of services
  r ← drain (suc (length services)) (dependents_of services) (ready_of incoming) incoming []
  ok (finish services r)

abbrev expect_sorted : Sorting → Result (List Text)
expect_sorted (sorted order) = ok order
expect_sorted (cyclic names) = fault panic

unfoldable pub start_order : Manifest → Result (List Text)
start_order m = do s ← topological_order m.services; expect_sorted s

unfoldable pub stop_order : Manifest → Result (List Text)
unfolding start_order
stop_order m = do order ← start_order m; ok (reverse order)
