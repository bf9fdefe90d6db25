-- ===== src/Manifest/Order/Initial.antt =====
-- The state before the loop: the dependents, the counts and the services that wait for nothing.
use termux_stacks.Prelude.{
  ℕ, zero, suc, ◌≡◌, refl, Bool, true, false, ◌&&◌, [], ◌∷◌, Option, none, some, arith, length,
  if◌then◌else◌,
}
use termux_stacks.Ordered.Key.{Text, text_key, ==_iff, nat_key}
use termux_stacks.Ordered.Map.{BTreeMap, get, keys}
use termux_stacks.Ordered.MapLaws
use termux_stacks.Ordered.MapLaws.{get-insert, IsBelow-get}
use termux_stacks.Ordered.Set.{contains, contains-insert}
use termux_stacks.Ordered.SetLaws
use termux_stacks.Manifest.Order.{Services, incoming_of, no_dependents, dependents_of, ready_of}
use termux_stacks.Manifest.Order.Spec.{deps}
use termux_stacks.Manifest.Order.Dependents.{
  Table, holds, present, EntriesSorted, fill-present, fill-EntriesSorted, fill-holds,
  deps-cons_self, deps-cons_ne,
}

no_dependents-get :
    (n : Text) (services : Services)
    → get n (no_dependents services) ≡ (if contains n (keys services) then some [] else none)
unfolding no_dependents keys get
no_dependents-get n [] = refl
no_dependents-get n ((name, s) ∷ rest) =
    ground
      (arith, no_dependents-get n rest, get-insert n name [] (no_dependents rest), ==_iff n name)

-- Each service has its dependents listed, once and in order.
pub record IsTable (services : Services) (t : Table) : Type 0 where
  pub entries : (n : Text) → present t n ≡ contains n (keys services)
  pub dependents :
      (n m : Text)
      → contains n (keys services) ≡ true
      → holds t n m ≡ (contains m (keys services) && contains n (deps services m))
  pub in_order : EntriesSorted t

pub dependents_of-IsTable :
    (services : Services) → MapLaws.IsSorted services → IsTable services (dependents_of services)
unfolding dependents_of
dependents_of-IsTable services h = record {
  entries = λ n.
      ground
        (arith, fill-present n services (no_dependents services), no_dependents-get n services);
  dependents = λ n m c.
      ground
        (arith, fill-holds n m services (no_dependents services) h, no_dependents-get n services);
  in_order =
      fill-EntriesSorted services (no_dependents services)
        (λ n. ground (arith, no_dependents-get n services));
}

pub incoming_of-get :
    (n : Text) (services : Services)
    → get n (incoming_of services)
      ≡ (if contains n (keys services) then some (length (deps services n)) else none)
unfolding incoming_of keys get
incoming_of-get n [] = refl
incoming_of-get n ((name, s) ∷ rest) = ground (
  arith,
  incoming_of-get n rest,
  get-insert n name (length s.depends_on) (incoming_of rest),
  ==_iff n name,
  deps-cons_self name s rest,
  deps-cons_ne name n s rest,
)

pub incoming_of-IsSorted : (services : Services) → MapLaws.IsSorted (incoming_of services)
unfolding incoming_of
incoming_of-IsSorted [] = tt
incoming_of-IsSorted ((name, s) ∷ rest) =
    MapLaws.insert-IsSorted name (length s.depends_on) (incoming_of rest)
      (incoming_of-IsSorted rest)

abbrev pub is_zero : Option ℕ → Bool
is_zero (some zero) = true
is_zero other = false

ready_of-contains :
    (n : Text) (m : BTreeMap Text ℕ)
    → MapLaws.IsSorted m
    → contains n (ready_of m) ≡ is_zero (get n m)
unfolding ready_of get
ready_of-contains n [] h = refl
ready_of-contains n ((name, zero) ∷ rest) (b, h) =
    ground
      (arith, ready_of-contains n rest h, contains-insert n name (ready_of rest), ==_iff n name)
ready_of-contains n ((name, suc c) ∷ rest) (b, h) =
    ground (arith, ready_of-contains n rest h, ==_iff n name, IsBelow-get name rest b)

pub ready_of-incoming :
    (n : Text) (services : Services)
    → contains n (ready_of (incoming_of services)) ≡ is_zero (get n (incoming_of services))
ready_of-incoming n services =
    ready_of-contains n (incoming_of services) (incoming_of-IsSorted services)

pub ready_of-IsSorted : (m : BTreeMap Text ℕ) → SetLaws.IsSorted (ready_of m)
unfolding ready_of
ready_of-IsSorted [] = tt
ready_of-IsSorted ((name, zero) ∷ rest) =
    SetLaws.insert-IsSorted name (ready_of rest) (ready_of-IsSorted rest)
ready_of-IsSorted ((name, suc c) ∷ rest) = ground (arith, ready_of-IsSorted rest)
