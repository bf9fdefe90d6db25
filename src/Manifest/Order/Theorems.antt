-- ===== src/Manifest/Order/Theorems.antt =====
-- What `topological_order` returns (src/manifest.rs): a start order, or a set of services none of
-- which can start first; and which of them.
use termux_stacks.Prelude.{
  ℕ, zero, suc, ◌≡◌, ◌≢◌, refl, ap, Bool, true, false, ◌||◌, List, [], ◌∷◌, ◌++◌, reverse,
  append_assoc, append-nil, Option, some, arith, length, Bool-cases, inl, inr, ◌∙◌,
}
use mathlib.Core.List.{reverse-cons, reverse-append}
use termux_stacks.Ordered.Key.{Text, text_key, ◌==◌, ==_iff, nat_key}
use termux_stacks.Ordered.Map.{BTreeMap, get, keys}
use termux_stacks.Ordered.MapLaws
use termux_stacks.Ordered.MapLaws.{IsBelow-get}
use termux_stacks.Ordered.Set.{contains}
use termux_stacks.Manifest.Error.{ok}
use termux_stacks.Manifest.Types.{Manifest}
use termux_stacks.Manifest.Order.{
  Services, Sorting, sorted, cyclic, topological_order, incoming_of, dependents_of, ready_of,
  finish, blocked, start_order, stop_order,
}
use termux_stacks.Manifest.Order.Spec.{deps, IsGraph, ComesAfterDeps, IsStartOrder, IsBlocked}
use termux_stacks.Manifest.Order.Count.{
  contains-snoc, pending, pending-nil, pending-zero, pending-suc,
}
use termux_stacks.Manifest.Order.Initial.{
  dependents_of-IsTable, incoming_of-get, incoming_of-IsSorted, ready_of-incoming,
  ready_of-IsSorted,
}
use termux_stacks.Manifest.Order.Loop.{Invariant, drain-Drained}

length-keys : (services : Services) → length (keys services) ≡ length services
unfolding keys
length-keys [] = refl
length-keys ((n, s) ∷ rest) = ap suc (length-keys rest)

Invariant-initial :
    (services : Services)
    → Invariant services (ready_of (incoming_of services)) (incoming_of services) []
Invariant-initial services = record {
  counts = λ n. ground (arith, incoming_of-get n services, pending-nil (deps services n));
  waiting = λ n. ground (arith, ready_of-incoming n services, incoming_of-get n services);
  in_order = ready_of-IsSorted (incoming_of services);
  keys_in_order = incoming_of-IsSorted services;
  once = tt;
  only = λ n c. ground arith;
  settled = λ n d c e. ground arith;
  after = tt;
  sized = omega (arith, pending-nil (keys services), length-keys services);
}

abbrev is_positive : Option ℕ → Bool
is_positive (some (suc k)) = true
is_positive other = false

contains-blocked :
    (n : Text) (m : BTreeMap Text ℕ)
    → MapLaws.IsSorted m
    → contains n (blocked m) ≡ is_positive (get n m)
unfolding blocked get
contains-blocked n [] h = refl
contains-blocked n ((name, zero) ∷ rest) (b, h) =
    ground (arith, contains-blocked n rest h, ==_iff n name, IsBelow-get name rest b)
contains-blocked n ((name, suc k) ∷ rest) (b, h) =
    ground (arith, contains-blocked n rest h, ==_iff n name)

-- The end of the loop: nothing is ready.
module _ (services : Services) (g : IsGraph services) (incoming : BTreeMap Text ℕ)
    (order : List Text) (inv : Invariant services [] incoming order) where
  all_placed : length order ≡ length services → IsStartOrder services order
  all_placed e = record {
    once = inv.once;
    complete = λ n.
        ground (arith, inv.only n, pending-zero order (keys services) n (omega (arith, inv.sized)));
    after = inv.after;
  }

  is_blocked : (n : Text) → contains n (blocked incoming) ≡ is_positive (get n incoming)
  is_blocked n = contains-blocked n incoming inv.keys_in_order

  left_blocked :
      (n : Text)
      → contains n (keys services) ≡ true
      → contains n order ≡ false
      → contains n (blocked incoming) ≡ true
  left_blocked n c f = ground (arith, is_blocked n, inv.waiting n, inv.counts n)

  some_blocked : length order ≢ length services → IsBlocked services (blocked incoming)
  some_blocked ne = record {
    nonempty = λ e.
        let (k, more) = positive (pending order (keys services)) (ground (arith, inv.sized)) in
        let (d, c, f) = pending-suc order (keys services) k more in
        ground (arith, left_blocked d c f);
    services_only = λ n c. ground (arith, is_blocked n, inv.counts n);
    waits = λ n c.
        let (k, more) =
          positive (pending order (deps services n)) (ground (arith, is_blocked n, inv.counts n)) in
        let (d, e, f) = pending-suc order (deps services n) k more in
        (d, e, left_blocked d (g.known n d e) f);
  }
    where
      positive : (k : ℕ) → k ≢ 0 → (j : ℕ) × (k ≡ suc j)
      positive zero h = absurd (h refl)
      positive (suc j) h = (j, refl)

abbrev pub IsOutcome : Services → Sorting → Type 0
IsOutcome services (sorted order) = IsStartOrder services order
IsOutcome services (cyclic names) = IsBlocked services names

-- Sorting a graph ends without a panic: in an order that holds every service once and behind its
-- dependencies, or in a nonempty set of services each of which waits for one of the set.
pub topological_order-IsOutcome :
    (services : Services)
    → IsGraph services
    → (s : Sorting) × (topological_order services ≡ ok s) × IsOutcome services s
unfolding topological_order finish
topological_order-IsOutcome services g =
    let d =
      drain-Drained services (dependents_of services) g (dependents_of-IsTable services g.in_order)
        (suc (length services)) (ready_of (incoming_of services)) (incoming_of services) []
        (Invariant-initial services)
        (omega (arith, pending-nil (keys services), length-keys services)) in
    elim (Bool-cases (length d.order' == length services)) [
      | inl all ↦ (
        sorted d.order',
        ground (arith, d.result),
        all_placed services g d.incoming' d.order' d.inv ((==_iff _ _).0 all),
      )
      | inr some_left ↦ (
        cyclic (blocked d.incoming'),
        ground (arith, d.result),
        some_blocked services g d.incoming' d.order' d.inv
            (ground (arith, ==_iff (length d.order') (length services))),
      )
    ]

-- A blocked set has no member in a start order.
not_blocked :
    (services : Services) (names before ns : List Text)
    → IsBlocked services names
    → ((d : Text) → contains d before ≡ true → contains d names ≡ false)
    → ComesAfterDeps services before ns
    → (d : Text) → contains d ns ≡ true
    → contains d names ≡ false
not_blocked services names before [] b h a d c = ground arith
not_blocked services names before (n ∷ ns) b h (p, a) d c = elim (Bool-cases (contains n names)) [
  | inl stuck ↦ let (e, dep, inside) = b.waits n stuck in absurd (ground (arith, h e, p e))
  | inr free ↦
      let rest =
        not_blocked services names (before ++ n ∷ []) ns b
          (λ e c. ground (arith, contains-snoc e n before, h e, ==_iff e n)) a d in
      ground (arith, rest, ==_iff d n)
]

pub blocked_no_order :
    (services : Services) (names order : List Text)
    → IsBlocked services names
    → IsStartOrder services order
    → ⊥
blocked_no_order services [] order b o = b.nonempty refl
blocked_no_order services (n ∷ names) order b o =
    let member : contains n (n ∷ names) ≡ true = ground (arith, ==_iff n n) in
    ground (
      arith,
      not_blocked services (n ∷ names) [] order b (λ d c. ground arith) o.after n,
      o.complete n,
      b.services_only n member,
    )

-- If the services can be started in some order, an order is returned.
pub topological_order_complete :
    (services : Services) (order : List Text)
    → IsGraph services
    → IsStartOrder services order
    → (found : List Text) × (topological_order services ≡ ok (sorted found))
      × IsStartOrder services found
topological_order_complete services order g o =
    let (s, result, outcome) = topological_order-IsOutcome services g in sorted_of s result outcome
  where
    sorted_of :
        (s : Sorting)
        → topological_order services ≡ ok s
        → IsOutcome services s
        → (found : List Text) × (topological_order services ≡ ok (sorted found))
          × IsStartOrder services found
    sorted_of (sorted found) result outcome = (found, result, outcome)
    sorted_of (cyclic names) result outcome =
        absurd (blocked_no_order services names order outcome o)

-- Each name stands in front of its dependencies.
abbrev pub ComesBeforeDeps : Services → List Text → Type 0
ComesBeforeDeps services [] = Unit
ComesBeforeDeps services (n ∷ ns) =
    ((d : Text) → contains d (deps services n) ≡ true → contains d ns ≡ true)
    × ComesBeforeDeps services ns

contains-append :
    (d : Text) (xs ys : List Text) → contains d (xs ++ ys) ≡ (contains d xs || contains d ys)
contains-append d [] ys = refl
contains-append d (x ∷ xs) ys = ground (arith, contains-append d xs ys)

contains-reverse : (d : Text) (xs : List Text) → contains d (reverse xs) ≡ contains d xs
contains-reverse d [] = refl
contains-reverse d (x ∷ xs) =
    rw (reverse-cons x xs)
      (ground (arith, contains-append d (reverse xs) (x ∷ []), contains-reverse d xs))

reverse-ComesBeforeDeps :
    (services : Services) (before ns : List Text)
    → ComesAfterDeps services before ns
    → ComesBeforeDeps services (reverse before)
    → ComesBeforeDeps services (reverse (before ++ ns))
reverse-ComesBeforeDeps services before [] h b = rw (append-nil before) b
reverse-ComesBeforeDeps services before (n ∷ ns) (p, h) b = rw (← append_assoc before (n ∷ []) ns) (
    reverse-ComesBeforeDeps services (before ++ n ∷ []) ns h
      (rw (reverse-append before (n ∷ [])) ((λ d c. contains-reverse d before ∙ p d c), b)))

-- Where the services can be started in some order, `start_order` returns one without a panic, and
-- `stop_order` the same services backwards: each of them in front of those that it depends on.
pub stop_order-ComesBeforeDeps :
    (m : Manifest) (order : List Text)
    → IsGraph m.services
    → IsStartOrder m.services order
    → (found : List Text) × (start_order m ≡ ok found)
      × (stop_order m ≡ ok (reverse found))
      × IsStartOrder m.services found
      × ComesBeforeDeps m.services (reverse found)
unfolding stop_order
stop_order-ComesBeforeDeps m order g o =
    let (found, result, good) = topological_order_complete m.services order g o in
    (
      found,
      ground (arith, result),
      ground (arith, result),
      good,
      reverse-ComesBeforeDeps m.services [] found good.after tt,
    )
