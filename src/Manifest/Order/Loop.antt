-- ===== src/Manifest/Order/Loop.antt =====
-- The loop of Kahn's algorithm: its invariant, a step, and the whole run.
use termux_stacks.Prelude.{
  ℕ, zero, suc, ◌+◌, ◌<◌, ◌≡◌, refl, sym, true, false, not, ◌&&◌, List, [], ◌∷◌, ◌++◌, none, some,
  arith, length, if◌then◌else◌, Option-cases, Bool-cases, inl, inr, ◌∙◌, length-append,
  append_assoc, append-nil, subst,
}
use termux_stacks.Ordered.Key.{Text, text_key, ◌==◌, ==_iff, nat_key}
use termux_stacks.Ordered.Map.{BTreeMap, get, keys}
use termux_stacks.Ordered.MapLaws
use termux_stacks.Ordered.MapLaws.{not-contains-keys_of_IsBelow}
use termux_stacks.Ordered.Set.{BTreeSet, contains, IsDistinct}
use termux_stacks.Ordered.SetLaws
use termux_stacks.Manifest.Error.{ok}
use termux_stacks.Manifest.Order.{Services, drain, release}
use termux_stacks.Manifest.Order.Spec.{deps, IsGraph, ComesAfterDeps}
use termux_stacks.Manifest.Order.Count.{
  pending, contains-snoc, pending-snoc, pending-snoc_other, pending-zero,
}
use termux_stacks.Manifest.Order.Dependents.{Table}
use termux_stacks.Manifest.Order.Initial.{IsTable, is_zero}
use termux_stacks.Manifest.Order.Release.{Released, release-Released}

pub record Invariant (services : Services) (ready : BTreeSet Text) (incoming : BTreeMap Text ℕ)
    (order : List Text) : Type 0 where
  pub counts :
      (n : Text)
      → get n incoming
        ≡ (if contains n (keys services) then some (pending order (deps services n)) else none)
  pub waiting :
      (n : Text)
      → contains n ready
        ≡ (contains n (keys services) && not (contains n order) && is_zero (get n incoming))
  pub in_order : SetLaws.IsSorted ready
  pub keys_in_order : MapLaws.IsSorted incoming
  pub once : IsDistinct order
  pub only : (n : Text) → contains n order ≡ true → contains n (keys services) ≡ true
  pub settled :
      (n d : Text)
      → contains n order ≡ true
      → contains d (deps services n) ≡ true
      → contains d order ≡ true
  pub after : ComesAfterDeps services [] order
  pub sized : length order + pending order (keys services) ≡ length services

IsSorted-IsDistinct : (s : BTreeSet Text) → SetLaws.IsSorted s → IsDistinct s
IsSorted-IsDistinct [] h = tt
IsSorted-IsDistinct (x ∷ s) h = (SetLaws.not-contains_of_IsSorted x s h, IsSorted-IsDistinct s h.1)

keys-IsDistinct : (services : Services) → MapLaws.IsSorted services → IsDistinct (keys services)
unfolding keys
keys-IsDistinct [] h = tt
keys-IsDistinct ((n, s) ∷ rest) (b, h) =
    (not-contains-keys_of_IsBelow n rest b, keys-IsDistinct rest h)

IsDistinct-snoc :
    (xs : List Text) (n : Text) → IsDistinct xs → contains n xs ≡ false → IsDistinct (xs ++ n ∷ [])
IsDistinct-snoc [] n u h = (refl, tt)
IsDistinct-snoc (x ∷ xs) n (f, u) h = (
  ground (arith, contains-snoc x n xs, ==_iff x n, ==_iff n x),
  IsDistinct-snoc xs n u (ground arith),
)

ComesAfterDeps-snoc :
    (services : Services) (before xs : List Text) (n : Text)
    → ComesAfterDeps services before xs
    → ((d : Text) → contains d (deps services n) ≡ true → contains d (before ++ xs) ≡ true)
    → ComesAfterDeps services before (xs ++ n ∷ [])
ComesAfterDeps-snoc services before [] n h p =
    (λ d c. subst (λ l. contains d l ≡ true) (append-nil before) (p d c), tt)
ComesAfterDeps-snoc services before (x ∷ xs) n (q, h) p = (
  q,
  ComesAfterDeps-snoc services (before ++ x ∷ []) xs n h
      (λ d c. subst (λ l. contains d l ≡ true) (sym (append_assoc before (x ∷ []) xs)) (p d c)),
)

-- A step, for a service that is taken out of the ready set.
module _ (services : Services) (t : Table) (g : IsGraph services) (tab : IsTable services t)
    (name : Text) (ready : BTreeSet Text) (incoming : BTreeMap Text ℕ) (order : List Text)
    (inv : Invariant services (name ∷ ready) incoming order) where
  is_service : contains name (keys services) ≡ true
  is_service = ground (arith, inv.waiting name, ==_iff name name)

  not_placed : contains name order ≡ false
  not_placed = ground (arith, inv.waiting name, ==_iff name name)

  none_pending : pending order (deps services name) ≡ 0
  none_pending = ground (arith, inv.waiting name, ==_iff name name, inv.counts name)

  deps_placed : (d : Text) → contains d (deps services name) ≡ true → contains d order ≡ true
  deps_placed d c = pending-zero order (deps services name) d none_pending c

  module _ (ds : List Text) (found : get name t ≡ some ds) where
    waiting_for :
        (m : Text) → contains m ds ≡ (contains m (keys services) && contains name (deps services m))
    waiting_for m = ground (arith, tab.dependents name m is_service)

    counted :
        (d : Text)
        → contains d ds ≡ true
        → get d incoming ≡ some (suc (pending (order ++ name ∷ []) (deps services d)))
    counted d c = ground (
      arith,
      waiting_for d,
      inv.counts d,
      pending-snoc order name (deps services d) (g.distinct d) not_placed,
    )

    released : Released ds incoming ready
    released =
        release-Released ds incoming ready
          (IsSorted-IsDistinct ds (ground (arith, tab.in_order name))) inv.in_order.1
          (λ d c. (pending (order ++ name ∷ []) (deps services d), counted d c))

    counts' :
        (n : Text)
        → get n released.incoming' ≡ (
            if contains n (keys services)
            then some (pending (order ++ name ∷ []) (deps services n))
            else none)
    counts' n = ground (
      arith,
      released.counts n,
      waiting_for n,
      counted n,
      inv.counts n,
      pending-snoc_other order name (deps services n),
    )

    not_self : contains name ds ≡ false
    not_self = ground (arith, waiting_for name, deps_placed name, not_placed)

    waiting' :
        (n : Text)
        → contains n released.ready' ≡ (
            contains n (keys services)
            && not (contains n (order ++ name ∷ []))
            && is_zero (get n released.incoming'))
    waiting' n = elim (Bool-cases (n == name)) [
      | inl same ↦
          let e = (==_iff n name).0 same in
          ground (
            arith,
            released.freed n,
            contains-snoc n name order,
            not_self,
            SetLaws.not-contains_of_IsSorted name ready inv.in_order,
          )
      | inr other ↦ ground (
        arith,
        released.freed n,
        contains-snoc n name order,
        inv.waiting n,
        waiting_for n,
        counted n,
        counts' n,
        released.counts n,
        inv.settled n name,
        not_placed,
      )
    ]

    step : Invariant services released.ready' released.incoming' (order ++ name ∷ [])
    step = record {
      counts = counts';
      waiting = waiting';
      in_order = released.in_order;
      keys_in_order = released.keys_in_order inv.keys_in_order;
      once = IsDistinct-snoc order name inv.once not_placed;
      only =
          λ n c. ground (arith, contains-snoc n name order, inv.only n, ==_iff n name, is_service);
      settled = λ n d c e. ground (
        arith,
        contains-snoc n name order,
        contains-snoc d name order,
        inv.settled n d,
        ==_iff n name,
        deps_placed d,
      );
      after = ComesAfterDeps-snoc services [] order name inv.after deps_placed;
      sized = omega (
        arith,
        length-append order (name ∷ []),
        inv.sized,
        pending-snoc order name (keys services) (keys-IsDistinct services g.in_order) not_placed
            is_service,
      );
    }

-- A run of the loop: the order and the counts at its end, where nothing is ready.
pub record Drained (services : Services) (fuel : ℕ) (t : Table) (ready : BTreeSet Text)
    (incoming : BTreeMap Text ℕ) (order : List Text) : Type 0 where
  pub order' : List Text
  pub incoming' : BTreeMap Text ℕ
  pub result : drain fuel t ready incoming order ≡ ok (order', incoming')
  pub inv : Invariant services [] incoming' order'

drain-nil :
    (f : ℕ) (t : Table) (incoming : BTreeMap Text ℕ) (order : List Text)
    → drain (suc f) t [] incoming order ≡ ok (order, incoming)
unfolding drain
drain-nil f t incoming order = refl

drain-cons :
    (f : ℕ) (t : Table) (name : Text) (ready : BTreeSet Text) (incoming : BTreeMap Text ℕ)
    (order ds : List Text) (r : BTreeMap Text ℕ × BTreeSet Text)
    → get name t ≡ some ds
    → release ds incoming ready ≡ ok r
    → drain (suc f) t (name ∷ ready) incoming order ≡ drain f t r.1 r.0 (order ++ name ∷ [])
unfolding drain
drain-cons f t name ready incoming order ds r found freed = rw (found, drain, freed)

table_entry :
    (services : Services) (t : Table) (n : Text)
    → IsTable services t
    → contains n (keys services) ≡ true
    → (ds : List Text) × (get n t ≡ some ds)
table_entry services t n tab c = elim (Option-cases (get n t)) [
  | inl missing ↦ absurd (ground (arith, tab.entries n))
  | inr (ds, found) ↦ (ds, found)
]

-- Fuel for the services that are not placed, and one more, is enough.
pub drain-Drained :
    (services : Services) (t : Table) (g : IsGraph services) (tab : IsTable services t) (f : ℕ)
    (ready : BTreeSet Text) (incoming : BTreeMap Text ℕ) (order : List Text)
    → Invariant services ready incoming order
    → pending order (keys services) < f
    → Drained services f t ready incoming order
drain-Drained services t g tab zero ready incoming order inv h = elim h [ ]
drain-Drained services t g tab (suc f) [] incoming order inv h = record {
  order' = order;
  incoming' = incoming;
  result = drain-nil f t incoming order;
  inv = inv;
}
drain-Drained services t g tab (suc f) (name ∷ ready) incoming order inv h =
    let placed = is_service services t g tab name ready incoming order inv in
    let (ds, found) = table_entry services t name tab placed in
    let freed = released services t g tab name ready incoming order inv ds found in
    let next_inv = step services t g tab name ready incoming order inv ds found in
    let fewer =
      pending-snoc order name (keys services) (keys-IsDistinct services g.in_order)
        (not_placed services t g tab name ready incoming order inv) placed in
    let d =
      drain-Drained services t g tab f freed.ready' freed.incoming' (order ++ name ∷ []) next_inv
        (omega arith) in
    record {
      order' = d.order';
      incoming' = d.incoming';
      result =
          drain-cons f t name ready incoming order ds (freed.incoming', freed.ready') found
            freed.result
          ∙ d.result;
      inv = d.inv;
    }
