-- ===== src/Manifest/Order/Release.antt =====
-- The loop over the dependents of a placed service: each count falls by one, and those that reach
-- zero become ready.
use termux_stacks.Prelude.{
  ℕ, zero, suc, ◌≡◌, refl, ◌∙◌, Bool, true, false, ◌&&◌, ◌||◌, List, [], ◌∷◌, Option, some, arith,
  if◌then◌else◌,
}
use termux_stacks.Ordered.Key.{Text, text_key, ◌==◌, ==_iff, nat_key}
use termux_stacks.Ordered.Map
use termux_stacks.Ordered.Map.{BTreeMap, get}
use termux_stacks.Ordered.MapLaws
use termux_stacks.Ordered.MapLaws.{get-insert}
use termux_stacks.Ordered.Set
use termux_stacks.Ordered.Set.{BTreeSet, contains, contains-insert, IsDistinct}
use termux_stacks.Ordered.SetLaws
use termux_stacks.Manifest.Error.{ok}
use termux_stacks.Manifest.Order.{release}

abbrev pub lowered : Option ℕ → Option ℕ
lowered (some (suc k)) = some k
lowered other = other

abbrev pub is_one : Option ℕ → Bool
is_one (some (suc zero)) = true
is_one other = false

pub record Released (ds : List Text) (incoming : BTreeMap Text ℕ) (ready : BTreeSet Text)
    : Type 0 where
  pub incoming' : BTreeMap Text ℕ
  pub ready' : BTreeSet Text
  pub result : release ds incoming ready ≡ ok (incoming', ready')
  pub counts :
      (m : Text)
      → get m incoming' ≡ (if contains m ds then lowered (get m incoming) else get m incoming)
  pub freed :
      (m : Text)
      → contains m ready' ≡ (contains m ready || (contains m ds && is_one (get m incoming)))
  pub in_order : SetLaws.IsSorted ready'
  pub keys_in_order : MapLaws.IsSorted incoming → MapLaws.IsSorted incoming'

abbrev freed_set : ℕ → Text → BTreeSet Text → BTreeSet Text
freed_set k d ready = if k == 0 then Set.insert d ready else ready

freed_set-IsSorted :
    (k : ℕ) (d : Text) (ready : BTreeSet Text)
    → SetLaws.IsSorted ready
    → SetLaws.IsSorted (freed_set k d ready)
freed_set-IsSorted zero d ready h = SetLaws.insert-IsSorted d ready h
freed_set-IsSorted (suc k) d ready h = ground arith

contains-freed_set :
    (m d : Text) (k : ℕ) (ready : BTreeSet Text)
    → contains m (freed_set k d ready) ≡ (contains m ready || (m == d && k == 0))
contains-freed_set m d zero ready = ground (arith, contains-insert m d ready)
contains-freed_set m d (suc k) ready = ground arith

release-cons :
    (d : Text) (ds : List Text) (incoming : BTreeMap Text ℕ) (ready : BTreeSet Text) (k : ℕ)
    → get d incoming ≡ some (suc k)
    → release (d ∷ ds) incoming ready ≡ release ds (Map.insert d k incoming) (freed_set k d ready)
unfolding release
release-cons d ds incoming ready k held = rw (held, release)

release-nil :
    (incoming : BTreeMap Text ℕ) (ready : BTreeSet Text)
    → release [] incoming ready ≡ ok (incoming, ready)
unfolding release
release-nil incoming ready = refl

pub release-Released :
    (ds : List Text) (incoming : BTreeMap Text ℕ) (ready : BTreeSet Text)
    → IsDistinct ds
    → SetLaws.IsSorted ready
    → ((d : Text) → contains d ds ≡ true → (k : ℕ) × (get d incoming ≡ some (suc k)))
    → Released ds incoming ready
release-Released [] incoming ready u s h = record {
  incoming' = incoming;
  ready' = ready;
  result = release-nil incoming ready;
  counts = λ m. refl;
  freed = λ m. ground arith;
  in_order = s;
  keys_in_order = λ h. h;
}
release-Released (d ∷ ds) incoming ready (fresh, u) s h =
    let (k, held) = h d (ground (arith, ==_iff d d)) in
    let lower = Map.insert d k incoming in
    let r =
      release-Released ds lower (freed_set k d ready) u (freed_set-IsSorted k d ready s) (λ e c.
        let (j, has) = h e (ground arith) in
        (j, ground (arith, get-insert e d k incoming, ==_iff e d))) in
    record {
      incoming' = r.incoming';
      ready' = r.ready';
      result = release-cons d ds incoming ready k held ∙ r.result;
      counts = λ m. ground (arith, r.counts m, get-insert m d k incoming, ==_iff m d);
      freed = λ m.
          ground (
            arith,
            r.freed m,
            get-insert m d k incoming,
            contains-freed_set m d k ready,
            ==_iff m d,
          );
      in_order = r.in_order;
      keys_in_order = λ h. r.keys_in_order (MapLaws.insert-IsSorted d k incoming h);
    }
