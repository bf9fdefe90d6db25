-- ===== src/Manifest/Order/Spec.antt =====
-- What a start order is, without the algorithm.
use termux_stacks.Prelude.{◌≡◌, ◌≢◌, true, List, [], ◌∷◌, ◌++◌, Option, none, some}
use termux_stacks.Ordered.Key.{Text, text_key}
use termux_stacks.Ordered.Map.{get, keys}
use termux_stacks.Ordered.MapLaws
use termux_stacks.Ordered.Set.{contains, IsDistinct}
use termux_stacks.Manifest.Types.{Service}
use termux_stacks.Manifest.Order.{Services}

abbrev deps_in : Option Service → List Text
deps_in none = []
deps_in (some s) = s.depends_on

-- The dependencies of a service; a name that is no service has none.
abbrev pub deps : Services → Text → List Text
deps services name = deps_in (get name services)

-- The map holds each service once, and each service names its dependencies once, all services.
pub record IsGraph (services : Services) : Type 0 where
  pub in_order : MapLaws.IsSorted services
  pub distinct : (n : Text) → IsDistinct (deps services n)
  pub known : (n d : Text) → contains d (deps services n) ≡ true → contains d (keys services) ≡ true

-- Each name comes behind its dependencies, those in `before` counted in.
abbrev pub ComesAfterDeps : Services → List Text → List Text → Type 0
ComesAfterDeps services before [] = Unit
ComesAfterDeps services before (n ∷ ns) =
    ((d : Text) → contains d (deps services n) ≡ true → contains d before ≡ true)
    × ComesAfterDeps services (before ++ n ∷ []) ns

-- Every service once, each behind its dependencies.
pub record IsStartOrder (services : Services) (order : List Text) : Type 0 where
  pub once : IsDistinct order
  pub complete : (n : Text) → contains n order ≡ contains n (keys services)
  pub after : ComesAfterDeps services [] order

-- A set of services none of which can be the first of them to start.
pub record IsBlocked (services : Services) (names : List Text) : Type 0 where
  pub nonempty : names ≢ []
  pub services_only : (n : Text) → contains n names ≡ true → contains n (keys services) ≡ true
  pub waits :
      (n : Text)
      → contains n names ≡ true
      → (d : Text) × (contains d (deps services n) ≡ true) × (contains d names ≡ true)
