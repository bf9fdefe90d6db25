-- ===== src/Tests/OrderTests.antt =====
-- The theorems on the start order, at the sample.
use termux_stacks.Prelude.{List, [], ◌∷◌, reverse, ◌≡◌, refl}
use termux_stacks.Ordered.Key.{Text, text, text_key}
use termux_stacks.Manifest.Error.{ok}
use termux_stacks.Manifest.Order.{Sorting, topological_order, start_order, stop_order}
use termux_stacks.Manifest.Order.Spec.{IsStartOrder}
use termux_stacks.Manifest.Order.Theorems.{
  IsOutcome, topological_order-IsOutcome, ComesBeforeDeps, stop_order-ComesBeforeDeps,
}
use termux_stacks.Manifest.Cursor.Tree.{node_of}
use termux_stacks.Manifest.Validate.{validate}
use termux_stacks.Manifest.Validate.Theorems.{AreServices, validate-IsValid}
use termux_stacks.Tests.Sample.{sample_tree, sample, manifest_code}

accepted : validate (node_of sample_tree) ≡ ok sample
unfolding manifest_code
accepted = refl

sample_services : AreServices sample.volumes sample.services
sample_services = let v = validate-IsValid (node_of sample_tree) sample accepted in v.services

orders :
    (start_order sample ≡ ok (text "api" ∷ text "web" ∷ []))
    × (stop_order sample ≡ ok (text "web" ∷ text "api" ∷ []))
unfolding manifest_code
orders = (refl, refl)

topological_order-IsOutcome_example :
    (s : Sorting) × (topological_order sample.services ≡ ok s) × IsOutcome sample.services s
topological_order-IsOutcome_example =
    topological_order-IsOutcome sample.services sample_services.graph

stop_order-ComesBeforeDeps_example :
    (found : List Text) × (start_order sample ≡ ok found)
    × (stop_order sample ≡ ok (reverse found))
    × IsStartOrder sample.services found
    × ComesBeforeDeps sample.services (reverse found)
stop_order-ComesBeforeDeps_example =
    stop_order-ComesBeforeDeps sample sample_services.order sample_services.graph
      sample_services.startable
