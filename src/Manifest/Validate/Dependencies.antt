-- ===== src/Manifest/Validate/Dependencies.antt =====
-- The dependencies that a validated manifest holds (src/manifest.rs: `parse_dependencies` and the
-- check of `dependency_locations`): named once, recorded, and services of the manifest.
use termux_stacks.Prelude.{
  ℕ, ◌+◌, ◌≡◌, refl, Bool, true, false, not, ◌&&◌, ◌||◌, List, [], ◌∷◌, Option, none, some, arith,
}
use termux_stacks.Ordered.Key.{Text, text, text_key, pair_key, ◌==◌, ==_iff, pair_==_lem}
use termux_stacks.Ordered.Map
use termux_stacks.Ordered.Map.{BTreeMap, get, contains_key}
use termux_stacks.Ordered.MapLaws.{get-insert}
use termux_stacks.Ordered.Set
use termux_stacks.Ordered.Set.{BTreeSet, contains, contains-insert, IsDistinct}
use termux_stacks.Manifest.Error.{Location, FieldPath, member, item, ok, err, bind_ok, Error}
use termux_stacks.Manifest.Node.{Node, MappingEntry, location, into_string, into_sequence}
use termux_stacks.Manifest.Names.{validate_name}
use termux_stacks.Manifest.Service.{deny}
use termux_stacks.Manifest.Ports.{Locations, dependencies_from, parse_dependencies}
use termux_stacks.Manifest.Order.{Services}
use termux_stacks.Manifest.Validate.{check_dependencies}

pub deny-ok : (b : Bool) (e : Error) → deny b (err e) ≡ ok tt → b ≡ false
deny-ok b e h = ground arith

pub not-false : (b : Bool) → not b ≡ false → b ≡ true
not-false true h = refl
not-false false h = cc

-- The dependency is recorded for the service.
abbrev pub records : Locations → Text → Text → Bool
records locations name dependency = contains_key (name, dependency) locations

records-insert :
    (name d n e : Text) (l : Location) (locations : Locations)
    → records (Map.insert (name, d) l locations) n e
      ≡ ((n == name && e == d) || records locations n e)
unfolding contains_key
records-insert name d n e l locations =
    ground (arith, get-insert (n, e) (name, d) l locations, pair_==_lem (n, e) (name, d))

-- What `parse_dependencies` leaves behind for the service `name`.
pub record Recorded (name : Text) (before : Locations) (ds : List Text) (after : Locations)
    : Type 0 where
  pub kept : (n e : Text) → records before n e ≡ true → records after n e ≡ true
  pub added : (d : Text) → contains d ds ≡ true → records after name d ≡ true
  pub distinct : IsDistinct ds

dependencies_from-Recorded :
    (nodes : List Node) (index : ℕ) (name : Text) (path : FieldPath) (seen : BTreeSet Text)
    (before : Locations) (ds : List Text) (after : Locations)
    → dependencies_from nodes index name path seen before ≡ ok (ds, after)
    → Recorded name before ds after × ((d : Text) → contains d ds ≡ true → contains d seen ≡ false)
unfolding dependencies_from
dependencies_from-Recorded [] index name path seen before ds after h = (
  record { kept = λ n e r. ground arith; added = λ d c. ground arith; distinct = ground arith },
  λ d c. ground arith,
)
dependencies_from-Recorded (node ∷ nodes) index name path seen before ds after h =
    bind_ok (into_string node (item path index)) _ h λ d _ h1.
      bind_ok (validate_name d (item path index) (some (location node))) _ h1 λ _ _ h2.
        bind_ok (deny (contains d seen) _) _ h2 λ _ fresh h3.
          bind_ok (dependencies_from nodes (index + 1) name path _ _) _ h3 λ r e4 h4.
            let (rec, apart) =
              dependencies_from-Recorded nodes (index + 1) name path (Set.insert d seen)
                (Map.insert (name, d) (location node) before) r.0 r.1 e4 in
            let held = rec.kept name d (
              ground (
                arith,
                records-insert name d name d (location node) before,
                ==_iff name name,
                ==_iff d d,
              )) in
            let kept' = λ (n e : Text). records-insert name d n e (location node) before in
            (
              record {
                kept = λ n e q. ground (arith, kept' n e, rec.kept n e);
                added = λ e c. ground (arith, held, rec.added e, ==_iff e d);
                distinct =
                    ground (arith, rec.distinct, apart d, contains-insert d d seen, ==_iff d d);
              },
              λ e c. ground (
                arith,
                apart e,
                deny-ok (contains d seen) _ fresh,
                ==_iff e d,
                contains-insert e d seen,
              ),
            )

pub parse_dependencies-Recorded :
    (entry : Option MappingEntry) (name : Text) (path : FieldPath) (before : Locations)
    (ds : List Text) (after : Locations)
    → parse_dependencies entry name path before ≡ ok (ds, after)
    → Recorded name before ds after
unfolding parse_dependencies
parse_dependencies-Recorded none name path before ds after h = record {
  kept = λ n e r. ground arith;
  added = λ d c. ground arith;
  distinct = ground arith;
}
parse_dependencies-Recorded (some entry) name path before ds after h =
    bind_ok (into_sequence entry.value (member path (text "dependsOn"))) _ h λ nodes _ h1.
      (dependencies_from-Recorded nodes 0 name (member path (text "dependsOn")) [] before ds after
        h1).0

-- Every recorded dependency is a service, where the check passes.
pub check_dependencies-known :
    (locations : Locations) (services : Services) (n d : Text)
    → check_dependencies locations services ≡ ok tt
    → records locations n d ≡ true
    → contains_key d services ≡ true
unfolding check_dependencies contains_key get
check_dependencies-known [] services n d h r = ground arith
check_dependencies-known (((name, e), l) ∷ rest) services n d h r =
    bind_ok (deny (not (contains_key e services)) _) _ h λ _ passed h1. ground (
      arith,
      deny-ok (not (contains_key e services)) _ passed,
      check_dependencies-known rest services n d h1,
      pair_==_lem (n, d) (name, e),
      ==_iff d e,
    )
