-- ===== src/Manifest/Validate/Theorems.antt =====
-- What holds of every manifest that validation accepts (src/manifest.rs: `validate`).
use termux_stacks.Prelude.{
  ℕ, ◌≡◌, refl, subst, true, false, not, List, [], ◌∷◌, Option, none, some, arith, Option-cases,
  inl, inr, is_empty,
}
use termux_stacks.Ordered.Key.{Text, text, text_key, nat_key, ◌==◌, ==_iff}
use termux_stacks.Ordered.Map
use termux_stacks.Ordered.Map.{get, contains_key, keys}
use termux_stacks.Ordered.MapLaws.{contains_key-keys}
use termux_stacks.Ordered.Set
use termux_stacks.Ordered.Set.{BTreeSet, contains, contains-insert, IsDistinct}
use termux_stacks.Manifest.Error.{Location, field, member, ok, bind_ok}
use termux_stacks.Manifest.Types.{Service, Manifest}
use termux_stacks.Manifest.Node.{Node, MappingEntry, location, into_string, into_mapping}
use termux_stacks.Manifest.Names.{is_valid_name, validate_name, validate_name-ok}
use termux_stacks.Manifest.Names.Laws.{IsName, is_valid_name_iff}
use termux_stacks.Manifest.Fields.{Mapping, take_required, reject_unknown_fields}
use termux_stacks.Manifest.Service.{deny}
use termux_stacks.Manifest.Order.{Services, Sorting, sorted, cyclic, topological_order}
use termux_stacks.Manifest.Order.Spec.{IsGraph, IsStartOrder}
use termux_stacks.Manifest.Order.Theorems.{IsOutcome, topological_order-IsOutcome}
use termux_stacks.Manifest.Validate.{
  Shared, services_from, check_dependencies, reject_cycle, build_services, volumes_from,
  parse_volumes, validate, top_fields,
}
use termux_stacks.Manifest.Validate.Dependencies.{check_dependencies-known}
use termux_stacks.Manifest.Validate.Loopback.{numbers}
use termux_stacks.Manifest.Validate.Gathering.{
  IsService, Gathered, Gathered-empty, services_from-Gathered,
}

-- The services form a graph that can be started, each is well formed under a valid name, and no
-- two of them claim one port.
pub record AreServices (volumes : BTreeSet Text) (services : Services) : Type 0 where
  pub graph : IsGraph services
  pub order : List Text
  pub startable : IsStartOrder services order
  pub names : (n : Text) → contains n (keys services) ≡ true → IsName n
  pub each : (n : Text) (s : Service) → get n services ≡ some s → IsService volumes n s
  pub disjoint :
      (n m : Text) (s t : Service) (p : ℕ)
      → get n services ≡ some s
      → get m services ≡ some t
      → (n == m) ≡ false
      → contains p (numbers s.ports) ≡ true
      → contains p (numbers t.ports) ≡ false

abbrev pub no_sharing : Shared
no_sharing = record { locations = []; claimed = [] }

pub Gathered-IsGraph :
    (volumes : BTreeSet Text) (services : Services) (shared : Shared)
    → Gathered volumes services shared
    → check_dependencies shared.locations services ≡ ok tt
    → IsGraph services
Gathered-IsGraph volumes services shared g checked = record {
  in_order = g.in_order;
  distinct = λ n. elim (Option-cases (get n services)) [
    | inl missing ↦ ground (arith, missing)
    | inr (s, found) ↦ let own = g.each n s found in ground (arith, own.depends_once)
  ];
  known = λ n d c. ground (
    arith,
    check_dependencies-known shared.locations services n d checked (g.recorded n d c),
    contains_key-keys d services,
  );
}

reject_cycle-ok :
    (s : Sorting) (l : Location) → reject_cycle s l ≡ ok tt → (o : List Text) × (s ≡ sorted o)
reject_cycle-ok (sorted o) l h = (o, refl)
reject_cycle-ok (cyclic names) l h = cc

build_services-AreServices :
    (node : Node) (volumes : BTreeSet Text) (services : Services)
    → build_services node volumes ≡ ok services
    → AreServices volumes services
unfolding build_services
build_services-AreServices node volumes services h =
    bind_ok (into_mapping node (field (text "services"))) _ h λ entries _ h1.
      bind_ok (deny (is_empty entries) _) _ h1 λ _ _ h2.
        bind_ok (services_from entries volumes [] no_sharing) _ h2 λ r read h3.
          bind_ok (check_dependencies r.1.locations r.0) _ h3 λ _ checked h4.
            bind_ok (topological_order r.0) _ h4 λ s sorting h5.
              bind_ok (reject_cycle s (location node)) _ h5 λ _ acyclic h6.
                let g =
                  services_from-Gathered entries volumes [] no_sharing r.0 r.1
                    (Gathered-empty volumes no_sharing) read in
                let graph = Gathered-IsGraph volumes r.0 r.1 g checked in
                let (o, is_sorted) = reject_cycle-ok s (location node) acyclic in
                let (s', result, outcome) = topological_order-IsOutcome r.0 graph in
                let same : s' ≡ sorted o = cc in
                subst (AreServices volumes) (result-eq r.0 services h6) (record {
                  graph = graph;
                  order = o;
                  startable = subst (IsOutcome r.0) same outcome;
                  names = λ n c. (is_valid_name_iff n).0 (g.valid_names n c);
                  each = g.each;
                  disjoint = g.disjoint;
                })
  where
    result-eq : (q r : Services) → ok q ≡ ok r → q ≡ r
    result-eq q r h = cc

volumes_from-names :
    (entries : Mapping) (volumes volumes' : BTreeSet Text)
    → ((v : Text) → contains v volumes ≡ true → is_valid_name v ≡ true)
    → volumes_from entries volumes ≡ ok volumes'
    → (v : Text) → contains v volumes' ≡ true
    → is_valid_name v ≡ true
unfolding volumes_from
volumes_from-names [] volumes volumes' good h v c = ground (arith, good v)
volumes_from-names ((name, declaration) ∷ entries) volumes volumes' good h v c =
    bind_ok (validate_name name (field (text "volume name")) (some declaration.key_location)) _ h
      λ _ named h1.
        bind_ok (into_mapping declaration.value (member (field (text "volumes")) name)) _ h1
          λ options _ h2. bind_ok (reject_unknown_fields options _ []) _ h2 λ _ _ h3.
            volumes_from-names entries (Set.insert name volumes) volumes'
              (λ w d. ground (
                arith,
                contains-insert w name volumes,
                good w,
                validate_name-ok name _ _ named,
                ==_iff w name,
              ))
              h3 v c

parse_volumes-names :
    (entry : Option MappingEntry) (volumes : BTreeSet Text)
    → parse_volumes entry ≡ ok volumes
    → (v : Text) → contains v volumes ≡ true
    → is_valid_name v ≡ true
unfolding parse_volumes
parse_volumes-names none volumes h v c = ground arith
parse_volumes-names (some entry) volumes h v c =
    bind_ok (into_mapping entry.value (field (text "volumes"))) _ h
      λ entries _ h1. volumes_from-names entries [] volumes (λ w d. ground arith) h1 v c

pub record IsValid (m : Manifest) : Type 0 where
  pub stack_name : IsName m.name
  pub volume_names : (v : Text) → contains v m.volumes ≡ true → IsName v
  pub services : AreServices m.volumes m.services

-- A manifest that validation accepts is valid: its name and those of its volumes and services
-- have the documented form; each service is at its own name, its mounts are normalized, pairwise
-- apart and on declared volumes, its ports are loopback ports in range, held once and by no other
-- service; its dependencies are services, named once, and the services can be started in an order
-- that has each behind its dependencies.
pub validate-IsValid : (root : Node) (m : Manifest) → validate root ≡ ok m → IsValid m
unfolding validate
validate-IsValid root m h = bind_ok (into_mapping root (field (text "manifest"))) _ h λ top _ h1.
    bind_ok (reject_unknown_fields top _ top_fields) _ h1 λ _ _ h2.
      bind_ok (take_required top (text "apiVersion") _) _ h2 λ a _ h3.
        bind_ok (into_string a.0 _) _ h3 λ api _ h4.
          bind_ok (deny (not (api == text "termux-stacks/v1alpha1")) _) _ h4 λ _ _ h5.
            bind_ok (take_required a.1 (text "kind") _) _ h5 λ b _ h6.
              bind_ok (into_string b.0 _) _ h6 λ kind _ h7.
                bind_ok (deny (not (kind == text "Stack")) _) _ h7 λ _ _ h8.
                  bind_ok (take_required b.1 (text "metadata") _) _ h8 λ c _ h9.
                    bind_ok (into_mapping c.0 _) _ h9 λ metadata _ h10.
                      bind_ok (reject_unknown_fields metadata _ (text "name" ∷ [])) _ h10 λ _ _ h11.
                        bind_ok (take_required metadata (text "name") _) _ h11 λ d _ h12.
                          bind_ok (into_string d.0 _) _ h12 λ name _ h13.
                            bind_ok
                              (validate_name name (member (field (text "metadata")) (text "name"))
                                (some (location d.0)))
                              _ h13
                              λ _ named h14.
                                bind_ok (parse_volumes (get (text "volumes") c.1)) _ h14
                                  λ volumes declared h15.
                                    bind_ok
                                      (take_required (Map.remove (text "volumes") c.1)
                                        (text "services") _)
                                      _ h15
                                      λ e _ h16.
                                        bind_ok (build_services e.0 volumes) _ h16
                                          λ services built h17.
                                            subst IsValid (result-eq _ m h17) (record {
                                              stack_name =
                                                  (is_valid_name_iff name).0
                                                    (validate_name-ok name _ _ named);
                                              volume_names = λ v k.
                                                  (is_valid_name_iff v).0
                                                    (parse_volumes-names _ volumes declared v k);
                                              services =
                                                  build_services-AreServices e.0 volumes services
                                                    built;
                                            })
  where
    result-eq : (q r : Manifest) → ok q ≡ ok r → q ≡ r
    result-eq q r h = cc
