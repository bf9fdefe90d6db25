-- ===== src/Manifest/Validate/Gathering.antt =====
-- The services of a validated manifest (src/manifest.rs: `parse_service` and the loop of
-- `validate`): each is well formed, their ports are disjoint, their dependencies are recorded.
use termux_stacks.Prelude.{
  ℕ, ◌≡◌, refl, subst, true, false, [], ◌∷◌, some, arith, Bool-cases, inl, inr, All,
}
use termux_stacks.Ordered.Key.{Text, text, text_key, nat_key, ◌==◌, ==_iff}
use termux_stacks.Ordered.Map
use termux_stacks.Ordered.Map.{get, contains_key, keys}
use termux_stacks.Ordered.MapLaws
use termux_stacks.Ordered.MapLaws.{get-insert, contains-keys-insert}
use termux_stacks.Ordered.Set.{BTreeSet, contains, IsDistinct}
use termux_stacks.Manifest.Error.{FieldPath, field, member, ok, bind_ok}
use termux_stacks.Manifest.Types.{Service}
use termux_stacks.Manifest.Node.{Node, into_string, into_mapping}
use termux_stacks.Manifest.Names.{is_valid_name, validate_name, validate_name-ok}
use termux_stacks.Manifest.Fields.{Mapping, take_required, reject_unknown_fields}
use termux_stacks.Manifest.Service.{deny, parse_command, parse_environment, parse_mounts}
use termux_stacks.Manifest.Ports.{parse_ports, parse_dependencies, parse_restart}
use termux_stacks.Manifest.Order.{Services}
use termux_stacks.Manifest.Order.Spec.{deps}
use termux_stacks.Manifest.Validate.{
  service_fields, bad_image_text, Shared, parse_service, services_from,
}
use termux_stacks.Manifest.Validate.Dependencies.{records, Recorded, parse_dependencies-Recorded}
use termux_stacks.Manifest.Validate.Loopback.{numbers, IsLoopbackPort, Claimed, parse_ports-Claimed}
use termux_stacks.Manifest.Validate.Targets.{IsMount, IsApart, parse_mounts-ok}

-- What holds of a service by itself.
pub record IsService (volumes : BTreeSet Text) (name : Text) (s : Service) : Type 0 where
  pub named : s.name ≡ name
  pub mounts : All (IsMount volumes) s.mounts
  pub apart : IsApart [] s.mounts
  pub loopback : All IsLoopbackPort s.ports
  pub ports_once : IsDistinct (numbers s.ports)
  pub depends_once : IsDistinct s.depends_on

-- What a service leaves behind for the next ones.
pub record Parsed (volumes : BTreeSet Text) (name : Text) (before : Shared) (s : Service)
    (after : Shared) : Type 0 where
  pub own : IsService volumes name s
  pub claims : Claimed before.claimed s.ports after.claimed
  pub locations : Recorded name before.locations s.depends_on after.locations

pub parse_service-Parsed :
    (name : Text) (node : Node) (path : FieldPath) (volumes : BTreeSet Text) (before : Shared)
    (s : Service) (after : Shared)
    → parse_service name node path volumes before ≡ ok (s, after)
    → Parsed volumes name before s after
unfolding parse_service
parse_service-Parsed name node path volumes before s after h =
    bind_ok (into_mapping node path) _ h λ fields _ h1.
      bind_ok (reject_unknown_fields fields path service_fields) _ h1 λ _ _ h2.
        bind_ok (take_required fields (text "image") _) _ h2 λ a _ h3.
          bind_ok (into_string a.0 _) _ h3 λ image _ h4.
            bind_ok (deny (bad_image_text image) _) _ h4 λ _ _ h5.
              bind_ok (parse_command (get (text "command") a.1) path) _ h5 λ command _ h6.
                bind_ok (parse_environment (get (text "environment") a.1) path) _ h6
                  λ environment _ h7.
                    bind_ok (parse_mounts (get (text "mounts") a.1) path volumes) _ h7
                      λ mounts mounted h8.
                        bind_ok (parse_ports (get (text "ports") a.1) path before.claimed) _ h8
                          λ p claimed h9.
                            bind_ok
                              (parse_dependencies (get (text "dependsOn") a.1) name path
                                before.locations)
                              _ h9
                              λ d depends h10.
                                bind_ok (parse_restart (get (text "restart") a.1) path) _ h10
                                  λ restart _ h11.
                                    let (all_mounts, apart) =
                                      parse_mounts-ok _ path volumes mounts mounted in
                                    let c =
                                      parse_ports-Claimed _ path before.claimed p.0 p.1 claimed in
                                    let r =
                                      parse_dependencies-Recorded _ name path before.locations d.0
                                        d.1 depends in
                                    let s' : Service = record {
                                      name = name;
                                      image = image;
                                      command = command;
                                      environment = environment;
                                      mounts = mounts;
                                      ports = p.0;
                                      depends_on = d.0;
                                      restart = restart;
                                    } in
                                    let after' : Shared = record {
                                      locations = d.1;
                                      claimed = p.1;
                                    } in
                                    subst
                                      (λ (q : Service × Shared). Parsed volumes name before q.0 q.1)
                                      (result-eq (s', after') (s, after) h11)
                                      (record {
                                        own = record {
                                          named = refl;
                                          mounts = all_mounts;
                                          apart = apart;
                                          loopback = c.loopback;
                                          ports_once = c.distinct;
                                          depends_once = r.distinct;
                                        };
                                        claims = c;
                                        locations = r;
                                      })
  where
    result-eq : (q r : Service × Shared) → ok q ≡ ok r → q ≡ r
    result-eq q r h = cc

-- The services read so far, with what they share.
pub record Gathered (volumes : BTreeSet Text) (services : Services) (shared : Shared) : Type 0 where
  pub in_order : MapLaws.IsSorted services
  pub valid_names : (n : Text) → contains n (keys services) ≡ true → is_valid_name n ≡ true
  pub each : (n : Text) (s : Service) → get n services ≡ some s → IsService volumes n s
  pub claimed :
      (n : Text) (s : Service) (p : ℕ)
      → get n services ≡ some s
      → contains p (numbers s.ports) ≡ true
      → contains_key p shared.claimed ≡ true
  pub disjoint :
      (n m : Text) (s t : Service) (p : ℕ)
      → get n services ≡ some s
      → get m services ≡ some t
      → (n == m) ≡ false
      → contains p (numbers s.ports) ≡ true
      → contains p (numbers t.ports) ≡ false
  pub recorded :
      (n d : Text) → contains d (deps services n) ≡ true → records shared.locations n d ≡ true

pub Gathered-empty : (volumes : BTreeSet Text) (shared : Shared) → Gathered volumes [] shared
unfolding get keys
Gathered-empty volumes shared = record {
  in_order = tt;
  valid_names = λ n c. ground arith;
  each = λ n s h. absurd (cc);
  claimed = λ n s p h c. ground arith;
  disjoint = λ n m s t p h k ne c. ground arith;
  recorded = λ n d c. ground arith;
}

Gathered-insert :
    (volumes : BTreeSet Text) (services : Services) (before after : Shared) (name : Text)
    (s : Service)
    → is_valid_name name ≡ true
    → Gathered volumes services before
    → Parsed volumes name before s after
    → Gathered volumes (Map.insert name s services) after
Gathered-insert volumes services before after name s valid g p = record {
  in_order = MapLaws.insert-IsSorted name s services g.in_order;
  valid_names =
      λ n c. ground (arith, contains-keys-insert n name s services, g.valid_names n, ==_iff n name);
  each = λ n t h. elim (Bool-cases (n == name)) [
    | inl same ↦
        let is_s : s ≡ t = ground (arith, get-insert n name s services) in
        subst (IsService volumes n) is_s
          (subst (λ k. IsService volumes k s) (ground (arith, ==_iff n name)) p.own)
    | inr other ↦ g.each n t (ground (arith, get-insert n name s services))
  ];
  claimed = λ n t k h c.
      ground
        (arith, get-insert n name s services, g.claimed n t k, p.claims.kept k, p.claims.added k);
  disjoint = λ n m t u k h j ne c. elim (Bool-cases (n == name)) [
    | inl same ↦ ground (
      arith,
      get-insert n name s services,
      get-insert m name s services,
      g.claimed m u k,
      p.claims.fresh k,
      ==_iff n name,
      ==_iff m name,
      ==_iff n m,
    )
    | inr other ↦ ground (
      arith,
      get-insert n name s services,
      get-insert m name s services,
      g.claimed n t k,
      g.disjoint n m t u k,
      p.claims.fresh k,
    )
  ];
  recorded = λ n d c. ground (
    arith,
    get-insert n name s services,
    ==_iff n name,
    g.recorded n d,
    p.locations.kept n d,
    p.locations.added d,
  );
}

pub services_from-Gathered :
    (entries : Mapping) (volumes : BTreeSet Text) (services : Services) (before : Shared)
    (services' : Services) (after : Shared)
    → Gathered volumes services before
    → services_from entries volumes services before ≡ ok (services', after)
    → Gathered volumes services' after
unfolding services_from
services_from-Gathered [] volumes services before services' after g h =
    subst (λ (q : Services × Shared). Gathered volumes q.0 q.1)
      (result-eq (services, before) (services', after) h) g
  where
    result-eq : (q r : Services × Shared) → ok q ≡ ok r → q ≡ r
    result-eq q r h = cc
services_from-Gathered ((name, entry) ∷ entries) volumes services before services' after g h =
    bind_ok (validate_name name (field (text "service name")) (some entry.key_location)) _ h
      λ _ named h1.
        bind_ok
          (parse_service name entry.value (member (field (text "services")) name) volumes before) _
          h1
          λ r parsed h2.
            services_from-Gathered entries volumes (Map.insert name r.0 services) r.1 services'
              after
              (Gathered-insert volumes services before r.1 name r.0
                (validate_name-ok name _ _ named) g
                (parse_service-Parsed name entry.value _ volumes before r.0 r.1 parsed))
              h2
