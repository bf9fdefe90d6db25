-- ===== src/Store/Prepared.antt =====
-- What an `up` prepares for a service (src/store.rs: the loop of `begin_up`).
use termux_stacks.Prelude.{ℕ, false, ◌+◌, ◌≤◌, ◌<◌, ◌≡◌, refl, Option, none, some, [], ◌∷◌, arith}
use termux_stacks.Prelude.Outcome.{done}
use termux_stacks.Ordered.Key.{Text, text_key, nat_key, pair_key, pair_cmp-eq_iff, ==_refl}
use termux_stacks.Ordered.Map
use termux_stacks.Ordered.Map.{BTreeMap, get}
use termux_stacks.Ordered.MapLaws.{get-insert}
use termux_stacks.Manifest.Types.{Manifest, Service}
use termux_stacks.Store.Tables.{
  Database, ServiceKey, GenerationRow, OperationService, RootfsState, Role,
}
use termux_stacks.Store.Kept.{RowKept, TableKept}
use termux_stacks.Store.View.{Kept, GenerationKept}
use termux_stacks.Store.Up.{ServicePlan, max_generation}
use termux_stacks.Store.Begin.{prepare_service}
use termux_stacks.Store.Keeps.Up.{retire_candidate-Keeps, place_service-Keeps}
use termux_stacks.Store.Post.{
  Post, done-Post, bind-Post, seq-Post, query-Post, expect-Post, Keeps-Post,
  insert_operation_service-Post, insert_generation-Post,
}

module _ (k : ServiceKey) where
  le_max_generation :
      (n : ℕ) (m : BTreeMap (ServiceKey × ℕ) GenerationRow) (g : GenerationRow)
      → get (k, n) m ≡ some g
      → n ≤ max_generation k m
  unfolding get max_generation
  le_max_generation n [] g e = ground arith
  le_max_generation n (((j, i), h) ∷ m) g e = grind (
    arith,
    le_max_generation n m g,
    pair_cmp-eq_iff (k, n) (j, i),
    pair_cmp-eq_iff j k,
    ==_refl k,
  )

-- A candidate of the service is in the tables: under a number that is above all those of the
-- service before, with the plan's alias and the manifest's image, and with its part of the
-- operation.
pub record IsPrepared (request stack name : Text) (service : Service) (plan : ServicePlan)
    (db after : Database) : Type 0 where
  pub number : ℕ
  pub row : GenerationRow
  pub part : OperationService
  pub fresh :
      (n : ℕ) (g : GenerationRow) → get ((stack, name), n) db.generations ≡ some g → n < number
  pub stored : get ((stack, name), number) after.generations ≡ some row
  pub alias : row.alias ≡ plan.alias
  pub image : row.image ≡ service.image
  pub state : row.state ≡ RootfsState.preparing
  pub role : row.role ≡ Role.candidate
  pub recorded : get (request, name) after.operation_services ≡ some part
  pub numbered : part.generation ≡ some number
  pub unended : part.outcome ≡ none

still_there :
    (before after : Option GenerationRow) (g : GenerationRow)
    → RowKept GenerationKept before after
    → before ≡ some g
    → (h : GenerationRow) × (after ≡ some h)
still_there none after g kept e = ground arith
still_there (some v) none g kept e = elim kept [ ]
still_there (some v) (some w) g kept e = (w, refl)

fresh_lem :
    (k : ServiceKey) (db mid : Database)
    → TableKept GenerationKept db.generations mid.generations
    → (n : ℕ) (g : GenerationRow) → get (k, n) db.generations ≡ some g
    → n < max_generation k mid.generations + 1
fresh_lem k db mid kept n g e =
    let (h, there) =
      still_there (get (k, n) db.generations) (get (k, n) mid.generations) g (kept (k, n)) e in
    omega (arith, le_max_generation k n mid.generations h there)

got_generation :
    (k : ServiceKey × ℕ) (v : GenerationRow) (db : Database)
    → get k (Map.insert k v db.generations) ≡ some v
got_generation k v db = rw (get-insert k k v db.generations, ==_refl k) refl

got_part :
    (k : Text × Text) (v : OperationService) (db : Database)
    → get k (Map.insert k v db.operation_services) ≡ some v
got_part k v db = rw (get-insert k k v db.operation_services, ==_refl k) refl

module _ (config_json : Service → Text) (request : Text) (manifest : Manifest)
    (plans : BTreeMap Text ServicePlan) (now ordinal : ℕ) (name : Text) where
  abbrev pub Prepared : Database → Database → Type 0
  Prepared db after =
      (service : Service) × (plan : ServicePlan) × (get name manifest.services ≡ some service)
      × (get name plans ≡ some plan)
      × IsPrepared request manifest.name name service plan db after

  prepare_service-Post :
      (db : Database)
      → Post
          (λ _ after. Prepared db after)
          (prepare_service config_json request manifest plans now ordinal name db)
  unfolding prepare_service
  prepare_service-Post db = bind-Post _ _ db (
      expect-Post _ _ db λ service declared. bind-Post _ _ db (
        expect-Post _ _ db λ plan planned. seq-Post _ _ db (
          Keeps-Post (Kept false) _ db (retire_candidate-Keeps (manifest.name, name) now)
            λ _ mid kept. bind-Post _ _ mid (
              query-Post _ mid (
                seq-Post _ _ mid (
                  Keeps-Post (Kept false) _ mid
                    (place_service-Keeps manifest.name name (config_json service) plan now)
                    λ _ placed kept'. seq-Post _ _ placed (
                      insert_generation-Post _ _ placed (
                        insert_operation_service-Post _ _ _ (
                          service,
                          plan,
                          declared,
                          planned,
                          (record {
                            number = max_generation (manifest.name, name) mid.generations + 1;
                            row = _;
                            part = _;
                            fresh = fresh_lem (manifest.name, name) db mid kept.generations;
                            stored = got_generation _ _ placed;
                            alias = refl;
                            image = refl;
                            state = refl;
                            role = refl;
                            recorded = got_part _ _ placed;
                            numbered = refl;
                            unended = refl;
                          }),
                        )))))))))

  -- Where an `up` gets past a service, the manifest declares it and a plan is there for it, and its
  -- candidate is in the tables: in preparation, under a number that is above all those that the
  -- service had, with the plan's alias and the manifest's image; and the part of the operation,
  -- which is open, names that number.
  pub prepare_service-IsPrepared :
      (db after : Database)
      → prepare_service config_json request manifest plans now ordinal name db ≡ done (tt, after)
      → Prepared db after
  prepare_service-IsPrepared db after ended =
      done-Post (λ _ end. Prepared db end) _ tt after (prepare_service-Post db) ended
