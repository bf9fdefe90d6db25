-- ===== src/Store/View.antt =====
-- The committed view of the tables of src/store.rs, and how each statement changes it.
use termux_stacks.Prelude.{ℕ, ◌≤◌, ◌≡◌, refl, ◌∙◌, Bool, true, false, not, ◌||◌, arith}
use termux_stacks.Ordered.Key.{Text, text_key, nat_key, pair_key}
use termux_stacks.Ordered.Map.{BTreeMap}
use termux_stacks.Store.Tables.{
  Database, StackRow, ServiceRow, GenerationRow, Operation, OperationService, ServiceKey,
  is_backoff,
}
use termux_stacks.Store.Down.{is_proven_backoff}
use termux_stacks.Store.Effect.{IsFrame}
use termux_stacks.Store.Kept.{RowKept-map, TableKept, TableKept-refl, TableKept-trans, AllRows}

-- Where `may_commit` is false, the revision of a stack and its manifest stay; else the revision
-- does not fall.
abbrev pub StackKept : (may_commit : Bool) → StackRow → StackRow → Type 0
StackKept false v w =
    (v.committed_revision ≡ w.committed_revision)
    × (v.manifest ≡ w.manifest)
    × (v.manifest_base ≡ w.manifest_base)
StackKept true v w = v.committed_revision ≤ w.committed_revision

abbrev pub ServiceKept : (may_commit : Bool) → ServiceRow → ServiceRow → Type 0
ServiceKept false v w = (v.current ≡ w.current) × (v.config_json ≡ w.config_json)
ServiceKept true v w = Unit

abbrev pub GenerationKept : GenerationRow → GenerationRow → Type 0
GenerationKept v w = (v.alias ≡ w.alias) × (v.image ≡ w.image)

-- What `operation_replay` compares a repeated request with.
abbrev pub OperationKept : Operation → Operation → Type 0
OperationKept v w =
    (v.stack_name ≡ w.stack_name)
    × (v.operation ≡ w.operation)
    × (v.candidate_manifest ≡ w.candidate_manifest)
    × (v.manifest_base ≡ w.manifest_base)
    × (v.candidate_revision ≡ w.candidate_revision)
    × (v.target_service ≡ w.target_service)

-- An active service in backoff has its deadline recorded, and no session and no child.
abbrev pub backoff_is_proven : ServiceRow → Bool
backoff_is_proven v = not (is_backoff v.effect_phase) || not v.active || is_proven_backoff v

abbrev pub IsProven : ServiceRow → Type 0
IsProven v = backoff_is_proven v ≡ true

pub record Kept (may_commit : Bool) (db after : Database) : Type 0 where
  pub stacks : TableKept (StackKept may_commit) db.stacks after.stacks
  pub services : TableKept (ServiceKept may_commit) db.services after.services
  pub generations : TableKept GenerationKept db.generations after.generations
  pub operations : TableKept OperationKept db.operations after.operations
  pub proven : AllRows IsProven db.services → AllRows IsProven after.services

pub StackKept-refl : (c : Bool) (v : StackRow) → StackKept c v v
StackKept-refl true v = omega arith
StackKept-refl false v = (refl, refl, refl)

StackKept-trans :
    (c : Bool) (u v w : StackRow) → StackKept c u v → StackKept c v w → StackKept c u w
StackKept-trans true u v w p q = omega arith
StackKept-trans false u v w (a, b, d) (x, y, z) = (a ∙ x, b ∙ y, d ∙ z)

pub ServiceKept-refl : (c : Bool) (v : ServiceRow) → ServiceKept c v v
ServiceKept-refl true v = tt
ServiceKept-refl false v = (refl, refl)

ServiceKept-trans :
    (c : Bool) (u v w : ServiceRow) → ServiceKept c u v → ServiceKept c v w → ServiceKept c u w
ServiceKept-trans true u v w p q = tt
ServiceKept-trans false u v w (a, b) (x, y) = (a ∙ x, b ∙ y)

pub GenerationKept-refl : (v : GenerationRow) → GenerationKept v v
GenerationKept-refl v = (refl, refl)

GenerationKept-trans :
    (u v w : GenerationRow) → GenerationKept u v → GenerationKept v w → GenerationKept u w
GenerationKept-trans u v w (a, b) (x, y) = (a ∙ x, b ∙ y)

pub OperationKept-refl : (v : Operation) → OperationKept v v
OperationKept-refl v = (refl, refl, refl, refl, refl, refl)

OperationKept-trans :
    (u v w : Operation) → OperationKept u v → OperationKept v w → OperationKept u w
OperationKept-trans u v w (a1, a2, a3, a4, a5, a6) (b1, b2, b3, b4, b5, b6) =
    (a1 ∙ b1, a2 ∙ b2, a3 ∙ b3, a4 ∙ b4, a5 ∙ b5, a6 ∙ b6)

module _ {c : Bool} where
  pub Kept_refl : (db : Database) → Kept c db db
  Kept_refl db = record {
    stacks = TableKept-refl (StackKept c) (StackKept-refl c) db.stacks;
    services = TableKept-refl (ServiceKept c) (ServiceKept-refl c) db.services;
    generations = TableKept-refl GenerationKept GenerationKept-refl db.generations;
    operations = TableKept-refl OperationKept OperationKept-refl db.operations;
    proven = λ a. a;
  }

  pub Kept_trans : (a b d : Database) → Kept c a b → Kept c b d → Kept c a d
  Kept_trans a b d p q = record {
    stacks =
        TableKept-trans (StackKept c) (StackKept-trans c) a.stacks b.stacks d.stacks p.stacks
          q.stacks;
    services =
        TableKept-trans (ServiceKept c) (ServiceKept-trans c) a.services b.services d.services
          p.services q.services;
    generations =
        TableKept-trans GenerationKept GenerationKept-trans a.generations b.generations
          d.generations p.generations q.generations;
    operations =
        TableKept-trans OperationKept OperationKept-trans a.operations b.operations d.operations
          p.operations q.operations;
    proven = λ x. q.proven (p.proven x);
  }

  instance abbrev pub Kept_frame : IsFrame (Kept c)
  Kept_frame = record { stay = Kept_refl; join = Kept_trans }

-- A change of one table.
module _ (c : Bool) (db : Database) where
  pub with_stacks :
      (m : BTreeMap Text StackRow)
      → TableKept (StackKept c) db.stacks m
      → Kept c db (record db { stacks = m })
  with_stacks m t = record {
    stacks = t;
    services = TableKept-refl (ServiceKept c) (ServiceKept-refl c) db.services;
    generations = TableKept-refl GenerationKept GenerationKept-refl db.generations;
    operations = TableKept-refl OperationKept OperationKept-refl db.operations;
    proven = λ a. a;
  }

  pub with_services :
      (m : BTreeMap ServiceKey ServiceRow)
      → TableKept (ServiceKept c) db.services m
      → (AllRows IsProven db.services → AllRows IsProven m)
      → Kept c db (record db { services = m })
  with_services m t i = record {
    stacks = TableKept-refl (StackKept c) (StackKept-refl c) db.stacks;
    services = t;
    generations = TableKept-refl GenerationKept GenerationKept-refl db.generations;
    operations = TableKept-refl OperationKept OperationKept-refl db.operations;
    proven = i;
  }

  pub with_generations :
      (m : BTreeMap (ServiceKey × ℕ) GenerationRow)
      → TableKept GenerationKept db.generations m
      → Kept c db (record db { generations = m })
  with_generations m t = record {
    stacks = TableKept-refl (StackKept c) (StackKept-refl c) db.stacks;
    services = TableKept-refl (ServiceKept c) (ServiceKept-refl c) db.services;
    generations = t;
    operations = TableKept-refl OperationKept OperationKept-refl db.operations;
    proven = λ a. a;
  }

  pub with_operations :
      (m : BTreeMap Text Operation)
      → TableKept OperationKept db.operations m
      → Kept c db (record db { operations = m })
  with_operations m t = record {
    stacks = TableKept-refl (StackKept c) (StackKept-refl c) db.stacks;
    services = TableKept-refl (ServiceKept c) (ServiceKept-refl c) db.services;
    generations = TableKept-refl GenerationKept GenerationKept-refl db.generations;
    operations = t;
    proven = λ a. a;
  }

  pub with_operation_services :
      (m : BTreeMap (Text × Text) OperationService)
      → Kept c db (record db { operation_services = m })
  with_operation_services m = record {
    stacks = TableKept-refl (StackKept c) (StackKept-refl c) db.stacks;
    services = TableKept-refl (ServiceKept c) (ServiceKept-refl c) db.services;
    generations = TableKept-refl GenerationKept GenerationKept-refl db.generations;
    operations = TableKept-refl OperationKept OperationKept-refl db.operations;
    proven = λ a. a;
  }

StackKept-weaken : (v w : StackRow) → StackKept false v w → StackKept true v w
StackKept-weaken v w (same, _, _) = omega (arith, same)

-- What keeps the committed view raises no revision either.
pub Kept-weaken : (db after : Database) → Kept false db after → Kept true db after
Kept-weaken db after kept = record {
  stacks = λ k. RowKept-map StackKept-weaken _ _ (kept.stacks k);
  services = λ k. RowKept-map (λ v w _. tt) _ _ (kept.services k);
  generations = kept.generations;
  operations = kept.operations;
  proven = kept.proven;
}
