-- ===== src/Store/Statements.antt =====
-- What the statements of src/store.rs keep of the committed view.
use termux_stacks.Prelude.{ℕ, ◌≡◌, refl, Bool, true, false, ◌||◌}
use termux_stacks.Ordered.Key.{Text, text_key, nat_key, pair_key}
use termux_stacks.Store.Tables.{
  StackRow, ServiceRow, GenerationRow, Operation, OperationService, ServiceKey,
}
use termux_stacks.Store.Sql.{
  update_stack, update_service, update_services, update_generation, update_generations,
  update_operation, update_operation_service, update_operation_services, insert_stack,
  insert_service, insert_generation, insert_operation, insert_operation_service, check_roles,
}
use termux_stacks.Store.Effect.{Keeps, unless-Keeps}
use termux_stacks.Store.Kept.{
  insert_new-TableKept, insert-AllRows, update_where-TableKept, update_where-AllRows,
  update_row-TableKept, update_row-AllRows,
}
use termux_stacks.Store.View.{
  StackKept, ServiceKept, GenerationKept, OperationKept, IsProven, Kept, Kept_refl, Kept_frame,
  StackKept-refl, ServiceKept-refl, GenerationKept-refl, OperationKept-refl, with_stacks,
  with_services, with_generations, with_operations, with_operation_services,
}

first_false : (a b : Bool) → (a || b) ≡ false → a ≡ false
first_false true b e = e
first_false false b e = refl

module _ {c : Bool} where
  pub update_stack-Keeps :
      (k : Text) (guard : StackRow → Bool) (f : StackRow → StackRow)
      → ((v : StackRow) → guard v ≡ true → StackKept c v (f v))
      → Keeps (Kept c) (update_stack k guard f)
  unfolding update_stack
  update_stack-Keeps k guard f h = record {
    run = λ db.
        with_stacks c db _
          (update_row-TableKept (StackKept c) (StackKept-refl c) k guard f h db.stacks);
  }

  pub update_service-Keeps :
      (k : ServiceKey) (guard : ServiceRow → Bool) (f : ServiceRow → ServiceRow)
      → ((v : ServiceRow) → guard v ≡ true → ServiceKept c v (f v))
      → ((v : ServiceRow) → guard v ≡ true → IsProven v → IsProven (f v))
      → Keeps (Kept c) (update_service k guard f)
  unfolding update_service
  update_service-Keeps k guard f h i = record {
    run = λ db.
        with_services c db _
          (update_row-TableKept (ServiceKept c) (ServiceKept-refl c) k guard f h db.services)
          (update_row-AllRows IsProven k guard f db.services λ v _ g p. i v g p);
  }

  pub update_services-Keeps :
      (p : ServiceKey → ServiceRow → Bool) (f : ServiceRow → ServiceRow)
      → ((v : ServiceRow) → ServiceKept c v (f v))
      → ((v : ServiceRow) → IsProven v → IsProven (f v))
      → Keeps (Kept c) (update_services p f)
  unfolding update_services
  update_services-Keeps p f h i = record {
    run = λ db.
        with_services c db _
          (update_where-TableKept (ServiceKept c) (ServiceKept-refl c) p f h db.services)
          (update_where-AllRows IsProven p f i db.services);
  }

  pub update_generation-Keeps :
      (k : ServiceKey × ℕ) (guard : GenerationRow → Bool) (f : GenerationRow → GenerationRow)
      → ((v : GenerationRow) → guard v ≡ true → GenerationKept v (f v))
      → Keeps (Kept c) (update_generation k guard f)
  unfolding update_generation
  update_generation-Keeps k guard f h = record {
    run = λ db.
        with_generations c db _
          (update_row-TableKept GenerationKept GenerationKept-refl k guard f h db.generations);
  }

  pub update_generations-Keeps :
      (p : ServiceKey × ℕ → GenerationRow → Bool) (f : GenerationRow → GenerationRow)
      → ((v : GenerationRow) → GenerationKept v (f v))
      → Keeps (Kept c) (update_generations p f)
  unfolding update_generations
  update_generations-Keeps p f h = record {
    run = λ db.
        with_generations c db _
          (update_where-TableKept GenerationKept GenerationKept-refl p f h db.generations);
  }

  pub update_operation-Keeps :
      (k : Text) (guard : Operation → Bool) (f : Operation → Operation)
      → ((v : Operation) → guard v ≡ true → OperationKept v (f v))
      → Keeps (Kept c) (update_operation k guard f)
  unfolding update_operation
  update_operation-Keeps k guard f h = record {
    run = λ db.
        with_operations c db _
          (update_row-TableKept OperationKept OperationKept-refl k guard f h db.operations);
  }

  pub update_operation_service-Keeps :
      (k : Text × Text) (guard : OperationService → Bool) (f : OperationService → OperationService)
      → Keeps (Kept c) (update_operation_service k guard f)
  unfolding update_operation_service
  update_operation_service-Keeps k guard f = record { run = λ db. with_operation_services c db _ }

  pub update_operation_services-Keeps :
      (p : Text × Text → OperationService → Bool) (f : OperationService → OperationService)
      → Keeps (Kept c) (update_operation_services p f)
  unfolding update_operation_services
  update_operation_services-Keeps p f = record { run = λ db. with_operation_services c db _ }

  pub check_roles-Keeps : (k : ServiceKey) → Keeps (Kept c) (check_roles k)
  unfolding check_roles
  check_roles-Keeps k = unless-Keeps _ _ λ db e. Kept_refl db

  pub insert_stack-Keeps : (k : Text) (v : StackRow) → Keeps (Kept c) (insert_stack k v)
  unfolding insert_stack
  insert_stack-Keeps k v = unless-Keeps _ _ λ db e.
      with_stacks c db _ (insert_new-TableKept (StackKept c) (StackKept-refl c) k v db.stacks e)

  pub insert_service-Keeps :
      (k : ServiceKey) (v : ServiceRow) → IsProven v → Keeps (Kept c) (insert_service k v)
  unfolding insert_service
  insert_service-Keeps k v i = unless-Keeps _ _ λ db e.
      with_services c db _
        (insert_new-TableKept (ServiceKept c) (ServiceKept-refl c) k v db.services
          (first_false _ _ e))
        (insert-AllRows IsProven k v db.services i)

  pub insert_generation-Keeps :
      (k : ServiceKey × ℕ) (v : GenerationRow) → Keeps (Kept c) (insert_generation k v)
  unfolding insert_generation
  insert_generation-Keeps k v = unless-Keeps _ _ λ db e. with_generations c db _ (
      insert_new-TableKept GenerationKept GenerationKept-refl k v db.generations
        (first_false _ _ (first_false _ _ e)))

  pub insert_operation-Keeps : (k : Text) (v : Operation) → Keeps (Kept c) (insert_operation k v)
  unfolding insert_operation
  insert_operation-Keeps k v = unless-Keeps _ _ λ db e. with_operations c db _ (
      insert_new-TableKept OperationKept OperationKept-refl k v db.operations
        (first_false _ _ (first_false _ _ e)))

  pub insert_operation_service-Keeps :
      (k : Text × Text) (v : OperationService) → Keeps (Kept c) (insert_operation_service k v)
  unfolding insert_operation_service
  insert_operation_service-Keeps k v = unless-Keeps _ _ λ db e. with_operation_services c db _
