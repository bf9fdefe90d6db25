-- ===== src/Runtime/Rows.antt =====
-- The rows behind what the runtime reads of a stack (src/store.rs: `existing_stack`).
use termux_stacks.Prelude.{
  ◌≡◌, refl, ap, sym, subst, ◌∙◌, true, ◌⊎◌, inl, inr, List, [], ◌∷◌, Option, none, some,
  Bool-cases, arith,
}
use termux_stacks.Ordered.Key.{Text, text_key, pair_key, ◌==◌, ==_iff, ==_refl}
use termux_stacks.Ordered.Map.{BTreeMap, get}
use termux_stacks.Store.Tables.{Database, ServiceRow, ServiceKey, StackRow}
use termux_stacks.Store.Sql.{select}
use termux_stacks.Store.Rows.{is_of}
use termux_stacks.Store.Views.{
  ExistingService, ExistingStack, existing, existing_of, existing_services, existing_stack,
}
use termux_stacks.Runtime.Restarts.{find_service}
use termux_stacks.Runtime.Schedule.{IsRow, here, there}

IsRow-cons :
    (k j : ServiceKey) (v w : ServiceRow) (m : BTreeMap ServiceKey ServiceRow)
    → IsRow k v ((j, w) ∷ m)
    → ((j ≡ k) × (w ≡ v) × (v.active ≡ true)) ⊎ IsRow k v m
IsRow-cons k j v w m (here a) = inl (refl, refl, a)
IsRow-cons k j v w m (there r) = inr r

IsRow-first :
    (k j : ServiceKey) (v w : ServiceRow) (m : BTreeMap ServiceKey ServiceRow)
    → j ≡ k
    → w ≡ v
    → v.active ≡ true
    → IsRow k v ((j, w) ∷ m)
IsRow-first k j v w m e h a = rw (e, h) (here a)

abbrev AreRows : ServiceKey → BTreeMap ServiceKey ServiceRow → Option ExistingService → Type 0
AreRows k m none = (v : ServiceRow) → IsRow k v m → ⊥
AreRows k m (some s) = IsRow k s.row m

AreRows-skip :
    (k j : ServiceKey) (w : ServiceRow) (m : BTreeMap ServiceKey ServiceRow)
    (found : Option ExistingService)
    → (j ≡ k → w.active ≡ true → ⊥)
    → AreRows k m found
    → AreRows k ((j, w) ∷ m) found
AreRows-skip k j w m none other h = λ v r. elim (IsRow-cons k j v w m r) [
  | inl (e, same, a) ↦ other e (ap (λ u. u.active) same ∙ a)
  | inr r ↦ h v r
]
AreRows-skip k j w m (some s) other h = there h

find_service-AreRows :
    (stack service : Text) (f : ServiceKey → ServiceRow → ExistingService)
    → ((k : ServiceKey) (v : ServiceRow) → ((f k v).name ≡ k.1) × ((f k v).row ≡ v))
    → (m : BTreeMap ServiceKey ServiceRow)
    → AreRows (stack, service) m (find_service service (select (is_of stack) f m))
unfolding select
find_service-AreRows stack service f h [] = λ v r. elim r [ ]
find_service-AreRows stack service f h ((k, w) ∷ m) =
    let rest = find_service-AreRows stack service f h m in
    elim (Bool-cases (is_of stack k w)) [
      | inl e ↦ elim (Bool-cases ((f k w).name == service)) [
        | inl n ↦
            rw (e, n)
              (IsRow-first (stack, service) k (f k w).row w m
                (grind
                  (arith, ==_iff k.0 stack, ==_iff (f k w).name service, ==_iff k.1 service, h k w))
                (sym (h k w).1) (grind (arith, h k w)))
        | inr n ↦
            rw (e, n)
              (AreRows-skip (stack, service) k w m _
                (λ o a. grind (
                  arith,
                  ==_refl k.1,
                  ==_refl service,
                  ==_iff k.0 stack,
                  ==_iff (f k w).name service,
                  ==_iff k.1 service,
                  h k w,
                ))
                rest)
      ]
      | inr e ↦ rw e (
          AreRows-skip (stack, service) k w m _
            (λ o a. grind (arith, ==_iff k.0 stack, ap (λ u. u.0) o)) rest)
    ]

existing_of_lem :
    (found : Option StackRow) (services : List ExistingService) (e : ExistingStack)
    → existing_of found services ≡ some e
    → (row : StackRow) × (found ≡ some row) × (e ≡ existing row services)
existing_of_lem none services e h = ground arith
existing_of_lem (some row) services e h = (row, refl, ground arith)

no_existing_lem :
    (found : Option StackRow) (services : List ExistingService)
    → existing_of found services ≡ none
    → found ≡ none
no_existing_lem none services h = refl
no_existing_lem (some row) services h = ground arith

pub existing_stack_lem :
    (stack : Text) (db : Database) (e : ExistingStack)
    → existing_stack stack db ≡ some e
    → (row : StackRow) × (get stack db.stacks ≡ some row)
      × (e ≡ existing row (existing_services stack db))
unfolding existing_stack
existing_stack_lem stack db e h =
    existing_of_lem (get stack db.stacks) (existing_services stack db) e h

pub no_stack_lem :
    (stack : Text) (db : Database) → existing_stack stack db ≡ none → get stack db.stacks ≡ none
unfolding existing_stack
no_stack_lem stack db h = no_existing_lem (get stack db.stacks) (existing_services stack db) h

are_rows_lem :
    (stack service : Text) (db : Database) (e : ExistingStack)
    → existing_stack stack db ≡ some e
    → AreRows (stack, service) db.services (find_service service e.services)
unfolding existing_services
are_rows_lem stack service db e h =
    let (row, got, same) = existing_stack_lem stack db e h in
    subst (λ x. AreRows (stack, service) db.services (find_service service x.services)) (sym same)
      (find_service-AreRows stack service _ (λ k v. (refl, refl)) db.services)

pub is_row_lem :
    (stack service : Text) (db : Database) (e : ExistingStack) (s : ExistingService)
    → existing_stack stack db ≡ some e
    → find_service service e.services ≡ some s
    → IsRow (stack, service) s.row db.services
is_row_lem stack service db e s h found =
    subst (AreRows (stack, service) db.services) found (are_rows_lem stack service db e h)

pub no_row_lem :
    (stack service : Text) (db : Database) (e : ExistingStack)
    → existing_stack stack db ≡ some e
    → find_service service e.services ≡ none
    → (v : ServiceRow) → IsRow (stack, service) v db.services
    → ⊥
no_row_lem stack service db e h found =
    subst (AreRows (stack, service) db.services) found (are_rows_lem stack service db e h)
