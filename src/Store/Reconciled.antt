-- ===== src/Store/Reconciled.antt =====
-- The operations after a cold start (src/store.rs: `reconcile_cold_start`).
use termux_stacks.Prelude.{
  ℕ, ◌≡◌, refl, ◌∙◌, subst, Bool, true, false, ◌&&◌, List, [], ◌∷◌, Option, none, some, any, All,
  Bool-cases, Option-cases, inl, inr, arith,
}
use termux_stacks.Prelude.Outcome.{done}
use termux_stacks.Ordered.Key.{Key, Text, text_key, nat_key, pair_key, ◌==◌, ==_iff, ==_refl}
use termux_stacks.Ordered.Map.{BTreeMap, get}
use termux_stacks.Ordered.MapLaws.{get-insert}
use termux_stacks.Store.Tables.{
  Database, StackRow, ServiceRow, ServiceKey, GenerationRow, Operation, OperationService, Phase,
  is_null,
}
use termux_stacks.Store.Sql.{
  for_each, exists, update_row, update_stack, update_service, update_generation, update_operation,
  update_operation_service,
}
use termux_stacks.Store.Rows.{OperationRow, refresh_stack_state}
use termux_stacks.Store.Cold.{
  Parent, by_stack_and_time, unfinished_parent_operations, settle_generation, settle_part,
  lose_service, settle_parent, reconcile_cold_start,
}
use termux_stacks.Store.Effect.{
  IsFrame, Keeps, Ensures, last, last_seq, checked, if-Ensures, both, nothing, weaken, chain, seq,
  pure-Keeps, query-Keeps, expect-Keeps, require_one-Keeps, if-Keeps, for_each-Keeps,
  sum_each-Keeps,
}
use termux_stacks.Store.Keeps.Starting.{update_row-settled}
use termux_stacks.Store.Post.{
  Post, done-Post, bind-Post, seq-Post, query-Post, unix_time-Post, Keeps-Post, ensures-Post,
}
use termux_stacks.Store.Listed.{any-sort_by, any-select}

-- The operation, where there is one, has an outcome.
abbrev pub IsClosed : (request : Text) → Database → Type 0
IsClosed request db =
    (o : Operation) → get request db.operations ≡ some o → is_null o.outcome ≡ false

-- No operation is opened.
abbrev Closing : Database → Database → Type 0
Closing db after = (request : Text) → IsClosed request db → IsClosed request after

instance abbrev Closing_frame : IsFrame Closing
Closing_frame = record { stay = λ db k c. c; join = λ a b c f g k closed. g k (f k closed) }

update_stack-Closing :
    (k : Text) (guard : StackRow → Bool) (f : StackRow → StackRow)
    → Keeps Closing (update_stack k guard f)
unfolding update_stack
update_stack-Closing k guard f = record { run = λ db j c. c }

update_service-Closing :
    (k : ServiceKey) (guard : ServiceRow → Bool) (f : ServiceRow → ServiceRow)
    → Keeps Closing (update_service k guard f)
unfolding update_service
update_service-Closing k guard f = record { run = λ db j c. c }

update_generation-Closing :
    (k : ServiceKey × ℕ) (guard : GenerationRow → Bool) (f : GenerationRow → GenerationRow)
    → Keeps Closing (update_generation k guard f)
unfolding update_generation
update_generation-Closing k guard f = record { run = λ db j c. c }

update_operation_service-Closing :
    (k : Text × Text) (guard : OperationService → Bool) (f : OperationService → OperationService)
    → Keeps Closing (update_operation_service k guard f)
unfolding update_operation_service
update_operation_service-Closing k guard f = record { run = λ db j c. c }

closing_row :
    (k : Text) (guard : Operation → Bool) (f : Operation → Operation) (m : BTreeMap Text Operation)
    (request : Text) (o : Operation)
    → ((v : Operation) → is_null (f v).outcome ≡ false)
    → ((v : Operation) → get request m ≡ some v → is_null v.outcome ≡ false)
    → get request (update_row k guard f m).1 ≡ some o
    → is_null o.outcome ≡ false
unfolding update_row
closing_row k guard f m request o h c e = elim (Option-cases (get k m)) [
  | inl n ↦ ground (arith, n, c o)
  | inr (v, n) ↦ ground (arith, n, get-insert request k (f v) m, c o, h v)
]

update_operation-Closing :
    (k : Text) (guard : Operation → Bool) (f : Operation → Operation)
    → ((v : Operation) → is_null (f v).outcome ≡ false)
    → Keeps Closing (update_operation k guard f)
unfolding update_operation
update_operation-Closing k guard f h = record {
  run = λ db request c o e. closing_row k guard f db.operations request o h c e;
}

refresh-Closing : (stack : Text) (now : ℕ) → Keeps Closing (refresh_stack_state stack now)
unfolding refresh_stack_state
refresh-Closing stack now =
    search (chain, query-Keeps, expect-Keeps, require_one-Keeps, update_stack-Closing) depth 30

settle_generation-Closing :
    (k : ServiceKey) (generation : Option ℕ) (phase : Phase) (now : ℕ)
    → Keeps Closing (settle_generation k generation phase now)
unfolding settle_generation
settle_generation-Closing k none phase now = pure-Keeps tt
settle_generation-Closing k (some generation) phase now =
    chain _ _ (update_generation-Closing _ _ _) λ n. pure-Keeps tt

settle_part-Closing : (now : ℕ) (row : OperationRow) → Keeps Closing (settle_part now row)
unfolding settle_part
settle_part-Closing now row =
    search
      (
        chain, seq, query-Keeps, pure-Keeps, settle_generation-Closing, update_service-Closing,
        update_operation_service-Closing,
      )
      depth 30

lose_service-Closing :
    (now : ℕ) (handled : List OperationRow) (row : ServiceKey × ServiceRow)
    → Keeps Closing (lose_service now handled row)
unfolding lose_service
lose_service-Closing now handled row =
    search (if-Keeps, pure-Keeps, update_service-Closing) depth 30

settle_parent-Closing : (now : ℕ) (parent : Parent) → Keeps Closing (settle_parent now parent)
unfolding settle_parent
settle_parent-Closing now parent =
    search
      (
        chain, seq, query-Keeps, if-Keeps, require_one-Keeps, update_stack-Closing,
        update_operation-Closing,
      )
      depth 30 fits 5000

-- An operation that is open is ended.
end_operation :
    (request : Text) (f : Operation → Operation)
    → ((v : Operation) → is_null (f v).outcome ≡ false)
    → Ensures (IsClosed request) (update_operation request (λ o. is_null o.outcome) f)
unfolding update_operation
end_operation request f h = record {
  ensured = λ db o e. elim (Bool-cases (is_null o.outcome)) [
    | inl unfinished ↦
        update_row-settled request (λ o. is_null o.outcome) (λ o. is_null o.outcome) f db.operations
          h o e unfinished
    | inr closed ↦ closed
  ];
}

settle_parent-IsClosed :
    (now : ℕ) (parent : Parent) → Ensures (IsClosed parent.0) (settle_parent now parent)
unfolding settle_parent
settle_parent-IsClosed now (request, parent) = last _ _ λ safe_down. last _ _ λ ambiguous.
    if-Ensures safe_down _ _
      (last _ _ λ n. last_seq _ _ (checked _ _ (end_operation request _ λ v. refl)))
      (checked _ _ (end_operation request _ λ v. refl))

-- Every operation of the list.
abbrev AllClosed : List Parent → Database → Type 0
AllClosed parents db = All (λ p. IsClosed p.0 db) parents

settle_parents-AllClosed :
    (now : ℕ) (parents : List Parent)
    → Ensures (AllClosed parents) (for_each parents (settle_parent now))
unfolding for_each
settle_parents-AllClosed now [] = nothing _
settle_parents-AllClosed now (parent ∷ parents) =
    both (IsClosed parent.0) _ _ (settle_parent-IsClosed now parent)
      (weaken Closing _ _ (λ db after c. c parent.0)
        (for_each-Keeps parents (settle_parent now) (settle_parent-Closing now)))
      (settle_parents-AllClosed now parents)

listed-IsClosed :
    (request : Text) (db : Database) (parents : List Parent)
    → any (λ p. p.0 == request) parents ≡ true
    → AllClosed parents db
    → IsClosed request db
listed-IsClosed request db [] e h = ground (arith, e)
listed-IsClosed request db ((j, p) ∷ parents) e (c, h) = elim (Bool-cases (j == request)) [
  | inl same ↦ subst (λ k. IsClosed k db) ((==_iff j request).0 same) c
  | inr other ↦ listed-IsClosed request db parents (ground (arith, other, e)) h
]

module _ {K V : Type 0} ⦃o : Key K⦄ where
  get-exists :
      (p : V → Bool) (k : K) (m : BTreeMap K V) (v : V)
      → get k m ≡ some v
      → p v ≡ true
      → exists (λ j w. p w && j == k) m ≡ true
  unfolding get exists
  get-exists p k [] v e h = ground arith
  get-exists p k ((j, w) ∷ m) v e h =
      grind (arith, get-exists p k m v, o.cmp-eq_iff k j, o.cmp-eq_iff j k, ==_refl k)

open_is_listed :
    (request : Text) (db : Database) (o : Operation)
    → get request db.operations ≡ some o
    → is_null o.outcome ≡ true
    → any (λ p. p.0 == request) (unfinished_parent_operations db) ≡ true
unfolding unfinished_parent_operations
open_is_listed request db o e h =
    any-sort_by (λ p. p.0 == request) by_stack_and_time _
    ∙ any-select (λ p. p.0 == request) _ _ db.operations
    ∙ get-exists (λ v. is_null v.outcome) request db.operations o e h

-- What was closed stays so, and what was open is in the list.
all-IsClosed :
    (db after : Database)
    → Closing db after
    → AllClosed (unfinished_parent_operations db) after
    → (request : Text) → IsClosed request after
all-IsClosed db after closing listed request = elim (Option-cases (get request db.operations)) [
  | inl n ↦ closing request λ o e. ground (arith, n, e)
  | inr (o, e) ↦ elim (Bool-cases (is_null o.outcome)) [
    | inl unfinished ↦
        listed-IsClosed request after (unfinished_parent_operations db)
          (open_is_listed request db o e unfinished) listed
    | inr ended ↦ closing request λ v f. ground (arith, e, f, ended)
  ]
]

reconcile_cold_start-Post :
    (clock : Option ℕ) (db : Database)
    → Post (λ _ after. (request : Text) → IsClosed request after) (reconcile_cold_start clock db)
unfolding reconcile_cold_start
reconcile_cold_start-Post clock db = bind-Post _ _ db (
    unix_time-Post clock db λ now. bind-Post _ _ db (
      query-Post _ db (
        bind-Post _ _ db (
          query-Post _ db (
            bind-Post _ _ db (
              Keeps-Post Closing _ db (sum_each-Keeps _ _ (settle_part-Closing now))
                λ settled mid c. bind-Post _ _ mid (
                  query-Post _ mid (
                    bind-Post _ _ mid (
                      Keeps-Post Closing _ mid (sum_each-Keeps _ _ (lose_service-Closing now _))
                        λ changed mid' c'. seq-Post _ _ mid' (
                          ensures-Post Closing _ _ mid'
                            (for_each-Keeps _ _ (settle_parent-Closing now))
                            (settle_parents-AllClosed now _)
                            λ _ end c'' listed.
                              Keeps-Post Closing _ end
                                (chain _ _ (query-Keeps _) λ stacks.
                                  seq _ _ (for_each-Keeps _ _ λ stack. refresh-Closing stack now)
                                    (pure-Keeps _))
                                (λ _ after kept request. kept request (
                                  all-IsClosed db end (λ k x. c'' k (c' k (c k x))) listed
                                    request))))))))))))

-- After a cold start that succeeds no operation is unfinished.
pub reconcile_cold_start-IsClosed :
    (clock : Option ℕ) (db after : Database) (changed : ℕ) (request : Text)
    → reconcile_cold_start clock db ≡ done (changed, after)
    → IsClosed request after
reconcile_cold_start-IsClosed clock db after changed request ended =
    done-Post (λ _ after. (request : Text) → IsClosed request after) _ changed after
      (reconcile_cold_start-Post clock db) ended request
