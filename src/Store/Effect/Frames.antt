-- ===== src/Store/Effect/Frames.antt =====
-- What an action keeps, put together along its statements (for the transactions of src/store.rs).
use termux_stacks.Prelude.{
  ℕ, ◌+◌, ◌≡◌, Bool, true, false, List, [], ◌∷◌, Option, none, some, if◌then◌else◌, Bool-cases, inl,
  inr,
}
use termux_stacks.Prelude.Outcome.{Outcome, done, failed}
use termux_stacks.Ordered.Key.{Text, text_key, nat_key, pair_key, ◌==◌}
use termux_stacks.Store.Tables.{Database}
use termux_stacks.Store.Sql.{
  Error, Action, ◌>>=◌, ◌>>◌, pure, query, deny, expect, for_each, for_each_from, sum_each,
  unix_time, constraint, unless, require_one,
}
use termux_stacks.Store.Effect.Results.{
  Holds, Holds-both, Holds-given, Holds-bind, Holds-map, IsFrame, Keeps, Ensures, guarded,
}

settled_outcome :
    {B : Type 0} (R : Database → Database → Type 0) ⦃frame : IsFrame R⦄ (db : Database)
    (Q : Database → Type 0) (o : Outcome Error (Unit {0} × Database)) (k : Action B)
    → Holds (λ after. R db after × Q after) o
    → ((after : Database) → Q after → Holds (R after) (k after))
    → Holds (R db) (elim o [ done (a, db') ↦ k db' | failed e ↦ failed e ])
settled_outcome R ⦃frame⦄ db Q (done (a, db')) k (r, q) next =
    Holds-map (R db') (R db) (k db') (λ c s. frame.join db db' c r s) (next db' q)
settled_outcome R ⦃frame⦄ db Q (failed e) k h next = tt

module _ {R : Database → Database → Type 0} ⦃frame : IsFrame R⦄ where
  chain_outcome :
      {A B : Type 0} (db : Database) (o : Outcome Error (A × Database)) (k : A → Action B)
      → Holds (R db) o
      → ((a : A) → Keeps R (k a))
      → Holds (R db) (elim o [ done (a, db') ↦ k a db' | failed e ↦ failed e ])
  chain_outcome db (done (a, db')) k h next =
      Holds-map (R db') (R db) (k a db') (λ c r. frame.join db db' c h r) ((next a).run db')
  chain_outcome db (failed e) k h next = tt

  pub chain :
      {A B : Type 0} (m : Action A) (k : A → Action B)
      → Keeps R m
      → ((a : A) → Keeps R (k a))
      → Keeps R (m >>= k)
  unfolding ◌>>=◌
  chain m k h next = record { run = λ db. chain_outcome db (m db) k (h.run db) next }

  pub seq :
      {B : Type 0} (m : Action (Unit {0})) (k : Action B) → Keeps R m → Keeps R k → Keeps R (m >> k)
  unfolding ◌>>◌
  seq m k h next = chain m (λ _. k) h λ _. next

  pub pure-Keeps : {A : Type 0} (a : A) → Keeps R (pure a)
  unfolding pure
  pure-Keeps a = record { run = λ db. frame.stay db }

  pub query-Keeps : {A : Type 0} (f : Database → A) → Keeps R (query f)
  unfolding query
  query-Keeps f = record { run = λ db. frame.stay db }

  pub deny-Keeps : (test : Bool) (e : Error) → Keeps R (deny test e)
  unfolding deny
  deny-Keeps true e = record { run = λ db. tt }
  deny-Keeps false e = record { run = λ db. frame.stay db }

  pub expect-Keeps : {A : Type 0} (found : Option A) (e : Error) → Keeps R (expect found e)
  unfolding expect
  expect-Keeps none e = record { run = λ db. tt }
  expect-Keeps (some a) e = record { run = λ db. frame.stay db }

  pub unix_time-Keeps : (clock : Option ℕ) → Keeps R (unix_time clock)
  unfolding unix_time
  unix_time-Keeps none = record { run = λ db. tt }
  unix_time-Keeps (some now) = record { run = λ db. frame.stay db }

  pub require_one-Keeps : (n : ℕ) (subject : Text) → Keeps R (require_one n subject)
  unfolding require_one
  require_one-Keeps n subject = record {
    run = λ db. elim (Bool-cases (n == 1)) [ inl e ↦ rw e (frame.stay db) | inr e ↦ rw e tt ];
  }

  pub if-Keeps :
      {A : Type 0} (test : Bool) (m k : Action A)
      → Keeps R m
      → Keeps R k
      → Keeps R (if test then m else k)
  if-Keeps true m k h next = h
  if-Keeps false m k h next = next

  pub for_each-Keeps :
      {A : Type 0} (xs : List A) (body : A → Action (Unit {0}))
      → ((x : A) → Keeps R (body x))
      → Keeps R (for_each xs body)
  unfolding for_each
  for_each-Keeps [] body h = pure-Keeps tt
  for_each-Keeps (x ∷ xs) body h = seq _ _ (h x) (for_each-Keeps xs body h)

  pub for_each_from-Keeps :
      {A : Type 0} (i : ℕ) (xs : List A) (body : ℕ → A → Action (Unit {0}))
      → ((i : ℕ) (x : A) → Keeps R (body i x))
      → Keeps R (for_each_from i xs body)
  unfolding for_each_from
  for_each_from-Keeps i [] body h = pure-Keeps tt
  for_each_from-Keeps i (x ∷ xs) body h = seq _ _ (h i x) (for_each_from-Keeps (i + 1) xs body h)

  pub sum_each-Keeps :
      {A : Type 0} (xs : List A) (body : A → Action ℕ)
      → ((x : A) → Keeps R (body x))
      → Keeps R (sum_each xs body)
  unfolding sum_each
  sum_each-Keeps [] body h = pure-Keeps 0
  sum_each-Keeps (x ∷ xs) body h =
      chain _ _ (h x) λ n. chain _ _ (sum_each-Keeps xs body h) λ rest. pure-Keeps (n + rest)

  pub unless-Keeps :
      (broken : Database → Bool) (change : Database → Database)
      → ((db : Database) → broken db ≡ false → R db (change db))
      → Keeps R (unless broken change)
  unfolding unless
  unless-Keeps broken change h = record {
    run = λ db. guarded (R db) (broken db) constraint (tt, change db) (h db);
  }

  -- The second action may rely on what the first has settled.
  pub seq_settled :
      {B : Type 0} (Q : Database → Type 0) (m : Action (Unit {0})) (k : Action B)
      → Keeps R m
      → Ensures Q m
      → Keeps (λ db after. Q db → R db after) k
      → Keeps R (m >> k)
  unfolding ◌>>◌ ◌>>=◌
  seq_settled Q m k h settles next = record {
    run = λ db.
        settled_outcome R db Q (m db) k (Holds-both (R db) Q (m db) (h.run db) (settles.ensured db))
          λ after q. Holds-given (Q after) (R after) (k after) q (next.run after);
  }

  -- The first action relies on what was settled before.
  pub chain_settled :
      {A B : Type 0} (Q : Database → Type 0) (m : Action A) (k : A → Action B)
      → Keeps (λ db after. Q db → R db after) m
      → ((a : A) → Keeps R (k a))
      → Keeps (λ db after. Q db → R db after) (m >>= k)
  chain_settled Q m k h next = record {
    run = λ db.
        Holds-bind (λ after. Q db → R db after) (λ after. Q db → R db after) m k db (h.run db)
          λ a mid r.
            Holds-map (R mid) (λ after. Q db → R db after) (k a mid)
              (λ end s q. frame.join db mid end (r q) s) ((next a).run mid);
  }
