-- ===== src/Store/Effect/Results.antt =====
-- What holds of the tables of a result, and what an action ensures (for the transactions of
-- src/store.rs).
use termux_stacks.Prelude.{
  ℕ, ◌≡◌, refl, Bool, true, false, if◌then◌else◌, Bool-cases, inl, inr, subst,
}
use termux_stacks.Prelude.Outcome.{Outcome, done, failed}
use termux_stacks.Ordered.Key.{Text, text_key, nat_key, pair_key, ◌==◌}
use termux_stacks.Store.Tables.{Database}
use termux_stacks.Store.Sql.{Error, Action, ◌>>=◌, ◌>>◌, require_one}

-- The tables of a result that is no error.
abbrev pub Holds : {A : Type 0} → (Database → Type 0) → Outcome Error (A × Database) → Type 0
Holds P (done x) = P x.1
Holds P (failed e) = Unit

pub Holds-both :
    {A : Type 0} (P Q : Database → Type 0) (o : Outcome Error (A × Database))
    → Holds P o
    → Holds Q o
    → Holds (λ db. P db × Q db) o
Holds-both P Q (done x) h k = (h, k)
Holds-both P Q (failed e) h k = tt

pub Holds-given :
    {A : Type 0} (Q : Type 0) (P : Database → Type 0) (o : Outcome Error (A × Database))
    → Q
    → Holds (λ db. Q → P db) o
    → Holds P o
Holds-given Q P (done x) q h = h q
Holds-given Q P (failed e) q h = tt

Holds-any : {A : Type 0} (o : Outcome Error (A × Database)) → Holds (λ db. Unit) o
Holds-any (done x) = tt
Holds-any (failed e) = tt

bind_outcome :
    {A B : Type 0} (P Q : Database → Type 0) (o : Outcome Error (A × Database)) (k : A → Action B)
    → Holds P o
    → ((a : A) (db : Database) → P db → Holds Q (k a db))
    → Holds Q (elim o [ done (a, db) ↦ k a db | failed e ↦ failed e ])
bind_outcome P Q (done (a, db)) k h next = next a db h
bind_outcome P Q (failed e) k h next = tt

-- A relation of two states of the tables that a sequence of statements passes on.
pub record IsFrame (R : Database → Database → Type 0) : Type 0 where
  pub stay : (db : Database) → R db db
  pub join : (a b c : Database) → R a b → R b c → R a c

pub record Keeps {A : Type 0} (R : Database → Database → Type 0) (m : Action A) : Type 0 where
  pub run : (db : Database) → Holds (R db) (m db)

pub Holds-bind :
    {A B : Type 0} (P Q : Database → Type 0) (m : Action A) (k : A → Action B) (db : Database)
    → Holds P (m db)
    → ((a : A) (db : Database) → P db → Holds Q (k a db))
    → Holds Q ((m >>= k) db)
unfolding ◌>>=◌
Holds-bind P Q m k db h next = bind_outcome P Q (m db) k h next

-- What holds of the tables whenever the action ends well.
pub record Ensures {A : Type 0} (Q : Database → Type 0) (m : Action A) : Type 0 where
  pub ensured : (db : Database) → Holds Q (m db)

require_one-Holds :
    (Q : Database → Type 0) (n : ℕ) (subject : Text) (db : Database)
    → Q db
    → Holds Q (require_one n subject db)
unfolding require_one
require_one-Holds Q n subject db h = elim (Bool-cases (n == 1)) [ inl e ↦ rw e h | inr e ↦ rw e tt ]

module _ {Q : Database → Type 0} where
  pub last :
      {A B : Type 0} (m : Action A) (k : A → Action B)
      → ((a : A) → Ensures Q (k a))
      → Ensures Q (m >>= k)
  last m k h = record {
    ensured =
        λ db. Holds-bind (λ _. Unit) Q m k db (Holds-any (m db)) λ a after _. (h a).ensured after;
  }

  pub last_seq :
      {B : Type 0} (m : Action (Unit {0})) (k : Action B) → Ensures Q k → Ensures Q (m >> k)
  unfolding ◌>>◌
  last_seq m k h = last m (λ _. k) λ _. h

  pub if-Ensures :
      {A : Type 0} (test : Bool) (m k : Action A)
      → Ensures Q m
      → Ensures Q k
      → Ensures Q (if test then m else k)
  if-Ensures true m k h next = h
  if-Ensures false m k h next = next

  -- What the first action ensures outlives the second.
  pub both :
      {B : Type 0} (P : Database → Type 0) (m : Action (Unit {0})) (k : Action B)
      → Ensures P m
      → Keeps (λ db after. P db → P after) k
      → Ensures Q k
      → Ensures (λ db. P db × Q db) (m >> k)
  unfolding ◌>>◌
  both P m k h keeps next = record {
    ensured = λ db.
        Holds-bind P (λ db. P db × Q db) m (λ _. k) db (h.ensured db)
          λ a mid p.
            Holds-both P Q (k mid) (Holds-given (P mid) P (k mid) p (keeps.run mid))
              (next.ensured mid);
  }

  -- The check of the number of changed rows does not change the tables.
  pub checked :
      (m : Action ℕ) (subject : Text) → Ensures Q m → Ensures Q (m >>= λ n. require_one n subject)
  checked m subject h = record {
    ensured = λ db.
        Holds-bind Q Q m (λ n. require_one n subject) db (h.ensured db)
          λ n after q. require_one-Holds Q n subject after q;
  }

pub Holds-map :
    {A : Type 0} (P Q : Database → Type 0) (o : Outcome Error (A × Database))
    → ((db : Database) → P db → Q db)
    → Holds P o
    → Holds Q o
Holds-map P Q (done x) f h = f x.1 h
Holds-map P Q (failed e) f h = tt

-- A result behind a guard.
pub guarded :
    {A : Type 0} (P : Database → Type 0) (test : Bool) (e : Error) (x : A × Database)
    → (test ≡ false → P x.1)
    → Holds P (if test then failed e else done x)
guarded P true e x h = tt
guarded P false e x h = h refl

pub weaken :
    {A : Type 0} (R S : Database → Database → Type 0) (m : Action A)
    → ((a b : Database) → R a b → S a b)
    → Keeps R m
    → Keeps S m
weaken R S m f h = record { run = λ db. Holds-map (R db) (S db) (m db) (f db) (h.run db) }

-- An action of which nothing is asked.
pub nothing : {A : Type 0} (m : Action A) → Ensures (λ _. Unit) m
nothing m = record { ensured = λ db. Holds-any (m db) }

-- What an action keeps, read off a run of it.
pub run-Keeps :
    {A : Type 0} (R : Database → Database → Type 0) (m : Action A) (a : A) (db db' : Database)
    → Keeps R m
    → m db ≡ done (a, db')
    → R db db'
run-Keeps R m a db db' h e = subst (Holds (R db)) e (h.run db)
