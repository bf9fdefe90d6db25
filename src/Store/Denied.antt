-- ===== src/Store/Denied.antt =====
-- Actions that fail wherever a condition on the tables holds (src/store.rs).
use termux_stacks.Store.Tables.{Database}
use termux_stacks.Store.Sql.{Action, ◌>>=◌, ◌>>◌}
use termux_stacks.Store.Effect.{Holds, IsFrame, Keeps, Holds-bind, Holds-given}

-- Where `Q` holds, the action fails.
pub record Denies {A : Type 0} (Q : Database → Type 0) (m : Action A) : Type 0 where
  pub denied : (db : Database) → Q db → Holds (λ _. ⊥) (m db)

-- The condition outlives the action.
abbrev pub Spares : (Database → Type 0) → Database → Database → Type 0
Spares Q db after = Q db → Q after

instance abbrev pub Spares_frame : {Q : Database → Type 0} → IsFrame (Spares Q)
Spares_frame = record { stay = λ db q. q; join = λ a b c f g q. g (f q) }

module _ {Q : Database → Type 0} where
  given : {A : Type 0} (m : Action A) (db : Database) → Keeps (Spares Q) m → Q db → Holds Q (m db)
  given m db h q = Holds-given (Q db) Q (m db) q (h.run db)

  pub denied_later :
      {A B : Type 0} (m : Action A) (k : A → Action B)
      → Keeps (Spares Q) m
      → ((a : A) → Denies Q (k a))
      → Denies Q (m >>= k)
  denied_later m k h next = record {
    denied = λ db q. Holds-bind Q (λ _. ⊥) m k db (given m db h q) λ a after. (next a).denied after;
  }

  pub denied_after :
      {B : Type 0} (m : Action (Unit {0})) (k : Action B)
      → Keeps (Spares Q) m
      → Denies Q k
      → Denies Q (m >> k)
  unfolding ◌>>◌
  denied_after m k h next = denied_later m (λ _. k) h λ _. next

  pub denied_first :
      {B : Type 0} (m : Action (Unit {0})) (k : Action B) → Denies Q m → Denies Q (m >> k)
  unfolding ◌>>◌
  denied_first m k h = record {
    denied = λ db q.
        Holds-bind (λ _. ⊥) (λ _. ⊥) m (λ _. k) db (h.denied db q) λ a after no. elim no [ ];
  }
