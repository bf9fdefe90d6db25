-- ===== src/Store/Safe.antt =====
-- What holds of the tables over every sequence of calls (src/store.rs).
use termux_stacks.Prelude.{ℕ, ◌≡◌, Bool, true, false, not, List, [], ◌∷◌, Option, all, arith}
use termux_stacks.Prelude.Outcome.{Outcome, done, failed}
use termux_stacks.Manifest.Types.{Service}
use termux_stacks.Ordered.Key.{Text, text_key, nat_key, pair_key}
use termux_stacks.Store.Tables.{Database}
use termux_stacks.Store.Sql.{Error, Action, commit_or_drop, transaction}
use termux_stacks.Store.History.{Call, is_commit, perform, history}
use termux_stacks.Store.Effect.{IsFrame, Keeps, Holds}
use termux_stacks.Store.Kept.{TableKept, AllRows}
use termux_stacks.Store.View.{
  StackKept, ServiceKept, GenerationKept, OperationKept, IsProven, Kept, Kept_refl, Kept_trans,
  Kept_frame,
}
use termux_stacks.Store.Keeps.Calls.{perform-KeepsView, perform-Keeps}

module _ (R : Database → Database → Type 0) ⦃frame : IsFrame R⦄ where
  -- A transaction that fails keeps everything.
  transaction_outcome :
      {A : Type 0} (db : Database) (o : Outcome Error (A × Database))
      → Holds (R db) o
      → R db (commit_or_drop db o).1
  transaction_outcome db (done (a, db')) h = h
  transaction_outcome db (failed e) h = frame.stay db

  transaction-Keeps :
      {A : Type 0} (m : Action A) (db : Database) → Keeps R m → R db (transaction m db).1
  unfolding transaction
  transaction-Keeps m db h = transaction_outcome db (m db) (h.run db)

abbrev pub Calls : Type 0
Calls = List (Option ℕ × Call)

abbrev pub without_commit : Calls → Bool
without_commit calls = all (λ c. not (is_commit c.1)) calls

module _ (config_json : Service → Text) where
  history-Kept : (calls : Calls) (db : Database) → Kept true db (history config_json calls db)
  unfolding history
  history-Kept [] db = Kept_refl db
  history-Kept ((clock, call) ∷ calls) db =
      let after = (transaction (perform config_json clock call) db).1 in
      Kept_trans db after (history config_json calls after)
        (transaction-Keeps (Kept true) _ db (perform-Keeps config_json clock call))
        (history-Kept calls after)

  history-KeptView :
      (calls : Calls) (db : Database)
      → without_commit calls ≡ true
      → Kept false db (history config_json calls db)
  unfolding history
  history-KeptView [] db h = Kept_refl db
  history-KeptView ((clock, call) ∷ calls) db h =
      let after = (transaction (perform config_json clock call) db).1 in
      Kept_trans db after (history config_json calls after)
        (transaction-Keeps (Kept false) _ db
          (perform-KeepsView config_json clock call (ground arith)))
        (history-KeptView calls after (ground arith))

  -- Whatever sequence of calls is made that has no `commit_up`, each stack keeps its committed
  -- revision, manifest and base, and each service its committed rootfs and configuration.
  pub only_commit_changes_view :
      (calls : Calls) (db : Database)
      → without_commit calls ≡ true
      → TableKept (StackKept false) db.stacks (history config_json calls db).stacks
        × TableKept (ServiceKept false) db.services (history config_json calls db).services
  only_commit_changes_view calls db h =
      let kept = history-KeptView calls db h in (kept.stacks, kept.services)

  -- Where every active service in backoff has a deadline and neither a session nor a child, so it
  -- is after every sequence of calls.
  pub backoff_stays-IsProven :
      (calls : Calls) (db : Database)
      → AllRows IsProven db.services
      → AllRows IsProven (history config_json calls db).services
  backoff_stays-IsProven calls db = (history-Kept calls db).proven

  -- No sequence of calls loses a stack, a service, a rootfs generation or an operation. The
  -- revision of a stack does not fall, a generation keeps its alias and its image, and an
  -- operation keeps what a repeated request is compared with.
  pub nothing_is_lost :
      (calls : Calls) (db : Database)
      → TableKept (StackKept true) db.stacks (history config_json calls db).stacks
        × TableKept (ServiceKept true) db.services (history config_json calls db).services
        × TableKept GenerationKept db.generations (history config_json calls db).generations
        × TableKept OperationKept db.operations (history config_json calls db).operations
  nothing_is_lost calls db =
      let kept = history-Kept calls db in
      (kept.stacks, kept.services, kept.generations, kept.operations)
