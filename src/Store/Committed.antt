-- ===== src/Store/Committed.antt =====
-- What a commit leaves (src/store.rs: `commit_up`).
use termux_stacks.Prelude.{ℕ, ◌<◌, ◌≡◌, refl, ◌∙◌, some}
use termux_stacks.Ordered.Key.{Text, text_key, nat_key}
use termux_stacks.Ordered.Map.{get}
use termux_stacks.Store.Tables.{Database, StackRow, Operation}
use termux_stacks.Store.Commit.{incomplete, open_up}
use termux_stacks.Store.Effect.{IsFrame}
use termux_stacks.Store.Post.{Post}

-- The rows of stacks are not touched.
abbrev SameStacks : Database → Database → Type 0
SameStacks db after = after.stacks ≡ db.stacks

instance abbrev SameStacks_frame : IsFrame SameStacks
SameStacks_frame = record { stay = λ db. refl; join = λ a b c p q. q ∙ p }

-- A commit: the candidate of an open `up`, every part of which succeeded, replaced a lower
-- revision.
pub record IsCommit (request stack : Text) (db after : Database) : Type 0 where
  pub operation : Operation
  pub revision : ℕ
  pub manifest : Text
  pub before : StackRow
  pub now : StackRow
  pub is_open : open_up request stack db ≡ some operation
  pub candidate : operation.candidate_revision ≡ some revision
  pub candidate_manifest : operation.candidate_manifest ≡ some manifest
  pub complete : incomplete request db ≡ 0
  pub was : get stack db.stacks ≡ some before
  pub is : get stack after.stacks ≡ some now
  pub higher : before.committed_revision < revision
  pub committed : now.committed_revision ≡ revision
  pub manifest_committed : now.manifest ≡ manifest

-- What the guards of `commit_up` have found.
record IsReady (request stack : Text) (db : Database) : Type 0 where
  operation : Operation
  revision : ℕ
  manifest : Text
  is_open : open_up request stack db ≡ some operation
  candidate : operation.candidate_revision ≡ some revision
  candidate_manifest : operation.candidate_manifest ≡ some manifest
  complete : incomplete request db ≡ 0
