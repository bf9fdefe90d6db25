-- ===== src/Store/Keeps/Commit.antt =====
-- For the commit of a candidate (src/store.rs: `commit_up`): what it keeps of the tables.
use termux_stacks.Prelude.{ℕ, true, Option, arith}
use termux_stacks.Ordered.Key.{Text}
use termux_stacks.Store.Rows.{OperationRow}
use termux_stacks.Store.Commit.{promote, committed_row, make_visible, commit_up}
use termux_stacks.Store.Effect.{Keeps, chain}
use termux_stacks.Store.Statements.{update_stack-Keeps}
use termux_stacks.Store.View.{Kept, Kept_frame}
use termux_stacks.Store.Keeps.Rules.{statements}

promote-Keeps :
    (stack : Text) (now : ℕ) (row : OperationRow) → Keeps (Kept true) (promote stack now row)
unfolding promote
promote-Keeps stack now row = search statements depth 40 fits 5000

make_visible-Keeps :
    (request stack manifest manifest_base : Text) (revision now : ℕ)
    → Keeps (Kept true) (make_visible request stack manifest manifest_base revision now)
unfolding make_visible committed_row
make_visible-Keeps request stack manifest manifest_base revision now =
    chain _ _ (update_stack-Keeps _ _ _ λ v lower. ground arith)
      λ n. search statements depth 40 fits 5000

pub commit_up-Keeps :
    (clock : Option ℕ) (request stack : Text) → Keeps (Kept true) (commit_up clock request stack)
unfolding commit_up
commit_up-Keeps clock request stack =
    search (statements, promote-Keeps, make_visible-Keeps) depth 40 fits 5000
