-- ===== src/Tests/StoreTests.antt =====
-- The store at a stack with an `up` that is ready to commit, and with a service in backoff.
use termux_stacks.Prelude.{ℕ, List, [], ◌∷◌, Option, none, some, true, false, ◌≡◌, refl, any}
use termux_stacks.Prelude.Outcome.{done}
use termux_stacks.Ordered.Key.{Text, text, text_key, nat_key, pair_key}
use termux_stacks.Manifest.Types.{Service}
use termux_stacks.Store.Tables.{Observed, ◌is◌}
use termux_stacks.Store.Rows.{has_unfinished}
use termux_stacks.Store.Begin.{begin_up}
use termux_stacks.Store.Recover.{begin_candidate_recovery}
use termux_stacks.Store.Down.{begin_down}
use termux_stacks.Store.Start.{begin_start_current, begin_restart}
use termux_stacks.Store.Cold.{reconcile_cold_start}
use termux_stacks.Store.History.{Call, history}
use termux_stacks.Store.Kept.{TableKept, AllRows}
use termux_stacks.Store.View.{StackKept, ServiceKept, GenerationKept, OperationKept, IsProven}
use termux_stacks.Store.Safe.{only_commit_changes_view, backoff_stays-IsProven, nothing_is_lost}
use termux_stacks.Store.Reconciled.{IsClosed, reconcile_cold_start-IsClosed}
use termux_stacks.Store.Busy.{IsRejected, busy_stack-IsRejected}
use termux_stacks.Store.Views.{service_status, candidate_of, has_part}
use termux_stacks.Tests.Sample.{sample}
use termux_stacks.Tests.StoreSample.{
  notes, api, request, api_row, tables, waiting, after, clock, store_code,
}

reconciles :
    reconcile_cold_start clock tables ≡ done (1, after tables (reconcile_cold_start clock tables))
unfolding store_code
reconciles = refl

reconcile_cold_start-IsClosed_example :
    IsClosed request (after tables (reconcile_cold_start clock tables))
reconcile_cold_start-IsClosed_example =
    reconcile_cold_start-IsClosed clock tables (after tables (reconcile_cold_start clock tables)) 1
      request reconciles

abbrev json : Service → Text
json service = service.name

-- The restart of the service is invoked, and a second time in vain.
abbrev calls : List (Option ℕ × Call)
calls =
    (some 95, Call.mark_restart_invoked notes api)
    ∷ (some 96, Call.mark_restart_invoked notes api)
    ∷ []

history_runs :
    any (λ r. r.1.observed_state is Observed.starting) (history json calls waiting).services ≡ true
unfolding store_code
history_runs = refl

only_commit_changes_view_example :
    TableKept (StackKept false) waiting.stacks (history json calls waiting).stacks
    × TableKept (ServiceKept false) waiting.services (history json calls waiting).services
only_commit_changes_view_example = only_commit_changes_view json calls waiting refl

backoff_stays-IsProven_example : AllRows IsProven (history json calls waiting).services
backoff_stays-IsProven_example = backoff_stays-IsProven json calls waiting (refl, tt)

nothing_is_lost_example :
    TableKept (StackKept true) waiting.stacks (history json calls waiting).stacks
    × TableKept (ServiceKept true) waiting.services (history json calls waiting).services
    × TableKept GenerationKept waiting.generations (history json calls waiting).generations
    × TableKept OperationKept waiting.operations (history json calls waiting).operations
nothing_is_lost_example = nothing_is_lost json calls waiting

is_busy : has_unfinished sample.name tables ≡ true
unfolding store_code
is_busy = refl

busy_stack-IsRejected_example :
    IsRejected (begin_up json clock request (text "m") (text "/srv") sample []) tables
    × IsRejected (begin_down clock request sample.name (api ∷ [])) tables
    × IsRejected
        (begin_start_current clock request sample.name (text "start") (api ∷ []) none none none)
        tables
    × IsRejected (begin_restart clock request sample.name api) tables
    × IsRejected
        (begin_candidate_recovery json clock request (text "m") (text "/srv") sample [])
        tables
busy_stack-IsRejected_example =
    busy_stack-IsRejected json clock request (text "m") (text "/srv") (text "start") api sample []
      (api ∷ []) none none none tables is_busy

-- What the status shows of the service before the commit and after it.
status : (service_status false tables (notes, api) api_row).alias ≡ some (text "a2")
unfolding store_code service_status candidate_of has_part
status = refl
