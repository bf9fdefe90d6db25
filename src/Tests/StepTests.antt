-- ===== src/Tests/StepTests.antt =====
-- One round of the loops of `begin_up` and `begin_down` at the stack of the store's tests.
use termux_stacks.Prelude.{[], ◌∷◌, false, ◌≡◌, refl}
use termux_stacks.Prelude.Outcome.{done}
use termux_stacks.Ordered.Key.{Text, text}
use termux_stacks.Ordered.Map.{BTreeMap}
use termux_stacks.Manifest.Types.{Service}
use termux_stacks.Store.Tables.{Database}
use termux_stacks.Store.Sql
use termux_stacks.Store.Up.{ServicePlan}
use termux_stacks.Store.Begin.{prepare_service}
use termux_stacks.Store.Down.{stop_service}
use termux_stacks.Store.Judged.{IsJudged, stop_service-IsJudged}
use termux_stacks.Store.Prepared.{Prepared, prepare_service-IsPrepared}
use termux_stacks.Tests.Sample.{sample}
use termux_stacks.Tests.StoreSample.{notes, api, request, tables, after, store_code}

-- The operation is recorded, and no part of it.
abbrev opened : Database
opened = record tables { operation_services = [] }

abbrev stopped : Database
stopped = after opened (stop_service request notes 100 0 api opened)

stops : stop_service request notes 100 0 api opened ≡ done (false, stopped)
unfolding store_code stop_service Sql.insert_operation_service
stops = refl

stop_service-IsJudged_example : IsJudged request notes api opened stopped false
stop_service-IsJudged_example =
    stop_service-IsJudged request notes 100 0 api opened stopped false stops

abbrev json : Service → Text
json service = service.name

abbrev plans : BTreeMap Text ServicePlan
plans = (api, record { alias = text "a3"; stdout_log = text "/o"; stderr_log = text "/e" }) ∷ []

abbrev prepared : Database
prepared = after opened (prepare_service json request sample plans 100 0 api opened)

prepares : prepare_service json request sample plans 100 0 api opened ≡ done (tt, prepared)
unfolding store_code prepare_service Sql.insert_generation Sql.insert_operation_service
prepares = refl

prepare_service-IsPrepared_example : Prepared json request sample plans 100 0 api opened prepared
prepare_service-IsPrepared_example =
    prepare_service-IsPrepared json request sample plans 100 0 api opened prepared prepares
