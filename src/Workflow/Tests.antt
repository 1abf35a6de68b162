-- ===== src/Workflow/Tests.antt =====
-- A history of the collector, run, and instances of the theorems on it.
use mathlib.Core.Option.{some-ne-none}
use argo_workflows_metrics.Base.{
  ◌≡◌, refl, sym, ◌∙◌, true, not, ◌&&◌, Option, none, some, String, List, [], ◌∷◌, ◌++◌, All,
  string_eq, labels_eq, nat_eq, is_some,
}
use argo_workflows_metrics.Base.Dict.{lookup, insert, KeySet, contains}
use argo_workflows_metrics.Base.Dict.Count.{tally, increment, mark, mark_all}
use argo_workflows_metrics.Base.Dict.Nested.{insert₂, NodupKeys₂, lookup₂}
use argo_workflows_metrics.Metrics.{
  Series, Sample, IsLegal, labelled, whole, workflow_info, series_eq, metric_eq,
}
use argo_workflows_metrics.Base.Time.{sub, unix}
use argo_workflows_metrics.Base.Decimal.{itoa}
use argo_workflows_metrics.Metrics.Registry.{run}
use argo_workflows_metrics.Metrics.Trace.{after}
use argo_workflows_metrics.Metrics.Memory.{memory, memory-IsLawful, blank}
use argo_workflows_metrics.Workflow.{
  workflow_phases, Workflow, WorkflowCollector, new_workflow_collector, key, key_of,
}
use argo_workflows_metrics.Workflow.Series.{
  set_time, set_duration, collect_node_metrics, run_time, collect_workflow_series,
  delete_workflow_series,
}
use argo_workflows_metrics.Workflow.Series.Own.{Own}
use argo_workflows_metrics.Workflow.Series.Cleanup.{delete-collect}
use argo_workflows_metrics.Workflow.Aggregate.{
  count_series, total_series, diff_namespaces, diff_namespace_phases, PhaseSets, count_workflows,
  diff_phases, update_aggregated_metrics, aggregate_writes,
}
use argo_workflows_metrics.Workflow.Aggregate.Loop.{count_in, count_phase}
use argo_workflows_metrics.Workflow.Aggregate.Exact.{exposed}
use argo_workflows_metrics.Workflow.Aggregate.Stale.{
  contains-diff_namespaces, has-diff_namespace_phases,
}
use argo_workflows_metrics.Workflow.Collector.{
  Call, add_workflow, collect_workflow_metrics, adds, deletes, step,
}
use argo_workflows_metrics.Workflow.Collector.History.{
  run_calls, cached, lookup-run_calls, count_exact, total_exact, details_held,
}
use argo_workflows_metrics.Base.Time.{Time}
use argo_workflows_metrics.Workflow.Series.Own.{is_detail}
use argo_workflows_metrics.Workflow.Collector.Named.{Named}
use argo_workflows_metrics.Workflow.Collector.Exposed.{shown_exact, phases_exact}
use argo_workflows_metrics.Workflow.Series.Phases.{is_listed}
use argo_workflows_metrics.Base.{◌==◌, if◌then◌else◌}
use argo_workflows_metrics.Metrics.{workflow_status_phase}
use argo_workflows_metrics.Workflow.Collector.Legal.{step-IsLegal}

abbrev build_1 : Workflow
build_1 = record {
  namespace = "ci";
  name = "build-1";
  uid = "u1";
  priority = none;
  service_account_name = "";
  creation_timestamp = 63_000_000_000_000_000_000;
  phase = "Running";
  started_at = 63_000_000_001_000_000_000;
  finished_at = 0;
  nodes = some (("n1", "Running") ∷ ("n2", "Succeeded") ∷ []);
}

abbrev build_2 : Workflow
build_2 = record build_1 { name = "build-2"; uid = "u2"; phase = "Pending"; nodes = none }

abbrev done_1 : Workflow
done_1 = record build_1 { phase = "Succeeded"; finished_at = 63_000_000_002_000_000_000 }

abbrev history : List Call
history =
    adds 63_000_000_001_500_000_000 (some build_1)
    ∷ adds 63_000_000_001_500_000_000 (some build_2)
    ∷ adds 63_000_000_003_000_000_000 (some done_1)
    ∷ deletes (some build_2)
    ∷ []

abbrev final : WorkflowCollector
final = (run_calls (new_workflow_collector true) history).0

abbrev shown : Series → Option Sample
shown = memory.value (run memory (run_calls (new_workflow_collector true) history).1 blank)

count_exact_example : shown (count_series "ci") ≡ exposed (count_in "ci" final.workflows)
count_exact_example = count_exact memory memory-IsLawful blank (λ x. refl) true history "ci"

total_exact_example :
    shown (total_series "ci" "Succeeded") ≡ exposed (count_phase "ci" "Succeeded" final.workflows)
total_exact_example =
    total_exact memory memory-IsLawful blank (λ x. refl) true history "ci" "Succeeded"

lookup-run_calls_example :
    lookup "ci/build-1" final.workflows
    ≡ cached "ci/build-1" (lookup "ci/build-1" (new_workflow_collector true).workflows) history
lookup-run_calls_example = lookup-run_calls "ci/build-1" (new_workflow_collector true) history

delete-collect_example :
    after
      (labelled workflow_info ("ci" ∷ "build-1" ∷ "u1" ∷ "default" ∷ "0" ∷ []))
      none
      (collect_workflow_series build_1 7 ++ delete_workflow_series build_1)
    ≡ after
        (labelled workflow_info ("ci" ∷ "build-1" ∷ "u1" ∷ "default" ∷ "0" ∷ []))
        none
        (delete_workflow_series build_1)
delete-collect_example = delete-collect build_1 7 _ none

step-IsLegal_holds : All IsLegal (step (new_workflow_collector true) (adds 7 (some build_1))).1
step-IsLegal_holds = step-IsLegal (new_workflow_collector true) (adds 7 (some build_1))

abbrev earlier : KeySet String
earlier = ("ci", tt) ∷ ("ops", tt) ∷ []

abbrev later : KeySet String
later = ("ops", tt) ∷ []

stale_namespaces :
    contains "ci" (diff_namespaces [] earlier later)
    ≡ (contains "ci" earlier && not (contains "ci" later))
stale_namespaces = contains-diff_namespaces "ci" earlier later

abbrev earlier_phases : PhaseSets
earlier_phases = ("ci", ("Running", tt) ∷ ("Failed", tt) ∷ []) ∷ ("ops", ("Running", tt) ∷ []) ∷ []

abbrev later_phases : PhaseSets
later_phases = ("ci", ("Failed", tt) ∷ []) ∷ []

distinct : NodupKeys₂ earlier_phases
unfolding lookup string_eq
distinct = (refl, (refl, (refl, tt)), (refl, (refl, tt), tt))

has-diff_namespace_phases_holds :
    is_some (lookup₂ "ci" "Running" (diff_namespace_phases [] earlier_phases later_phases)) ≡ (
      is_some (lookup₂ "ci" "Running" earlier_phases)
      && not (is_some (lookup₂ "ci" "Running" later_phases)))
has-diff_namespace_phases_holds =
    has-diff_namespace_phases "ci" "Running" earlier_phases later_phases distinct

abbrev short : List Call
short = adds 7 (some build_2) ∷ []

abbrev shown_short : Series → Option Sample
shown_short = memory.value (run memory (run_calls (new_workflow_collector true) short).1 blank)

abbrev info_2 : Series
info_2 = labelled workflow_info ("ci" ∷ "build-2" ∷ "u2" ∷ "default" ∷ "0" ∷ [])

info_2-shown : shown_short info_2 ≡ some (whole 1)
unfolding run_calls step add_workflow collect_workflow_metrics update_aggregated_metrics
    aggregate_writes lookup insert string_eq series_eq metric_eq labels_eq nat_eq
    new_workflow_collector run key key_of itoa collect_workflow_series delete_workflow_series
    set_time set_duration collect_node_metrics run_time sub unix tally increment count_workflows
    diff_namespaces insert₂ diff_namespace_phases mark diff_phases mark_all
info_2-shown = refl

details_held_example :
    (k : String) × (wf : Workflow) × (lookup k
        (run_calls (new_workflow_collector true) short).0.workflows
      ≡ some wf)
    × Own wf info_2
details_held_example =
    details_held memory memory-IsLawful blank (λ x. refl) true short info_2 refl
      (λ e. some-ne-none _ (sym info_2-shown ∙ e))

build_2-cached :
    lookup "ci/build-2" (run_calls (new_workflow_collector true) short).0.workflows ≡ some build_2
unfolding run_calls step add_workflow collect_workflow_metrics update_aggregated_metrics lookup
    insert string_eq new_workflow_collector key key_of
build_2-cached = refl

shown_exact_example :
    (now : Time) × ((x : Series)
      → is_detail x.metric ≡ true
      → Named build_2 x
      → shown_short x ≡ after x none (collect_workflow_series build_2 now))
shown_exact_example =
    shown_exact memory memory-IsLawful blank (λ x. refl) short "ci/build-2" build_2 build_2-cached

pending-listed : is_listed "Pending" workflow_phases ≡ true
unfolding string_eq
pending-listed = refl

phases_exact_holds :
    shown_short (labelled workflow_status_phase ("ci" ∷ "build-2" ∷ "Pending" ∷ []))
    ≡ some (if "Pending" == build_2.phase then whole 1 else whole 0)
phases_exact_holds =
    phases_exact memory memory-IsLawful blank (λ x. refl) short "ci/build-2" build_2 "Pending"
      build_2-cached pending-listed
