-- ===== src/Workflow/Collector.antt =====
-- The operations of `WorkflowCollector`. Each takes the time of the call and a pointer, `none` for
-- nil, and returns the new collector and its calls on the metrics. `DeepCopy` is the identity on
-- values; log lines are left out.
pub mod Form
pub mod Aggregated
pub mod Held
pub mod Named
pub mod Shown
pub mod Exactness
pub mod Tidy
pub mod History
pub mod Runs
pub mod Surrounded
pub mod Legal
pub mod Exposed
pub mod Deletions
pub mod Order
use argo_workflows_metrics.Base.{
  String, Option, none, some, List, [], ◌∷◌, ◌++◌, concat_map, string_eq, if◌then◌else◌, value_or,
}
use argo_workflows_metrics.Base.Time.{Time}
use argo_workflows_metrics.Base.Dict.{Dict, lookup, insert, erase}
use argo_workflows_metrics.Metrics.{Write}
use argo_workflows_metrics.Workflow.{Workflow, WorkflowCollector, key}
use argo_workflows_metrics.Workflow.Series.{collect_workflow_series, delete_workflow_series}
use argo_workflows_metrics.Workflow.Aggregate.{update_aggregated_metrics}

abbrev pub Step : Type 0
Step = WorkflowCollector × List Write

-- The calls, then those of the update of the aggregated series.
abbrev pub then_aggregate : List Write → WorkflowCollector → Step
then_aggregate ws c = let (c', vs) = update_aggregated_metrics c in (c', ws ++ vs)

unfoldable pub collect_workflow_metrics : Time → Workflow → WorkflowCollector → Step
collect_workflow_metrics now wf c = then_aggregate (collect_workflow_series wf now) c

abbrev pub delete_previous : Option Workflow → List Write
delete_previous none = []
delete_previous (some previous) = delete_workflow_series previous

abbrev pub prepend : List Write → Step → Step
prepend ws (c, vs) = (c, ws ++ vs)

unfoldable pub add_workflow : Time → Option Workflow → WorkflowCollector → Step
unfolding collect_workflow_metrics
add_workflow now none c = (c, [])
add_workflow now (some wf) c =
    let previous = lookup (key wf) c.workflows in
    let c' = record c { workflows = insert (key wf) wf c.workflows } in
    if c.collect_details
    then prepend (delete_previous previous) (collect_workflow_metrics now wf c')
    else update_aggregated_metrics c'

unfoldable pub delete_workflow : Option Workflow → WorkflowCollector → Step
delete_workflow none c = (c, [])
delete_workflow (some wf) c =
    let target = value_or wf (lookup (key wf) c.workflows) in
    let c' = record c { workflows = erase (key wf) c.workflows } in
    then_aggregate (if c.collect_details then delete_workflow_series target else []) c'

-- The map that the loop over the informer's objects builds.
unfoldable pub rebuild : Dict String Workflow → List (Option Workflow) → Dict String Workflow
rebuild next [] = next
rebuild next (none ∷ workflows) = rebuild next workflows
rebuild next (some wf ∷ workflows) = rebuild (insert (key wf) wf next) workflows

abbrev pub delete_all : Dict String Workflow → List Write
delete_all = concat_map λ (k, wf). delete_workflow_series wf

abbrev pub collect_all : Time → Dict String Workflow → List Write
collect_all now = concat_map λ (k, wf). collect_workflow_series wf now

unfoldable pub replace_workflows : Time → List (Option Workflow) → WorkflowCollector → Step
unfolding rebuild
replace_workflows now workflows c =
    let next = rebuild [] workflows in
    then_aggregate
      (if c.collect_details then delete_all c.workflows ++ collect_all now next else [])
      (record c { workflows = next })

-- The operations as values, for histories of calls.
pub data Call : Type 0 where
  adds : Time → Option Workflow → Call
  deletes : Option Workflow → Call
  replaces : Time → List (Option Workflow) → Call

unfoldable pub step : WorkflowCollector → Call → Step
unfolding add_workflow delete_workflow replace_workflows
step c (adds now wf) = add_workflow now wf c
step c (deletes wf) = delete_workflow wf c
step c (replaces now wfs) = replace_workflows now wfs c
