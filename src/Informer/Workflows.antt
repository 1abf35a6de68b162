-- ===== src/Informer/Workflows.antt =====
-- pkg/informer/workflow.go: what is special to the informer of workflows, and its full reconcile.
use argo_workflows_metrics.Base.{Bool, String, Option, some, List, [], ◌∷◌, ◌++◌, if◌then◌else◌}
use argo_workflows_metrics.Metrics.{Write, inc, exporter_full_reconcile_total}
use argo_workflows_metrics.Workflow.{Workflow, WorkflowCollector}
use argo_workflows_metrics.Workflow.Collector.{add_workflow, delete_workflow, replace_workflows}
use argo_workflows_metrics.Health.{mark_workflow_event, mark_workflow_synced}
use argo_workflows_metrics.Queue.{WorkQueue}
use argo_workflows_metrics.Informer.{
  Item, Object, object, Source, ObjectInformer, Moment, status, of_informer, handler_error,
  reconcile_error, observed,
}

abbrev pub workflow_source : Source Workflow WorkflowCollector
workflow_source = record {
  name = "workflow";
  accepts = λ matcher wf. matcher wf.namespace;
  mark_event = mark_workflow_event;
  mark_synced = mark_workflow_synced;
  add_object = λ now wf c. add_workflow now (some wf) c;
  delete_object = λ wf c. delete_workflow (some wf) c;
}

abbrev pub WorkflowInformer : WorkQueue (Item Workflow) → Type 0
WorkflowInformer Q = ObjectInformer WorkflowCollector Q

-- The workflows of the store that the matcher accepts, and the calls for other objects.
unfoldable pub select :
    (String → Bool) → List (Object Workflow) → List (Option Workflow) × List Write
select matcher [] = ([], [])
select matcher (object wf ∷ items) =
    let (wfs, ws) = select matcher items in
    if matcher wf.namespace then (some wf ∷ wfs, ws) else (wfs, ws)
select matcher (_ ∷ items) =
    let (wfs, ws) = select matcher items in
    (wfs, reconcile_error workflow_source "full" ∷ handler_error workflow_source "full" ∷ ws)

-- `items` is what the store lists, and `cancelled` whether the context is.
unfoldable pub run_full_reconcile :
    (Q : WorkQueue (Item Workflow))
    → Bool
    → Moment
    → List (Object Workflow)
    → WorkflowInformer Q
    → WorkflowInformer Q × List Write
unfolding select
run_full_reconcile Q cancelled (now, elapsed) items wi =
    let (wfs, errors) = select wi.namespace_matcher items in
    let (c, ws) = replace_workflows now wfs wi.collector in
    if cancelled then (wi, []) else (
      record wi { collector = c },
      errors
          ++ (ws
              ++ (inc
                    (of_informer workflow_source exporter_full_reconcile_total (status errors ∷ []))
                  ∷ observed workflow_source "full" elapsed
                  ∷ [])),
    )
