-- ===== src/Workflow/Collector/Form.antt =====
-- The operations of the collector in one form, on which the proofs go.
use mathlib.Core.List.{append_assoc}
use argo_workflows_metrics.Base.{
  ◌≡◌, refl, sym, ap, String, Bool, true, false, Option, none, some, List, [], ◌++◌, All,
  All-append, All-cond, string_eq, if◌then◌else◌, All-concat_map, value_or,
}
use argo_workflows_metrics.Base.Time.{Time}
use argo_workflows_metrics.Base.Dict.{Dict, lookup, insert, erase}
use argo_workflows_metrics.Metrics.{Write}
use argo_workflows_metrics.Workflow.{Workflow, WorkflowCollector, key}
use argo_workflows_metrics.Workflow.Series.{collect_workflow_series, delete_workflow_series}
use argo_workflows_metrics.Workflow.Aggregate.{update_aggregated_metrics}
use argo_workflows_metrics.Workflow.Collector.{
  Call, adds, deletes, replaces, then_aggregate, prepend, delete_previous, delete_all, collect_all,
  rebuild, step,
}

-- The three operations in one form: calls on details, then the update over a new cache.
unfoldable pub detail_writes : WorkflowCollector → Call → List Write
detail_writes c (adds now (some wf)) =
    if c.collect_details
    then delete_previous (lookup (key wf) c.workflows) ++ collect_workflow_series wf now
    else []
detail_writes c (deletes (some wf)) =
    if c.collect_details
    then delete_workflow_series (value_or wf (lookup (key wf) c.workflows))
    else []
detail_writes c (replaces now wfs) =
    if c.collect_details then delete_all c.workflows ++ collect_all now (rebuild [] wfs) else []
detail_writes c _ = []

unfoldable pub next_workflows : WorkflowCollector → Call → Dict String Workflow
next_workflows c (adds now (some wf)) = insert (key wf) wf c.workflows
next_workflows c (deletes (some wf)) = erase (key wf) c.workflows
next_workflows c (replaces now wfs) = rebuild [] wfs
next_workflows c _ = c.workflows

abbrev pub is_nil : Call → Bool
is_nil (adds now none) = true
is_nil (deletes none) = true
is_nil _ = false

joined :
    (details : Bool) (ws vs : List Write) (c : WorkflowCollector)
    → (if details then prepend ws (then_aggregate vs c) else update_aggregated_metrics c)
      ≡ then_aggregate (if details then ws ++ vs else []) c
joined true ws vs c = ap (λ us. ((update_aggregated_metrics c).0, us)) (sym (append_assoc ws vs _))
joined false ws vs c = refl

pub step_form :
    (c : WorkflowCollector) (call : Call)
    → step c call ≡ (
        if is_nil call
        then (c, [])
        else then_aggregate (detail_writes c call) (record c { workflows = next_workflows c call }))
unfolding step detail_writes next_workflows
step_form c (adds now none) = refl
step_form c (adds now (some wf)) =
    joined c.collect_details (delete_previous (lookup (key wf) c.workflows))
      (collect_workflow_series wf now) (record c { workflows = insert (key wf) wf c.workflows })
step_form c (deletes none) = refl
step_form c (deletes (some wf)) = refl
step_form c (replaces now wfs) = refl

-- To show something of every call on details, show it of the calls for one workflow.
module _ (P : Write → Type 0)
    (collects : (wf : Workflow) (now : Time) → All P (collect_workflow_series wf now))
    (removes : (wf : Workflow) → All P (delete_workflow_series wf)) where
  delete_previous-All : (o : Option Workflow) → All P (delete_previous o)
  delete_previous-All none = tt
  delete_previous-All (some wf) = removes wf

  pub detail_writes-All : (c : WorkflowCollector) (call : Call) → All P (detail_writes c call)
  unfolding detail_writes
  detail_writes-All c (adds now none) = tt
  detail_writes-All c (adds now (some wf)) =
      All-cond P c.collect_details
        (delete_previous (lookup (key wf) c.workflows) ++ collect_workflow_series wf now) []
        (All-append P (delete_previous (lookup (key wf) c.workflows)) _ (delete_previous-All _)
          (collects wf now))
        tt
  detail_writes-All c (deletes none) = tt
  detail_writes-All c (deletes (some wf)) =
      All-cond P c.collect_details
        (delete_workflow_series (value_or wf (lookup (key wf) c.workflows))) [] (removes _) tt
  detail_writes-All c (replaces now wfs) =
      All-cond P c.collect_details (delete_all c.workflows ++ collect_all now (rebuild [] wfs)) []
        (All-append P (delete_all c.workflows) _ (All-concat_map P _ c.workflows (λ e. removes e.1))
          (All-concat_map P _ (rebuild [] wfs) (λ e. collects e.1 now)))
        tt
