-- ===== src/Workflow/Collector/Legal.antt =====
-- Which calls the operations of the collector make; none makes the client library panic.
use argo_workflows_metrics.Base.{◌≡◌, refl, String, true, false, none, some, All, All-append, arith}
use argo_workflows_metrics.Base.Time.{Time}
use argo_workflows_metrics.Metrics.{Metric, Sample, Write, set, delete, kind, labels, IsLegal}
use argo_workflows_metrics.Metrics.Trace.{target}
use argo_workflows_metrics.Metrics.Owners.{On, is_workflow}
use argo_workflows_metrics.Workflow.{Workflow, WorkflowCollector}
use argo_workflows_metrics.Workflow.Series.{collect_workflow_series, delete_workflow_series}
use argo_workflows_metrics.Workflow.Series.Own.{
  Own, is_detail, collect-All, delete-All, collect-IsLegal, delete-IsLegal,
}
use argo_workflows_metrics.Workflow.Aggregate.{
  count_series, total_series, update_aggregated_metrics,
}
use argo_workflows_metrics.Workflow.Aggregate.Calls.{aggregate-All}
use argo_workflows_metrics.Workflow.Collector.{Call, adds, deletes, replaces, step}
use argo_workflows_metrics.Workflow.Collector.Form.{
  detail_writes, next_workflows, is_nil, step_form, detail_writes-All,
}

-- To show something of every call, show it of the calls for one workflow and of the four kinds of an
-- update.
module _ (P : Write → Type 0)
    (collects : (wf : Workflow) (now : Time) → All P (collect_workflow_series wf now))
    (removes : (wf : Workflow) → All P (delete_workflow_series wf))
    (sets : (n : String) (v : Sample) → P (set (count_series n) v))
    (clears : (n : String) → P (delete (count_series n)))
    (sets₂ : (n p : String) (v : Sample) → P (set (total_series n p) v))
    (clears₂ : (n p : String) → P (delete (total_series n p))) where
  changing : (c : WorkflowCollector) (call : Call) → is_nil call ≡ false → All P (step c call).1
  unfolding update_aggregated_metrics
  changing c call e =
      rw (step_form c call, e)
        (All-append P (detail_writes c call) _ (detail_writes-All P collects removes c call) (
          aggregate-All P sets clears sets₂ clears₂
            (record c { workflows = next_workflows c call })))

  step-All : (c : WorkflowCollector) (call : Call) → All P (step c call).1
  unfolding step
  step-All c (adds now none) = tt
  step-All c (adds now (some wf)) = changing c (adds now (some wf)) refl
  step-All c (deletes none) = tt
  step-All c (deletes (some wf)) = changing c (deletes (some wf)) refl
  step-All c (replaces now wfs) = changing c (replaces now wfs) refl

-- No operation of the collector makes a call on which the client library panics: each call has as
-- many label values as its metric has labels, and uses an operation that the kind of the metric
-- has.
pub step-IsLegal : (c : WorkflowCollector) (call : Call) → All IsLegal (step c call).1
unfolding labels kind
step-IsLegal =
    step-All IsLegal collect-IsLegal delete-IsLegal (λ n v. (refl, refl)) (λ n. refl)
      (λ n p v. (refl, refl)) (λ n p. refl)

pub detail-is_workflow : (m : Metric) → is_detail m ≡ true → is_workflow m ≡ true
detail-is_workflow m e = ground arith

-- They are on the metrics of workflows.
pub step-On : (c : WorkflowCollector) (call : Call) → On is_workflow (step c call).1
step-On =
    step-All (λ w. is_workflow (target w).metric ≡ true)
      (λ wf. collect-All wf _ (λ x v (o : Own wf x). detail-is_workflow x.metric o.detail))
      (λ wf. delete-All wf _ (λ x (o : Own wf x). detail-is_workflow x.metric o.detail))
      (λ n v. refl) (λ n. refl) (λ n p v. refl) (λ n p. refl)
