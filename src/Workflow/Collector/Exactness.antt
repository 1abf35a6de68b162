-- ===== src/Workflow/Collector/Exactness.antt =====
-- Each operation keeps what is shown of the cached workflows exact.
use argo_workflows_metrics.Base.{◌≡◌, refl, ◌∙◌, true, false, none, some, [], string_eq}
use argo_workflows_metrics.Workflow.{WorkflowCollector, key}
use argo_workflows_metrics.Workflow.Aggregate.{update_aggregated_metrics}
use argo_workflows_metrics.Workflow.Collector.Aggregated.{Values, apply}
use argo_workflows_metrics.Workflow.Collector.Form.{
  detail_writes, next_workflows, is_nil, step_form,
}
use argo_workflows_metrics.Workflow.Collector.{Call, adds, deletes, replaces, rebuild, step}
use argo_workflows_metrics.Workflow.Collector.Held.{apply-aggregate}
use argo_workflows_metrics.Workflow.Collector.Named.{
  Keyed, insert-Keyed, erase-Keyed, rebuild-Keyed, nil-Keyed,
}
use argo_workflows_metrics.Workflow.Collector.Tidy.{Tidy, step-Tidy, rebuild-NodupKeys}
use argo_workflows_metrics.Workflow.Collector.Shown.{
  AllCollected, add-Collected, delete-Collected, replace-Collected,
}

pub record Exact (c : WorkflowCollector) (v : Values) : Type 0 where
  pub tidy : Tidy c v
  pub keyed : Keyed c.workflows
  pub collected : c.collect_details ≡ true → AllCollected c.workflows v

next-Keyed :
    (c : WorkflowCollector) (call : Call) → Keyed c.workflows → Keyed (next_workflows c call)
unfolding next_workflows
next-Keyed c (adds now none) h = h
next-Keyed c (adds now (some wf)) h = insert-Keyed wf c.workflows h
next-Keyed c (deletes none) h = h
next-Keyed c (deletes (some wf)) h = erase-Keyed (key wf) c.workflows h
next-Keyed c (replaces now wfs) h = rebuild-Keyed [] wfs nil-Keyed

-- With details on, the calls on details leave every workflow of the new cache collected.
details-Collected :
    (c : WorkflowCollector) (v : Values) (call : Call)
    → is_nil call ≡ false
    → c.collect_details ≡ true
    → Exact c v
    → AllCollected (next_workflows c call) (apply (detail_writes c call) v)
unfolding detail_writes next_workflows
details-Collected c v (adds now none) i e h = absurd cc
details-Collected c v (adds now (some wf)) i e h =
    rw e (add-Collected c.workflows v h.tidy.held h.keyed (h.collected e) wf now)
details-Collected c v (deletes none) i e h = absurd cc
details-Collected c v (deletes (some wf)) i e h =
    rw e (delete-Collected c.workflows v h.tidy.held h.keyed (h.collected e) wf)
details-Collected c v (replaces now wfs) i e h = rw e (
    replace-Collected c.workflows v h.tidy.held h.keyed (h.collected e) (rebuild [] wfs) now
      (rebuild-NodupKeys [] wfs tt) (rebuild-Keyed [] wfs nil-Keyed))

changing :
    (c : WorkflowCollector) (v : Values) (call : Call)
    → is_nil call ≡ false
    → Exact c v
    → Exact (step c call).0 (apply (step c call).1 v)
unfolding update_aggregated_metrics
changing c v call i h =
    let t = step-Tidy c v call h.tidy in
    record {
      tidy = t;
      keyed = rw (step_form c call, i) (next-Keyed c call h.keyed);
      collected =
          rw (step_form c call, i)
            λ e k wf l.
              let (now, f) = details-Collected c v call i e h k wf l in
              (
                now,
                λ x d m.
                    apply-aggregate x v (detail_writes c call)
                      (record c { workflows = next_workflows c call }) d
                    ∙ f x d m,
              );
    }

-- Each operation, from any state, keeps what is shown exact.
pub step-Exact :
    (c : WorkflowCollector) (v : Values) (call : Call)
    → Exact c v
    → Exact (step c call).0 (apply (step c call).1 v)
unfolding step
step-Exact c v (adds now none) h = h
step-Exact c v (deletes none) h = h
step-Exact c v (adds now (some wf)) h = changing c v (adds now (some wf)) refl h
step-Exact c v (deletes (some wf)) h = changing c v (deletes (some wf)) refl h
step-Exact c v (replaces now wfs) h = changing c v (replaces now wfs) refl h
