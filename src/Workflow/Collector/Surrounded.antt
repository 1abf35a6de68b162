-- ===== src/Workflow/Collector/Surrounded.antt =====
-- What `/metrics` shows of the workflows where other calls surround those of the collector.
use argo_workflows_metrics.Base.{
  ◌≡◌, ◌≢◌, refl, sym, ap, subst, ◌∙◌, Bool, true, String, none, some, List, string_eq,
}
use argo_workflows_metrics.Base.Dict.{lookup}
use argo_workflows_metrics.Metrics.{Series, Write}
use argo_workflows_metrics.Metrics.Owners.{is_workflow}
use argo_workflows_metrics.Metrics.Histories.{Serial}
use argo_workflows_metrics.Metrics.Registry.{Registry, IsLawful, run}
use argo_workflows_metrics.Metrics.Trace.{value-run}
use argo_workflows_metrics.Workflow.{Workflow, WorkflowCollector, new_workflow_collector}
use argo_workflows_metrics.Workflow.Series.Own.{Own, is_detail}
use argo_workflows_metrics.Workflow.Aggregate.{count_series, total_series}
use argo_workflows_metrics.Workflow.Aggregate.Loop.{count_in, count_phase}
use argo_workflows_metrics.Workflow.Aggregate.Exact.{exposed}
use argo_workflows_metrics.Workflow.Collector.History.{
  run_calls, IsBlank, count_exact, total_exact, details_held,
}
use argo_workflows_metrics.Workflow.Collector.Legal.{detail-is_workflow}

module _ (R : Registry) (L : IsLawful R) (r : R.State) (blank : IsBlank (R.value r))
    (details : Bool) (c : WorkflowCollector) (ws : List Write)
    (ser : Serial run_calls is_workflow (new_workflow_collector details) c ws) where
  shown :
      (x : Series)
      → is_workflow x.metric ≡ true
      → R.value (run R ws r) x
        ≡ R.value (run R (run_calls (new_workflow_collector details) ser.calls).1 r) x
  shown x o =
      value-run R L ws r x
      ∙ ser.shows x (R.value r x) o
      ∙ sym (value-run R L (run_calls (new_workflow_collector details) ser.calls).1 r x)

  pub surrounded-exact :
      (n p : String)
      → (R.value (run R ws r) (count_series n) ≡ exposed (count_in n c.workflows))
        × (R.value (run R ws r) (total_series n p) ≡ exposed (count_phase n p c.workflows))
  surrounded-exact n p = (
    shown (count_series n) refl
        ∙ count_exact R L r blank details ser.calls n
        ∙ ap (λ (d : WorkflowCollector). exposed (count_in n d.workflows)) (sym ser.collected),
    shown (total_series n p) refl
        ∙ total_exact R L r blank details ser.calls n p
        ∙ ap (λ (d : WorkflowCollector). exposed (count_phase n p d.workflows)) (sym ser.collected),
  )

  pub surrounded-held :
      (x : Series)
      → is_detail x.metric ≡ true
      → R.value (run R ws r) x ≢ none
      → (k : String) × (wf : Workflow) × (lookup k c.workflows ≡ some wf) × Own wf x
  surrounded-held x d n =
      let (k, wf, l, own) =
        details_held R L r blank details ser.calls x d
          (subst (λ o. o ≢ none) (shown x (detail-is_workflow x.metric d)) n) in
      (k, wf, ap (λ (d : WorkflowCollector). lookup k d.workflows) ser.collected ∙ l, own)
