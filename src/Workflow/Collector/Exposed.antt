-- ===== src/Workflow/Collector/Exposed.antt =====
-- What `/metrics` shows of the cached workflows after any history of calls, with details on.
use argo_workflows_metrics.Base.{
  ◌≡◌, refl, ◌∙◌, String, Bool, true, none, some, List, [], ◌∷◌, if◌then◌else◌, string_eq, ◌==◌,
  Bool-cases, inl, inr,
}
use argo_workflows_metrics.Base.Time.{Time}
use argo_workflows_metrics.Base.Dict.{lookup, lookup-nil}
use argo_workflows_metrics.Metrics.{Series, whole}
use argo_workflows_metrics.Metrics.Registry.{Registry, IsLawful, run}
use argo_workflows_metrics.Metrics.Trace.{after, value-run}
use argo_workflows_metrics.Workflow.{
  Workflow, workflow_phases, WorkflowCollector, new_workflow_collector,
}
use argo_workflows_metrics.Workflow.Series.{collect_workflow_series}
use argo_workflows_metrics.Workflow.Series.Phases.{is_listed, phase_series, after-collect}
use argo_workflows_metrics.Workflow.Series.Own.{is_detail}
use argo_workflows_metrics.Workflow.Aggregate.{update_aggregated_metrics}
use argo_workflows_metrics.Workflow.Collector.{Call, step}
use argo_workflows_metrics.Workflow.Collector.Aggregated.{Values}
use argo_workflows_metrics.Workflow.Collector.Form.{is_nil, step_form}
use argo_workflows_metrics.Workflow.Collector.History.{run_calls, run_calls_inv, IsBlank, new-Tidy}
use argo_workflows_metrics.Workflow.Collector.Named.{Named, nil-Keyed}
use argo_workflows_metrics.Workflow.Collector.Exactness.{Exact, step-Exact}

new-Exact : (details : Bool) (v : Values) → IsBlank v → Exact (new_workflow_collector details) v
unfolding new_workflow_collector
new-Exact details v b = record {
  tidy = new-Tidy details v b;
  keyed = nil-Keyed;
  collected = λ e k wf l. let n = lookup-nil {V = Workflow} k in absurd cc;
}

stepped-mode :
    (c : WorkflowCollector) (call : Call) → (step c call).0.collect_details ≡ c.collect_details
unfolding update_aggregated_metrics
stepped-mode c call = elim (Bool-cases (is_nil call)) [
  | inl e ↦ rw (step_form c call, e) refl
  | inr e ↦ rw (step_form c call, e) refl
]

-- No operation changes the mode.
run_calls-mode :
    (c : WorkflowCollector) (calls : List Call)
    → (run_calls c calls).0.collect_details ≡ c.collect_details
unfolding run_calls
run_calls-mode c [] = refl
run_calls-mode c (call ∷ calls) = run_calls-mode (step c call).0 calls ∙ stepped-mode c call

-- With details on, on a lawful registry that showed nothing at first, after any history of calls
-- each cached workflow is shown exactly: there is a time such that every series of a per-workflow
-- metric with the namespace and name of the workflow has the value that collecting the workflow at
-- that time gives it, and is not exposed where that gives none.
pub shown_exact :
    (R : Registry) (L : IsLawful R) (s : R.State)
    → IsBlank (R.value s)
    → (calls : List Call) (k : String) (wf : Workflow)
    → lookup k (run_calls (new_workflow_collector true) calls).0.workflows ≡ some wf
    → (now : Time) × ((x : Series)
        → is_detail x.metric ≡ true
        → Named wf x
        → R.value (run R (run_calls (new_workflow_collector true) calls).1 s) x
          ≡ after x none (collect_workflow_series wf now))
unfolding new_workflow_collector
shown_exact R L s blank calls k wf l =
    let h = run_calls_inv Exact step-Exact _ (R.value s) calls (new-Exact true _ blank) in
    let (now, f) = h.collected (run_calls-mode (new_workflow_collector true) calls) k wf l in
    (now, λ x d m. value-run R L (run_calls (new_workflow_collector true) calls).1 s x ∙ f x d m)

-- With details on, on a lawful registry that showed nothing at first, after any history of calls
-- the phase series of a cached workflow shows 1 for its own phase and 0 for each other of the five
-- known phases.
pub phases_exact :
    (R : Registry) (L : IsLawful R) (s : R.State)
    → IsBlank (R.value s)
    → (calls : List Call) (k : String) (wf : Workflow) (p : String)
    → lookup k (run_calls (new_workflow_collector true) calls).0.workflows ≡ some wf
    → is_listed p workflow_phases ≡ true
    → R.value (run R (run_calls (new_workflow_collector true) calls).1 s) (phase_series wf p)
      ≡ some (if p == wf.phase then whole 1 else whole 0)
phases_exact R L s blank calls k wf p l m =
    let (now, f) = shown_exact R L s blank calls k wf l in
    f (phase_series wf p) refl (p ∷ [], refl) ∙ after-collect wf p now none m
