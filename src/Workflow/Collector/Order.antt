-- ===== src/Workflow/Collector/Order.antt =====
-- The operations do not depend on the orders in which maps are visited.
use argo_workflows_metrics.Base.{
  ◌≡◌, refl, sym, ap, ◌∙◌, String, Bool, true, false, Option, none, some, List, [], ◌∷◌, ◌++◌,
  string_eq, ◌==◌, if◌then◌else◌, ltb, ◌&&◌,
}
use argo_workflows_metrics.Base.Dict.{Dict}
use argo_workflows_metrics.Base.Dict.Visits.{Same, insert-Same, erase-Same}
use argo_workflows_metrics.Metrics.{Series, Sample, Write, series_eq}
use argo_workflows_metrics.Metrics.Trace.{after, after-append}
use argo_workflows_metrics.Workflow.{Workflow, WorkflowCollector, key}
use argo_workflows_metrics.Workflow.Aggregate.{aggregate_writes, update_aggregated_metrics}
use argo_workflows_metrics.Workflow.Aggregate.Loop.{
  contains-current_namespaces, contains-current_namespace_phases,
  current_namespace_phases-NodupKeys₂,
}
use argo_workflows_metrics.Workflow.Aggregate.Order.{Alike, aggregate-Alike, count_where-Same}
use argo_workflows_metrics.Workflow.Collector.Form.{
  detail_writes, next_workflows, is_nil, step_form,
}
use argo_workflows_metrics.Workflow.Collector.History.{run_calls}
use argo_workflows_metrics.Workflow.Collector.Tidy.{next-NodupKeys}
use argo_workflows_metrics.Workflow.Collector.{
  Call, adds, deletes, replaces, delete_all, collect_all, rebuild, Step, step,
}
use argo_workflows_metrics.Workflow.Collector.Deletions.{delete_all-Same}

replaced-Alike :
    (details : Bool) (x : Series) (old : Option Sample) (ws : List Write)
    (d d' : Dict String Workflow)
    → after x old (delete_all d) ≡ after x old (delete_all d')
    → after x old (if details then delete_all d ++ ws else [])
      ≡ after x old (if details then delete_all d' ++ ws else [])
replaced-Alike true x old ws d d' e =
    after-append x old (delete_all d) ws
    ∙ ap (λ o. after x o ws) e
    ∙ sym (after-append x old (delete_all d') ws)
replaced-Alike false x old ws d d' e = refl

-- The calls on details.
details-Alike :
    (x : Series) (old : Option Sample) (c c' : WorkflowCollector) (call : Call)
    → Alike c c'
    → after x old (detail_writes c call) ≡ after x old (detail_writes c' call)
unfolding detail_writes
details-Alike x old c c' (adds now none) a = refl
details-Alike x old c c' (adds now (some wf)) a = rw (a.details, a.workflows (key wf)) refl
details-Alike x old c c' (deletes none) a = refl
details-Alike x old c c' (deletes (some wf)) a = rw (a.details, a.workflows (key wf)) refl
details-Alike x old c c' (replaces now wfs) a = rw a.details (
    replaced-Alike c'.collect_details x old (collect_all now (rebuild [] wfs)) c.workflows
      c'.workflows
      (delete_all-Same x old c.workflows c'.workflows a.distinct.0 a.distinct.1 a.workflows))

next-Same :
    (c c' : WorkflowCollector) (call : Call)
    → Alike c c'
    → Same (next_workflows c call) (next_workflows c' call)
unfolding next_workflows
next-Same c c' (adds now none) a = a.workflows
next-Same c c' (adds now (some wf)) a = insert-Same (key wf) wf c.workflows c'.workflows a.workflows
next-Same c c' (deletes none) a = a.workflows
next-Same c c' (deletes (some wf)) a = erase-Same (key wf) c.workflows c'.workflows a.workflows
next-Same c c' (replaces now wfs) a = λ k. refl

-- The collector with the cache of the call, before the update.
next-Alike :
    (c c' : WorkflowCollector) (call : Call)
    → Alike c c'
    → Alike
        (record c { workflows = next_workflows c call })
        (record c' { workflows = next_workflows c' call })
next-Alike c c' call a = record {
  details = a.details;
  workflows = next-Same c c' call a;
  namespaces = a.namespaces;
  phases = a.phases;
  distinct = (next-NodupKeys c call a.distinct.0, next-NodupKeys c' call a.distinct.1);
  distinct_phases = a.distinct_phases;
}

updated-Alike :
    (c c' : WorkflowCollector)
    → Alike c c'
    → Alike (update_aggregated_metrics c).0 (update_aggregated_metrics c').0
unfolding update_aggregated_metrics
updated-Alike c c' a =
    let same = λ (p : String × Workflow → Bool).
      count_where-Same p c.workflows c'.workflows a.distinct.0 a.distinct.1 a.workflows in
    record {
      details = a.details;
      workflows = a.workflows;
      namespaces = λ n.
          contains-current_namespaces c.workflows n
          ∙ ap (ltb 0) (same (λ w. n == w.1.namespace))
          ∙ sym (contains-current_namespaces c'.workflows n);
      phases = λ n p.
          contains-current_namespace_phases c.workflows n p
          ∙ ap (ltb 0) (same (λ w. n == w.1.namespace && p == w.1.phase))
          ∙ sym (contains-current_namespace_phases c'.workflows n p);
      distinct = a.distinct;
      distinct_phases = (
        current_namespace_phases-NodupKeys₂ c.workflows,
        current_namespace_phases-NodupKeys₂ c'.workflows,
      );
    }

-- The same maps in some orders, and the same values of every series.
abbrev pub Agree : Step → Step → Type 0
Agree (c, ws) (c', ws') =
    Alike c c' × ((x : Series) (old : Option Sample) → after x old ws ≡ after x old ws')

changing :
    (c c' : WorkflowCollector) (call : Call)
    → is_nil call ≡ false
    → Alike c c'
    → Agree (step c call) (step c' call)
unfolding update_aggregated_metrics
changing c c' call i a =
    let d = record c { workflows = next_workflows c call } in
    let d' = record c' { workflows = next_workflows c' call } in
    let b = next-Alike c c' call a in
    rw (step_form c call, step_form c' call, i)
      (
        updated-Alike d d' b,
        λ x old.
            after-append x old (detail_writes c call) (aggregate_writes d)
            ∙ ap (λ o. after x o (aggregate_writes d)) (details-Alike x old c c' call a)
            ∙ aggregate-Alike x _ d d' b
            ∙ sym (after-append x old (detail_writes c' call) (aggregate_writes d')),
      )

step-Agree :
    (c c' : WorkflowCollector) (call : Call) → Alike c c' → Agree (step c call) (step c' call)
unfolding step
step-Agree c c' (adds now none) a = (a, λ x old. refl)
step-Agree c c' (deletes none) a = (a, λ x old. refl)
step-Agree c c' (adds now (some wf)) a = changing c c' (adds now (some wf)) refl a
step-Agree c c' (deletes (some wf)) a = changing c c' (deletes (some wf)) refl a
step-Agree c c' (replaces now wfs) a = changing c c' (replaces now wfs) refl a

-- Two collectors that hold the same maps, each in an order of its own, go through any history of
-- calls alike: they end with the same maps, and every series has the same value after the calls of
-- the one as after those of the other, whatever it was before.
pub history-Agree :
    (c c' : WorkflowCollector) (calls : List Call)
    → Alike c c'
    → Agree (run_calls c calls) (run_calls c' calls)
unfolding run_calls
history-Agree c c' [] a = (a, λ x old. refl)
history-Agree c c' (call ∷ calls) a =
    let (b, same) = step-Agree c c' call a in
    let (b', same') = history-Agree (step c call).0 (step c' call).0 calls b in
    (
      b',
      λ x old.
          after-append x old (step c call).1 (run_calls (step c call).0 calls).1
          ∙ ap (λ o. after x o (run_calls (step c call).0 calls).1) (same x old)
          ∙ same' x _
          ∙ sym (after-append x old (step c' call).1 (run_calls (step c' call).0 calls).1),
    )
