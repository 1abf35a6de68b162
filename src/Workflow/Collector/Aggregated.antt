-- ===== src/Workflow/Collector/Aggregated.antt =====
-- Every operation keeps the aggregated series equal to the counts of the cached workflows.
use argo_workflows_metrics.Base.{
  ℕ, zero, suc, ◌≡◌, refl, sym, ap, ◌∙◌, String, true, false, Option, none, some, List, [], ◌∷◌,
  ◌++◌, arith, All, string_eq, is_some, ltb,
}
use argo_workflows_metrics.Base.Time.{Time}
use argo_workflows_metrics.Base.Dict.{Dict, contains}
use argo_workflows_metrics.Base.Dict.Nested.{lookup₂, NodupKeys₂}
use argo_workflows_metrics.Metrics.{Series, Sample, Write}
use argo_workflows_metrics.Metrics.Trace.{after, after-append, target, Misses, after_missed}
use argo_workflows_metrics.Workflow.{Workflow, WorkflowCollector}
use argo_workflows_metrics.Workflow.Series.{collect_workflow_series, delete_workflow_series}
use argo_workflows_metrics.Workflow.Series.Own.{Own, is_detail, collect-All, delete-All}
use argo_workflows_metrics.Workflow.Aggregate.{
  count_series, total_series, aggregate_writes, update_aggregated_metrics,
}
use argo_workflows_metrics.Workflow.Aggregate.Loop.{
  count_in, count_phase, contains-current_namespaces, contains-current_namespace_phases,
  current_namespace_phases-NodupKeys₂,
}
use argo_workflows_metrics.Workflow.Aggregate.Exact.{exposed, after-count, after-total}
use argo_workflows_metrics.Workflow.Collector.Form.{
  detail_writes, next_workflows, is_nil, step_form, detail_writes-All,
}
use argo_workflows_metrics.Workflow.Collector.{Call, adds, deletes, replaces, then_aggregate, step}

-- The values that the series have, and what calls make of them.
abbrev pub Values : Type 0
Values = Series → Option Sample

abbrev pub apply : List Write → Values → Values
apply ws v x = after x (v x) ws

-- The aggregated series show the counts, and the collector remembers what it has exposed.
pub record Aggregated (c : WorkflowCollector) (v : Values) : Type 0 where
  pub counts : (n : String) → v (count_series n) ≡ exposed (count_in n c.workflows)
  pub totals_shown : (n p : String) → v (total_series n p) ≡ exposed (count_phase n p c.workflows)
  pub seen : (n : String) → contains n c.last_namespaces ≡ false → v (count_series n) ≡ none
  pub seen_phases :
      (n p : String)
      → is_some (lookup₂ n p c.last_namespace_phases) ≡ false
      → v (total_series n p) ≡ none
  pub distinct : NodupKeys₂ c.last_namespace_phases

-- Calls on detail metrics only.
abbrev Detail : List Write → Type 0
Detail = All λ w. is_detail (target w).metric ≡ true

Detail-Misses :
    (x : Series) (ws : List Write) → is_detail x.metric ≡ false → Detail ws → Misses x ws
Detail-Misses x [] f h = tt
Detail-Misses x (w ∷ ws) f h =
    ((λ e. cc (ap (λ (y : Series). is_detail y.metric) e, h.0)), Detail-Misses x ws f h.1)

apply-Detail :
    (x : Series) (v : Values) (ws vs : List Write)
    → is_detail x.metric ≡ false
    → Detail ws
    → apply (ws ++ vs) v x ≡ after x (v x) vs
apply-Detail x v ws vs f d =
    after-append x (v x) ws vs
    ∙ ap (λ o. after x o vs) (after_missed x (v x) ws (Detail-Misses x ws f d))

exposed_zero : (n : ℕ) → ltb 0 n ≡ false → exposed n ≡ none
exposed_zero zero h = refl
exposed_zero (suc n) h = absurd (ground arith)

-- What an update achieves from any cache, after calls on details only.
module _ (c : WorkflowCollector) (next : Dict String Workflow) (v : Values) (ws : List Write) where
  abbrev c' : WorkflowCollector
  c' = record c { workflows = next }

  module _ (h : Aggregated c v) (d : Detail ws) where
    update-count :
        (n : String)
        → apply (ws ++ aggregate_writes c') v (count_series n) ≡ exposed (count_in n next)
    update-count n =
        apply-Detail (count_series n) v ws (aggregate_writes c') refl d
        ∙ after-count c' (v (count_series n)) n (h.seen n)

    update-total :
        (n p : String)
        → apply (ws ++ aggregate_writes c') v (total_series n p) ≡ exposed (count_phase n p next)
    update-total n p =
        apply-Detail (total_series n p) v ws (aggregate_writes c') refl d
        ∙ after-total c' (v (total_series n p)) n p h.distinct (h.seen_phases n p)

    update-Aggregated : Aggregated (then_aggregate ws c').0 (apply (then_aggregate ws c').1 v)
    unfolding update_aggregated_metrics
    update-Aggregated = record {
      counts = update-count;
      totals_shown = update-total;
      seen = λ n g. update-count n ∙ exposed_zero _ (sym (contains-current_namespaces next n) ∙ g);
      seen_phases = λ n p g.
          update-total n p ∙ exposed_zero _ (sym (contains-current_namespace_phases next n p) ∙ g);
      distinct = current_namespace_phases-NodupKeys₂ next;
    }

collect-Detail : (wf : Workflow) (now : Time) → Detail (collect_workflow_series wf now)
collect-Detail wf =
    collect-All wf (λ w. is_detail (target w).metric ≡ true) (λ x v (o : Own wf x). o.detail)

delete-Detail : (wf : Workflow) → Detail (delete_workflow_series wf)
delete-Detail wf =
    delete-All wf (λ w. is_detail (target w).metric ≡ true) (λ x (o : Own wf x). o.detail)

detail_writes-Detail : (c : WorkflowCollector) (call : Call) → Detail (detail_writes c call)
detail_writes-Detail =
    detail_writes-All (λ w. is_detail (target w).metric ≡ true) collect-Detail delete-Detail

changing :
    (c : WorkflowCollector) (v : Values) (call : Call)
    → is_nil call ≡ false
    → Aggregated c v
    → Aggregated (step c call).0 (apply (step c call).1 v)
changing c v call e h =
    rw (step_form c call, e)
      (update-Aggregated c (next_workflows c call) v (detail_writes c call) h
        (detail_writes-Detail c call))

-- Each operation, from any state, keeps the aggregated series right.
pub step-Aggregated :
    (c : WorkflowCollector) (v : Values) (call : Call)
    → Aggregated c v
    → Aggregated (step c call).0 (apply (step c call).1 v)
unfolding step
step-Aggregated c v (adds now none) h = h
step-Aggregated c v (deletes none) h = h
step-Aggregated c v (adds now (some wf)) h = changing c v (adds now (some wf)) refl h
step-Aggregated c v (deletes (some wf)) h = changing c v (deletes (some wf)) refl h
step-Aggregated c v (replaces now wfs) h = changing c v (replaces now wfs) refl h
