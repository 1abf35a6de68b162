-- ===== src/Workflow/Collector/Tidy.antt =====
-- The operations of the collector leave no detail series without its cached workflow.
use mathlib.Core.List.{append-nil}
use argo_workflows_metrics.Base.{
  ◌≡◌, refl, sym, ap, subst, ◌∙◌, ◌≢◌, inl, inr, String, Bool, true, false, Option, none, some,
  List, [], ◌∷◌, ◌++◌, arith, All, All-concat_map_mem, Bool-cases, string_eq, if◌then◌else◌,
  value_or,
}
use argo_workflows_metrics.Base.Time.{Time}
use argo_workflows_metrics.Base.Dict.{
  Dict, lookup, insert, erase, NodupKeys, lookup-insert, lookup_entries, insert-NodupKeys,
  erase-NodupKeys,
}
use argo_workflows_metrics.Metrics.{Series, Sample, Write}
use argo_workflows_metrics.Metrics.Trace.{after, target}
use argo_workflows_metrics.Workflow.{Workflow, WorkflowCollector, key}
use argo_workflows_metrics.Workflow.Series.{collect_workflow_series, delete_workflow_series}
use argo_workflows_metrics.Workflow.Series.Own.{is_detail}
use argo_workflows_metrics.Workflow.Series.Cleanup.{delete_workflow_series-IsDelete}
use argo_workflows_metrics.Workflow.Aggregate.{update_aggregated_metrics}
use argo_workflows_metrics.Workflow.Collector.Aggregated.{Values, apply}
use argo_workflows_metrics.Workflow.Collector.Form.{
  detail_writes, next_workflows, is_nil, step_form,
}
use argo_workflows_metrics.Workflow.Collector.{
  Call, adds, deletes, replaces, delete_previous, delete_all, collect_all, rebuild, step,
}
use argo_workflows_metrics.Workflow.Collector.Held.{
  Holder, Held, apply-aggregate, details-Held, add-keeps, delete-keeps, delete_previous-IsDelete,
  delete_all-IsDelete, delete_all-Clears, collected,
}

-- Everything that the operations maintain of the details.
pub record Tidy (c : WorkflowCollector) (v : Values) : Type 0 where
  pub distinct : NodupKeys c.workflows
  pub held : Held c.workflows v
  pub quiet : c.collect_details ≡ false → (x : Series) → is_detail x.metric ≡ true → v x ≡ none

pub rebuild-NodupKeys :
    (next : Dict String Workflow) (wfs : List (Option Workflow))
    → NodupKeys next
    → NodupKeys (rebuild next wfs)
unfolding rebuild
rebuild-NodupKeys next [] u = u
rebuild-NodupKeys next (none ∷ wfs) u = rebuild-NodupKeys next wfs u
rebuild-NodupKeys next (some wf ∷ wfs) u =
    rebuild-NodupKeys (insert (key wf) wf next) wfs (insert-NodupKeys (key wf) wf next u)

pub next-NodupKeys :
    (c : WorkflowCollector) (call : Call)
    → NodupKeys c.workflows
    → NodupKeys (next_workflows c call)
unfolding next_workflows
next-NodupKeys c (adds now none) u = u
next-NodupKeys c (adds now (some wf)) u = insert-NodupKeys (key wf) wf c.workflows u
next-NodupKeys c (deletes none) u = u
next-NodupKeys c (deletes (some wf)) u = erase-NodupKeys (key wf) c.workflows u
next-NodupKeys c (replaces now wfs) u = rebuild-NodupKeys [] wfs tt

collect_all-Holder :
    (next : Dict String Workflow) (now : Time)
    → NodupKeys next
    → All (λ w. Holder next (target w)) (collect_all now next)
collect_all-Holder next now u =
    All-concat_map_mem (λ e. lookup e.0 next ≡ some e.1) _ _ next
      (λ e h. collected next e.0 e.1 now h) (lookup_entries next u)

-- With details off no call is on a detail series.
quiet-writes :
    (c : WorkflowCollector) (call : Call) → c.collect_details ≡ false → detail_writes c call ≡ []
unfolding detail_writes
quiet-writes c (adds now none) e = refl
quiet-writes c (adds now (some wf)) e = rw e
quiet-writes c (deletes none) e = refl
quiet-writes c (deletes (some wf)) e = rw e
quiet-writes c (replaces now wfs) e = rw e

-- The calls that are made with details on.
writes_on :
    (details : Bool) (x : Series) (old : Option Sample) (ws vs : List Write)
    → details ≡ true
    → ws ≡ vs
    → after x old (if details then ws else []) ≢ none
    → after x old vs ≢ none
writes_on details x old ws vs e p n =
    subst (λ us. after x old us ≢ none) p
      (subst (λ b. after x old (if b then ws else []) ≢ none) e n)

-- With details on what is exposed after the calls of an operation has a holder.
noisy-Held :
    (c : WorkflowCollector) (v : Values) (call : Call)
    → is_nil call ≡ false
    → c.collect_details ≡ true
    → Tidy c v
    → (x : Series) → is_detail x.metric ≡ true
    → after x (v x) (detail_writes c call) ≢ none
    → Holder (next_workflows c call) x
unfolding detail_writes next_workflows
noisy-Held c v (adds now none) i e t x m n = absurd (cc)
noisy-Held c v (adds now (some wf)) i e t x m n =
    details-Held c.workflows (insert (key wf) wf c.workflows) v
      (delete_previous (lookup (key wf) c.workflows)) (collect_workflow_series wf now) t.held
      (delete_previous-IsDelete _)
      (collected _ (key wf) wf now (ground (arith, lookup-insert (key wf) (key wf) wf c.workflows)))
      (add-keeps c.workflows wf) x m (writes_on c.collect_details x (v x) _ _ e refl n)
noisy-Held c v (deletes none) i e t x m n = absurd (cc)
noisy-Held c v (deletes (some wf)) i e t x m n =
    let ds = delete_workflow_series (value_or wf (lookup (key wf) c.workflows)) in
    details-Held c.workflows (erase (key wf) c.workflows) v ds [] t.held
      (delete_workflow_series-IsDelete _) tt (delete-keeps c.workflows wf) x m
      (writes_on c.collect_details x (v x) ds (ds ++ []) e (sym (append-nil ds)) n)
noisy-Held c v (replaces now wfs) i e t x m n =
    details-Held c.workflows (rebuild [] wfs) v (delete_all c.workflows)
      (collect_all now (rebuild [] wfs)) t.held (delete_all-IsDelete c.workflows)
      (collect_all-Holder (rebuild [] wfs) now (rebuild-NodupKeys [] wfs tt))
      (λ y (k, wf, l, own, cleared). inr (delete_all-Clears k wf y c.workflows l cleared)) x m
      (writes_on c.collect_details x (v x) _ _ e refl n)

detail-cases :
    (c : WorkflowCollector) (v : Values) (call : Call)
    → is_nil call ≡ false
    → Tidy c v
    → (x : Series) → is_detail x.metric ≡ true
    → after x (v x) (detail_writes c call) ≢ none
    → Holder (next_workflows c call) x
detail-cases c v call i t x m n = elim (Bool-cases c.collect_details) [
  | inl e ↦ noisy-Held c v call i e t x m n
  | inr e ↦ absurd (n (ap (after x (v x)) (quiet-writes c call e) ∙ t.quiet e x m))
]

changing :
    (c : WorkflowCollector) (v : Values) (call : Call)
    → is_nil call ≡ false
    → Tidy c v
    → Tidy (step c call).0 (apply (step c call).1 v)
unfolding update_aggregated_metrics
changing c v call i t =
    rw (step_form c call, i)
      (record {
        distinct = next-NodupKeys c call t.distinct;
        held = λ x m n. detail-cases c v call i t x m (
            subst (λ o. o ≢ none)
              (apply-aggregate x v (detail_writes c call)
                (record c { workflows = next_workflows c call }) m)
              n);
        quiet = λ e x m.
            apply-aggregate x v (detail_writes c call)
              (record c { workflows = next_workflows c call }) m
            ∙ ap (after x (v x)) (quiet-writes c call e)
            ∙ t.quiet e x m;
      })

-- Each operation, from any state, keeps the details tidy.
pub step-Tidy :
    (c : WorkflowCollector) (v : Values) (call : Call)
    → Tidy c v
    → Tidy (step c call).0 (apply (step c call).1 v)
unfolding step
step-Tidy c v (adds now none) t = t
step-Tidy c v (deletes none) t = t
step-Tidy c v (adds now (some wf)) t = changing c v (adds now (some wf)) refl t
step-Tidy c v (deletes (some wf)) t = changing c v (deletes (some wf)) refl t
step-Tidy c v (replaces now wfs) t = changing c v (replaces now wfs) refl t
