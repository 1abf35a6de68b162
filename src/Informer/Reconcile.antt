-- ===== src/Informer/Reconcile.antt =====
-- The full reconcile: the cache that it leaves.
use argo_workflows_metrics.Base.{
  ◌≡◌, refl, ◌∙◌, Bool, false, String, Option, none, some, List, [], ◌∷◌, if◌then◌else◌, string_eq,
  ◌==◌, ◌&&◌, Bool-cases, inl, inr,
}
use argo_workflows_metrics.Base.Dict.{lookup}
use argo_workflows_metrics.Workflow.{Workflow, key}
use argo_workflows_metrics.Workflow.Collector.{replaces, step}
use argo_workflows_metrics.Workflow.Collector.History.{last_listed, run_calls, lookup-run_calls}
use argo_workflows_metrics.Queue.{WorkQueue}
use argo_workflows_metrics.Informer.{Item, Object, object, tombstone, other_object, Moment}
use argo_workflows_metrics.Informer.Workflows.{WorkflowInformer, select, run_full_reconcile}

-- The last workflow of the store that has the key and a namespace that the matcher accepts.
abbrev pub last_matching :
    (String → Bool) → String → Option Workflow → List (Object Workflow) → Option Workflow
last_matching matcher k found [] = found
last_matching matcher k found (object wf ∷ items) =
    last_matching matcher k (if matcher wf.namespace && k == key wf then some wf else found) items
last_matching matcher k found (_ ∷ items) = last_matching matcher k found items

last_listed-select :
    (matcher : String → Bool) (k : String) (found : Option Workflow)
    (items : List (Object Workflow))
    → last_listed k found (select matcher items).0 ≡ last_matching matcher k found items
unfolding select
last_listed-select matcher k found [] = refl
last_listed-select matcher k found (object wf ∷ items) = elim (Bool-cases (matcher wf.namespace)) [
  | inl e ↦ rw e (last_listed-select matcher k (if k == key wf then some wf else found) items)
  | inr e ↦ rw e (last_listed-select matcher k found items)
]
last_listed-select matcher k found (tombstone obj ∷ items) =
    last_listed-select matcher k found items
last_listed-select matcher k found (other_object ∷ items) = last_listed-select matcher k found items

-- After a full reconcile that is not cancelled the cache holds under each key the last workflow of
-- the store with that key and an accepted namespace, and nothing where there is none, whatever it
-- held before.
pub reconciled :
    (Q : WorkQueue (Item Workflow)) (moment : Moment) (items : List (Object Workflow))
    (wi : WorkflowInformer Q) (k : String)
    → lookup k (run_full_reconcile Q false moment items wi).0.collector.workflows
      ≡ last_matching wi.namespace_matcher k none items
unfolding run_full_reconcile run_calls step
reconciled Q (now, elapsed) items wi k =
    lookup-run_calls k wi.collector (replaces now (select wi.namespace_matcher items).0 ∷ [])
    ∙ last_listed-select wi.namespace_matcher k none items
