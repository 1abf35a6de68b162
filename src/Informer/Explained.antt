-- ===== src/Informer/Explained.antt =====
-- The two sources as histories of their collectors, and the effects of the two full reconciles.
use mathlib.Core.List.{append-nil}
use argo_workflows_metrics.Base.{
  ◌≡◌, refl, sym, ap, subst, Bool, true, false, String, Option, some, List, [], ◌∷◌, arith,
  Bool-cases, inl, inr,
}
use argo_workflows_metrics.Base.Time.{Time}
use argo_workflows_metrics.Metrics.{Metric, labels, kind}
use argo_workflows_metrics.Metrics.Owners.{is_own, is_workflow, is_container}
use argo_workflows_metrics.Workflow.{Workflow, WorkflowCollector}
use argo_workflows_metrics.Workflow.Collector.{
  adds, deletes, replaces, step, add_workflow, delete_workflow, replace_workflows,
}
use argo_workflows_metrics.Workflow.Collector
use argo_workflows_metrics.Workflow.Collector.History.{run_calls}
use argo_workflows_metrics.Workflow.Collector.Runs.{
  run_calls-IsRun, run_calls-On, run_calls-IsLegal,
}
use argo_workflows_metrics.Pod.{Pod, PodCollector, add_pod}
use argo_workflows_metrics.Pod.History
use argo_workflows_metrics.Health.{
  State, mark_workflow_event, mark_workflow_synced, mark_pod_event, mark_pod_synced,
}
use argo_workflows_metrics.Health.Reach
use argo_workflows_metrics.Queue.{WorkQueue}
use argo_workflows_metrics.Informer.{Item, Object, object, tombstone, other_object, Moment}
use argo_workflows_metrics.Informer.Workflows
use argo_workflows_metrics.Informer.Workflows.{workflow_source, WorkflowInformer, select}
use argo_workflows_metrics.Informer.Pods
use argo_workflows_metrics.Informer.Pods.{pod_source, PodInformer, add_listed, accepts_pod}
use argo_workflows_metrics.Informer.Effects.{
  Quiet, Explains, Effects, Effects-trans, still-Effects, calls-Effects,
}
use argo_workflows_metrics.Informer.Steps.{StepEffects}

pub workflow-own : (m : Metric) → is_workflow m ≡ true → is_own m ≡ false
workflow-own m e = ground arith

pub container-own : (m : Metric) → is_container m ≡ true → is_own m ≡ false
container-own m e = ground arith

-- One call is a history.
workflow-one :
    (c : WorkflowCollector) (call : Collector.Call) → step c call ≡ run_calls c (call ∷ [])
unfolding run_calls
workflow-one c call = ap (λ ws. ((step c call).0, ws)) (sym (append-nil (step c call).1))

pub pod-one :
    (c : PodCollector) (call : History.Call) → History.step c call ≡ History.run_calls c (call ∷ [])
unfolding History.run_calls
pod-one c call = ap (λ ws. ((History.step c call).0, ws)) (sym (append-nil (History.step c call).1))

pub workflow-adds :
    (now : Time) (wf : Workflow) (c : WorkflowCollector)
    → add_workflow now (some wf) c ≡ run_calls c (adds now (some wf) ∷ [])
unfolding step
workflow-adds now wf c = workflow-one c (adds now (some wf))

pub workflow-deletes :
    (wf : Workflow) (c : WorkflowCollector)
    → delete_workflow (some wf) c ≡ run_calls c (deletes (some wf) ∷ [])
unfolding step
workflow-deletes wf c = workflow-one c (deletes (some wf))

workflow-replaces :
    (now : Time) (wfs : List (Option Workflow)) (c : WorkflowCollector)
    → replace_workflows now wfs c ≡ run_calls c (replaces now wfs ∷ [])
unfolding step
workflow-replaces now wfs c = workflow-one c (replaces now wfs)

pub workflow-event :
    (now : Time) (s : State) → mark_workflow_event now s ≡ Reach.step s (Reach.workflow_event now)
unfolding Reach.step
workflow-event now s = refl

pub workflow-synced : (s : State) → mark_workflow_synced s ≡ Reach.step s Reach.workflows_synced
unfolding Reach.step
workflow-synced s = refl

pub pod-event : (now : Time) (s : State) → mark_pod_event now s ≡ Reach.step s (Reach.pod_event now)
unfolding Reach.step
pod-event now s = refl

pub pod-synced : (s : State) → mark_pod_synced s ≡ Reach.step s Reach.pods_synced
unfolding Reach.step
pod-synced s = refl

abbrev pub workflow_history : Explains workflow_source
workflow_history = record {
  Call = Collector.Call;
  run = run_calls;
  is_run = run_calls-IsRun;
  owns = is_workflow;
  apart = workflow-own;
  confined = run_calls-On;
  legal = run_calls-IsLegal;
  adds = λ now wf. adds now (some wf);
  deletes = λ wf. deletes (some wf);
  adds_lem = workflow-adds;
  deletes_lem = workflow-deletes;
  event_call = Reach.workflow_event;
  synced_call = Reach.workflows_synced;
  event_lem = workflow-event;
  synced_lem = workflow-synced;
}

abbrev pub pod_history : Explains pod_source
pod_history = record {
  Call = History.Call;
  run = History.run_calls;
  is_run = History.run_calls-IsRun;
  owns = is_container;
  apart = container-own;
  confined = History.run_calls-On;
  legal = History.run_calls-IsLegal;
  adds = λ now pod. History.adds (some pod);
  deletes = λ pod. History.deletes (some pod);
  adds_lem = λ now pod c. pod-one c (History.adds (some pod));
  deletes_lem = λ pod c. pod-one c (History.deletes (some pod));
  event_call = Reach.pod_event;
  synced_call = Reach.pods_synced;
  event_lem = pod-event;
  synced_lem = pod-synced;
}

select-Quiet :
    (matcher : String → Bool) (items : List (Object Workflow)) → Quiet (select matcher items).1
unfolding select labels kind
select-Quiet matcher [] = tt
select-Quiet matcher (object wf ∷ items) = elim (Bool-cases (matcher wf.namespace)) [
  | inl e ↦ rw e (select-Quiet matcher items)
  | inr e ↦ rw e (select-Quiet matcher items)
]
select-Quiet matcher (tombstone obj ∷ items) =
    ((refl, (refl, refl)), ((refl, (refl, refl)), select-Quiet matcher items))
select-Quiet matcher (other_object ∷ items) =
    ((refl, (refl, refl)), ((refl, (refl, refl)), select-Quiet matcher items))

pub workflows-reconcile :
    (Q : WorkQueue (Item Workflow)) (moment : Moment) (items : List (Object Workflow))
    (wi : WorkflowInformer Q)
    → StepEffects workflow_source workflow_history Q wi
        (Workflows.run_full_reconcile Q false moment items wi)
unfolding Workflows.run_full_reconcile labels kind
workflows-reconcile Q (now, elapsed) items wi =
    let (wfs, errors) = select wi.namespace_matcher items in
    rw (workflow-replaces now wfs wi.collector) (
      calls-Effects workflow_source workflow_history wi.collector wi.health_state
        (replaces now wfs ∷ []) errors _ (select-Quiet wi.namespace_matcher items)
        ((refl, (refl, refl)), ((refl, (refl, refl)), tt)))

added-Effects :
    (pod : Pod) (c : PodCollector) (h : Option State)
    → Effects pod_source pod_history c (add_pod (some pod) c).0 h h (add_pod (some pod) c).1
added-Effects pod c h =
    let call = History.adds (some pod) in
    rw (pod-one c call) (
      subst (Effects pod_source pod_history c (History.run_calls c (call ∷ [])).0 h h)
        (append-nil (History.run_calls c (call ∷ [])).1)
        (calls-Effects pod_source pod_history c h (call ∷ []) [] [] tt tt))

-- The loop of the full reconcile of pods.
add_listed-Effects :
    (matcher : String → Bool) (items : List (Object Pod)) (c : PodCollector) (h : Option State)
    → Effects pod_source pod_history c
        (add_listed matcher items c).0
        h
        h
        (add_listed matcher items c).1.0
unfolding add_listed labels kind
add_listed-Effects matcher [] c h = still-Effects pod_source pod_history c h [] tt
add_listed-Effects matcher (object pod ∷ items) c h = elim (Bool-cases (accepts_pod matcher pod)) [
  | inl e ↦
      let c' = (add_pod (some pod) c).0 in
      rw e (
        Effects-trans pod_source pod_history c c' _ h h h _ _ (added-Effects pod c h)
          (add_listed-Effects matcher items c' h))
  | inr e ↦ rw e (add_listed-Effects matcher items c h)
]
add_listed-Effects matcher (tombstone obj ∷ items) c h =
    Effects-trans pod_source pod_history c c _ h h h _ _
      (still-Effects pod_source pod_history c h (_ ∷ _ ∷ [])
        ((refl, (refl, refl)), ((refl, (refl, refl)), tt)))
      (add_listed-Effects matcher items c h)
add_listed-Effects matcher (other_object ∷ items) c h =
    Effects-trans pod_source pod_history c c _ h h h _ _
      (still-Effects pod_source pod_history c h (_ ∷ _ ∷ [])
        ((refl, (refl, refl)), ((refl, (refl, refl)), tt)))
      (add_listed-Effects matcher items c h)

pub pods-reconcile :
    (Q : WorkQueue (Item Pod)) (moment : Moment) (items : List (Object Pod)) (pi : PodInformer Q)
    → StepEffects pod_source pod_history Q pi (Pods.run_full_reconcile Q false moment items pi)
unfolding Pods.run_full_reconcile labels kind
pods-reconcile Q (now, elapsed) items pi =
    let h = pi.health_state in
    let c = (add_listed pi.namespace_matcher items pi.collector).0 in
    Effects-trans pod_source pod_history pi.collector c c h h h _ _
      (add_listed-Effects pi.namespace_matcher items pi.collector h)
      (still-Effects pod_source pod_history c h _
        ((refl, (refl, refl)), ((refl, (refl, refl)), tt)))
