-- ===== src/Informer/Pipeline.antt =====
-- From the deliveries of a watch through the queue and the workers to the metrics.
use argo_workflows_metrics.Base.{
  ℕ, suc, ◌≡◌, refl, sym, ap, ◌∙◌, Bool, false, String, Option, none, some, List, [], ◌∷◌, ◌++◌,
  length, string_eq,
}
use argo_workflows_metrics.Base.Int.{ℤ}
use argo_workflows_metrics.Base.Time.{Time, Duration}
use argo_workflows_metrics.Base.Dict.{lookup, lookup-nil}
use argo_workflows_metrics.Metrics.{Series, Sample, Write}
use argo_workflows_metrics.Metrics.Registry.{Registry, IsLawful, run}
use argo_workflows_metrics.Metrics.Trace.{after, after-append, value-run}
use argo_workflows_metrics.Health.{State, mark_workflow_event, mark_pod_event}
use argo_workflows_metrics.Workflow.{Workflow, WorkflowCollector, new_workflow_collector}
use argo_workflows_metrics.Workflow.Aggregate.{count_series}
use argo_workflows_metrics.Workflow.Aggregate.Loop.{count_in}
use argo_workflows_metrics.Workflow.Aggregate.Exact.{exposed}
use argo_workflows_metrics.Workflow.Collector.{
  Call, adds, deletes, Step, prepend, step, add_workflow, delete_workflow,
}
use argo_workflows_metrics.Workflow.Collector.History.{
  run_calls, cached, lookup-run_calls, IsBlank, count_exact,
}
use argo_workflows_metrics.Queue.{WorkQueue, IsFifo}
use argo_workflows_metrics.Informer.{Item, Object, Source, ObjectInformer, Moment, new_informer}
use argo_workflows_metrics.Informer.Workflows.{workflow_source}
use argo_workflows_metrics.Informer.Pods.{pod_source}
use argo_workflows_metrics.Informer.Delivery.{Handler, adding, updating, deleting}
use argo_workflows_metrics.Informer.Turns.{
  after-AllOwn, MarksOwn, operate, turns, watch, accepted, items, turns-Drained,
}
use argo_workflows_metrics.Metrics.Owners.{is_own}
use argo_workflows_metrics.Informer.Watched.{watch-Watched}

module _ {A C : Type 0} (S : Source A C) (Q : WorkQueue (Item A)) where
  abbrev pub accepted_objects :
      List (Handler × Time × Object A) → ObjectInformer C Q → List (Handler × A)
  accepted_objects ds oi = accepted S (S.accepts oi.namespace_matcher) ds

  -- The informer after the deliveries and objects many turns of the workers objects there are accepted objects.
  abbrev pub worked :
      List (Handler × Time × Object A)
      → (ℕ → Moment)
      → ObjectInformer C Q
      → ObjectInformer C Q × List Write
  worked ds clock oi =
      let (oi', ws) = watch S Q ds oi in
      let (oi'', vs) = turns S Q (length (accepted_objects ds oi)) 0 clock oi' in (oi'', ws ++ vs)

  -- The queue, the collector and the calls after the turns.
  worked_lem :
      MarksOwn S
      → (L : IsFifo Q) (ds : List (Handler × Time × Object A)) (clock : ℕ → Moment)
        (oi : ObjectInformer C Q)
      → L.waiting oi.queue ≡ []
      → L.is_shut oi.queue ≡ false
      → let (oi', ws) = worked ds clock oi in
        let (c, vs) = operate S 0 clock (accepted_objects ds oi) oi.collector in
        (L.waiting oi'.queue ≡ [])
        × (oi'.collector ≡ c)
        × ((x : Series) (old : Option Sample)
            → is_own x.metric ≡ false
            → after x old ws ≡ after x old vs)
  worked_lem marks L ds clock oi e o =
      let objects = accepted_objects ds oi in
      let st = watch S Q ds oi in
      let w = watch-Watched S marks Q L ds oi o in
      let d =
        turns-Drained S Q L objects 0 clock st.0 (w.waits ∙ ap (λ is. is ++ items S objects) e) in
      (
        d.waits,
        d.collected ∙ ap (λ c. (operate S 0 clock objects c).0) w.collected,
        λ x old p.
            after-append x old st.1 _
            ∙ ap (λ v. after x v (turns S Q (length objects) 0 clock st.0).1)
                (after-AllOwn x old st.1 p w.own)
            ∙ d.shows x old p
            ∙ ap (λ c. after x old (operate S 0 clock objects c).1) w.collected,
      )

  -- In both informers every delivery is handled: on an empty open queue that is first in first out,
  -- after any deliveries and as many turns of the workers as there are accepted objects among them,
  -- nothing is left on the queue, the collector is what its operations make of the accepted objects
  -- in order, and a series that is not on the exporter itself has the value that the calls of these
  -- operations give it; marking the health state is to make calls on metrics of the exporter itself
  -- alone, as it does in both.
  pub delivered :
      MarksOwn S
      → (L : IsFifo Q) (ds : List (Handler × Time × Object A)) (clock : ℕ → Moment)
        (oi : ObjectInformer C Q)
      → L.waiting oi.queue ≡ []
      → L.is_shut oi.queue ≡ false
      → (x : Series) (old : Option Sample) → is_own x.metric ≡ false
      → let (oi', ws) = worked ds clock oi in
        let (c, vs) = operate S 0 clock (accepted_objects ds oi) oi.collector in
        (L.waiting oi'.queue ≡ []) × (oi'.collector ≡ c) × (after x old ws ≡ after x old vs)
  delivered marks L ds clock oi e o x old p =
      let (waits, collected, shows) = worked_lem marks L ds clock oi e o in
      (waits, collected, shows x old p)

-- The calls on the collector of workflows, from turn k on.
abbrev pub calls : ℕ → (ℕ → Moment) → List (Handler × Workflow) → List Call
calls k clock [] = []
calls k clock ((deleting, wf) ∷ ds) = deletes (some wf) ∷ calls (suc k) clock ds
calls k clock ((h, wf) ∷ ds) = adds (clock k).0 (some wf) ∷ calls (suc k) clock ds

operate-run_calls :
    (k : ℕ) (clock : ℕ → Moment) (ds : List (Handler × Workflow)) (c : WorkflowCollector)
    → operate workflow_source k clock ds c ≡ run_calls c (calls k clock ds)
unfolding operate run_calls step
operate-run_calls k clock [] c = refl
operate-run_calls k clock ((adding, wf) ∷ ds) c =
    ap (prepend (add_workflow (clock k).0 (some wf) c).1)
      (operate-run_calls (suc k) clock ds (add_workflow (clock k).0 (some wf) c).0)
operate-run_calls k clock ((updating, wf) ∷ ds) c =
    ap (prepend (add_workflow (clock k).0 (some wf) c).1)
      (operate-run_calls (suc k) clock ds (add_workflow (clock k).0 (some wf) c).0)
operate-run_calls k clock ((deleting, wf) ∷ ds) c =
    ap (prepend (delete_workflow (some wf) c).1)
      (operate-run_calls (suc k) clock ds (delete_workflow (some wf) c).0)

pub pod-MarksOwn : MarksOwn pod_source
unfolding mark_pod_event
pod-MarksOwn now s = (refl, tt)

pub workflow-MarksOwn : MarksOwn workflow_source
unfolding mark_workflow_event
workflow-MarksOwn now s = (refl, tt)

module _ (R : Registry) (L : IsLawful R) (s : R.State) (blank : IsBlank (R.value s))
    (Q : WorkQueue (Item Workflow)) (F : IsFifo Q) (q : Q.Queue) (idle : F.waiting q ≡ [])
    (opened : F.is_shut q ≡ false) (details : Bool) (health : Option State) (workers : ℤ)
    (period : Duration) (matcher : Option (String → Bool))
    (ds : List (Handler × Time × Object Workflow)) (clock : ℕ → Moment) where
  -- A new informer of workflows, with a new collector.
  abbrev made : ObjectInformer WorkflowCollector Q × List Write
  made =
      new_informer workflow_source Q (new_workflow_collector details) health q workers period
        matcher

  abbrev finished : ObjectInformer WorkflowCollector Q × List Write
  finished = worked workflow_source Q ds clock made.0

  abbrev asked : List Call
  asked = calls 0 clock (accepted_objects workflow_source Q ds made.0)

  history : (run_calls (new_workflow_collector details) asked).0 ≡ finished.0.collector
  unfolding new_informer new_workflow_collector
  history =
      ap (λ (st : Step). st.0)
        (sym (
          operate-run_calls 0 clock (accepted_objects workflow_source Q ds made.0)
            made.0.collector))
      ∙ sym (worked_lem workflow_source Q workflow-MarksOwn F ds clock made.0 idle opened).1

  -- A new informer of workflows with a new collector, whatever its settings, on an empty open queue
  -- that is first in first out and a lawful registry that showed nothing at first: after any
  -- deliveries of its watch and as many turns of its workers as there are accepted workflows among
  -- them, the cache holds under each key what the accepted deliveries say in order, and each
  -- `argo_workflow_count` series shows the number of cached workflows of its namespace, and is not
  -- exposed where that is 0.
  pub watched-exact :
      (k n : String)
      → (lookup k finished.0.collector.workflows ≡ cached k none asked)
        × (R.value (run R (made.1 ++ finished.1) s) (count_series n)
            ≡ exposed (count_in n finished.0.collector.workflows))
  unfolding new_informer new_workflow_collector
  watched-exact k n =
      let x = count_series n in
      let e = history in
      (
        ap (λ (c : WorkflowCollector). lookup k c.workflows) (sym e)
            ∙ lookup-run_calls k (new_workflow_collector details) asked
            ∙ ap (λ o. cached k o asked) (lookup-nil k),
        value-run R L (made.1 ++ finished.1) s x
            ∙ after-append x (R.value s x) made.1 finished.1
            ∙ ap (λ o. after x o finished.1) (after-AllOwn x (R.value s x) made.1 refl (refl, tt))
            ∙ (worked_lem workflow_source Q workflow-MarksOwn F ds clock made.0 idle opened).2 x
                (R.value s x) refl
            ∙ ap (λ (st : Step). after x (R.value s x) st.1)
                (operate-run_calls 0 clock (accepted_objects workflow_source Q ds made.0)
                  made.0.collector)
            ∙ sym (value-run R L (run_calls (new_workflow_collector details) asked).1 s x)
            ∙ count_exact R L s blank details asked n
            ∙ ap (λ (c : WorkflowCollector). exposed (count_in n c.workflows)) e,
      )
