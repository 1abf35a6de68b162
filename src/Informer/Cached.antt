-- ===== src/Informer/Cached.antt =====
-- What a single worker leaves in the cache of workflows, where no full reconcile runs.
use mathlib.Core.List.{append-nil}
use argo_workflows_metrics.Base.{
  ◌≡◌, ◌≤◌, refl, sym, ap, subst, ◌∙◌, Bool, true, false, String, Option, none, some, List, [], ◌∷◌,
  ◌++◌, if◌then◌else◌, string_eq, ◌==◌, Bool-cases, inl, inr,
}
use argo_workflows_metrics.Base.Int.{pos_part}
use argo_workflows_metrics.Base.Dict.{lookup}
use argo_workflows_metrics.Metrics.{Write}
use argo_workflows_metrics.Workflow.{Workflow, WorkflowCollector, key}
use argo_workflows_metrics.Workflow.Collector.{Call, adds, deletes, step}
use argo_workflows_metrics.Workflow.Collector.History.{run_calls, cached, lookup-run_calls}
use argo_workflows_metrics.Queue.{WorkQueue, IsFifo}
use argo_workflows_metrics.Informer.{
  Item, event, alien, ObjectInformer, Moment, process_item, start, stop,
}
use argo_workflows_metrics.Informer.Workflows.{workflow_source}
use argo_workflows_metrics.Informer.Delivery.{
  Handler, adding, updating, deleting, queued, handle-Queued, handle_event-queued,
}
use argo_workflows_metrics.Informer.Turns.{items}
use argo_workflows_metrics.Informer.Interleaving.{Reconcile, Step, Reach, here, next}
use argo_workflows_metrics.Informer.Races.{WorkflowSystem}
use argo_workflows_metrics.Informer.Ordered.{finished, all_arrived, all_finished}
use argo_workflows_metrics.Informer.OneWorker.{
  Leaves, InOrder, new-InOrder, held-IsQueued, Step-Moves, Reach-InOrder, one_worker-InOrder,
}

-- The period of the full reconcile is not positive, so that it does not run.
abbrev pub no_reconcile : (Q : WorkQueue (Item Workflow)) → Reconcile workflow_source Q
no_reconcile Q moment objects oi = (oi, [])

-- The deliveries as calls on the collector; the times do not matter to the cache.
abbrev pub asked : List (Handler × Workflow) → List Call
asked [] = []
asked ((deleting, wf) ∷ ds) = deletes (some wf) ∷ asked ds
asked ((h, wf) ∷ ds) = adds 0 (some wf) ∷ asked ds

-- What an item makes of what a key holds.
abbrev item_cached : String → Option Workflow → Item Workflow → Option Workflow
item_cached k old alien = old
item_cached k old (event evt) = subject_cached evt.subject
  where
    subject_cached : Option Workflow → Option Workflow
    subject_cached none = old
    subject_cached (some wf) =
        if k == key wf then (if evt.event_type == "delete" then none else some wf) else old

abbrev items_cached : String → Option Workflow → List (Item Workflow) → Option Workflow
items_cached k old [] = old
items_cached k old (i ∷ is) = items_cached k (item_cached k old i) is

items_cached-append :
    (k : String) (is js : List (Item Workflow)) (old : Option Workflow)
    → items_cached k old (is ++ js) ≡ items_cached k (items_cached k old is) js
items_cached-append k [] js old = refl
items_cached-append k (i ∷ is) js old = items_cached-append k is js (item_cached k old i)

items_cached-items :
    (k : String) (ds : List (Handler × Workflow)) (old : Option Workflow)
    → items_cached k old (items workflow_source ds) ≡ cached k old (asked ds)
unfolding string_eq
items_cached-items k [] old = refl
items_cached-items k ((adding, wf) ∷ ds) old = items_cached-items k ds _
items_cached-items k ((updating, wf) ∷ ds) old = items_cached-items k ds _
items_cached-items k ((deleting, wf) ∷ ds) old = items_cached-items k ds _

module _ (Q : WorkQueue (Item Workflow)) where
  -- Handling a queued workflow.
  handled-cached :
      (k : String) (moment : Moment) (h : Handler) (wf : Workflow) (q : Q.Queue)
      (wi : ObjectInformer WorkflowCollector Q)
      → lookup k (process_item workflow_source Q moment (queued h wf) q wi).0.collector.workflows
        ≡ item_cached k (lookup k wi.collector.workflows) (queued h wf)
  unfolding run_calls step string_eq
  handled-cached k (now, elapsed) adding wf q wi =
      rw (handle_event-queued workflow_source adding now wf wi.collector)
        (lookup-run_calls k wi.collector (adds now (some wf) ∷ []))
  handled-cached k (now, elapsed) updating wf q wi =
      rw (handle_event-queued workflow_source updating now wf wi.collector)
        (lookup-run_calls k wi.collector (adds now (some wf) ∷ []))
  handled-cached k (now, elapsed) deleting wf q wi =
      rw (handle_event-queued workflow_source deleting now wf wi.collector)
        (lookup-run_calls k wi.collector (deletes (some wf) ∷ []))

  handled-item_cached :
      (k : String) (moment : Moment) (i : Item Workflow) (q : Q.Queue)
      (wi : ObjectInformer WorkflowCollector Q)
      → (h : Handler) × (wf : Workflow) × (i ≡ queued h wf)
      → lookup k (process_item workflow_source Q moment i q wi).0.collector.workflows
        ≡ item_cached k (lookup k wi.collector.workflows) i
  handled-item_cached k moment i q wi (h, wf, e) =
      subst
        (λ j.
          lookup k (process_item workflow_source Q moment j q wi).0.collector.workflows
          ≡ item_cached k (lookup k wi.collector.workflows) j)
        (sym e) (handled-cached k moment h wf q wi)

  start-collector :
      (synced : Bool) (wi : ObjectInformer WorkflowCollector Q)
      → (start workflow_source Q synced wi).0.0.collector ≡ wi.collector
  unfolding start
  start-collector true wi = refl
  start-collector false wi = refl

  stop-collector :
      (wi : ObjectInformer WorkflowCollector Q)
      → (stop workflow_source Q wi).0.collector ≡ wi.collector
  unfolding stop
  stop-collector wi = elim (Bool-cases wi.stopped) [ inl e ↦ simp e refl | inr e ↦ simp e refl ]

  abbrev cache : WorkflowSystem Q → String → Option Workflow
  cache s k = lookup k s.informer.collector.workflows

  -- What a step makes of what a key holds, if it handles no item but a queued one.
  Step-cached :
      (k : String) (s t : WorkflowSystem Q) (ws : List Write)
      (st : Step workflow_source Q (no_reconcile Q) s t ws)
      → ((moment : Moment) (i : Item Workflow) (before later : List (Item Workflow))
          → s.held ≡ before ++ (i ∷ later)
          → (h : Handler) × (wf : Workflow) × (i ≡ queued h wf))
      → cache t k
        ≡ items_cached k (cache s k) (finished workflow_source Q (no_reconcile Q) s t ws st)
  Step-cached k s t ws (Step.starts synced) from =
      ap (λ (c : WorkflowCollector). lookup k c.workflows) (start-collector synced s.informer)
  Step-cached k s t ws (Step.delivers h now obj) from =
      ap (λ (wi : ObjectInformer WorkflowCollector Q). lookup k wi.collector.workflows)
        (handle-Queued workflow_source Q h now obj s.informer).1
  Step-cached k s t ws (Step.takes i q g l) from = refl
  Step-cached k s t ws (Step.handles moment i before later e) from =
      handled-item_cached k moment i s.informer.queue s.informer (from moment i before later e)
  Step-cached k s t ws (Step.lists objects e) from = refl
  Step-cached k s t ws (Step.reconciles moment objects e) from = refl
  Step-cached k s t ws (Step.stops) from =
      ap (λ (c : WorkflowCollector). lookup k c.workflows) (stop-collector s.informer)

  module _ (F : IsFifo Q) where
    no_reconcile-Leaves : Leaves workflow_source Q (no_reconcile Q) F
    no_reconcile-Leaves moment objects oi = (refl, refl)

    Reach-cached :
        (k : String) (s t : WorkflowSystem Q) (ws : List Write)
        (r : Reach workflow_source Q (no_reconcile Q) s t ws)
        → InOrder workflow_source Q (no_reconcile Q) F s [] []
        → F.is_shut t.informer.queue ≡ false
        → cache t k
          ≡ items_cached k (cache s k) (all_finished workflow_source Q (no_reconcile Q) s t ws r)
    unfolding all_finished
    Reach-cached k s t ws here v o = refl
    Reach-cached k s u us (next {t} {ws = ws} {vs = vs} r st) v o =
        let i = Reach-InOrder workflow_source Q (no_reconcile Q) F no_reconcile-Leaves s t ws r v in
        let m =
          Step-Moves workflow_source Q (no_reconcile Q) F no_reconcile-Leaves t u vs st _ _ i in
        let open_before = m.opened o in
        Step-cached k t u vs st (λ moment j before later e.
          held-IsQueued workflow_source Q (no_reconcile Q) F t _ _ before later j
            (i.order open_before) e)
        ∙ ap (λ old. items_cached k old (finished workflow_source Q (no_reconcile Q) t u vs st))
            (Reach-cached k s t ws r v open_before)
        ∙ sym (
            items_cached-append k (all_finished workflow_source Q (no_reconcile Q) s t ws r) _
              (cache s k))

    -- With one worker and without full reconciles, on a queue that is first in first out, from a
    -- state in which nothing waits and nothing is held: whatever deliveries and turns of the worker
    -- come in whatever order, once nothing waits and nothing is held any more, and if the queue is
    -- not shut down, the cache of workflows holds under each key what the accepted deliveries say
    -- in order: the workflow that was delivered last under it, nothing after its deletion, and what
    -- was there before if there was none.
    pub one_worker-cached :
        (k : String) (s t : WorkflowSystem Q) (ws : List Write)
        (r : Reach workflow_source Q (no_reconcile Q) s t ws)
        → F.waiting s.informer.queue ≡ []
        → s.held ≡ []
        → pos_part s.informer.worker_count ≤ 1
        → F.is_shut t.informer.queue ≡ false
        → F.waiting t.informer.queue ≡ []
        → t.held ≡ []
        → lookup k t.informer.collector.workflows
          ≡ cached k
              (lookup k s.informer.collector.workflows)
              (asked (all_arrived workflow_source Q (no_reconcile Q) s t ws r))
    one_worker-cached k s t ws r w h l o w' h' =
        let fs = all_finished workflow_source Q (no_reconcile Q) s t ws r in
        let ds = all_arrived workflow_source Q (no_reconcile Q) s t ws r in
        let e : items workflow_source ds ≡ fs =
          one_worker-InOrder workflow_source Q (no_reconcile Q) F no_reconcile-Leaves s t ws r w h l
            o
          ∙ ap (λ is. fs ++ (is ++ F.waiting t.informer.queue)) h'
          ∙ ap (λ is. fs ++ is) w'
          ∙ append-nil fs in
        Reach-cached k s t ws r (new-InOrder workflow_source Q (no_reconcile Q) F s w h l) o
        ∙ ap (items_cached k (cache s k)) (sym e)
        ∙ items_cached-items k ds (cache s k)
