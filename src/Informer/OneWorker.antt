-- ===== src/Informer/OneWorker.antt =====
-- The order in which a single worker handles the events, where anything may come in between.
use mathlib.Core.List.{append_assoc}
use argo_workflows_metrics.Base.{
  ◌≡◌, ◌≤◌, refl, sym, ap, subst, ◌∙◌, false, none, some, List, [], ◌∷◌, ◌++◌, length, arith,
}
use argo_workflows_metrics.Base.Int.{pos_part}
use argo_workflows_metrics.Metrics.{Write}
use argo_workflows_metrics.Queue.{WorkQueue, IsFifo}
use argo_workflows_metrics.Workflow.{Workflow}
use argo_workflows_metrics.Pod.{Pod}
use argo_workflows_metrics.Informer.Workflows
use argo_workflows_metrics.Informer.Workflows.{workflow_source}
use argo_workflows_metrics.Informer.Pods
use argo_workflows_metrics.Informer.Pods.{pod_source}
use argo_workflows_metrics.Informer.{Item, Object, Source, ObjectInformer, Moment}
use argo_workflows_metrics.Informer.Delivery.{Handler}
use argo_workflows_metrics.Informer.Turns.{items, items-append}
use argo_workflows_metrics.Informer.Interleaving.{System, Reconcile, Step, Reach, here, next}
use argo_workflows_metrics.Informer.Ordered.{
  arrived, finished, all_arrived, all_finished, pending, Moves, IsQueued, delivers-Moves,
  takes-Moves, handles-Moves, still-Moves, stop-Moves, start-Moves, unoccupied,
}

module _ {A C : Type 0} (S : Source A C) (Q : WorkQueue (Item A)) (reconcile : Reconcile S Q)
    (F : IsFifo Q) where
  -- An item among those that handlers put on the queue.
  member-IsQueued :
      (ds : List (Handler × A)) (xs ys : List (Item A)) (i : Item A)
      → items S ds ≡ xs ++ (i ∷ ys)
      → IsQueued S Q reconcile F i
  member-IsQueued [] [] ys i e = absurd (cc e)
  member-IsQueued [] (x ∷ xs) ys i e = absurd (cc e)
  member-IsQueued ((h, a) ∷ ds) [] ys i e = (h, a, cc e)
  member-IsQueued ((h, a) ∷ ds) (x ∷ xs) ys i e = member-IsQueued ds xs ys i (cc e)

  -- The reconcile leaves the queue and the number of workers.
  abbrev pub Leaves : Type 0
  Leaves =
      (moment : Moment) (objects : List (Object A)) (oi : ObjectInformer C Q)
      → ((reconcile moment objects oi).0.queue ≡ oi.queue)
        × ((reconcile moment objects oi).0.worker_count ≡ oi.worker_count)

  -- All that was delivered was handled or is pending, in order.
  pub record InOrder (t : System C Q) (ds : List (Handler × A)) (f : List (Item A)) : Type 0 where
    pub few : pos_part t.informer.worker_count ≤ 1
    pub single : length t.held ≤ 1
    pub order : F.is_shut t.informer.queue ≡ false → items S ds ≡ f ++ pending S Q reconcile F t

  pub new-InOrder :
      (s : System C Q)
      → F.waiting s.informer.queue ≡ []
      → s.held ≡ []
      → pos_part s.informer.worker_count ≤ 1
      → InOrder s [] []
  new-InOrder s w h l = record {
    few = l;
    single = omega (arith, ap length h);
    order = λ z. sym (ap (λ is. is ++ F.waiting s.informer.queue) h ∙ w);
  }

  pub held-IsQueued :
      (s : System C Q) (ds : List (Handler × A)) (f before later : List (Item A)) (i : Item A)
      → items S ds ≡ f ++ pending S Q reconcile F s
      → s.held ≡ before ++ (i ∷ later)
      → IsQueued S Q reconcile F i
  held-IsQueued s ds f before later i o e =
      let w = F.waiting s.informer.queue in
      member-IsQueued ds (f ++ before) (later ++ w) i (
        o
        ∙ ap (λ is. f ++ (is ++ w)) e
        ∙ ap (λ is. f ++ is) (append_assoc before (i ∷ later) w)
        ∙ sym (append_assoc f before (i ∷ (later ++ w))))

  module _ (leaves : Leaves) where
    pub Step-Moves :
        (s t : System C Q) (ws : List Write) (st : Step S Q reconcile s t ws)
        (ds : List (Handler × A)) (f : List (Item A))
        → InOrder s ds f
        → Moves S Q reconcile F s t
            (finished S Q reconcile s t ws st)
            (arrived S Q reconcile s t ws st)
    Step-Moves s t ws (Step.starts synced) ds f v = start-Moves S Q reconcile F s synced v.single
    Step-Moves s t ws (Step.delivers h now obj) ds f v =
        delivers-Moves S Q reconcile F s h now obj v.single
    Step-Moves s t ws (Step.takes i q g l) ds f v =
        takes-Moves S Q reconcile F s i q g (unoccupied S Q reconcile F s.held l v.few)
    Step-Moves s t ws (Step.handles moment i before later e) ds f v =
        handles-Moves S Q reconcile F s moment i before later e v.single
          (λ z. held-IsQueued s ds f before later i (v.order z) e)
    Step-Moves s t ws (Step.lists objects e) ds f v =
        still-Moves S Q reconcile F s s.informer (some objects) refl refl v.single
    Step-Moves s t ws (Step.reconciles moment objects e) ds f v =
        let (q, k) = leaves moment objects s.informer in
        still-Moves S Q reconcile F s (reconcile moment objects s.informer).0 none q k v.single
    Step-Moves s t ws (Step.stops) ds f v = stop-Moves S Q reconcile F s v.single

    Moves-InOrder :
        (s t : System C Q) (ds es : List (Handler × A)) (f g : List (Item A))
        → InOrder s ds f
        → Moves S Q reconcile F s t g es
        → InOrder t (ds ++ es) (f ++ g)
    Moves-InOrder s t ds es f g v m = record {
      few = subst (λ n. pos_part n ≤ 1) (sym m.workers) v.few;
      single = m.single;
      order = λ z.
          items-append S ds es
          ∙ ap (λ is. is ++ items S es) (v.order (m.opened z))
          ∙ append_assoc f (pending S Q reconcile F s) (items S es)
          ∙ ap (λ is. f ++ is) (m.order z)
          ∙ sym (append_assoc f g (pending S Q reconcile F t));
    }

    pub Reach-InOrder :
        (s t : System C Q) (ws : List Write) (r : Reach S Q reconcile s t ws)
        → InOrder s [] []
        → InOrder t (all_arrived S Q reconcile s t ws r) (all_finished S Q reconcile s t ws r)
    unfolding all_arrived all_finished
    Reach-InOrder s t ws here v = v
    Reach-InOrder s u us (next {t} {ws = ws} {vs = vs} r st) v =
        let i = Reach-InOrder s t ws r v in Moves-InOrder t u _ _ _ _ i (Step-Moves t u vs st _ _ i)

    -- In both informers one worker keeps the order: on a queue that is first in first out, from a
    -- state in which nothing waits and nothing is held, with at most one worker, whatever
    -- deliveries, full reconciles and turns of the worker come in whatever order, as long as the
    -- queue is not shut down, the accepted objects that were delivered are, in order, the items
    -- that were handled, in order, followed by the item that is held and those that wait; the full
    -- reconcile is to leave the queue and the number of workers, as it does in both.
    pub one_worker-InOrder :
        (s t : System C Q) (ws : List Write) (r : Reach S Q reconcile s t ws)
        → F.waiting s.informer.queue ≡ []
        → s.held ≡ []
        → pos_part s.informer.worker_count ≤ 1
        → F.is_shut t.informer.queue ≡ false
        → items S (all_arrived S Q reconcile s t ws r)
          ≡ all_finished S Q reconcile s t ws r ++ (t.held ++ F.waiting t.informer.queue)
    one_worker-InOrder s t ws r w h l o = (Reach-InOrder s t ws r (new-InOrder s w h l)).order o

pub workflows-Leaves :
    (Q : WorkQueue (Item Workflow)) (F : IsFifo Q)
    → Leaves workflow_source Q (Workflows.run_full_reconcile Q false) F
unfolding Workflows.run_full_reconcile
workflows-Leaves Q F (now, elapsed) objects oi = (refl, refl)

pub pods-Leaves :
    (Q : WorkQueue (Item Pod)) (F : IsFifo Q)
    → Leaves pod_source Q (Pods.run_full_reconcile Q false) F
unfolding Pods.run_full_reconcile
pods-Leaves Q F (now, elapsed) objects oi = (refl, refl)
