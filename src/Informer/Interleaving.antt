-- ===== src/Informer/Interleaving.antt =====
-- The workers and the full reconcile of an informer, interleaved in any order. A worker takes an event
-- in one step and handles it in another, under `reconcileMu`; the full reconcile lists the store in one
-- step and uses the listing in another, under the same lock; deliveries come at any time. Each step
-- makes calls on the metrics.
use argo_workflows_metrics.Base.{◌≡◌, ◌<◌, Bool, Option, none, some, List, [], ◌∷◌, ◌++◌, length}
use argo_workflows_metrics.Base.Int.{pos_part}
use argo_workflows_metrics.Base.Time.{Time}
use argo_workflows_metrics.Metrics.{Write}
use argo_workflows_metrics.Queue.{WorkQueue}
use argo_workflows_metrics.Informer
use argo_workflows_metrics.Informer.{
  Item, Object, Source, ObjectInformer, Moment, process_item, start, stop,
}
use argo_workflows_metrics.Informer.Delivery.{Handler, handle}
use argo_workflows_metrics.Informer.Effects.{Explains, Effects, Effects-trans, still-Effects}
use argo_workflows_metrics.Informer.Steps.{
  StepEffects, handle-Effects, process_item-Effects, start-Effects, stop-Effects,
}

-- The informer, the items that workers have taken and not yet handled, and the listing that the full
-- reconcile has taken and not yet used.
pub record System {A : Type 0} (C : Type 0) (Q : WorkQueue (Item A)) : Type 0 where
  pub informer : ObjectInformer C Q
  pub held : List (Item A)
  pub listed : Option (List (Object A))

abbrev pub Reconcile : {A C : Type 0} → Source A C → WorkQueue (Item A) → Type 0
Reconcile {A} {C} S Q = Moment → List (Object A) → ObjectInformer C Q → Informer.Step S Q

module _ {A C : Type 0} (S : Source A C) (Q : WorkQueue (Item A)) (reconcile : Reconcile S Q) where
  -- The informer moves on.
  abbrev pub moved : System C Q → Informer.Step S Q → System C Q
  moved s (oi, ws) = record s { informer = oi }

  pub data Step (s : System C Q) : System C Q → List Write → Type 0 where
    starts :
        (synced : Bool)
        → Step s (moved s (start S Q synced s.informer).0) (start S Q synced s.informer).0.1
    delivers :
        (h : Handler) (now : Time) (obj : Object A)
        → Step s (moved s (handle S Q h now obj s.informer)) (handle S Q h now obj s.informer).1
    takes :
        (i : Item A) (q : Q.Queue)
        → Q.get s.informer.queue ≡ some (i, q)
        → length s.held < pos_part s.informer.worker_count
        → Step s (record s { informer = record s.informer { queue = q }; held = i ∷ s.held }) []
    handles :
        (moment : Moment) (i : Item A) (before later : List (Item A))
        → s.held ≡ before ++ (i ∷ later)
        → Step s
            (record (moved s (process_item S Q moment i s.informer.queue s.informer)) {
              held = before ++ later;
            })
            (process_item S Q moment i s.informer.queue s.informer).1
    lists :
        (items : List (Object A)) → s.listed ≡ none → Step s (record s { listed = some items }) []
    reconciles :
        (moment : Moment) (items : List (Object A))
        → s.listed ≡ some items
        → Step s
            (record (moved s (reconcile moment items s.informer)) { listed = none })
            (reconcile moment items s.informer).1
    stops : Step s (moved s (stop S Q s.informer)) (stop S Q s.informer).1

  -- What can be reached, and the calls on the way.
  pub data Reach (s : System C Q) : System C Q → List Write → Type 0 where
    here : Reach s s []
    next :
        {t u : System C Q} {ws vs : List Write} → Reach s t ws → Step t u vs → Reach s u (ws ++ vs)

  module _ (E : Explains S)
      (reconciles_lem : (moment : Moment) (items : List (Object A)) (oi : ObjectInformer C Q)
        → StepEffects S E Q oi (reconcile moment items oi)) where
    abbrev pub SystemEffects : System C Q → System C Q → List Write → Type 0
    SystemEffects s t ws =
        Effects S E s.informer.collector t.informer.collector s.informer.health_state
          t.informer.health_state ws

    pub Step-Effects : (s t : System C Q) (ws : List Write) → Step s t ws → SystemEffects s t ws
    Step-Effects s t ws (Step.starts synced) = start-Effects S E Q synced s.informer
    Step-Effects s t ws (Step.delivers h now obj) = handle-Effects S E Q now h obj s.informer
    Step-Effects s t ws (Step.takes i q e l) =
        still-Effects S E s.informer.collector s.informer.health_state [] tt
    Step-Effects s t ws (Step.handles moment i before later e) =
        process_item-Effects S E Q moment i s.informer.queue s.informer
    Step-Effects s t ws (Step.lists items e) =
        still-Effects S E s.informer.collector s.informer.health_state [] tt
    Step-Effects s t ws (Step.reconciles moment items e) = reconciles_lem moment items s.informer
    Step-Effects s t ws (Step.stops) = stop-Effects S E Q s.informer

    pub Reach-Effects : (s t : System C Q) (ws : List Write) → Reach s t ws → SystemEffects s t ws
    Reach-Effects s t ws here = still-Effects S E s.informer.collector s.informer.health_state [] tt
    Reach-Effects s u us (next {t} {ws = ws} {vs = vs} r st) =
        Effects-trans S E s.informer.collector t.informer.collector u.informer.collector
          s.informer.health_state t.informer.health_state u.informer.health_state ws vs
          (Reach-Effects s t ws r) (Step-Effects t u vs st)
