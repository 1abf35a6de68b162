-- ===== src/Informer.antt =====
-- pkg/informer/workflow.go and pkg/informer/pod/pod.go: the handlers that queue the events of the
-- watched objects, the workers that take them from the queue, and the start and stop. The two files
-- have the same code for these, up to the type of object, the name in the labels, the filter and the
-- collector's methods, which are a `Source` here. Children: the two informers, with their full
-- reconciles, and what the parts do together.
mod Objects
pub mod Workflows
pub mod Pods
pub mod Delivery
pub mod Reconcile
pub mod Retries
pub mod Workers
pub mod Turns
pub mod Watched
pub mod Pipeline
pub mod Effects
pub mod Steps
pub mod Explained
pub mod Interleaving
pub mod Handled
pub mod Ordered
pub mod OneWorker
pub mod Races
pub mod Cached
pub mod LateReconcile
pub mod PodReconcile
pub mod PodRace
mod Examples
mod PodExamples
mod RaceExamples
mod LateExamples
mod OneWorkerExamples
mod Tests
pub use Objects.{
  Event, Item, event, alien, Object, object, tombstone, other_object, Source, ObjectInformer,
  max_retries, Moment, status, Started, sync_failed, running, max_ℤ, default_matcher, mark,
}
use argo_workflows_metrics.Base.{
  ℕ, zero, suc, Bool, true, false, String, Option, none, some, List, [], ◌∷◌, ◌++◌, ltb,
  if◌then◌else◌, string_eq, ◌==◌,
}
use argo_workflows_metrics.Base.Int.{ℤ, pos, pos_part, ltb_ℤ, leb_ℤ}
use argo_workflows_metrics.Base.Time.{Time, Duration}
use argo_workflows_metrics.Metrics.{
  Metric, Series, Sample, Write, set, inc, observe, labelled, whole, exporter_queue_depth,
  exporter_events_total, exporter_event_handler_errors_total, exporter_reconcile_errors_total,
  exporter_full_reconcile_total, exporter_reconcile_duration_seconds,
  exporter_informer_start_errors_total,
}
use argo_workflows_metrics.Health.{State}
use argo_workflows_metrics.Queue.{WorkQueue}

module _ {A C : Type 0} (S : Source A C) where
  abbrev pub of_informer : Metric → List String → Series
  of_informer m ls = labelled m (S.name ∷ ls)

  abbrev pub handler_error : String → Write
  handler_error label = inc (of_informer exporter_event_handler_errors_total (label ∷ []))

  abbrev pub reconcile_error : String → Write
  reconcile_error label = inc (of_informer exporter_reconcile_errors_total (label ∷ []))

  abbrev pub observed : String → Sample → Write
  observed label elapsed =
      observe (of_informer exporter_reconcile_duration_seconds (label ∷ [])) elapsed

  -- `none` is the error that makes the worker retry.
  abbrev pub handle_typed : Time → String → Option A → C → Option (C × List Write)
  handle_typed now event_type none c = none
  handle_typed now event_type (some a) c =
      if event_type == "add"
      then some (S.add_object now a c)
      else if event_type == "update"
      then some (S.add_object now a c)
      else if event_type == "delete"
      then some (S.delete_object a c)
      else none

  unfoldable pub handle_event : Time → Event A → C → Option (C × List Write)
  handle_event now evt c = handle_typed now evt.event_type evt.subject c

  module _ (Q : WorkQueue (Item A)) where
    abbrev pub Step : Type 0
    Step = ObjectInformer C Q × List Write

    abbrev pub set_queue_depth : Q.Queue → List Write
    set_queue_depth queue = set (of_informer exporter_queue_depth []) (whole (Q.len queue)) ∷ []

    -- The constructor, with the queue that the client library makes.
    unfoldable pub new_informer :
        C → Option State → Q.Queue → ℤ → Duration → Option (String → Bool) → Step
    new_informer collector health_state queue worker_count full_reconcile_period matcher = (
      record {
        collector = collector;
        health_state = health_state;
        queue = queue;
        worker_count = max_ℤ (pos 1) worker_count;
        full_reconcile_period = full_reconcile_period;
        namespace_matcher = default_matcher matcher;
        stopped = false;
      },
      set (of_informer exporter_queue_depth []) (whole 0) ∷ [],
    )

    abbrev pub enqueue : Event A → ObjectInformer C Q → Step
    enqueue evt oi =
        let queue = Q.push (event evt) oi.queue in
        (record oi { queue = queue }, set_queue_depth queue)

    -- What the three handlers do with an object of the informer's type.
    unfoldable pub notify : Time → String → A → ObjectInformer C Q → Step
    notify now event_type a oi =
        let (health, marks) = mark (S.mark_event now) oi.health_state in
        let evt : Event A = record { event_type = event_type; subject = some a } in
        let (oi', ws) = enqueue evt (record oi { health_state = health }) in
        if S.accepts oi.namespace_matcher a
        then (oi', inc (of_informer exporter_events_total (event_type ∷ [])) ∷ (marks ++ ws))
        else (oi, [])

    unfoldable pub on_add : Time → Object A → ObjectInformer C Q → Step
    on_add now (object a) oi = notify now "add" a oi
    on_add now _ oi = (oi, handler_error "add" ∷ [])

    -- `onUpdate`, of the new object
    unfoldable pub on_update : Time → Object A → ObjectInformer C Q → Step
    on_update now (object a) oi = notify now "update" a oi
    on_update now _ oi = (oi, handler_error "update" ∷ [])

    unfoldable pub on_delete : Time → Object A → ObjectInformer C Q → Step
    on_delete now (object a) oi = notify now "delete" a oi
    on_delete now (tombstone (object a)) oi = notify now "delete" a oi
    on_delete now _ oi = (oi, handler_error "delete" ∷ [])

    -- After an error: again, with a delay, or dropped.
    abbrev pub retry : Item A → Q.Queue → Q.Queue
    retry item queue =
        if ltb (Q.num_requeues item queue) max_retries
        then Q.push_rate_limited item queue
        else Q.forget item queue

    abbrev pub finish :
        Item A → Q.Queue → Option (C × List Write) → Sample → ObjectInformer C Q → Step
    finish item queue none elapsed oi = (
      record oi { queue = Q.done item (retry item queue) },
      observed "event" elapsed ∷ reconcile_error "event" ∷ set_queue_depth (retry item queue),
    )
    finish item queue (some (c, ws)) elapsed oi = (
      record oi { collector = c; queue = Q.done item (Q.forget item queue) },
      ws ++ (observed "event" elapsed ∷ set_queue_depth (Q.forget item queue)),
    )

    abbrev pub process_item : Moment → Item A → Q.Queue → ObjectInformer C Q → Step
    process_item (now, elapsed) alien queue oi = (
      record oi { queue = Q.done alien (Q.forget alien queue) },
      reconcile_error "event" ∷ handler_error "queue" ∷ set_queue_depth (Q.forget alien queue),
    )
    process_item (now, elapsed) (event evt) queue oi =
        finish (event evt) queue (handle_event now evt oi.collector) elapsed oi

    abbrev pub process_got : Moment → Option (Item A × Q.Queue) → ObjectInformer C Q → Bool × Step
    process_got moment none oi = (false, (oi, []))
    process_got moment (some (item, queue)) oi = (true, process_item moment item queue oi)

    -- One turn of a worker, and whether it goes on.
    unfoldable pub process_next : Moment → ObjectInformer C Q → Bool × Step
    process_next moment oi = process_got moment (Q.get oi.queue) oi

    abbrev pub joined : List Write → Option Step → Option Step
    joined ws none = none
    joined ws (some (oi, vs)) = some (oi, ws ++ vs)

    -- `runWorker`, on fuel; `none` when that runs out. The clock gives the moment of each turn.
    unfoldable pub run_worker : ℕ → (ℕ → Moment) → ObjectInformer C Q → Option Step
    run_worker zero clock oi = none
    run_worker (suc fuel) clock oi =
        let (goes_on, (oi', ws)) = process_next (clock fuel) oi in
        let rest = run_worker fuel clock oi' in if goes_on then joined ws rest else some (oi', ws)

    -- `Start` up to its wait for the context, after which it calls `Stop`. `synced` is what
    -- `WaitForCacheSync` returns.
    unfoldable pub start : Bool → ObjectInformer C Q → Step × Started
    start false oi =
        ((oi, inc (of_informer exporter_informer_start_errors_total []) ∷ []), sync_failed)
    start true oi =
        let (health, ws) = mark S.mark_synced oi.health_state in
        (
          (record oi { health_state = health }, ws),
          running (pos_part oi.worker_count) (ltb_ℤ (pos 0) oi.full_reconcile_period),
        )

    unfoldable pub stop : ObjectInformer C Q → Step
    stop oi = if oi.stopped then (oi, []) else (
      record oi { queue = Q.shut_down oi.queue; stopped = true },
      set (of_informer exporter_queue_depth []) (whole 0) ∷ [],
    )
