-- ===== src/Informer/Delivery.antt =====
-- From an object that a watch delivers to the operation of the collector.
use argo_workflows_metrics.Base.{
  ◌≡◌, refl, ap, inl, inr, Bool, String, Option, none, some, List, if◌then◌else◌, string_eq,
  Bool-cases,
}
use argo_workflows_metrics.Base.Time.{Time}
use argo_workflows_metrics.Metrics.{Write}
use argo_workflows_metrics.Health.{State}
use argo_workflows_metrics.Queue.{WorkQueue}
use argo_workflows_metrics.Informer.{
  Event, Item, event, Object, object, tombstone, other_object, Source, ObjectInformer, notify,
  on_add, on_update, on_delete, handle_event,
}

-- The handlers, as values.
pub data Handler : Type 0 where
  adding updating deleting : Handler

-- The object of the informer's type that a delivery is about.
abbrev pub subject : {A : Type 0} → Handler → Object A → Option A
subject h (object a) = some a
subject deleting (tombstone (object a)) = some a
subject h _ = none

abbrev pub word : Handler → String
word adding = "add"
word updating = "update"
word deleting = "delete"

abbrev pub queued : {A : Type 0} → Handler → A → Item A
queued h a = event (record { event_type = word h; subject = some a })

module _ {A C : Type 0} (S : Source A C) where
  -- The method of the collector that a delivery asks for.
  abbrev pub operation : Handler → Time → A → C → C × List Write
  operation deleting now a = S.delete_object a
  operation _ now a = S.add_object now a

  -- The worker handles what a handler queues, without an error.
  pub handle_event-queued :
      (h : Handler) (now : Time) (a : A) (c : C)
      → handle_event S now (record { event_type = word h; subject = some a }) c
        ≡ some (operation h now a c)
  unfolding handle_event string_eq
  handle_event-queued adding now a c = refl
  handle_event-queued updating now a c = refl
  handle_event-queued deleting now a c = refl

  module _ (Q : WorkQueue (Item A)) where
    abbrev pub handle :
        Handler → Time → Object A → ObjectInformer C Q → ObjectInformer C Q × List Write
    handle adding = on_add S Q
    handle updating = on_update S Q
    handle deleting = on_delete S Q

    -- What happens to the queue, from what the delivery is about.
    abbrev pub next_queue : (A → Bool) → Handler → Option A → Q.Queue → Q.Queue
    next_queue accepted h none q = q
    next_queue accepted h (some a) q = if accepted a then Q.push (queued h a) q else q

    -- A delivery changes the health state and the queue alone.
    abbrev pub Queued : Handler → Option A → ObjectInformer C Q → ObjectInformer C Q → Type 0
    Queued h o oi oi' =
        (health : Option State) × (oi' ≡ record oi {
          health_state = health;
          queue = next_queue (S.accepts oi.namespace_matcher) h o oi.queue;
        })

    notify-Queued :
        (h : Handler) (now : Time) (a : A) (oi : ObjectInformer C Q)
        → Queued h (some a) oi (notify S Q now (word h) a oi).0
    unfolding notify
    notify-Queued h now a oi = elim (Bool-cases (S.accepts oi.namespace_matcher a)) [
      | inl e ↦ rw e (_, refl)
      | inr e ↦ rw e (_, refl)
    ]

    pub handle-Queued :
        (h : Handler) (now : Time) (obj : Object A) (oi : ObjectInformer C Q)
        → Queued h (subject h obj) oi (handle h now obj oi).0
    unfolding on_add on_update on_delete
    handle-Queued adding now (object a) oi = notify-Queued adding now a oi
    handle-Queued adding now (tombstone obj) oi = (_, refl)
    handle-Queued adding now other_object oi = (_, refl)
    handle-Queued updating now (object a) oi = notify-Queued updating now a oi
    handle-Queued updating now (tombstone obj) oi = (_, refl)
    handle-Queued updating now other_object oi = (_, refl)
    handle-Queued deleting now (object a) oi = notify-Queued deleting now a oi
    handle-Queued deleting now (tombstone (object a)) oi = notify-Queued deleting now a oi
    handle-Queued deleting now (tombstone (tombstone obj)) oi = (_, refl)
    handle-Queued deleting now (tombstone other_object) oi = (_, refl)
    handle-Queued deleting now other_object oi = (_, refl)

    pub handle-queue :
        (h : Handler) (now : Time) (obj : Object A) (oi : ObjectInformer C Q)
        → (handle h now obj oi).0.queue
          ≡ next_queue (S.accepts oi.namespace_matcher) h (subject h obj) oi.queue
    handle-queue h now obj oi =
        ap (λ (oi' : ObjectInformer C Q). oi'.queue) (handle-Queued h now obj oi).1

    -- What is queued, when something is.
    abbrev pub Queues : Handler → A → Q.Queue → Q.Queue → Type 0
    Queues h a old new =
        (evt : Event A) × (new ≡ Q.push (event evt) old)
        × ((now : Time) (c : C) → handle_event S now evt c ≡ some (operation h now a c))

    abbrev pub Delivers : (A → Bool) → Handler → Option A → Q.Queue → Q.Queue → Type 0
    Delivers accepted h none old new = new ≡ old
    Delivers accepted h (some a) old new = if accepted a then Queues h a old new else (new ≡ old)

    next_queue-Delivers :
        (accepted : A → Bool) (h : Handler) (o : Option A) (q : Q.Queue)
        → Delivers accepted h o q (next_queue accepted h o q)
    next_queue-Delivers accepted h none q = refl
    next_queue-Delivers accepted h (some a) q = elim (Bool-cases (accepted a)) [
      | inl e ↦ rw e (
        record { event_type = word h; subject = some a },
        refl,
        λ now c. handle_event-queued h now a c,
      )
      | inr e ↦ rw e refl
    ]

    -- In both informers a delivered object reaches the collector as it should: a handler that gets
    -- an accepted object of the informer's type, or for a deletion a tombstone around one, puts one
    -- event on the queue, which the worker handles without an error, at any time and in any state
    -- of the collector, as a deletion of that object for a deletion and as an addition of it
    -- otherwise; on anything else the queue does not change.
    pub handle-Delivers :
        (h : Handler) (now : Time) (obj : Object A) (oi : ObjectInformer C Q)
        → Delivers
            (S.accepts oi.namespace_matcher)
            h
            (subject h obj)
            oi.queue
            (handle h now obj oi).0.queue
    handle-Delivers h now obj oi =
        rw (handle-queue h now obj oi)
          (next_queue-Delivers (S.accepts oi.namespace_matcher) h (subject h obj) oi.queue)
