-- ===== src/Informer/Retries.antt =====
-- The retries of an event, as the queue counts them.
use argo_workflows_metrics.Base.{
  ℕ, suc, ◌≡◌, refl, sym, ap, ◌∙◌, inl, inr, Bool, true, false, not, ◌&&◌, ◌||◌, String, Option,
  none, some, is_some, List, arith, ltb, Bool-cases, if◌then◌else◌, string_eq, ◌==◌,
}
use argo_workflows_metrics.Base.Time.{Time}
use argo_workflows_metrics.Metrics.{Sample, Write}
use argo_workflows_metrics.Queue.{WorkQueue, CountsRequeues}
use argo_workflows_metrics.Informer.{
  Item, event, alien, Source, ObjectInformer, Moment, max_retries, retry, finish, handle_typed,
  handle_event, process_item, process_next,
}

-- An event that the collector can handle: of an object, and of a known type.
abbrev pub is_known : String → Bool
is_known event_type = event_type == "add" || event_type == "update" || event_type == "delete"

-- An item that is tried again: an event that the collector cannot handle.
abbrev pub is_retried : {A : Type 0} → Item A → Bool
is_retried alien = false
is_retried (event evt) = not (is_some evt.subject && is_known evt.event_type)

-- The count after a turn, from the count before it.
abbrev pub next_count : Bool → ℕ → ℕ
next_count retried old = if retried && ltb old max_retries then suc old else 0

module _ {A C : Type 0} (S : Source A C) (Q : WorkQueue (Item A)) (L : CountsRequeues Q) where
  retry-next_count :
      (i : Item A) (q : Q.Queue)
      → Q.num_requeues i (retry S Q i q) ≡ next_count true (Q.num_requeues i q)
  retry-next_count i q = elim (Bool-cases (ltb (Q.num_requeues i q) max_retries)) [
    | inl e ↦ rw e (L.num_requeues-push_rate_limited i q)
    | inr e ↦ rw e (L.num_requeues-forget i q)
  ]

  -- An error is retried, a success is not.
  abbrev failed : Option (C × List Write) → Bool
  failed o = not (is_some o)

  finish-next_count :
      (i : Item A) (q : Q.Queue) (o : Option (C × List Write)) (elapsed : Sample)
      (wi : ObjectInformer C Q)
      → Q.num_requeues i (finish S Q i q o elapsed wi).0.queue
        ≡ next_count (failed o) (Q.num_requeues i q)
  finish-next_count i q none elapsed wi =
      L.num_requeues-done i (retry S Q i q) ∙ retry-next_count i q
  finish-next_count i q (some r) elapsed wi =
      L.num_requeues-done i (Q.forget i q) ∙ L.num_requeues-forget i q

  handle_typed-failed :
      (now : Time) (t : String) (o : Option A) (c : C)
      → failed (handle_typed S now t o c) ≡ not (is_some o && is_known t)
  handle_typed-failed now t none c = refl
  handle_typed-failed now t (some a) c = ground arith

  item-next_count :
      (moment : Moment) (i : Item A) (q : Q.Queue) (wi : ObjectInformer C Q)
      → Q.num_requeues i (process_item S Q moment i q wi).0.queue
        ≡ next_count (is_retried i) (Q.num_requeues i q)
  unfolding handle_event
  item-next_count (now, elapsed) alien q wi =
      L.num_requeues-done alien (Q.forget alien q) ∙ L.num_requeues-forget alien q
  item-next_count (now, elapsed) (event evt) q wi =
      finish-next_count (event evt) q _ elapsed wi
      ∙ ap (λ b. next_count b (Q.num_requeues (event evt) q))
          (handle_typed-failed now evt.event_type evt.subject wi.collector)

  -- In both informers a turn of the worker, on a queue that counts requeues as documented, raises
  -- by one the count of an event that the collector cannot handle (one without an object, or of an
  -- unknown type) as long as that count is below five, and sets to 0 the count of any other item
  -- that it takes: of an event that the collector handles, of an item that is no event, and of one
  -- that failed at a count of five.
  pub process_next-counts :
      (moment : Moment) (wi : ObjectInformer C Q) (i : Item A) (q : Q.Queue)
      → Q.get wi.queue ≡ some (i, q)
      → Q.num_requeues i (process_next S Q moment wi).1.0.queue
        ≡ next_count (is_retried i) (Q.num_requeues i wi.queue)
  unfolding process_next
  process_next-counts moment wi i q e =
      rw (e, sym (L.num_requeues-get i wi.queue q e)) (item-next_count moment i q wi)
