-- ===== src/Informer/Workers.antt =====
-- The worker loop: every queued event is handled in its turn, and after a stop the loop ends.
use argo_workflows_metrics.Base.{
  ℕ, zero, suc, ◌≡◌, ◌<◌, refl, ◌∙◌, Bool, true, false, Option, none, some, List, [], ◌∷◌, arith,
  length, ltb, Bool-cases, inl, inr,
}
use argo_workflows_metrics.Metrics.{Sample, Write}
use argo_workflows_metrics.Queue.{WorkQueue, IsFifo}
use argo_workflows_metrics.Informer.{
  Item, event, alien, Source, ObjectInformer, Moment, Step, max_retries, retry, finish,
  process_item, process_next, joined, run_worker, stop,
}

module _ {A C : Type 0} (S : Source A C) (Q : WorkQueue (Item A)) (L : IsFifo Q) where
  -- The items that wait, and whether the queue is shut down.
  record Left (is : List (Item A)) (shut : Bool) (q : Q.Queue) : Type 0 where
    waits : L.waiting q ≡ is
    shuts : L.is_shut q ≡ shut

  retry-Left :
      (i : Item A) (is : List (Item A)) (q : Q.Queue)
      → Left is true q
      → Left is true (retry S Q i q)
  retry-Left i is q l = elim (Bool-cases (ltb (Q.num_requeues i q) max_retries)) [
    | inl e ↦ rw e (record {
      waits = L.waiting-push_rate_limited i q l.shuts ∙ l.waits;
      shuts = L.is_shut-push_rate_limited i q ∙ l.shuts;
    })
    | inr e ↦
        rw e (record {
          waits = L.waiting-forget i q ∙ l.waits;
          shuts = L.is_shut-forget i q ∙ l.shuts;
        })
  ]

  forget-Left :
      (i : Item A) (is : List (Item A)) (shut : Bool) (q : Q.Queue)
      → Left is shut q
      → Left is shut (Q.forget i q)
  forget-Left i is shut q l = record {
    waits = L.waiting-forget i q ∙ l.waits;
    shuts = L.is_shut-forget i q ∙ l.shuts;
  }

  done-Left :
      (i : Item A) (is : List (Item A)) (shut : Bool) (q : Q.Queue)
      → Left is shut q
      → Left is shut (Q.done i q)
  done-Left i is shut q l = record {
    waits = L.waiting-done i q ∙ l.waits;
    shuts = L.is_shut-done i q ∙ l.shuts;
  }

  finish-Left :
      (i : Item A) (is : List (Item A)) (q : Q.Queue) (o : Option (C × List Write))
      (elapsed : Sample) (oi : ObjectInformer C Q)
      → Left is true q
      → Left is true (finish S Q i q o elapsed oi).0.queue
  finish-Left i is q none elapsed oi l = done-Left i is true _ (retry-Left i is q l)
  finish-Left i is q (some r) elapsed oi l = done-Left i is true _ (forget-Left i is true q l)

  process_item-Left :
      (moment : Moment) (i : Item A) (is : List (Item A)) (q : Q.Queue) (oi : ObjectInformer C Q)
      → Left is true q
      → Left is true (process_item S Q moment i q oi).0.queue
  process_item-Left (now, elapsed) alien is q oi l =
      done-Left alien is true _ (forget-Left alien is true q l)
  process_item-Left (now, elapsed) (event evt) is q oi l =
      finish-Left (event evt) is q _ elapsed oi l

  -- A turn on a queue that is shut down takes its first item, whatever becomes of that.
  process_next-Left :
      (moment : Moment) (i : Item A) (is : List (Item A)) (oi : ObjectInformer C Q)
      → Left (i ∷ is) true oi.queue
      → ((process_next S Q moment oi).0 ≡ true)
        × Left is true (process_next S Q moment oi).1.0.queue
  unfolding process_next
  process_next-Left moment i is oi l =
      let (q, e, w, s) = L.get-waiting oi.queue i is l.waits in
      rw e (refl, process_item-Left moment i is q oi (record { waits = w; shuts = s ∙ l.shuts }))

  process_next-last :
      (moment : Moment) (oi : ObjectInformer C Q)
      → Left [] true oi.queue
      → process_next S Q moment oi ≡ (false, (oi, []))
  unfolding process_next
  process_next-last moment oi l = rw (L.get-shut oi.queue l.waits l.shuts) refl

  -- The loop ended with nothing left.
  abbrev Ended : Option (Step S Q) → Type 0
  Ended none = ⊥
  Ended (some (oi, ws)) = L.waiting oi.queue ≡ []

  joined-Ended : (ws : List Write) (o : Option (Step S Q)) → Ended o → Ended (joined S Q ws o)
  joined-Ended ws none h = absurd h
  joined-Ended ws (some (oi, vs)) h = h

  run_worker-Ended :
      (fuel : ℕ) (clock : ℕ → Moment) (is : List (Item A)) (oi : ObjectInformer C Q)
      → Left is true oi.queue
      → length is < fuel
      → Ended (run_worker S Q fuel clock oi)
  unfolding run_worker
  run_worker-Ended zero clock is oi l h = absurd (omega (arith, h))
  run_worker-Ended (suc fuel) clock [] oi l h = rw (process_next-last (clock fuel) oi l) l.waits
  run_worker-Ended (suc fuel) clock (i ∷ is) oi l h =
      let (goes, l') = process_next-Left (clock fuel) i is oi l in
      rw goes (joined-Ended _ _ (run_worker-Ended fuel clock is _ l' (omega (arith, h))))

  -- In both informers a worker ends after a stop: on a first in first out queue, the worker loop of
  -- an informer that was running and is stopped, on more fuel than items wait, returns with nothing
  -- left on the queue, failed events included.
  pub stop-ends :
      (fuel : ℕ) (clock : ℕ → Moment) (oi : ObjectInformer C Q)
      → oi.stopped ≡ false
      → length (L.waiting oi.queue) < fuel
      → (oi' : ObjectInformer C Q) × (ws : List Write) × (run_worker S Q fuel clock (stop S Q oi).0
          ≡ some (oi', ws))
        × (L.waiting oi'.queue ≡ [])
  unfolding stop
  stop-ends fuel clock oi e h = ended _ (
      run_worker-Ended fuel clock (L.waiting oi.queue) (stop S Q oi).0
        (rw e
          (record { waits = L.waiting-shut_down oi.queue; shuts = L.is_shut-shut_down oi.queue }))
        h)
    where
      ended :
          (o : Option (Step S Q))
          → Ended o
          → (oi' : ObjectInformer C Q) × (ws : List Write) × (o ≡ some (oi', ws))
            × (L.waiting oi'.queue ≡ [])
      ended none w = absurd w
      ended (some (oi', ws)) w = (oi', ws, refl, w)
