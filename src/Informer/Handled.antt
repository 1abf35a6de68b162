-- ===== src/Informer/Handled.antt =====
-- The queue of an informer where an item is taken from it or handled.
use argo_workflows_metrics.Base.{
  ◌≡◌, refl, sym, ap, ◌∙◌, Option, none, some, List, [], ◌∷◌, ltb, Bool-cases, inl, inr,
}
use argo_workflows_metrics.Metrics.{Write, Sample}
use argo_workflows_metrics.Queue.{WorkQueue, IsFifo}
use argo_workflows_metrics.Informer.{
  Item, event, alien, Source, ObjectInformer, Moment, process_item, finish, handle_event, retry,
  max_retries,
}
use argo_workflows_metrics.Informer.Delivery.{Handler, queued, handle_event-queued}

module _ {A C : Type 0} (S : Source A C) (Q : WorkQueue (Item A)) (F : IsFifo Q) where
  finish-is_shut :
      (i : Item A) (q : Q.Queue) (o : Option (C × List Write)) (elapsed : Sample)
      (oi : ObjectInformer C Q)
      → (F.is_shut (finish S Q i q o elapsed oi).0.queue ≡ F.is_shut q)
        × ((finish S Q i q o elapsed oi).0.worker_count ≡ oi.worker_count)
  finish-is_shut i q none elapsed oi = (
    F.is_shut-done i (retry S Q i q) ∙ elim (Bool-cases (ltb (Q.num_requeues i q) max_retries)) [
      | inl e ↦ rw e (F.is_shut-push_rate_limited i q)
      | inr e ↦ rw e (F.is_shut-forget i q)
    ],
    refl,
  )
  finish-is_shut i q (some st) elapsed oi =
      (F.is_shut-done i (Q.forget i q) ∙ F.is_shut-forget i q, refl)

  -- Handling an item.
  pub process_item-is_shut :
      (moment : Moment) (i : Item A) (q : Q.Queue) (oi : ObjectInformer C Q)
      → (F.is_shut (process_item S Q moment i q oi).0.queue ≡ F.is_shut q)
        × ((process_item S Q moment i q oi).0.worker_count ≡ oi.worker_count)
  process_item-is_shut (now, elapsed) alien q oi =
      (F.is_shut-done alien (Q.forget alien q) ∙ F.is_shut-forget alien q, refl)
  process_item-is_shut (now, elapsed) (event evt) q oi =
      finish-is_shut (event evt) q (handle_event S now evt oi.collector) elapsed oi

  pub process_item-waiting :
      (moment : Moment) (h : Handler) (a : A) (q : Q.Queue) (oi : ObjectInformer C Q)
      → F.waiting (process_item S Q moment (queued h a) q oi).0.queue ≡ F.waiting q
  process_item-waiting (now, elapsed) h a q oi =
      rw (handle_event-queued S h now a oi.collector) (F.waiting-done _ _ ∙ F.waiting-forget _ q)

  -- What was taken from the queue stood first on it.
  pub taken :
      (q q' : Q.Queue) (i : Item A) (is : List (Item A))
      → F.waiting q ≡ is
      → Q.get q ≡ some (i, q')
      → (F.waiting q ≡ i ∷ F.waiting q') × (F.is_shut q' ≡ F.is_shut q)
  taken q q' i [] w g = absurd (F.get-idle q q' i w g)
  taken q q' i (j ∷ is) w g =
      let (q'', g', w', s) = F.get-waiting q j is w in
      let p : ◌≡◌ {A = Item A × Q.Queue} (i, q') (j, q'') = cc (g, g') in
      let a : i ≡ j = ap (λ (r : Item A × Q.Queue). r.0) p in
      let b : q' ≡ q'' = ap (λ (r : Item A × Q.Queue). r.1) p in
      (
        w ∙ ap (λ k. k ∷ is) (sym a) ∙ ap (λ ks. i ∷ ks) (sym w' ∙ ap F.waiting (sym b)),
        ap F.is_shut b ∙ s,
      )
