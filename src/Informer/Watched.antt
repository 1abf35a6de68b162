-- ===== src/Informer/Watched.antt =====
-- What the handlers do with a sequence of deliveries.
use mathlib.Core.List.{append-nil}
use argo_workflows_metrics.Base.{
  ◌≡◌, refl, sym, ap, ◌∙◌, false, String, Option, none, some, List, [], ◌∷◌, ◌++◌, All-append,
  Bool-cases, inl, inr,
}
use argo_workflows_metrics.Base.Time.{Time}
use argo_workflows_metrics.Health.{State}
use argo_workflows_metrics.Queue.{WorkQueue, IsFifo}
use argo_workflows_metrics.Informer.{
  Item, Object, object, tombstone, other_object, Source, ObjectInformer, Step, notify, on_add,
  on_update, on_delete, mark, handler_error,
}
use argo_workflows_metrics.Informer.Delivery.{
  Handler, adding, updating, deleting, subject, handle, handle-queue,
}
use argo_workflows_metrics.Informer.Turns.{
  AllOwn, MarksOwn, watch, accepted, items, next_queue-items,
}

module _ {A C : Type 0} (S : Source A C) (marks : MarksOwn S) (Q : WorkQueue (Item A)) where
  mark-AllOwn : (now : Time) (o : Option State) → AllOwn (mark (S.mark_event now) o).1
  mark-AllOwn now none = tt
  mark-AllOwn now (some s) = marks now s

  -- A delivery leaves the collector and the matcher, and calls on metrics of the exporter.
  pub record Quiet (oi : ObjectInformer C Q) (st : Step S Q) : Type 0 where
    pub collected : st.0.collector ≡ oi.collector
    pub matches : st.0.namespace_matcher ≡ oi.namespace_matcher
    pub own : AllOwn st.1

  error-Quiet :
      (label : String) (oi : ObjectInformer C Q) → Quiet oi (oi, handler_error S label ∷ [])
  error-Quiet label oi = record { collected = refl; matches = refl; own = (refl, tt) }

  notify-Quiet :
      (now : Time) (label : String) (a : A) (oi : ObjectInformer C Q)
      → Quiet oi (notify S Q now label a oi)
  unfolding notify
  notify-Quiet now label a oi = elim (Bool-cases (S.accepts oi.namespace_matcher a)) [
    | inl e ↦ rw e (record {
      collected = refl;
      matches = refl;
      own = (
        refl,
        All-append _ (mark (S.mark_event now) oi.health_state).1 _ (mark-AllOwn now oi.health_state)
            (refl, tt),
      );
    })
    | inr e ↦ rw e (record { collected = refl; matches = refl; own = tt })
  ]

  pub handle-Quiet :
      (h : Handler) (now : Time) (obj : Object A) (oi : ObjectInformer C Q)
      → Quiet oi (handle S Q h now obj oi)
  unfolding on_add on_update on_delete
  handle-Quiet adding now (object a) oi = notify-Quiet now "add" a oi
  handle-Quiet adding now (tombstone obj) oi = error-Quiet "add" oi
  handle-Quiet adding now other_object oi = error-Quiet "add" oi
  handle-Quiet updating now (object a) oi = notify-Quiet now "update" a oi
  handle-Quiet updating now (tombstone obj) oi = error-Quiet "update" oi
  handle-Quiet updating now other_object oi = error-Quiet "update" oi
  handle-Quiet deleting now (object a) oi = notify-Quiet now "delete" a oi
  handle-Quiet deleting now (tombstone (object a)) oi = notify-Quiet now "delete" a oi
  handle-Quiet deleting now (tombstone (tombstone obj)) oi = error-Quiet "delete" oi
  handle-Quiet deleting now (tombstone other_object) oi = error-Quiet "delete" oi
  handle-Quiet deleting now other_object oi = error-Quiet "delete" oi

module _ {A C : Type 0} (S : Source A C) (marks : MarksOwn S) (Q : WorkQueue (Item A))
    (L : IsFifo Q) where
  pub record Watched (ds : List (Handler × Time × Object A)) (oi : ObjectInformer C Q)
      (st : Step S Q) : Type 0 where
    pub waits :
        L.waiting st.0.queue
        ≡ L.waiting oi.queue ++ items S (accepted S (S.accepts oi.namespace_matcher) ds)
    pub collected : st.0.collector ≡ oi.collector
    pub own : AllOwn st.1

  pub watch-Watched :
      (ds : List (Handler × Time × Object A)) (oi : ObjectInformer C Q)
      → L.is_shut oi.queue ≡ false
      → Watched ds oi (watch S Q ds oi)
  unfolding watch
  watch-Watched [] oi e = record {
    waits = sym (append-nil (L.waiting oi.queue));
    collected = refl;
    own = tt;
  }
  watch-Watched ((h, now, obj) ∷ ds) oi e =
      let st = handle S Q h now obj oi in
      let q : Quiet S marks Q oi st = handle-Quiet S marks Q h now obj oi in
      let f = S.accepts oi.namespace_matcher in
      let n = next_queue-items S Q L f h (subject h obj) (accepted S f ds) oi.queue in
      let s : L.is_shut st.0.queue ≡ false =
        ap L.is_shut (handle-queue S Q h now obj oi) ∙ n.1 ∙ e in
      let r = watch-Watched ds st.0 s in
      record {
        waits =
            r.waits
            ∙ ap (λ m. L.waiting st.0.queue ++ items S (accepted S (S.accepts m) ds)) q.matches
            ∙ ap (λ p. L.waiting p ++ items S (accepted S f ds)) (handle-queue S Q h now obj oi)
            ∙ n.0 e;
        collected = r.collected ∙ q.collected;
        own = All-append _ st.1 _ q.own r.own;
      }
