-- ===== src/Informer/Turns.antt =====
-- What the workers make of the deliveries: each is handled, in order, and the calls in between are
-- on metrics of the exporter itself.
use mathlib.Core.List.{append_assoc}
use argo_workflows_metrics.Base.{
  Bool-cases, inl, inr, ℕ, zero, suc, ◌≡◌, refl, sym, ap, subst, ◌∙◌, Bool, true, false, Option,
  none, some, List, [], ◌∷◌, ◌++◌, All, length, if◌then◌else◌,
}
use argo_workflows_metrics.Base.Time.{Time}
use argo_workflows_metrics.Metrics.{Series, Sample, Write}
use argo_workflows_metrics.Metrics.Owners.{is_own}
use argo_workflows_metrics.Metrics.Trace.{after, after-append, after_missed, target, Misses}
use argo_workflows_metrics.Queue.{WorkQueue, IsFifo}
use argo_workflows_metrics.Health.{State}
use argo_workflows_metrics.Informer.{
  Item, Object, Source, ObjectInformer, Moment, Step, process_next, observed, set_queue_depth,
}
use argo_workflows_metrics.Informer.Delivery.{
  Handler, subject, queued, operation, handle, next_queue, handle_event-queued,
}

-- Calls on the exporter's own metrics alone.
abbrev pub AllOwn : List Write → Type 0
AllOwn = All λ w. is_own (target w).metric ≡ true

pub AllOwn-Misses :
    (x : Series) (ws : List Write) → is_own x.metric ≡ false → AllOwn ws → Misses x ws
AllOwn-Misses x [] h a = tt
AllOwn-Misses x (w ∷ ws) h a =
    ((λ e. cc (h, a.0, ap (λ (y : Series). is_own y.metric) e)), AllOwn-Misses x ws h a.1)

pub after-AllOwn :
    (x : Series) (old : Option Sample) (ws : List Write)
    → is_own x.metric ≡ false
    → AllOwn ws
    → after x old ws ≡ old
after-AllOwn x old ws h a = after_missed x old ws (AllOwn-Misses x ws h a)

-- The health state is marked by calls on those metrics.
abbrev pub MarksOwn : {A C : Type 0} → Source A C → Type 0
MarksOwn S = (now : Time) (s : State) → AllOwn (S.mark_event now s).1

module _ {A C : Type 0} (S : Source A C) where
  -- What the collector makes of objects that are handled one after the other, from turn k on.
  unfoldable pub operate : ℕ → (ℕ → Moment) → List (Handler × A) → C → C × List Write
  operate k clock [] c = (c, [])
  operate k clock ((h, a) ∷ ds) c =
      let (c', ws) = operation S h (clock k).0 a c in
      let (c'', vs) = operate (suc k) clock ds c' in (c'', ws ++ vs)

  module _ (Q : WorkQueue (Item A)) where
    -- Turns of the workers, from turn k on.
    unfoldable pub turns : ℕ → ℕ → (ℕ → Moment) → ObjectInformer C Q → Step S Q
    turns zero k clock oi = (oi, [])
    turns (suc n) k clock oi =
        let (oi', ws) = (process_next S Q (clock k) oi).1 in
        let (oi'', vs) = turns n (suc k) clock oi' in (oi'', ws ++ vs)

    -- Deliveries, one after the other.
    unfoldable pub watch : List (Handler × Time × Object A) → ObjectInformer C Q → Step S Q
    watch [] oi = (oi, [])
    watch ((h, now, obj) ∷ ds) oi =
        let (oi', ws) = handle S Q h now obj oi in let (oi'', vs) = watch ds oi' in (oi'', ws ++ vs)

  -- The objects that the handlers accept.
  abbrev pub accept_one : (A → Bool) → Handler → Option A → List (Handler × A) → List (Handler × A)
  accept_one f h none ds = ds
  accept_one f h (some a) ds = if f a then (h, a) ∷ ds else ds

  abbrev pub accepted : (A → Bool) → List (Handler × Time × Object A) → List (Handler × A)
  accepted f [] = []
  accepted f ((h, now, obj) ∷ ds) = accept_one f h (subject h obj) (accepted f ds)

  abbrev pub items : List (Handler × A) → List (Item A)
  items [] = []
  items ((h, a) ∷ ds) = queued h a ∷ items ds

  pub items-append : (ds es : List (Handler × A)) → items (ds ++ es) ≡ items ds ++ items es
  items-append [] es = refl
  items-append ((h, a) ∷ ds) es = ap (λ is. queued h a ∷ is) (items-append ds es)

  module _ (Q : WorkQueue (Item A)) (L : IsFifo Q) where
    -- The queue gets the accepted objects of the deliveries, in order.
    pub next_queue-items :
        (f : A → Bool) (h : Handler) (o : Option A) (ds : List (Handler × A)) (q : Q.Queue)
        → (L.is_shut q ≡ false
            → L.waiting (next_queue S Q f h o q) ++ items ds
              ≡ L.waiting q ++ items (accept_one f h o ds))
          × (L.is_shut (next_queue S Q f h o q) ≡ L.is_shut q)
    next_queue-items f h none ds q = (λ e. refl, refl)
    next_queue-items f h (some a) ds q = elim (Bool-cases (f a)) [
      | inl p ↦ rw p (
        λ e.
            ap (λ is. is ++ items ds) (L.waiting-push (queued h a) q e)
            ∙ append_assoc (L.waiting q) (queued h a ∷ []) (items ds),
        L.is_shut-push (queued h a) q,
      )
      | inr p ↦ rw p (λ e. refl, refl)
    ]

    -- The turn that takes a queued object.
    pub record Turned (h : Handler) (a : A) (is : List (Item A)) (moment : Moment)
        (oi : ObjectInformer C Q) (st : Step S Q) : Type 0 where
      waits : L.waiting st.0.queue ≡ is
      collected : st.0.collector ≡ (operation S h moment.0 a oi.collector).0
      shows :
          (x : Series) (old : Option Sample)
          → is_own x.metric ≡ false
          → after x old st.1 ≡ after x old (operation S h moment.0 a oi.collector).1

    process_next-Turned :
        (moment : Moment) (h : Handler) (a : A) (is : List (Item A)) (oi : ObjectInformer C Q)
        → L.waiting oi.queue ≡ queued h a ∷ is
        → Turned h a is moment oi (process_next S Q moment oi).1
    unfolding process_next
    process_next-Turned moment h a is oi w =
        let (q, e, w', s) = L.get-waiting oi.queue (queued h a) is w in
        let own : List Write =
          observed S "event" moment.1 ∷ set_queue_depth S Q (Q.forget (queued h a) q) in
        rw (e, handle_event-queued S h moment.0 a oi.collector)
          (record {
            waits = L.waiting-done _ _ ∙ L.waiting-forget _ q ∙ w';
            collected = refl;
            shows = λ x old o.
                after-append x old (operation S h moment.0 a oi.collector).1 own
                ∙ after-AllOwn x _ own o (refl, (refl, tt));
          })

    -- As many turns as there are queued objects handle them all, in order.
    pub record Drained (ds : List (Handler × A)) (k : ℕ) (clock : ℕ → Moment) (c : C)
        (st : Step S Q) : Type 0 where
      pub waits : L.waiting st.0.queue ≡ []
      pub collected : st.0.collector ≡ (operate k clock ds c).0
      pub shows :
          (x : Series) (old : Option Sample)
          → is_own x.metric ≡ false
          → after x old st.1 ≡ after x old (operate k clock ds c).1

    pub turns-Drained :
        (ds : List (Handler × A)) (k : ℕ) (clock : ℕ → Moment) (oi : ObjectInformer C Q)
        → L.waiting oi.queue ≡ items ds
        → Drained ds k clock oi.collector (turns Q (length ds) k clock oi)
    unfolding turns operate
    turns-Drained [] k clock oi w = record { waits = w; collected = refl; shows = λ x old o. refl }
    turns-Drained ((h, a) ∷ ds) k clock oi w =
        let t = process_next-Turned (clock k) h a (items ds) oi w in
        let st = (process_next S Q (clock k) oi).1 in
        let r = turns-Drained ds (suc k) clock st.0 t.waits in
        let d =
          subst (λ c. Drained ds (suc k) clock c (turns Q (length ds) (suc k) clock st.0))
            t.collected r in
        record {
          waits = d.waits;
          collected = d.collected;
          shows = λ x old o.
              after-append x old st.1 _
              ∙ ap (λ v. after x v (turns Q (length ds) (suc k) clock st.0).1) (t.shows x old o)
              ∙ d.shows x _ o
              ∙ sym (after-append x old (operation S h (clock k).0 a oi.collector).1 _);
        }
