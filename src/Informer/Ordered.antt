-- ===== src/Informer/Ordered.antt =====
-- In what order a single worker handles the events, whatever comes in between.
use mathlib.Core.List.{append_assoc, append-nil}
use argo_workflows_metrics.Base.{
  ℕ, ◌≡◌, ◌≤◌, ◌<◌, refl, sym, ap, subst, ◌∙◌, Bool, true, false, Option, some, List, [], ◌∷◌, ◌++◌,
  length, Bool-cases, inl, inr, arith,
}
use argo_workflows_metrics.Base.Time.{Time}
use argo_workflows_metrics.Metrics.{Write}
use argo_workflows_metrics.Queue.{WorkQueue, IsFifo}
use argo_workflows_metrics.Informer.{
  Item, Object, Source, ObjectInformer, Moment, process_item, start, stop,
}
use argo_workflows_metrics.Informer.Delivery.{
  Handler, subject, queued, handle, handle-Queued, next_queue,
}
use argo_workflows_metrics.Informer.Turns.{accept_one, items, next_queue-items}
use argo_workflows_metrics.Informer.Interleaving.{System, Reconcile, Step, Reach, here, next}
use argo_workflows_metrics.Informer.Handled.{process_item-is_shut, process_item-waiting, taken}

module _ {A C : Type 0} (S : Source A C) (Q : WorkQueue (Item A)) (reconcile : Reconcile S Q) where
  -- The accepted objects that a step delivers, and the items that it handles.
  abbrev pub arrived :
      (s t : System C Q) (ws : List Write) → Step S Q reconcile s t ws → List (Handler × A)
  arrived s t ws (Step.delivers h now obj) =
      accept_one S (S.accepts s.informer.namespace_matcher) h (subject h obj) []
  arrived s t ws st = []

  abbrev pub finished :
      (s t : System C Q) (ws : List Write) → Step S Q reconcile s t ws → List (Item A)
  finished s t ws (Step.handles moment i before later e) = i ∷ []
  finished s t ws st = []

  -- All of them on the way, in order.
  unfoldable pub all_arrived :
      (s t : System C Q) (ws : List Write) → Reach S Q reconcile s t ws → List (Handler × A)
  all_arrived s t ws here = []
  all_arrived s u us (next {t} {ws = ws} {vs = vs} r st) = all_arrived s t ws r ++ arrived t u vs st

  unfoldable pub all_finished :
      (s t : System C Q) (ws : List Write) → Reach S Q reconcile s t ws → List (Item A)
  all_finished s t ws here = []
  all_finished s u us (next {t} {ws = ws} {vs = vs} r st) =
      all_finished s t ws r ++ finished t u vs st

  module _ (F : IsFifo Q) where
    -- The items on their way through the informer.
    abbrev pub pending : System C Q → List (Item A)
    pending s = s.held ++ F.waiting s.informer.queue

    pub record Moves (s t : System C Q) (f : List (Item A)) (ds : List (Handler × A)) : Type 0 where
      pub workers : t.informer.worker_count ≡ s.informer.worker_count
      pub opened : F.is_shut t.informer.queue ≡ false → F.is_shut s.informer.queue ≡ false
      pub single : length t.held ≤ 1
      pub order : F.is_shut t.informer.queue ≡ false → pending s ++ items S ds ≡ f ++ pending t

    -- What a step that takes no item and handles none does to a queue.
    pub delivers-Moves :
        (s : System C Q) (h : Handler) (now : Time) (obj : Object A)
        → length s.held ≤ 1
        → Moves s
            (record s { informer = (handle S Q h now obj s.informer).0 })
            []
            (accept_one S (S.accepts s.informer.namespace_matcher) h (subject h obj) [])
    delivers-Moves s h now obj l =
        let f = S.accepts s.informer.namespace_matcher in
        let q = s.informer.queue in
        let ds = accept_one S f h (subject h obj) [] in
        let (health, e) = handle-Queued S Q h now obj s.informer in
        let (waits, o) = next_queue-items S Q F f h (subject h obj) [] q in
        subst (λ oi. Moves s (record s { informer = oi }) [] ds) (sym e)
          record {
            workers = refl;
            opened = λ z. sym o ∙ z;
            single = l;
            order = λ z.
                append_assoc s.held (F.waiting q) (items S ds)
                ∙ ap (λ is. s.held ++ is)
                    (sym (waits (sym o ∙ z))
                      ∙ append-nil (F.waiting (next_queue S Q f h (subject h obj) q)));
          }

    pub takes-Moves :
        (s : System C Q) (i : Item A) (q : Q.Queue)
        → Q.get s.informer.queue ≡ some (i, q)
        → s.held ≡ []
        → Moves s (record s { informer = record s.informer { queue = q }; held = i ∷ s.held }) [] []
    takes-Moves s i q g e =
        let (w, o) = taken S Q F s.informer.queue q i _ refl g in
        record {
          workers = refl;
          opened = λ z. sym o ∙ z;
          single = omega (arith, ap length e);
          order = λ z.
              append-nil (pending s)
              ∙ ap (λ is. is ++ F.waiting s.informer.queue) e
              ∙ w
              ∙ ap (λ is. i ∷ (is ++ F.waiting q)) (sym e);
        }

    pub unoccupied : {n : ℕ} (is : List (Item A)) → length is < n → n ≤ 1 → is ≡ []
    unoccupied [] l m = refl
    unoccupied (i ∷ is) l m = absurd (omega (arith, l, m))

    -- The item that a single worker holds is the only one.
    alone :
        (before later : List (Item A)) (i : Item A)
        → length (before ++ (i ∷ later)) ≤ 1
        → (before ≡ []) × (later ≡ [])
    alone [] [] i l = (refl, refl)
    alone [] (j ∷ later) i l = absurd (omega (arith, l))
    alone (j ∷ []) later i l = absurd (omega (arith, l))
    alone (j ∷ k ∷ before) later i l = absurd (omega (arith, l))

    -- An item that a handler put on the queue.
    abbrev pub IsQueued : Item A → Type 0
    IsQueued i = (h : Handler) × (a : A) × (i ≡ queued h a)

    pub handles-Moves :
        (s : System C Q) (moment : Moment) (i : Item A) (before later : List (Item A))
        → s.held ≡ before ++ (i ∷ later)
        → length s.held ≤ 1
        → (F.is_shut s.informer.queue ≡ false → IsQueued i)
        → Moves s
            (record s {
              informer = (process_item S Q moment i s.informer.queue s.informer).0;
              held = before ++ later;
            })
            (i ∷ [])
            []
    handles-Moves s moment i before later e l from =
        let (b, c) = alone before later i (subst (λ is. length is ≤ 1) e l) in
        let q = s.informer.queue in
        let (o, k) = process_item-is_shut S Q F moment i q s.informer in
        let w : F.is_shut q ≡ false
            → F.waiting (process_item S Q moment i q s.informer).0.queue ≡ F.waiting q =
          λ z.
            let (h, a, p) = from z in
            ap (λ j. F.waiting (process_item S Q moment j q s.informer).0.queue) p
            ∙ process_item-waiting S Q F moment h a q s.informer in
        record {
          workers = k;
          opened = λ z. sym o ∙ z;
          single = rw (b, c) (omega arith);
          order = λ z.
              append-nil (pending s)
              ∙ ap (λ is. is ++ F.waiting q) e
              ∙ (rw (b, c) (ap (λ is. i ∷ is) (sym (w (sym o ∙ z)))));
        }

    pub still-Moves :
        (s : System C Q) (oi : ObjectInformer C Q) (listed : Option (List (Object A)))
        → oi.queue ≡ s.informer.queue
        → oi.worker_count ≡ s.informer.worker_count
        → length s.held ≤ 1
        → Moves s (record s { informer = oi; listed = listed }) [] []
    still-Moves s oi listed e k l = record {
      workers = k;
      opened = λ z. ap F.is_shut (sym e) ∙ z;
      single = l;
      order = λ z. append-nil (pending s) ∙ ap (λ q. s.held ++ F.waiting q) (sym e);
    }

    pub stop-Moves :
        (s : System C Q)
        → length s.held ≤ 1
        → Moves s (record s { informer = (stop S Q s.informer).0 }) [] []
    unfolding stop
    stop-Moves s l = elim (Bool-cases s.informer.stopped) [
      | inl e ↦ simp e (still-Moves s s.informer s.listed refl refl l)
      | inr e ↦
          let down = F.is_shut-shut_down s.informer.queue in
          simp e (record {
            workers = refl;
            opened = λ z. absurd (cc (down, z));
            single = l;
            order = λ z. absurd (cc (down, z));
          })
    ]

    pub start-Moves :
        (s : System C Q) (synced : Bool)
        → length s.held ≤ 1
        → Moves s (record s { informer = (start S Q synced s.informer).0.0 }) [] []
    unfolding start
    start-Moves s true l = still-Moves s _ s.listed refl refl l
    start-Moves s false l = still-Moves s _ s.listed refl refl l
