-- ===== src/Informer/PodReconcile.antt =====
-- The full reconcile of pods: what it repeats, and its race with a deletion.
use argo_workflows_metrics.Base.{
  ◌≡◌, refl, ◌∙◌, Bool, true, false, String, Option, some, List, [], ◌∷◌, All-append, Bool-cases,
  inl, inr, if◌then◌else◌, string_eq,
}
use argo_workflows_metrics.Pod.{Pod, PodCollector, add_pod}
use argo_workflows_metrics.Pod.Restarts.{add_pods, redelivered}
use argo_workflows_metrics.Queue.{WorkQueue}
use argo_workflows_metrics.Informer.{Item, Object, object, tombstone, other_object, Moment}
use argo_workflows_metrics.Informer.Pods.{PodInformer, accepts_pod, add_listed, run_full_reconcile}
use argo_workflows_metrics.Informer.Turns.{AllOwn}

-- Adding the pod does nothing more, whatever pods are added before.
abbrev IsKnown : PodCollector → Pod → Type 0
IsKnown c pod =
    (os : List (Option Pod))
    → ((add_pod (some pod) (add_pods os c)).1 ≡ [])
      × ((add_pod (some pod) (add_pods os c)).0.restart_counters ≡ (add_pods os c).restart_counters)

IsKnown-add :
    (c : PodCollector) (o : Option Pod) (pod : Pod) → IsKnown c pod → IsKnown (add_pod o c).0 pod
IsKnown-add c o pod h os = h (o ∷ os)

-- The pods of a listing that are accepted.
abbrev AllKnown : (String → Bool) → PodCollector → List (Object Pod) → Type 0
AllKnown matcher c [] = Unit
AllKnown matcher c (object pod ∷ items) =
    (accepts_pod matcher pod ≡ true → IsKnown c pod) × AllKnown matcher c items
AllKnown matcher c (_ ∷ items) = AllKnown matcher c items

AllKnown-add :
    (matcher : String → Bool) (c : PodCollector) (o : Option Pod) (items : List (Object Pod))
    → AllKnown matcher c items
    → AllKnown matcher (add_pod o c).0 items
AllKnown-add matcher c o [] h = tt
AllKnown-add matcher c o (object pod ∷ items) h =
    ((λ e. IsKnown-add c o pod (h.0 e)), AllKnown-add matcher c o items h.1)
AllKnown-add matcher c o (tombstone obj ∷ items) h = AllKnown-add matcher c o items h
AllKnown-add matcher c o (other_object ∷ items) h = AllKnown-add matcher c o items h

IsKnown-listed :
    (matcher : String → Bool) (items : List (Object Pod)) (c : PodCollector) (pod : Pod)
    → IsKnown c pod
    → IsKnown (add_listed matcher items c).0 pod
unfolding add_listed
IsKnown-listed matcher [] c pod h = h
IsKnown-listed matcher (object p ∷ items) c pod h = elim (Bool-cases (accepts_pod matcher p)) [
  | inl e ↦
      rw e (IsKnown-listed matcher items (add_pod (some p) c).0 pod (IsKnown-add c (some p) pod h))
  | inr e ↦ rw e (IsKnown-listed matcher items c pod h)
]
IsKnown-listed matcher (tombstone obj ∷ items) c pod h = IsKnown-listed matcher items c pod h
IsKnown-listed matcher (other_object ∷ items) c pod h = IsKnown-listed matcher items c pod h

add_listed-AllKnown :
    (matcher : String → Bool) (items : List (Object Pod)) (c : PodCollector)
    → AllKnown matcher (add_listed matcher items c).0 items
unfolding add_listed
add_listed-AllKnown matcher [] c = tt
add_listed-AllKnown matcher (object pod ∷ items) c =
    let c' : PodCollector = if accepts_pod matcher pod then (add_pod (some pod) c).0 else c in
    (
      (λ e. IsKnown-listed matcher items c' pod (rw e λ os. redelivered pod os c)),
      add_listed-AllKnown matcher items c',
    )
add_listed-AllKnown matcher (tombstone obj ∷ items) c = add_listed-AllKnown matcher items c
add_listed-AllKnown matcher (other_object ∷ items) c = add_listed-AllKnown matcher items c

-- Where all pods of a listing are known, its loop makes no calls for them.
add_listed-quiet :
    (matcher : String → Bool) (items : List (Object Pod)) (c : PodCollector)
    → AllKnown matcher c items
    → AllOwn (add_listed matcher items c).1.0
      × ((add_listed matcher items c).0.restart_counters ≡ c.restart_counters)
unfolding add_listed
add_listed-quiet matcher [] c h = (tt, refl)
add_listed-quiet matcher (object pod ∷ items) c h = elim (Bool-cases (accepts_pod matcher pod)) [
  | inl e ↦
      let (quiet, same) = h.0 e [] in
      let (own, same') =
        add_listed-quiet matcher items (add_pod (some pod) c).0
          (AllKnown-add matcher c (some pod) items h.1) in
      rw (e, quiet) (own, same' ∙ same)
  | inr e ↦ rw e (add_listed-quiet matcher items c h.1)
]
add_listed-quiet matcher (tombstone obj ∷ items) c h =
    let (own, same) = add_listed-quiet matcher items c h in ((refl, (refl, own)), same)
add_listed-quiet matcher (other_object ∷ items) c h =
    let (own, same) = add_listed-quiet matcher items c h in ((refl, (refl, own)), same)

-- A second full reconcile of pods over the same listing right after the first, whatever the listing
-- and the informer, calls on metrics of the exporter itself alone and changes no restart counter.
pub reconcile-again :
    (Q : WorkQueue (Item Pod)) (m₁ m₂ : Moment) (items : List (Object Pod)) (pi : PodInformer Q)
    → let pi' = (run_full_reconcile Q false m₁ items pi).0 in
      let (pi'', ws) = run_full_reconcile Q false m₂ items pi' in
      AllOwn ws × (pi''.collector.restart_counters ≡ pi'.collector.restart_counters)
unfolding run_full_reconcile
reconcile-again Q m₁ m₂ items pi =
    let c = (add_listed pi.namespace_matcher items pi.collector).0 in
    let (own, same) =
      add_listed-quiet pi.namespace_matcher items c
        (add_listed-AllKnown pi.namespace_matcher items pi.collector) in
    (All-append _ (add_listed pi.namespace_matcher items c).1.0 _ own (refl, (refl, tt)), same)
