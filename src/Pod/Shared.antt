-- ===== src/Pod/Shared.antt =====
-- Two pods of one workflow whose containers have one name: the labels of their CPU series are the same.
use argo_workflows_metrics.Base.{
  ◌≡◌, ◌≢◌, sym, ap, subst, ◌∙◌, String, true, none, some, List, [], ◌∷◌, All, arith, string_eq,
}
use argo_workflows_metrics.Base.Int.{ℤ, ◌≤ℤ◌}
use argo_workflows_metrics.Base.Dict.{Dict, erase, lookup-erase}
use argo_workflows_metrics.Metrics.Registry.{Registry, IsLawful, run}
use argo_workflows_metrics.Pod.{
  Pod, PodCollector, ContainerStatus, container_state_key, cpu_series, seen, add_pod, delete_pod,
  delete_pod_metrics, forget_counters,
}
use argo_workflows_metrics.Pod.Restarts.{
  is_read, Counted, add_pod-mode, add_pod-Counted, add_pod-quiet,
}
use argo_workflows_metrics.Pod.Cleared.{delete_pod-clears}

seen-erase : (j k : String) (d : Dict String ℤ) → j ≢ k → seen j (erase k d) ≡ seen j d
seen-erase j k d n = ground (arith, lookup-erase j k d, n)

forget_counters-seen :
    (j : String) (pod : Pod) (status : ContainerStatus) (statuses : List ContainerStatus)
    (d : Dict String ℤ)
    → statuses ≡ status ∷ []
    → j ≢ container_state_key pod status.name
    → seen j (forget_counters pod statuses d) ≡ seen j d
unfolding forget_counters
forget_counters-seen j pod status statuses d e n =
    rw e (seen-erase j (container_state_key pod status.name) d n)

delete_pod-seen :
    (j : String) (pod : Pod) (status : ContainerStatus) (c : PodCollector)
    → pod.container_statuses ≡ status ∷ []
    → j ≢ container_state_key pod status.name
    → seen j (delete_pod (some pod) c).0.restart_counters ≡ seen j c.restart_counters
unfolding delete_pod delete_pod_metrics
delete_pod-seen j pod status c e n =
    let statuses = pod.container_statuses in
    let d = forget_counters pod statuses c.restart_counters in
    let once = forget_counters-seen j pod status statuses c.restart_counters e n in
    let twice = forget_counters-seen j pod status statuses d e n in ground (arith, once, twice)

is_read-after :
    (pod : Pod) (p : Pod) (c : PodCollector)
    → is_read pod (delete_pod (some p) (add_pod (some pod) c).0).0 ≡ is_read pod c
unfolding delete_pod add_pod
is_read-after pod p c = ground arith

-- Take two pods with one container each, of which the CPU series is the same and the key of the
-- restart counter is not, with container statistics on and a workflow label on the first: where the
-- second was added, the deletion of the first leaves no CPU series of the second, whatever was
-- shown before, and adding the second again makes no call on the metrics.
pub shared-lost :
    (R : Registry) (L : IsLawful R) (r : R.State) (c : PodCollector) (p q : Pod)
    (s t : ContainerStatus)
    → is_read p c ≡ true
    → p.container_statuses ≡ s ∷ []
    → q.container_statuses ≡ t ∷ []
    → cpu_series p s.name ≡ cpu_series q t.name
    → container_state_key p s.name ≢ container_state_key q t.name
    → let (c', ws) = delete_pod (some p) (add_pod (some q) c).0 in
      (R.value (run R ws r) (cpu_series q t.name) ≡ none) × ((add_pod (some q) c').1 ≡ [])
shared-lost R L r c p q s t e f g h n =
    let c₁ = (add_pod (some q) c).0 in
    let c₂ = (delete_pod (some p) c₁).0 in
    let gone =
      (subst (All _) f
        (delete_pod-clears R L r p c₁ (ground (arith, add_pod-mode (some q) c)))).0.0 in
    let counted = λ (x : is_read q c ≡ true). (subst (All _) g (add_pod-Counted q c x)).0 in
    let moved = delete_pod-seen (container_state_key q t.name) p s c₁ f (λ x. n (sym x)) in
    (
      ap (R.value (run R (delete_pod (some p) c₁).1 r)) (sym h) ∙ gone,
      (add_pod-quiet q c₂ λ x. subst (All (Counted q c₂.restart_counters)) (sym g) (
        λ y.
            subst (λ z. t.restart_count ≤ℤ z) (sym moved)
              (counted (sym (is_read-after q p c) ∙ x) y),
        tt,
      )).0,
    )
