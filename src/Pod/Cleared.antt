-- ===== src/Pod/Cleared.antt =====
-- Deleting a pod: its series and its counters go, and no others change.
use argo_workflows_metrics.Base.{
  ◌≡◌, refl, ◌∙◌, String, true, false, Option, none, some, List, [], ◌∷◌, arith, All, All-map,
  All-zip, string_eq, ◌==◌,
}
use argo_workflows_metrics.Base.Int.{ℤ}
use argo_workflows_metrics.Base.Dict.{Dict, lookup, erase, lookup-erase}
use argo_workflows_metrics.Metrics.{Series, Sample, series_eq}
use argo_workflows_metrics.Metrics.Registry.{Registry, IsLawful, run}
use argo_workflows_metrics.Metrics.Trace.{after, value-run}
use argo_workflows_metrics.Pod.{
  ContainerStatus, Pod, PodCollector, container_state_key, workflow_of, cpu_series, memory_series,
  forget_counters, delete_series, delete_pod_metrics, delete_pod,
}
use argo_workflows_metrics.Pod.Restarts.{is_read}

delete_series-none :
    (x : Series) (pod : Pod) (statuses : List ContainerStatus)
    → after x none (delete_series pod statuses) ≡ none
unfolding delete_series
delete_series-none x pod [] = refl
delete_series-none x pod (status ∷ statuses) =
    let r = delete_series-none x pod statuses in ground arith

-- Nothing is left of the two series of each container.
abbrev SeriesGone : Pod → List ContainerStatus → ContainerStatus → Type 0
SeriesGone pod statuses status =
    (old : Option Sample)
    → (after (cpu_series pod status.name) old (delete_series pod statuses) ≡ none)
      × (after (memory_series pod status.name) old (delete_series pod statuses) ≡ none)

delete_series-SeriesGone :
    (pod : Pod) (statuses : List ContainerStatus) → All (SeriesGone pod statuses) statuses
unfolding delete_series
delete_series-SeriesGone pod [] = tt
delete_series-SeriesGone pod (status ∷ statuses) = (
  λ old.
      let r = delete_series-none (cpu_series pod status.name) pod statuses in
      let r' = delete_series-none (memory_series pod status.name) pod statuses in ground arith,
  All-map _ _ statuses (λ s h old. ((h _).0, (h _).1)) (delete_series-SeriesGone pod statuses),
)

forget_counters-none :
    (k : String) (pod : Pod) (statuses : List ContainerStatus) (d : Dict String ℤ)
    → lookup k d ≡ none
    → lookup k (forget_counters pod statuses d) ≡ none
unfolding forget_counters
forget_counters-none k pod [] d h = h
forget_counters-none k pod (status ∷ statuses) d h =
    let j = container_state_key pod status.name in
    forget_counters-none k pod statuses (erase j d) (ground (arith, lookup-erase k j d))

abbrev CounterGone : Pod → Dict String ℤ → ContainerStatus → Type 0
CounterGone pod d status = lookup (container_state_key pod status.name) d ≡ none

forget_counters-CounterGone :
    (pod : Pod) (statuses : List ContainerStatus) (d : Dict String ℤ)
    → All (CounterGone pod (forget_counters pod statuses d)) statuses
unfolding forget_counters
forget_counters-CounterGone pod [] d = tt
forget_counters-CounterGone pod (status ∷ statuses) d =
    let j = container_state_key pod status.name in
    (
      forget_counters-none j pod statuses (erase j d) (ground (arith, lookup-erase j j d)),
      forget_counters-CounterGone pod statuses (erase j d),
    )

-- Deleting a pod, with container statistics on and a workflow label on the pod, leaves of each of
-- its containers neither a CPU nor a memory series nor a restart counter, whatever was there
-- before.
pub delete_pod-clears :
    (R : Registry) (L : IsLawful R) (r : R.State) (pod : Pod) (c : PodCollector)
    → is_read pod c ≡ true
    → let (c', ws) = delete_pod (some pod) c in
      All
        (λ status.
          (R.value (run R ws r) (cpu_series pod status.name) ≡ none)
          × (R.value (run R ws r) (memory_series pod status.name) ≡ none)
          × (lookup (container_state_key pod status.name) c'.restart_counters ≡ none))
        pod.container_statuses
unfolding delete_pod delete_pod_metrics
delete_pod-clears R L r pod c e =
    let (on, off) : (c.collect_container_stats ≡ true) × ((workflow_of pod == "") ≡ false) =
      ground arith in
    let ws = delete_series pod pod.container_statuses in
    rw (on, off)
      (All-map _ _ pod.container_statuses
        (λ status (gone, forgotten).
          (value-run R L ws r _ ∙ (gone _).0, value-run R L ws r _ ∙ (gone _).1, forgotten))
        (All-zip _ _ pod.container_statuses (delete_series-SeriesGone pod pod.container_statuses)
          (forget_counters-CounterGone pod pod.container_statuses _)))
