-- ===== src/Pod/Calls.antt =====
-- No operation on pods makes the client library panic.
use argo_workflows_metrics.Base.{
  refl, String, Option, none, some, List, [], ◌∷◌, arith, All, All-append, string_eq, ◌==◌,
  Bool-cases, inl, inr,
}
use argo_workflows_metrics.Base.Int.{ℤ, pos, ◌<ℤ◌, ltb_ℤ, leb_ℤ}
use argo_workflows_metrics.Base.Time.{Duration, sub}
use argo_workflows_metrics.Base.Dict.{Dict}
use argo_workflows_metrics.Metrics.{Write, add, delete, IsLegal, kind, labels}
use argo_workflows_metrics.Pod.{
  Terminated, ContainerStatus, Pod, PodCollector, workflow_of, cpu_series, memory_series, add_cpu,
  seen, container_state_key, count_termination, count_last, count_statuses, collect_pod_metrics,
  add_pod, delete_series, delete_pod_metrics, delete_pod,
}

-- To show something of every call of the collector, show it of the three kinds of calls. A counter is
-- not asked to fall: only a positive duration is added.
module _ (P : Write → Type 0)
    (adds : (pod : Pod) (container : String) (usage : Duration)
      → pos 0 <ℤ usage
      → P (add (cpu_series pod container) usage))
    (removes_cpu : (pod : Pod) (container : String) → P (delete (cpu_series pod container)))
    (removes_memory : (pod : Pod) (container : String)
      → P (delete (memory_series pod container))) where
  add_cpu-All :
      (pod : Pod) (container : String) (usage : Duration)
      → All P (add_cpu (cpu_series pod container) usage)
  add_cpu-All pod container usage = elim (Bool-cases (ltb_ℤ (pos 0) usage)) [
    | inl e ↦ rw e (adds pod container usage (ground arith), tt)
    | inr e ↦ rw e tt
  ]

  count_termination-All :
      (pod : Pod) (status : ContainerStatus) (t : Terminated) (d : Dict String ℤ)
      → All P (count_termination pod status t d).1
  unfolding count_termination
  count_termination-All pod status t d =
      elim (Bool-cases
        (leb_ℤ status.restart_count (seen (container_state_key pod status.name) d))) [
          | inl e ↦ rw e tt
          | inr e ↦ rw e (add_cpu-All pod status.name (sub t.finished_at t.started_at))
        ]

  count_last-All :
      (pod : Pod) (status : ContainerStatus) (o : Option Terminated) (d : Dict String ℤ)
      → All P (count_last pod status o d).1
  count_last-All pod status none d = tt
  count_last-All pod status (some t) d = count_termination-All pod status t d

  count_statuses-All :
      (pod : Pod) (statuses : List ContainerStatus) (d : Dict String ℤ)
      → All P (count_statuses pod statuses d).1
  unfolding count_statuses
  count_statuses-All pod [] d = tt
  count_statuses-All pod (status ∷ statuses) d =
      let d' = (count_last pod status status.last_termination d).0 in
      All-append P (count_last pod status status.last_termination d).1 _
        (count_last-All pod status status.last_termination d) (count_statuses-All pod statuses d')

  delete_series-All :
      (pod : Pod) (statuses : List ContainerStatus) → All P (delete_series pod statuses)
  unfolding delete_series
  delete_series-All pod [] = tt
  delete_series-All pod (status ∷ statuses) = (
    removes_cpu pod status.name,
    (removes_memory pod status.name, delete_series-All pod statuses),
  )

  pub add_pod-All : (o : Option Pod) (c : PodCollector) → All P (add_pod o c).1
  unfolding add_pod collect_pod_metrics
  add_pod-All none c = tt
  add_pod-All (some pod) c =
      let h = count_statuses-All pod pod.container_statuses c.restart_counters in
      elim (Bool-cases c.collect_container_stats) [
        | inl e ↦ elim (Bool-cases (workflow_of pod == "")) [
          | inl f ↦ rw (e, f) tt
          | inr f ↦ rw (e, f) h
        ]
        | inr e ↦ rw e tt
      ]

  pub delete_pod-All : (o : Option Pod) (c : PodCollector) → All P (delete_pod o c).1
  unfolding delete_pod delete_pod_metrics
  delete_pod-All none c = tt
  delete_pod-All (some pod) c =
      let h = delete_series-All pod pod.container_statuses in
      elim (Bool-cases c.collect_container_stats) [
        | inl e ↦ elim (Bool-cases (workflow_of pod == "")) [
          | inl f ↦ rw (e, f) tt
          | inr f ↦ rw (e, f) h
        ]
        | inr e ↦ rw e tt
      ]

-- Neither adding nor deleting a pod makes a call on which the client library panics: each call has
-- as many label values as its metric has labels, and the CPU counter is never asked to fall.
pub pods-IsLegal :
    (o : Option Pod) (c : PodCollector)
    → All IsLegal (add_pod o c).1 × All IsLegal (delete_pod o c).1
unfolding labels kind
pods-IsLegal o c = (
  add_pod-All IsLegal (λ pod container usage h. (refl, refl, omega (arith, h)))
      (λ pod container. refl) (λ pod container. refl) o c,
  delete_pod-All IsLegal (λ pod container usage h. (refl, refl, omega (arith, h)))
      (λ pod container. refl) (λ pod container. refl) o c,
)
