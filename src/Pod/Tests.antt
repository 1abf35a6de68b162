-- ===== src/Pod/Tests.antt =====
-- Runs of the pod collector, and instances of its theorems.
use text.Mathlib.TextEquality.{eq_iff}
use argo_workflows_metrics.Base.{◌≡◌, ◌≢◌, refl, true, none, some, [], ◌∷◌, All, string_eq, arith}
use argo_workflows_metrics.Base.Int.{pos}
use argo_workflows_metrics.Base.Time.{sub}
use argo_workflows_metrics.Base.Dict.{lookup, insert}
use argo_workflows_metrics.Metrics.{add, IsLegal}
use argo_workflows_metrics.Metrics.Registry.{run}
use argo_workflows_metrics.Metrics.Memory.{memory, memory-IsLawful, blank}
use argo_workflows_metrics.Pod.{
  ContainerStatus, Pod, PodCollector, new_pod_collector, container_state_key, cpu_series,
  memory_series, add_pod, delete_pod, collect_pod_metrics, count_statuses, count_termination,
}
use argo_workflows_metrics.Pod.Restarts.{is_read, add_pods, redelivered}
use argo_workflows_metrics.Pod.Cleared.{delete_pod-clears}
use argo_workflows_metrics.Pod.Shared.{shared-lost}
use argo_workflows_metrics.Pod.Calls.{pods-IsLegal}

abbrev main_status : ContainerStatus
main_status = record {
  name = "main";
  restart_count = pos 2;
  last_termination = some (record { started_at = 1_000; finished_at = 4_000 });
}

abbrev build_pod : Pod
build_pod = record {
  namespace = "ci";
  name = "build-1-pod";
  uid = "p1";
  labels =
      ("workflows.argoproj.io/workflow", "build-1")
      ∷ ("workflows.argoproj.io/workflow-node", "n1")
      ∷ [];
  container_statuses = main_status ∷ [];
}

abbrev other_pod : Pod
other_pod = record build_pod { name = "build-2-pod"; uid = "p2" }

abbrev fresh : PodCollector
fresh = new_pod_collector true

counted : (add_pod (some build_pod) fresh).1 ≡ add (cpu_series build_pod "main") (pos 3_000) ∷ []
unfolding add_pod collect_pod_metrics count_statuses count_termination container_state_key
    new_pod_collector lookup insert string_eq sub
counted = refl

build_pod-read : is_read build_pod fresh ≡ true
unfolding new_pod_collector lookup string_eq
build_pod-read = refl

redelivered_example :
    let c' = add_pods (some other_pod ∷ none ∷ []) (add_pod (some build_pod) fresh).0 in
    ((add_pod (some build_pod) c').1 ≡ [])
    × ((add_pod (some build_pod) c').0.restart_counters ≡ c'.restart_counters)
redelivered_example = redelivered build_pod (some other_pod ∷ none ∷ []) fresh

delete_pod-clears_example :
    let (c', ws) = delete_pod (some build_pod) fresh in
    All
      (λ status.
        (memory.value (run memory ws blank) (cpu_series build_pod status.name) ≡ none)
        × (memory.value (run memory ws blank) (memory_series build_pod status.name) ≡ none)
        × (lookup (container_state_key build_pod status.name) c'.restart_counters ≡ none))
      build_pod.container_statuses
delete_pod-clears_example =
    delete_pod-clears memory memory-IsLawful blank build_pod fresh build_pod-read

pods-IsLegal_holds :
    All IsLegal (add_pod (some build_pod) fresh).1
    × All IsLegal (delete_pod (some build_pod) fresh).1
pods-IsLegal_holds = pods-IsLegal (some build_pod) fresh

-- Two pods of one workflow.
abbrev status_of : ContainerStatus
status_of = record main_status { restart_count = pos 1 }

abbrev twin_pod : Pod
twin_pod = record build_pod {
  name = "build-1-pod-2";
  uid = "p3";
  container_statuses = status_of ∷ [];
}

distinct_keys : container_state_key build_pod "main" ≢ container_state_key twin_pod "main"
unfolding container_state_key
distinct_keys = ground (arith, eq_iff "ci/p1/build-1-pod/main" "ci/p3/build-1-pod-2/main")

shared-lost_example :
    let (c', ws) = delete_pod (some build_pod) (add_pod (some twin_pod) fresh).0 in
    (memory.value (run memory ws blank) (cpu_series twin_pod "main") ≡ none)
    × ((add_pod (some twin_pod) c').1 ≡ [])
shared-lost_example =
    shared-lost memory memory-IsLawful blank fresh build_pod twin_pod main_status status_of
      build_pod-read refl refl refl distinct_keys
