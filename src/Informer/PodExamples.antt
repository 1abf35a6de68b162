-- ===== src/Informer/PodExamples.antt =====
-- Instances of the theorems on the informer of pods.
use argo_workflows_metrics.Base.{
  ◌≡◌, refl, Bool, true, false, String, none, some, List, [], ◌∷◌, arith, string_eq,
}
use argo_workflows_metrics.Base.Int.{pos, ◌+ℤ◌}
use argo_workflows_metrics.Base.Time.{Time, sub}
use argo_workflows_metrics.Base.Dict.{lookup}
use argo_workflows_metrics.Metrics.{whole}
use argo_workflows_metrics.Metrics.Registry.{run}
use argo_workflows_metrics.Metrics.Memory.{memory, memory-IsLawful, blank}
use argo_workflows_metrics.Pod.{
  ContainerStatus, Terminated, Pod, new_pod_collector, cpu_series, delete_pod,
}
use argo_workflows_metrics.Queue.Line.{line, empty_line, line-IsFifo}
use argo_workflows_metrics.Informer.{Item, Object, object, tombstone, other_object, Moment}
use argo_workflows_metrics.Informer.Pods.{
  pod_source, PodInformer, is_workflow_pod, run_full_reconcile,
}
use argo_workflows_metrics.Informer.Delivery.{Handler, adding, deleting}
use argo_workflows_metrics.Informer.Turns.{AllOwn}
use argo_workflows_metrics.Informer.Pipeline.{worked, delivered, pod-MarksOwn}
use argo_workflows_metrics.Informer.PodReconcile.{reconcile-again}
use argo_workflows_metrics.Informer.PodRace.{late_reconcile-leaks}

abbrev all_namespaces : String → Bool
all_namespaces namespace = true

-- A pod whose container ran for three microseconds and was restarted.
abbrev exit : Terminated
exit = record { started_at = 1_000; finished_at = 4_000 }

abbrev status : ContainerStatus
status = record { name = "main"; restart_count = pos 2; last_termination = some exit }

abbrev build_pod : Pod
build_pod = record {
  namespace = "ci";
  name = "build-1-pod";
  uid = "p1";
  labels = ("workflows.argoproj.io/workflow", "build-1") ∷ [];
  container_statuses = status ∷ [];
}

abbrev pods : PodInformer (line (Item Pod))
pods = record {
  collector = new_pod_collector true;
  health_state = none;
  queue = empty_line;
  worker_count = pos 2;
  full_reconcile_period = pos 600;
  namespace_matcher = all_namespaces;
  stopped = false;
}

reconcile-again_example :
    let items : List (Object Pod) = other_object ∷ object build_pod ∷ [] in
    let pi = (run_full_reconcile (line _) false (8, pos 1) items pods).0 in
    let (pi', ws) = run_full_reconcile (line _) false (9, pos 1) items pi in
    AllOwn ws × (pi'.collector.restart_counters ≡ pi.collector.restart_counters)
reconcile-again_example =
    reconcile-again (line _) (8, pos 1) (9, pos 1) (other_object ∷ object build_pod ∷ []) pods

late_reconcile-leaks_example :
    let (deleted, ws) = delete_pod (some build_pod) pods.collector in
    let (pi, vs) =
      run_full_reconcile
        (line _)
        false
        (8, pos 1)
        (object build_pod ∷ [])
        (record pods { collector = deleted }) in
    (memory.value (run memory ws blank) (cpu_series build_pod "main") ≡ none)
    × (memory.value (run memory vs (run memory ws blank)) (cpu_series build_pod "main")
        ≡ some (whole 0 +ℤ sub exit.finished_at exit.started_at))
    × ((later : Moment)
        → memory.value
            (run memory
              (run_full_reconcile (line _) false later [] pi).1
              (run memory vs (run memory ws blank)))
            (cpu_series build_pod "main")
          ≡ some (whole 0 +ℤ sub exit.finished_at exit.started_at))
unfolding new_pod_collector is_workflow_pod lookup string_eq sub
late_reconcile-leaks_example =
    late_reconcile-leaks memory memory-IsLawful blank (line _) (8, pos 1) pods build_pod status exit
      refl refl refl refl (omega arith) (omega arith)

-- The pod's deletion comes as a tombstone.
abbrev deliveries : List (Handler × Time × Object Pod)
deliveries = (adding, 7, object build_pod) ∷ (deleting, 9, tombstone (object build_pod)) ∷ []

pods_delivered :
    let (pi, ws) = worked pod_source (line _) deliveries (λ k. (100, pos 1)) pods in
    pi.queue.items ≡ []
unfolding line-IsFifo
pods_delivered =
    (delivered pod_source (line _) pod-MarksOwn (line-IsFifo _) deliveries (λ k. (100, pos 1)) pods
      refl refl (cpu_series build_pod "main") none refl).0
