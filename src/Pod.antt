-- ===== src/Pod.antt =====
-- pkg/collector/pod.go: `PodCollector`, which counts the run time of each container that terminated,
-- once for each restart. Each operation returns the new state and its calls on the metrics; the
-- lock and its critical sections are not kept.
pub mod Restarts
pub mod Cleared
pub mod History
pub mod Shared
pub mod Shown
pub mod Calls
mod Tests
use argo_workflows_metrics.Base.{
  Bool, true, false, String, ◌<>◌, Option, none, some, List, [], ◌∷◌, ◌++◌, string_eq, ◌==◌,
  if◌then◌else◌, value_or,
}
use argo_workflows_metrics.Base.Int.{ℤ, pos, ltb_ℤ, leb_ℤ}
use argo_workflows_metrics.Base.Time.{Time, Duration, sub}
use argo_workflows_metrics.Base.Dict.{Dict, lookup, insert, erase}
use argo_workflows_metrics.Metrics.{
  Series, Write, add, delete, labelled, container_cpu_usage_seconds, container_memory_usage_bytes,
}

-- `ContainerStateTerminated`
pub record Terminated : Type 0 where
  pub started_at : Time
  pub finished_at : Time

pub record ContainerStatus : Type 0 where
  pub name : String
  pub restart_count : ℤ
  pub last_termination : Option Terminated

-- The fields of a `corev1.Pod` that the collector reads.
pub record Pod : Type 0 where
  pub namespace : String
  pub name : String
  pub uid : String
  pub labels : Dict String String
  pub container_statuses : List ContainerStatus

pub record PodCollector : Type 0 where
  pub collect_container_stats : Bool
  pub pods : Dict String Pod
  pub restart_counters : Dict String ℤ

unfoldable pub new_pod_collector : Bool → PodCollector
new_pod_collector stats = record {
  collect_container_stats = stats;
  pods = [];
  restart_counters = [];
}

unfoldable pub pod_key : Pod → String
pod_key pod = pod.namespace <> ("/" <> pod.name)

-- `fmt.Sprintf("%s/%s/%s/%s", pod.Namespace, string(pod.UID), pod.Name, containerName)`
unfoldable pub container_state_key : Pod → String → String
container_state_key pod container =
    pod.namespace <> ("/" <> (pod.uid <> ("/" <> (pod.name <> ("/" <> container)))))

-- A label, the empty text where it is missing.
abbrev pub label : String → Pod → String
label k pod = value_or "" (lookup k pod.labels)

abbrev pub workflow_of : Pod → String
workflow_of = label "workflows.argoproj.io/workflow"

abbrev pub node_of : Pod → String
node_of = label "workflows.argoproj.io/workflow-node"

abbrev pub cpu_series : Pod → String → Series
cpu_series pod container =
    labelled container_cpu_usage_seconds
      (pod.namespace ∷ workflow_of pod ∷ node_of pod ∷ container ∷ [])

abbrev pub memory_series : Pod → String → Series
memory_series pod container =
    labelled container_memory_usage_bytes
      (pod.namespace ∷ workflow_of pod ∷ node_of pod ∷ container ∷ [])

abbrev pub Step : Type 0
Step = Dict String ℤ × List Write

abbrev pub add_cpu : Series → Duration → List Write
add_cpu x usage = if ltb_ℤ (pos 0) usage then add x usage ∷ [] else []

-- The count that was seen last; 0 for a container that was not seen.
abbrev pub seen : String → Dict String ℤ → ℤ
seen k counters = value_or (pos 0) (lookup k counters)

-- The body of the loop for a status that shows a termination.
unfoldable pub count_termination : Pod → ContainerStatus → Terminated → Dict String ℤ → Step
count_termination pod status t counters =
    let k = container_state_key pod status.name in
    if leb_ℤ status.restart_count (seen k counters) then (counters, []) else (
      insert k status.restart_count counters,
      add_cpu (cpu_series pod status.name) (sub t.finished_at t.started_at),
    )

abbrev pub count_last : Pod → ContainerStatus → Option Terminated → Dict String ℤ → Step
count_last pod status none counters = (counters, [])
count_last pod status (some t) counters = count_termination pod status t counters

unfoldable pub count_statuses : Pod → List ContainerStatus → Dict String ℤ → Step
count_statuses pod [] counters = (counters, [])
count_statuses pod (status ∷ statuses) counters =
    let (counters', ws) = count_last pod status status.last_termination counters in
    let (counters'', vs) = count_statuses pod statuses counters' in (counters'', ws ++ vs)

unfoldable pub collect_pod_metrics : Pod → Dict String ℤ → Step
unfolding count_statuses
collect_pod_metrics pod counters =
    if workflow_of pod == ""
    then (counters, [])
    else count_statuses pod pod.container_statuses counters

unfoldable pub add_pod : Option Pod → PodCollector → PodCollector × List Write
unfolding collect_pod_metrics
add_pod none c = (c, [])
add_pod (some pod) c =
    let (counters, ws) = collect_pod_metrics pod c.restart_counters in
    if c.collect_container_stats
    then (record c { pods = insert (pod_key pod) pod c.pods; restart_counters = counters }, ws)
    else (c, [])

unfoldable pub forget_counters : Pod → List ContainerStatus → Dict String ℤ → Dict String ℤ
forget_counters pod [] counters = counters
forget_counters pod (status ∷ statuses) counters =
    forget_counters pod statuses (erase (container_state_key pod status.name) counters)

unfoldable pub delete_series : Pod → List ContainerStatus → List Write
delete_series pod [] = []
delete_series pod (status ∷ statuses) =
    delete (cpu_series pod status.name)
    ∷ delete (memory_series pod status.name)
    ∷ delete_series pod statuses

unfoldable pub delete_pod_metrics : Pod → Dict String ℤ → Step
unfolding delete_series forget_counters
delete_pod_metrics pod counters = if workflow_of pod == "" then (counters, []) else (
  forget_counters pod pod.container_statuses counters,
  delete_series pod pod.container_statuses,
)

unfoldable pub delete_pod : Option Pod → PodCollector → PodCollector × List Write
unfolding delete_pod_metrics
delete_pod none c = (c, [])
delete_pod (some pod) c =
    let forgotten = forget_counters pod pod.container_statuses c.restart_counters in
    let (counters, ws) = delete_pod_metrics pod forgotten in
    if c.collect_container_stats
    then (record c { pods = erase (pod_key pod) c.pods; restart_counters = counters }, ws)
    else (c, [])
