-- ===== src/Metrics.antt =====
-- pkg/metrics/metrics.go: the exporter's metrics with their names, kinds and labels, and the calls
-- that the program makes on them. What the client library keeps is in Metrics/Registry.
pub mod Registry
pub mod Trace
pub mod Owners
pub mod Histories
pub mod Memory
pub mod Loops
use argo_workflows_metrics.Base.{
  ℕ, suc, ◌*◌, ◌-◌, ◌≡◌, Bool, String, Option, none, some, List, [], ◌∷◌, length, Eq, ◌==◌,
  labels_eq, if◌then◌else◌, value_or,
}
use argo_workflows_metrics.Base.Int.{ℤ, pos, negsuc, ◌+ℤ◌, ◌≤ℤ◌}
use argo_workflows_metrics.Base.Time.{second}

pub data Metric : Type 0 where
  workflow_status_total workflow_status_phase workflow_count : Metric
  workflow_duration_seconds workflow_created_time workflow_started_time : Metric
  workflow_finished_time workflow_node_total workflow_node_phase workflow_info : Metric
  container_cpu_usage_seconds container_memory_usage_bytes : Metric
  exporter_informer_synced exporter_last_event_timestamp exporter_shutting_down : Metric
  exporter_readiness exporter_liveness exporter_is_leader : Metric
  exporter_leader_transitions_total exporter_shard_info exporter_events_total : Metric
  exporter_event_handler_errors_total exporter_informer_start_errors_total : Metric
  exporter_queue_depth exporter_reconcile_duration_seconds : Metric
  exporter_reconcile_errors_total exporter_full_reconcile_total : Metric

pub data Kind : Type 0 where
  gauge counter histogram : Kind

unfoldable pub name : Metric → String
name workflow_status_total = "argo_workflow_status_total"
name workflow_status_phase = "argo_workflow_status_phase"
name workflow_count = "argo_workflow_count"
name workflow_duration_seconds = "argo_workflow_duration_seconds"
name workflow_created_time = "argo_workflow_created_time"
name workflow_started_time = "argo_workflow_started_time"
name workflow_finished_time = "argo_workflow_finished_time"
name workflow_node_total = "argo_workflow_node_total"
name workflow_node_phase = "argo_workflow_node_phase"
name workflow_info = "argo_workflow_info"
name container_cpu_usage_seconds = "argo_workflow_container_cpu_usage_seconds_total"
name container_memory_usage_bytes = "argo_workflow_container_memory_usage_bytes"
name exporter_informer_synced = "argo_exporter_informer_synced"
name exporter_last_event_timestamp = "argo_exporter_last_event_timestamp_seconds"
name exporter_shutting_down = "argo_exporter_shutting_down"
name exporter_readiness = "argo_exporter_ready"
name exporter_liveness = "argo_exporter_alive"
name exporter_is_leader = "argo_exporter_is_leader"
name exporter_leader_transitions_total = "argo_exporter_leader_transitions_total"
name exporter_shard_info = "argo_exporter_shard_info"
name exporter_events_total = "argo_exporter_events_total"
name exporter_event_handler_errors_total = "argo_exporter_event_handler_errors_total"
name exporter_informer_start_errors_total = "argo_exporter_informer_start_errors_total"
name exporter_queue_depth = "argo_exporter_queue_depth"
name exporter_reconcile_duration_seconds = "argo_exporter_reconcile_duration_seconds"
name exporter_reconcile_errors_total = "argo_exporter_reconcile_errors_total"
name exporter_full_reconcile_total = "argo_exporter_full_reconcile_total"

unfoldable pub kind : Metric → Kind
kind workflow_status_total = gauge
kind workflow_status_phase = gauge
kind workflow_count = gauge
kind workflow_duration_seconds = gauge
kind workflow_created_time = gauge
kind workflow_started_time = gauge
kind workflow_finished_time = gauge
kind workflow_node_total = gauge
kind workflow_node_phase = gauge
kind workflow_info = gauge
kind container_cpu_usage_seconds = counter
kind container_memory_usage_bytes = gauge
kind exporter_informer_synced = gauge
kind exporter_last_event_timestamp = gauge
kind exporter_shutting_down = gauge
kind exporter_readiness = gauge
kind exporter_liveness = gauge
kind exporter_is_leader = gauge
kind exporter_leader_transitions_total = counter
kind exporter_shard_info = gauge
kind exporter_events_total = counter
kind exporter_event_handler_errors_total = counter
kind exporter_informer_start_errors_total = counter
kind exporter_queue_depth = gauge
kind exporter_reconcile_duration_seconds = histogram
kind exporter_reconcile_errors_total = counter
kind exporter_full_reconcile_total = counter

-- The label names; a metric that is no vector has none.
unfoldable pub labels : Metric → List String
labels workflow_status_total = "namespace" ∷ "phase" ∷ []
labels workflow_status_phase = "namespace" ∷ "name" ∷ "phase" ∷ []
labels workflow_count = "namespace" ∷ []
labels workflow_duration_seconds = "namespace" ∷ "name" ∷ "phase" ∷ []
labels workflow_created_time = "namespace" ∷ "name" ∷ []
labels workflow_started_time = "namespace" ∷ "name" ∷ []
labels workflow_finished_time = "namespace" ∷ "name" ∷ []
labels workflow_node_total = "namespace" ∷ "name" ∷ []
labels workflow_node_phase = "namespace" ∷ "name" ∷ "phase" ∷ []
labels workflow_info = "namespace" ∷ "name" ∷ "uid" ∷ "service_account" ∷ "priority" ∷ []
labels container_cpu_usage_seconds =
    "namespace" ∷ "workflow_name" ∷ "node_name" ∷ "container_name" ∷ []
labels container_memory_usage_bytes =
    "namespace" ∷ "workflow_name" ∷ "node_name" ∷ "container_name" ∷ []
labels exporter_informer_synced = "informer" ∷ []
labels exporter_last_event_timestamp = "informer" ∷ []
labels exporter_shutting_down = []
labels exporter_readiness = []
labels exporter_liveness = []
labels exporter_is_leader = []
labels exporter_leader_transitions_total = "state" ∷ []
labels exporter_shard_info = "mode" ∷ "shard_total" ∷ "shard_index" ∷ []
labels exporter_events_total = "informer" ∷ "event" ∷ []
labels exporter_event_handler_errors_total = "informer" ∷ "event" ∷ []
labels exporter_informer_start_errors_total = "informer" ∷ []
labels exporter_queue_depth = "informer" ∷ []
labels exporter_reconcile_duration_seconds = "informer" ∷ "operation" ∷ []
labels exporter_reconcile_errors_total = "informer" ∷ "operation" ∷ []
labels exporter_full_reconcile_total = "informer" ∷ "status" ∷ []

-- One time series: a metric with its label values, as `WithLabelValues` names it.
pub record Series : Type 0 where
  pub metric : Metric
  pub values : List String

metric_dec : Discrete Metric
metric_dec = hlevel

series_dec : Discrete Series
unfolding metric_dec labels_eq
series_dec = hlevel (metric_dec, labels_eq.dec)

instance unfoldable pub metric_eq : Eq Metric
unfolding metric_dec
metric_eq = record { dec = metric_dec }

instance unfoldable pub series_eq : Eq Series
unfolding series_dec
series_eq = record { dec = series_dec }

-- Sample values are float64; here they are exact, in units of 10^-9. `whole` is `float64(n)`.
abbrev pub Sample : Type 0
Sample = ℤ

abbrev pub whole : ℕ → Sample
whole n = pos (n * second)

-- `float64(n)` of a signed integer
abbrev pub whole_ℤ : ℤ → Sample
whole_ℤ (pos n) = whole n
whole_ℤ (negsuc n) = negsuc (suc n * second - 1)

-- The calls on the client library.
pub data Write : Type 0 where
  set : Series → Sample → Write
  delete : Series → Write
  inc : Series → Write
  add : Series → Sample → Write
  observe : Series → Sample → Write

abbrev pub labelled : Metric → List String → Series
labelled m ls = record { metric = m; values = ls }

-- What a call does to the value of one series; `none` is a series that is not exposed.
abbrev pub effect : Series → Option Sample → Write → Option Sample
effect x old (set y v) = if x == y then some v else old
effect x old (delete y) = if x == y then none else old
effect x old (inc y) = if x == y then some (value_or (whole 0) old +ℤ whole 1) else old
effect x old (add y v) = if x == y then some (value_or (whole 0) old +ℤ v) else old
effect x old (observe y v) = old

-- The calls that the client library does not answer with a panic: as many label values as labels,
-- the operation of the metric's kind, and no counter that falls.
abbrev pub HasLabels : Series → Type 0
HasLabels x = length x.values ≡ length (labels x.metric)

abbrev pub IsLegal : Write → Type 0
IsLegal (set x v) = HasLabels x × (kind x.metric ≡ gauge)
IsLegal (delete x) = HasLabels x
IsLegal (inc x) = HasLabels x × (kind x.metric ≡ counter)
IsLegal (add x v) = HasLabels x × (kind x.metric ≡ counter) × (whole 0 ≤ℤ v)
IsLegal (observe x v) = HasLabels x × (kind x.metric ≡ histogram)
