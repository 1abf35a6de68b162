-- ===== src/Metrics/Owners.antt =====
-- Whose the metrics are: the workflows', the containers', and the exporter's own, among which those of
-- the health state and those of the informers.
use argo_workflows_metrics.Base.{
  ◌≡◌, ap, ◌||◌, Bool, true, false, Option, List, [], ◌∷◌, All, All-map,
}
use argo_workflows_metrics.Metrics.{
  Metric, Series, Sample, Write, workflow_status_total, workflow_status_phase, workflow_count,
  workflow_duration_seconds, workflow_created_time, workflow_started_time, workflow_finished_time,
  workflow_node_total, workflow_node_phase, workflow_info, container_cpu_usage_seconds,
  container_memory_usage_bytes, exporter_informer_synced, exporter_last_event_timestamp,
  exporter_shutting_down, exporter_readiness, exporter_liveness, exporter_is_leader,
  exporter_leader_transitions_total, exporter_shard_info, exporter_events_total,
  exporter_event_handler_errors_total, exporter_informer_start_errors_total, exporter_queue_depth,
  exporter_reconcile_duration_seconds, exporter_reconcile_errors_total,
  exporter_full_reconcile_total,
}
use argo_workflows_metrics.Metrics.Trace.{after, after_missed, target, Misses}

abbrev pub is_workflow : Metric → Bool
is_workflow workflow_status_total = true
is_workflow workflow_status_phase = true
is_workflow workflow_count = true
is_workflow workflow_duration_seconds = true
is_workflow workflow_created_time = true
is_workflow workflow_started_time = true
is_workflow workflow_finished_time = true
is_workflow workflow_node_total = true
is_workflow workflow_node_phase = true
is_workflow workflow_info = true
is_workflow _ = false

abbrev pub is_container : Metric → Bool
is_container container_cpu_usage_seconds = true
is_container container_memory_usage_bytes = true
is_container _ = false

abbrev pub is_health : Metric → Bool
is_health exporter_informer_synced = true
is_health exporter_last_event_timestamp = true
is_health exporter_shutting_down = true
is_health exporter_readiness = true
is_health exporter_liveness = true
is_health exporter_is_leader = true
is_health exporter_leader_transitions_total = true
is_health _ = false

abbrev pub is_informer : Metric → Bool
is_informer exporter_events_total = true
is_informer exporter_event_handler_errors_total = true
is_informer exporter_informer_start_errors_total = true
is_informer exporter_queue_depth = true
is_informer exporter_reconcile_duration_seconds = true
is_informer exporter_reconcile_errors_total = true
is_informer exporter_full_reconcile_total = true
is_informer _ = false

-- The exporter's own.
abbrev pub is_own : Metric → Bool
is_own exporter_shard_info = true
is_own m = is_health m || is_informer m

-- Calls on some metrics alone, and on none of them.
abbrev pub On : (Metric → Bool) → List Write → Type 0
On P = All λ w. P (target w).metric ≡ true

abbrev pub Off : (Metric → Bool) → List Write → Type 0
Off P = All λ w. P (target w).metric ≡ false

Off-Misses :
    (P : Metric → Bool) (x : Series) (ws : List Write) → P x.metric ≡ true → Off P ws → Misses x ws
Off-Misses P x [] h a = tt
Off-Misses P x (w ∷ ws) h a =
    ((λ e. cc (h, a.0, ap (λ (y : Series). P y.metric) e)), Off-Misses P x ws h a.1)

pub after-Off :
    (P : Metric → Bool) (x : Series) (old : Option Sample) (ws : List Write)
    → P x.metric ≡ true
    → Off P ws
    → after x old ws ≡ old
after-Off P x old ws h a = after_missed x old ws (Off-Misses P x ws h a)

-- From metrics that exclude others.
pub On-Off :
    (P P' : Metric → Bool) (ws : List Write)
    → ((m : Metric) → P m ≡ true → P' m ≡ false)
    → On P ws
    → Off P' ws
On-Off P P' ws h = All-map _ _ ws (λ w. h (target w).metric)

pub On-On :
    (P P' : Metric → Bool) (ws : List Write)
    → ((m : Metric) → P m ≡ true → P' m ≡ true)
    → On P ws
    → On P' ws
On-On P P' ws h = All-map _ _ ws (λ w. h (target w).metric)
