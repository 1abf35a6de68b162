-- ===== src/Health.antt =====
-- pkg/health/state.go: the state behind /healthz and /readyz. Each operation takes the time that
-- `time.Now` gives and returns the new state and its calls on the metrics. The lock makes the access to the
-- state one step; the calls come after it is released, and Health/Overlap.antt lets other accesses in between.
pub mod Readiness
pub mod Reach
pub mod Mirror
pub mod Runs
pub mod Overlap
mod Tests
use argo_workflows_metrics.Base.{Bool, true, false, not, ◌&&◌, String, List, [], ◌∷◌, if◌then◌else◌}
use argo_workflows_metrics.Base.Int.{pos, ltb_ℤ, leb_ℤ}
use argo_workflows_metrics.Base.Time.{Time, Duration, zero_time, is_zero, after, sub, unix}
use argo_workflows_metrics.Metrics.{
  Metric, Series, Write, set, inc, labelled, whole, whole_ℤ, exporter_informer_synced,
  exporter_last_event_timestamp, exporter_shutting_down, exporter_readiness, exporter_liveness,
  exporter_is_leader, exporter_leader_transitions_total,
}

pub record Snapshot : Type 0 where
  pub workflow_synced : Bool
  pub pod_synced : Bool
  pub last_workflow_evt : Time
  pub last_pod_evt : Time
  pub leader_elect : Bool
  pub is_leader : Bool
  pub shutting_down : Bool

pub record State : Type 0 where
  pub started_at : Time
  pub startup_grace : Duration
  pub stale_threshold : Duration
  pub workflow_synced : Bool
  pub pod_synced : Bool
  pub last_workflow_evt : Time
  pub last_pod_evt : Time
  pub leader_elect : Bool
  pub is_leader : Bool
  pub shutting_down : Bool

abbrev pub informer_synced : String → Series
informer_synced informer = labelled exporter_informer_synced (informer ∷ [])

abbrev pub last_event : String → Series
last_event informer = labelled exporter_last_event_timestamp (informer ∷ [])

-- A gauge without labels.
abbrev pub plain : Metric → Series
plain m = labelled m []

unfoldable pub new_state : Time → Duration → Duration → Bool → State × List Write
new_state now startup_grace stale_threshold leader_elect = (
  record {
    started_at = now;
    startup_grace = startup_grace;
    stale_threshold = stale_threshold;
    workflow_synced = false;
    pod_synced = false;
    last_workflow_evt = zero_time;
    last_pod_evt = zero_time;
    leader_elect = leader_elect;
    is_leader = false;
    shutting_down = false;
  },
  set (informer_synced "workflow") (whole 0)
      ∷ set (informer_synced "pod") (whole 0)
      ∷ set (last_event "workflow") (whole 0)
      ∷ set (last_event "pod") (whole 0)
      ∷ set (plain exporter_shutting_down) (whole 0)
      ∷ set (plain exporter_readiness) (whole 0)
      ∷ set (plain exporter_liveness) (whole 1)
      ∷ set (plain exporter_is_leader) (whole 0)
      ∷ [],
)

abbrev pub transition : String → Write
transition state = inc (labelled exporter_leader_transitions_total (state ∷ []))

unfoldable pub mark_leader : Bool → State → State × List Write
mark_leader elected s = (
  record s { is_leader = elected },
  (if elected
      then set (plain exporter_is_leader) (whole 1) ∷ transition "leader" ∷ []
      else set (plain exporter_is_leader) (whole 0) ∷ transition "follower" ∷ []),
)

unfoldable pub mark_workflow_synced : State → State × List Write
mark_workflow_synced s =
    (record s { workflow_synced = true }, set (informer_synced "workflow") (whole 1) ∷ [])

unfoldable pub mark_pod_synced : State → State × List Write
mark_pod_synced s = (record s { pod_synced = true }, set (informer_synced "pod") (whole 1) ∷ [])

unfoldable pub mark_workflow_event : Time → State → State × List Write
mark_workflow_event now s =
    (record s { last_workflow_evt = now }, set (last_event "workflow") (whole_ℤ (unix now)) ∷ [])

unfoldable pub mark_pod_event : Time → State → State × List Write
mark_pod_event now s =
    (record s { last_pod_evt = now }, set (last_event "pod") (whole_ℤ (unix now)) ∷ [])

unfoldable pub mark_shutting_down : State → State × List Write
mark_shutting_down s =
    (record s { shutting_down = true }, set (plain exporter_shutting_down) (whole 1) ∷ [])

unfoldable pub snapshot : State → Snapshot
snapshot s = record {
  workflow_synced = s.workflow_synced;
  pod_synced = s.pod_synced;
  last_workflow_evt = s.last_workflow_evt;
  last_pod_evt = s.last_pod_evt;
  leader_elect = s.leader_elect;
  is_leader = s.is_leader;
  shutting_down = s.shutting_down;
}

-- The texts that the probes answer with; `stale d` is "no workflow/pod events for" d, in seconds.
pub data Reason : Type 0 where
  down alive not_leader workflow_unsynced pod_unsynced ready grace no_events : Reason
  stale : Duration → Reason

-- The answer of a probe, and its calls on the metrics.
pub record Answer : Type 0 where
  pub ok : Bool
  pub reason : Reason
  pub writes : List Write

abbrev answer : Metric → Bool → Reason → Answer
answer m ok reason = record {
  ok = ok;
  reason = reason;
  writes = set (plain m) (if ok then whole 1 else whole 0) ∷ [];
}

unfoldable pub is_live : Time → State → Answer
unfolding snapshot
is_live now s =
    if (snapshot s).shutting_down
    then answer exporter_liveness false down
    else answer exporter_liveness true alive

unfoldable pub max_time : Time → Time → Time
max_time a b = if after a b then a else b

-- The checks of `IsReady` on event times, in a state that is synced and may lead.
unfoldable pub is_fresh : Time → State → Answer
unfolding snapshot max_time
is_fresh now s =
    let last_event = max_time (snapshot s).last_workflow_evt (snapshot s).last_pod_evt in
    if leb_ℤ s.stale_threshold (pos 0)
    then answer exporter_readiness true ready
    else if ltb_ℤ (sub now s.started_at) s.startup_grace
    then answer exporter_readiness true grace
    else if is_zero last_event
    then answer exporter_readiness true no_events
    else if ltb_ℤ s.stale_threshold (sub now last_event)
    then answer exporter_readiness false (stale (sub now last_event))
    else answer exporter_readiness true ready

unfoldable pub is_ready : Time → State → Answer
unfolding snapshot
is_ready now s =
    let snap = snapshot s in
    if snap.shutting_down
    then answer exporter_readiness false down
    else if snap.leader_elect && not snap.is_leader
    then answer exporter_readiness false not_leader
    else if not snap.workflow_synced
    then answer exporter_readiness false workflow_unsynced
    else if not snap.pod_synced
    then answer exporter_readiness false pod_unsynced
    else is_fresh now s
