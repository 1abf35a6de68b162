-- ===== src/Exporter/Tests.antt =====
-- Runs of the exporter's start, probes and callbacks, and instances of the theorems on them.
use argo_workflows_metrics.Base.{
  ◌≡◌, refl, ◌↔◌, ◌⊎◌, true, false, String, none, some, List, [], ◌∷◌, string_eq, nat_eq,
}
use argo_workflows_metrics.Base.Int.{pos, int_eq}
use argo_workflows_metrics.Base.Time.{Time, Duration}
use argo_workflows_metrics.Health.{is_live, is_ready, snapshot, new_state}
use argo_workflows_metrics.Health.Readiness.{Serves, IsRecent}
use argo_workflows_metrics.Health.Reach.{workflows_synced, pods_synced, workflow_event}
use argo_workflows_metrics.Shard.{single_of, build_namespace_matcher, resolve_shard_index}
use argo_workflows_metrics.Exporter.{
  Built, built, fatal, sharding_with_leader, build, start, resolve_leader_election_namespace,
  context_done, result, run_controllers, Happening, started_leading, stopped_leading, calls, begin,
  happen, happenings,
}
use argo_workflows_metrics.Exporter.Settings.{
  defaults, in_cluster, build_config, leader_election_config, seconds,
}
use argo_workflows_metrics.Exporter.Startup.{Started, start-Started}
use argo_workflows_metrics.Exporter.Probes.{healthz_handler, readyz_handler, probes-status}
use argo_workflows_metrics.Exporter.Readiness.{HasServed, ready_iff_happened}
use argo_workflows_metrics.Exporter.Lifecycle.{lost_lease}

abbrev started : Built
started = build defaults.flags 7 (single_of "")

default_start : start none defaults.flags 7 ≡ built started
unfolding start build_namespace_matcher int_eq
default_start = refl

-- With the default of the leader election, two shards are refused.
two_shards :
    start none (record defaults.flags { shard_total = pos 2; shard_index = pos 0 }) 7
    ≡ fatal sharding_with_leader
unfolding start build_namespace_matcher resolve_shard_index int_eq
two_shards = refl

start-Started_example : Started defaults.flags started
start-Started_example = start-Started none defaults.flags 7 started default_start

lease_namespace : resolve_leader_election_namespace "" "monitoring" "argo" ≡ "monitoring"
unfolding resolve_leader_election_namespace string_eq
lease_namespace = refl

first_error :
    run_controllers (result none ∷ result (some "cache sync failed") ∷ context_done ∷ [])
    ≡ some (some "cache sync failed")
unfolding run_controllers
first_error = refl

abbrev round_text : Duration → String
round_text d = "1h0m0s"

abbrev rfc3339 : Time → String
rfc3339 t = "2024-01-01T00:00:00Z"

fresh_body :
    (readyz_handler round_text rfc3339 9 started.health_state started.health_state).0.body
    ≡ "status=not-ready reason=\"not leader\" leader_elect=true is_leader=false workflow_synced=false pod_synced=false last_workflow_event=never last_pod_event=never\n"
unfolding readyz_handler is_ready snapshot build new_state nat_eq
fresh_body = refl

probes-status_example :
    let s = started.health_state in
    (((readyz_handler round_text rfc3339 9 s s).0.status ≡ 200) ↔ (Serves s × IsRecent 9 s))
    × (((healthz_handler round_text rfc3339 9 s s).0.status ≡ 200) ↔ (s.shutting_down ≡ false))
probes-status_example = probes-status round_text rfc3339 9 started.health_state started.health_state

abbrev led_and_lost : List Happening
led_and_lost = calls workflows_synced ∷ stopped_leading ∷ started_leading ∷ []

lost_lease_example :
    let p = (happenings led_and_lost (begin started true).0).0 in
    (p.exited ≡ true) ⊎ (((is_ready 9 p.health).ok ≡ false) × ((is_live 9 p.health).ok ≡ false))
unfolding happenings happen begin
lost_lease_example = lost_lease started true led_and_lost 9 refl

-- Elected and synced, with an event.
abbrev led_and_synced : List Happening
led_and_synced =
    calls workflows_synced ∷ started_leading ∷ calls pods_synced ∷ calls (workflow_event 8) ∷ []

ready_iff_happened_example :
    let p = (happenings led_and_synced (begin started true).0).0 in
    ((is_ready 9 p.health).ok ≡ true) ↔ (HasServed true led_and_synced × IsRecent 9 p.health)
unfolding happenings happen begin
ready_iff_happened_example =
    ready_iff_happened defaults.flags 7 (single_of "") led_and_synced 9 refl

in_cluster_config : build_config defaults ≡ in_cluster
unfolding build_config string_eq
in_cluster_config = refl

default_lease :
    leader_election_config defaults "monitoring" (some "exporter-0")
    ≡ some record {
      name = "argo-workflows-metrics";
      namespace = "monitoring";
      identity = "exporter-0";
      lease_duration = seconds 30;
      renew_deadline = seconds 20;
      retry_period = seconds 5;
      release_on_cancel = true;
    }
unfolding leader_election_config resolve_leader_election_namespace string_eq
default_lease = refl
