-- ===== src/Exporter.antt =====
-- cmd/exporter/main.go, but for the shards: the start with its checks, the namespace of the lease, the
-- controllers' errors, and the process under leader election and signals. `klog.Fatalf` is an exit.
pub mod Probes
pub mod Lifecycle
pub mod Startup
pub mod Settings
pub mod Readiness
pub mod Whole
mod Tests
use argo_workflows_metrics.Base.{
  ℕ, Bool, true, false, not, ◌&&◌, ◌||◌, String, Option, none, some, List, [], ◌∷◌, ◌++◌,
  if◌then◌else◌, string_eq, ◌==◌,
}
use argo_workflows_metrics.Base.Int.{ℤ}
use argo_workflows_metrics.Base.Time.{Time, Duration}
use argo_workflows_metrics.Base.Decimal.{itoa}
use argo_workflows_metrics.Metrics.{Series, Write, set, labelled, whole, exporter_shard_info}
use argo_workflows_metrics.Workflow.{WorkflowCollector, new_workflow_collector}
use argo_workflows_metrics.Pod.{PodCollector, new_pod_collector}
use argo_workflows_metrics.Health.{State, new_state, mark_leader, mark_shutting_down}
use argo_workflows_metrics.Health.Reach.{Call, step}
use argo_workflows_metrics.Shard.{
  Text, ConfigError, Result, ok, err, Mode, single, shard, Matcher, build_namespace_matcher,
}

-- The command-line flags that the start reads.
pub record Flags : Type 0 where
  pub namespace : String
  pub startup_grace : Duration
  pub event_stale : Duration
  pub wf_details : Bool
  pub pod_metrics : Bool
  pub worker_count : ℤ
  pub reconcile_dur : Duration
  pub shard_total : ℤ
  pub shard_index : ℤ
  pub leader_elect : Bool

pub data Fatal : Type 0 where
  invalid_sharding : ConfigError → Fatal
  sharding_with_leader : Fatal

-- What `main` has built when it starts the informers and the server.
pub record Built : Type 0 where
  pub matcher : Matcher
  pub wf_collector : WorkflowCollector
  pub pod_collector : PodCollector
  pub health_state : State
  pub writes : List Write

pub data Outcome : Type 0 where
  fatal : Fatal → Outcome
  built : Built → Outcome

abbrev pub mode_name : Mode → String
mode_name single = "single"
mode_name shard = "shard"

abbrev pub is_sharded : Mode → Bool
is_sharded single = false
is_sharded shard = true

abbrev pub shard_info : Flags → Matcher → Series
shard_info flags m =
    labelled exporter_shard_info (mode_name m.mode ∷ itoa flags.shard_total ∷ itoa m.index ∷ [])

-- The collectors and the health state.
unfoldable pub build : Flags → Time → Matcher → Built
build flags now m =
    let (state, ws) = new_state now flags.startup_grace flags.event_stale flags.leader_elect in
    record {
      matcher = m;
      wf_collector = new_workflow_collector flags.wf_details;
      pod_collector = new_pod_collector flags.pod_metrics;
      health_state = state;
      writes = set (shard_info flags m) (whole 1) ∷ ws;
    }

abbrev pub start_with : Flags → Time → Result Matcher → Outcome
start_with flags now (err e) = fatal (invalid_sharding e)
start_with flags now (ok m) =
    if is_sharded m.mode && flags.leader_elect
    then fatal sharding_with_leader
    else built (build flags now m)

unfoldable pub start : Option Text → Flags → Time → Outcome
start hostname flags now =
    start_with flags now
      (build_namespace_matcher hostname flags.namespace flags.shard_total flags.shard_index)

-- `pod_namespace` is the environment's POD_NAMESPACE, empty if it is not set.
unfoldable pub resolve_leader_election_namespace : String → String → String → String
resolve_leader_election_namespace leader_ns pod_namespace namespace =
    if not (leader_ns == "")
    then leader_ns
    else if not (pod_namespace == "")
    then pod_namespace
    else if not (namespace == "")
    then namespace
    else "default"

-- What the select of `runControllers` receives: the end of the context, or the result of one of the
-- two informers, `none` being a nil error.
pub data Message : Type 0 where
  context_done : Message
  result : Option String → Message

-- `none` while it still waits, then the error that it returns.
unfoldable pub run_controllers : List Message → Option (Option String)
run_controllers [] = none
run_controllers (context_done ∷ messages) = some none
run_controllers (result (some e) ∷ messages) = some (some e)
run_controllers (result none ∷ messages) = run_controllers messages

-- `main` waits for a signal, then drains the server, then has cancelled the context.
pub data Stage : Type 0 where
  serving draining cancelled : Stage

pub record Process : Type 0 where
  pub health : State
  pub leader_elect : Bool
  pub stage : Stage
  pub lost : Bool
  pub exited : Bool

-- What happens to a running process: the callbacks of the leader election, an error of the
-- controllers, a signal, the end of the draining, and the calls of informers and probes on the state.
pub data Happening : Type 0 where
  started_leading stopped_leading controllers_failed interrupted drained : Happening
  calls : Call → Happening

abbrev pub is_cancelled : Stage → Bool
is_cancelled cancelled = true
is_cancelled _ = false

-- After the start: without leader election the replica leads and runs the controllers.
unfoldable pub begin : Built → Bool → Process × List Write
begin b leader_elect =
    let (led, ws) = mark_leader true b.health_state in
    let p : Process = record {
      health = b.health_state;
      leader_elect = leader_elect;
      stage = serving;
      lost = false;
      exited = false;
    } in
    if leader_elect then (p, []) else (record p { health = led }, ws)

abbrev pub next_stage : Stage → Stage
next_stage serving = serving
next_stage _ = cancelled

abbrev pub interrupt : Stage → Process → Process × List Write
interrupt serving p =
    let (s, ws) = mark_shutting_down p.health in (record p { health = s; stage = draining }, ws)
interrupt _ p = (p, [])

-- The leader's context ends with the process's context and with the lease.
unfoldable pub happen : Happening → Process → Process × List Write
happen started_leading p = let (s, ws) = mark_leader true p.health in (record p { health = s }, ws)
happen stopped_leading p =
    let (s, ws) = mark_leader false p.health in
    (record p { health = s; lost = true; exited = not (is_cancelled p.stage) }, ws)
happen controllers_failed p =
    (record p { exited = not (p.leader_elect && (is_cancelled p.stage || p.lost)) }, [])
happen interrupted p = interrupt p.stage p
happen drained p = (record p { stage = next_stage p.stage }, [])
happen (calls call) p = let (s, ws) = step p.health call in (record p { health = s }, ws)

-- A process that has exited does nothing more.
unfoldable pub happenings : List Happening → Process → Process × List Write
happenings [] p = (p, [])
happenings (h ∷ hs) p =
    let (p', ws) = happen h p in
    let (p'', vs) = happenings hs (if p.exited then p else p') in
    (p'', (if p.exited then vs else ws ++ vs))
