-- ===== src/Exporter/Settings.antt =====
-- cmd/exporter/main.go: the command-line flags with their defaults, the Kubernetes configuration, the
-- lease of the leader election, and the page at the root. Durations are in nanoseconds.
use text.Mathlib.TextEquality.{eq_iff}
use argo_workflows_metrics.Base.{
  ◌≢◌, arith, ℕ, ◌*◌, Bool, true, not, String, ◌<>◌, Option, none, some, if◌then◌else◌, string_eq,
  ◌==◌,
}
use argo_workflows_metrics.Base.Int.{pos, negsuc}
use argo_workflows_metrics.Base.Time.{Duration}
use argo_workflows_metrics.Exporter.{Flags, resolve_leader_election_namespace}

pub record Settings : Type 0 where
  pub kubeconfig : String
  pub port : String
  pub resync_period : Duration
  pub leader_id : String
  pub leader_ns : String
  pub lease_dur : Duration
  pub renew_dur : Duration
  pub retry_dur : Duration
  pub version : String
  pub flags : Flags

abbrev pub seconds : ℕ → Duration
seconds n = pos (n * 1_000_000_000)

abbrev pub minutes : ℕ → Duration
minutes n = seconds (n * 60)

-- The defaults that `init` registers.
abbrev pub defaults : Settings
defaults = record {
  kubeconfig = "";
  port = "8080";
  resync_period = minutes 5;
  leader_id = "argo-workflows-metrics";
  leader_ns = "";
  lease_dur = seconds 30;
  renew_dur = seconds 20;
  retry_dur = seconds 5;
  version = "dev";
  flags = record {
    namespace = "";
    startup_grace = minutes 2;
    event_stale = minutes 30;
    wf_details = true;
    pod_metrics = true;
    worker_count = pos 1;
    reconcile_dur = minutes 10;
    shard_total = pos 1;
    shard_index = negsuc 0;
    leader_elect = true;
  };
}

-- Where `buildConfig` takes the configuration from.
pub data ConfigSource : Type 0 where
  config_file : String → ConfigSource
  in_cluster : ConfigSource

unfoldable pub build_config : Settings → ConfigSource
build_config s = if not (s.kubeconfig == "") then config_file s.kubeconfig else in_cluster

-- What `runLeaderElection` passes to the election: the lease and its times.
pub record LeaderElectionConfig : Type 0 where
  pub name : String
  pub namespace : String
  pub identity : String
  pub lease_duration : Duration
  pub renew_deadline : Duration
  pub retry_period : Duration
  pub release_on_cancel : Bool

-- `hostname` is what `os.Hostname` returns; without one the process ends.
unfoldable pub leader_election_config :
    Settings → String → Option String → Option LeaderElectionConfig
leader_election_config s pod_namespace none = none
leader_election_config s pod_namespace (some hostname) = some record {
  name = s.leader_id;
  namespace = resolve_leader_election_namespace s.leader_ns pod_namespace s.flags.namespace;
  identity = hostname;
  lease_duration = s.lease_dur;
  renew_deadline = s.renew_dur;
  retry_period = s.retry_dur;
  release_on_cancel = true;
}

default_ne_empty : ◌≢◌ {A = String} "default" ""
default_ne_empty = ground (arith, eq_iff "default" "")

-- The lease has a namespace.
pub resolve_leader_election_namespace_lem :
    (leader_ns pod_namespace namespace : String)
    → resolve_leader_election_namespace leader_ns pod_namespace namespace ≢ ""
unfolding resolve_leader_election_namespace
resolve_leader_election_namespace_lem leader_ns pod_namespace namespace =
    ground (arith, default_ne_empty)

-- `rootHandler`
pub record Page : Type 0 where
  pub content_type : String
  pub body : String

abbrev pub root_handler : Page
root_handler = record {
  content_type = "text/html";
  body =
      "<html>\n<head><title>Argo Workflows Metrics Exporter</title></head>\n<body>\n"
      <> ("<h1>Argo Workflows Metrics Exporter</h1>\n<p><a href=\"/metrics\">Metrics</a></p>\n"
          <> ("<p><a href=\"/healthz\">Health Check</a></p>\n<p><a href=\"/readyz\">Readiness Check</a></p>\n"
              <> "</body>\n</html>"));
}
