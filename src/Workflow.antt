-- ===== src/Workflow.antt =====
-- pkg/collector/workflow.go and phases.go: the workflow objects that the collector reads, and the
-- names that it gives to cache entries and phases. Children: the series of one workflow, the
-- aggregated series, and the collector with its operations.
pub mod Series
pub mod Aggregate
pub mod Collector
mod Tests
mod OrderTests
use argo_workflows_metrics.Base.{Bool, String, ◌<>◌, Option, List, [], ◌∷◌}
use argo_workflows_metrics.Base.Int.{ℤ}
use argo_workflows_metrics.Base.Time.{Time}
use argo_workflows_metrics.Base.Dict.{Dict, KeySet}

-- The fields of a `wfv1.Workflow` that the collector reads. A missing time is the zero Time; the
-- nodes go from node ids to phases, and `none` is a nil map.
pub record Workflow : Type 0 where
  pub namespace : String
  pub name : String
  pub uid : String
  pub priority : Option ℤ
  pub service_account_name : String
  pub creation_timestamp : Time
  pub phase : String
  pub started_at : Time
  pub finished_at : Time
  pub nodes : Option (Dict String String)

abbrev pub workflow_phases : List String
workflow_phases = "Pending" ∷ "Running" ∷ "Succeeded" ∷ "Failed" ∷ "Error" ∷ []

-- `fmt.Sprintf("%s/%s", wf.Namespace, wf.Name)`
unfoldable pub key_of : String → String → String
key_of namespace name = namespace <> ("/" <> name)

unfoldable pub key : Workflow → String
unfolding key_of
key wf = key_of wf.namespace wf.name

-- The cached workflows by key, and what the last update of the aggregated series has exposed. The
-- lock and its critical sections are not kept: the informer runs the operations one at a time.
pub record WorkflowCollector : Type 0 where
  pub collect_details : Bool
  pub workflows : Dict String Workflow
  pub last_namespaces : KeySet String
  pub last_namespace_phases : Dict String (KeySet String)

unfoldable pub new_workflow_collector : Bool → WorkflowCollector
new_workflow_collector details = record {
  collect_details = details;
  workflows = [];
  last_namespaces = [];
  last_namespace_phases = [];
}
