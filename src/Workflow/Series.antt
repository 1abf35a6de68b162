-- ===== src/Workflow/Series.antt =====
-- The series of one workflow: `collectWorkflowSeries`, `collectNodeMetrics` and
-- `deleteWorkflowSeries`. Each returns its calls on the metrics, in order.
pub mod Own
pub mod Cleanup
pub mod Phases
use argo_workflows_metrics.Base.{
  String, Bool, Option, none, some, List, [], ◌∷◌, ◌++◌, length, ◌==◌, string_eq, nat_eq,
  if◌then◌else◌,
}
use argo_workflows_metrics.Base.Int.{ℤ, pos, ltb_ℤ}
use argo_workflows_metrics.Base.Time.{Time, Duration, is_zero, sub, unix}
use argo_workflows_metrics.Base.Decimal.{itoa}
use argo_workflows_metrics.Base.Dict.{Dict, KeySet}
use argo_workflows_metrics.Base.Dict.Count.{tally, mark_all}
use argo_workflows_metrics.Metrics.{
  Metric, Series, Write, set, delete, labelled, whole, whole_ℤ, workflow_status_phase,
  workflow_info, workflow_created_time, workflow_started_time, workflow_finished_time,
  workflow_duration_seconds, workflow_node_total, workflow_node_phase,
}
use argo_workflows_metrics.Metrics.Loops.{set_each, delete_each}
use argo_workflows_metrics.Workflow.{Workflow, workflow_phases}

abbrev pub default_priority : Option ℤ → String
default_priority none = "0"
default_priority (some p) = itoa p

abbrev pub default_account : String → String
default_account account = if account == "" then "default" else account

-- The entries of the node map by phase.
abbrev pub phase_of_node : String × String → String
phase_of_node (id, phase) = phase

module _ (wf : Workflow) where
  open wf use {namespace, name}

  -- 1 for the current phase, 0 for the others.
  abbrev pub set_phases : List String → List Write
  set_phases [] = []
  set_phases (p ∷ ps) =
      set (labelled workflow_status_phase (namespace ∷ name ∷ p ∷ []))
        (if p == wf.phase then whole 1 else whole 0)
      ∷ set_phases ps

  abbrev pub delete_phases : List String → List Write
  delete_phases [] = []
  delete_phases (p ∷ ps) =
      delete (labelled workflow_status_phase (namespace ∷ name ∷ p ∷ [])) ∷ delete_phases ps

  abbrev pub info_labels : List String
  info_labels =
      namespace
      ∷ name
      ∷ wf.uid
      ∷ default_account wf.service_account_name
      ∷ default_priority wf.priority
      ∷ []

  -- A time that is set.
  unfoldable pub set_time : Metric → Time → List Write
  set_time m t =
      if is_zero t then [] else set (labelled m (namespace ∷ name ∷ [])) (whole_ℤ (unix t)) ∷ []

  -- `duration`, of a workflow that has started; 0 where it neither finished nor runs.
  unfoldable pub run_time : Time → Duration
  run_time now =
      if is_zero wf.finished_at
      then (if wf.phase == "Running" then sub now wf.started_at else pos 0)
      else sub wf.finished_at wf.started_at

  abbrev pub positive_duration : Duration → List Write
  positive_duration duration =
      if ltb_ℤ (pos 0) duration
      then set (labelled workflow_duration_seconds (namespace ∷ name ∷ wf.phase ∷ [])) duration ∷ []
      else []

  unfoldable pub set_duration : Time → List Write
  set_duration now = if is_zero wf.started_at then [] else positive_duration (run_time now)

  abbrev pub node_phase_series : String → Series
  node_phase_series phase = labelled workflow_node_phase (namespace ∷ name ∷ phase ∷ [])

  abbrev pub node_writes : Dict String String → List Write
  node_writes nodes =
      set (labelled workflow_node_total (namespace ∷ name ∷ [])) (whole (length nodes))
      ∷ set_each node_phase_series whole (tally phase_of_node [] nodes)

  -- Nothing is done for a nil map.
  abbrev pub set_nodes : Option (Dict String String) → List Write
  set_nodes none = []
  set_nodes (some nodes) = node_writes nodes

  unfoldable pub collect_node_metrics : List Write
  collect_node_metrics = set_nodes wf.nodes

  unfoldable pub collect_workflow_series : Time → List Write
  unfolding set_time set_duration collect_node_metrics
  collect_workflow_series now =
      set_phases workflow_phases
      ++ (set (labelled workflow_info info_labels) (whole 1)
          ∷ (set_time workflow_created_time wf.creation_timestamp
              ++ (set_time workflow_started_time wf.started_at
                  ++ (set_time workflow_finished_time wf.finished_at
                      ++ (set_duration now ++ collect_node_metrics)))))

  abbrev pub delete_node_phases : Option (Dict String String) → List Write
  delete_node_phases none = []
  delete_node_phases (some nodes) = delete_each node_phase_series (mark_all phase_of_node [] nodes)

  unfoldable pub delete_workflow_series : List Write
  delete_workflow_series =
      delete_phases workflow_phases
      ++ (delete (labelled workflow_info info_labels)
          ∷ delete (labelled workflow_created_time (namespace ∷ name ∷ []))
          ∷ delete (labelled workflow_started_time (namespace ∷ name ∷ []))
          ∷ delete (labelled workflow_finished_time (namespace ∷ name ∷ []))
          ∷ delete (labelled workflow_duration_seconds (namespace ∷ name ∷ wf.phase ∷ []))
          ∷ delete (labelled workflow_node_total (namespace ∷ name ∷ []))
          ∷ delete_node_phases wf.nodes)
