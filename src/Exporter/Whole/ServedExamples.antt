-- ===== src/Exporter/Whole/ServedExamples.antt =====
-- Instances of the theorems on all runs of the process.
use mathlib.Core.Option.{some-ne-none}
use argo_workflows_metrics.Base.{
  ◌⊎◌, ◌≡◌, false, refl, sym, ◌∙◌, true, String, some, List, [], ◌∷◌, ◌++◌, All, string_eq,
  labels_eq, nat_eq,
}
use argo_workflows_metrics.Base.Int.{pos, ◌<ℤ◌, ◌+ℤ◌}
use argo_workflows_metrics.Base.Time.{sub, unix}
use argo_workflows_metrics.Base.Dict.{lookup, insert}
use argo_workflows_metrics.Metrics.{
  Write, Series, IsLegal, whole, labelled, workflow_info, container_cpu_usage_seconds, series_eq,
  metric_eq,
}
use argo_workflows_metrics.Base.Dict.Count.{tally, increment, mark, mark_all}
use argo_workflows_metrics.Base.Dict.Nested.{insert₂}
use argo_workflows_metrics.Base.Decimal.{itoa}
use argo_workflows_metrics.Workflow.Series.{
  set_time, set_duration, collect_node_metrics, run_time, collect_workflow_series,
  delete_workflow_series,
}
use argo_workflows_metrics.Workflow.Aggregate.{
  diff_namespaces, diff_namespace_phases, count_workflows, diff_phases, update_aggregated_metrics,
  aggregate_writes,
}
use argo_workflows_metrics.Workflow.Collector.{add_workflow, collect_workflow_metrics}
use argo_workflows_metrics.Health.{new_state, mark_leader, mark_workflow_event, mark_pod_event}
use argo_workflows_metrics.Pod.{
  new_pod_collector, add_pod, collect_pod_metrics, count_statuses, count_termination,
  container_state_key,
}
use argo_workflows_metrics.Workflow.Series.Own.{Own}
use argo_workflows_metrics.Metrics.Registry.{run}
use argo_workflows_metrics.Metrics.Memory.{memory, memory-IsLawful, blank}
use argo_workflows_metrics.Workflow.{Workflow, new_workflow_collector, key, key_of}
use argo_workflows_metrics.Workflow.Aggregate.{count_series, total_series}
use argo_workflows_metrics.Workflow.Aggregate.Loop.{count_in, count_phase}
use argo_workflows_metrics.Workflow.Aggregate.Exact.{exposed}
use argo_workflows_metrics.Pod.{Pod, cpu_series}
use argo_workflows_metrics.Queue.Line.{line, empty_line}
use argo_workflows_metrics.Informer.{Item, handle_event, on_add, notify, new_informer}
use argo_workflows_metrics.Informer.Pods.{new_pod_informer, is_workflow_pod}
use argo_workflows_metrics.Shard.{single_of, base_matcher}
use argo_workflows_metrics.Exporter.{stopped_leading, interrupted, drained, happen, begin, build}
use argo_workflows_metrics.Exporter.Whole.{World, happens, next, wire}
use argo_workflows_metrics.Exporter.Whole.Shown.{
  whole-exact, whole-held, whole-containers, whole-IsLegal,
}
use argo_workflows_metrics.Health.{is_ready, is_live}
use argo_workflows_metrics.Exporter.Whole.Lost.{whole-lost}
use argo_workflows_metrics.Exporter.Whole.Examples.{flags, IsReached}
use argo_workflows_metrics.Exporter.Whole.Served.{build_pod, served, made, served-Reach, all_made}

whole-exact_example :
    (memory.value (run memory all_made blank) (count_series "ci")
      ≡ exposed (count_in "ci" served.workflows.informer.collector.workflows))
    × (memory.value (run memory all_made blank) (total_series "ci" "Running")
        ≡ exposed (count_phase "ci" "Running" served.workflows.informer.collector.workflows))
whole-exact_example =
    whole-exact (line _) (line _) flags 7 (single_of "") empty_line empty_line served made
      served-Reach memory memory-IsLawful blank (λ x. refl) "ci" "Running"

whole-IsLegal_example : All IsLegal all_made
whole-IsLegal_example =
    whole-IsLegal (line _) (line _) flags 7 (single_of "") empty_line empty_line served made
      served-Reach

abbrev info : Series
info = labelled workflow_info ("ci" ∷ "build-1" ∷ "u1" ∷ "default" ∷ "0" ∷ [])

info-shown : memory.value (run memory all_made blank) info ≡ some (whole 1)
unfolding on_add notify handle_event add_workflow collect_workflow_metrics update_aggregated_metrics
    aggregate_writes lookup insert string_eq series_eq metric_eq labels_eq nat_eq
    new_workflow_collector run key key_of itoa collect_workflow_series delete_workflow_series
    set_time set_duration collect_node_metrics run_time sub unix tally increment count_workflows
    diff_namespaces insert₂ diff_namespace_phases mark diff_phases mark_all wire happen begin build
    new_informer new_pod_informer new_pod_collector base_matcher is_workflow_pod mark_leader
    new_state add_pod collect_pod_metrics count_statuses count_termination container_state_key
    mark_workflow_event mark_pod_event
info-shown = refl

whole-held_example :
    (k : String) × (wf : Workflow) × (lookup k served.workflows.informer.collector.workflows
      ≡ some wf)
    × Own wf info
whole-held_example =
    whole-held (line _) (line _) flags 7 (single_of "") empty_line empty_line served made
      served-Reach memory memory-IsLawful blank (λ x. refl) info refl
      (λ e. some-ne-none _ (sym info-shown ∙ e))

cpu-shown :
    memory.value (run memory all_made blank) (cpu_series build_pod "main") ≡ some (pos 3_000)
unfolding on_add notify handle_event add_workflow collect_workflow_metrics update_aggregated_metrics
    aggregate_writes lookup insert string_eq series_eq metric_eq labels_eq nat_eq
    new_workflow_collector run key key_of itoa collect_workflow_series delete_workflow_series
    set_time set_duration collect_node_metrics run_time sub unix tally increment count_workflows
    diff_namespaces insert₂ diff_namespace_phases mark diff_phases mark_all wire happen begin build
    new_informer new_pod_informer new_pod_collector base_matcher is_workflow_pod mark_leader
    new_state add_pod collect_pod_metrics count_statuses count_termination container_state_key
    mark_workflow_event mark_pod_event ◌+ℤ◌
cpu-shown = refl

whole-containers_example :
    (flags.pod_metrics ≡ true)
    × (container_cpu_usage_seconds ≡ container_cpu_usage_seconds)
    × (pos 0 <ℤ pos 3_000)
whole-containers_example =
    whole-containers (line _) (line _) flags 7 (single_of "") empty_line empty_line served made
      served-Reach memory memory-IsLawful blank (λ x. refl) (cpu_series build_pod "main")
      (pos 3_000) refl cpu-shown

-- The lease is lost after the signal.
abbrev draining : World (line (Item Workflow)) (line (Item Pod))
draining = record served { process = (happen interrupted served.process).0 }

abbrev cancelling : World (line (Item Workflow)) (line (Item Pod))
cancelling = record draining { process = (happen drained draining.process).0 }

abbrev lost : World (line (Item Workflow)) (line (Item Pod))
lost = record cancelling { process = (happen stopped_leading cancelling.process).0 }

abbrev end_made : List Write
end_made =
    ((made ++ (happen interrupted served.process).1) ++ (happen drained draining.process).1)
    ++ (happen stopped_leading cancelling.process).1

lost-Reach : IsReached lost end_made
unfolding wire happen begin
lost-Reach =
    next (next (next served-Reach (happens interrupted tt refl)) (happens drained tt refl))
      (happens stopped_leading tt refl)

whole-lost_example :
    (lost.process.exited ≡ true)
    ⊎ (((is_ready 20 lost.process.health).ok ≡ false)
        × ((is_live 20 lost.process.health).ok ≡ false))
unfolding wire happen begin
whole-lost_example =
    whole-lost (line _) (line _) flags 7 (single_of "") empty_line empty_line lost end_made
      lost-Reach refl 20
