-- ===== src/Informer/RaceExamples.antt =====
-- Runs of an interleaving, and instances of the theorems on all interleavings.
use argo_workflows_metrics.Base.{
  ◌++◌, List, ◌≡◌, refl, true, String, none, some, [], ◌∷◌, arith, string_eq,
}
use argo_workflows_metrics.Base.Int.{pos}
use argo_workflows_metrics.Base.Dict.{lookup}
use argo_workflows_metrics.Metrics.Registry.{run}
use argo_workflows_metrics.Metrics.Memory.{memory, memory-IsLawful, blank}
use argo_workflows_metrics.Workflow.{Workflow, new_workflow_collector, key}
use argo_workflows_metrics.Workflow.Aggregate.{count_series, total_series}
use argo_workflows_metrics.Workflow.Aggregate.Loop.{count_in, count_phase}
use argo_workflows_metrics.Workflow.Aggregate.Exact.{exposed}
use argo_workflows_metrics.Queue.Line.{line, empty_line, line-IsFifo}
use argo_workflows_metrics.Informer.{process_item, on_add, notify, Item, object}
use argo_workflows_metrics.Informer.Workflows.{workflow_source}
use argo_workflows_metrics.Informer.Delivery.{adding, queued, handle}
use argo_workflows_metrics.Informer.Interleaving.{Step, here, next}
use argo_workflows_metrics.Informer.Races.{
  WorkflowSystem, WorkflowReach, interleaved-exact, interleaved-held, two_workers-reorder,
}
use mathlib.Core.Option.{some-ne-none}
use argo_workflows_metrics.Base.{sym, ◌∙◌, labels_eq, nat_eq}
use argo_workflows_metrics.Base.Dict.{insert}
use argo_workflows_metrics.Base.Dict.Count.{tally, increment, mark, mark_all}
use argo_workflows_metrics.Base.Dict.Nested.{insert₂}
use argo_workflows_metrics.Informer.Workflows.{WorkflowInformer}
use argo_workflows_metrics.Metrics.{
  Write, Series, labelled, whole, workflow_info, series_eq, metric_eq,
}
use argo_workflows_metrics.Base.Time.{sub, unix}
use argo_workflows_metrics.Base.Decimal.{itoa}
use argo_workflows_metrics.Workflow.{key_of}
use argo_workflows_metrics.Workflow.Series.{
  set_time, set_duration, collect_node_metrics, run_time, collect_workflow_series,
  delete_workflow_series,
}
use argo_workflows_metrics.Workflow.Series.Own.{Own}
use argo_workflows_metrics.Workflow.Aggregate.{
  diff_namespaces, diff_namespace_phases, count_workflows, diff_phases, update_aggregated_metrics,
  aggregate_writes,
}
use argo_workflows_metrics.Workflow.Collector.{add_workflow, collect_workflow_metrics}
use argo_workflows_metrics.Informer.{handle_event}
use argo_workflows_metrics.Informer.Examples.{build, idle, busy}

-- The system of a new informer, and what it is after a delivery.
abbrev pub quiet : WorkflowSystem (line (Item Workflow))
quiet = record { informer = idle; held = []; listed = none }

abbrev delivery : WorkflowInformer (line (Item Workflow)) × List Write
delivery = handle workflow_source (line _) adding 7 (object build) idle

abbrev told : WorkflowSystem (line (Item Workflow))
told = record quiet { informer = delivery.0 }

abbrev taken : WorkflowSystem (line (Item Workflow))
taken = record told {
  informer = record told.informer { queue = empty_line };
  held = queued adding build ∷ [];
}

abbrev listing : WorkflowSystem (line (Item Workflow))
listing = record taken { listed = some (object build ∷ []) }

abbrev handling : WorkflowInformer (line (Item Workflow)) × List Write
handling =
    process_item workflow_source (line _) (8, pos 1) (queued adding build) empty_line
      listing.informer

abbrev handled : WorkflowSystem (line (Item Workflow))
handled = record listing { informer = handling.0; held = [] }

abbrev made : List Write
made = (((([] ++ delivery.1) ++ []) ++ []) ++ handling.1)

handled-Reach : WorkflowReach (line _) quiet handled made
unfolding on_add notify
handled-Reach =
    next
      (next
        (next (next here (Step.delivers adding 7 (object build)))
          (Step.takes (queued adding build) empty_line refl (omega arith)))
        (Step.lists (object build ∷ []) refl))
      (Step.handles (8, pos 1) (queued adding build) [] [] refl)

interleaved-exact_holds :
    (memory.value (run memory made blank) (count_series "ci")
      ≡ exposed (count_in "ci" handled.informer.collector.workflows))
    × (memory.value (run memory made blank) (total_series "ci" "Running")
        ≡ exposed (count_phase "ci" "Running" handled.informer.collector.workflows))
interleaved-exact_holds =
    interleaved-exact memory memory-IsLawful blank (λ x. refl) (line _) true quiet handled made refl
      handled-Reach "ci" "Running"

abbrev info : Series
info = labelled workflow_info ("ci" ∷ "build-1" ∷ "u1" ∷ "default" ∷ "0" ∷ [])

info-shown : memory.value (run memory made blank) info ≡ some (whole 1)
unfolding on_add notify handle_event add_workflow collect_workflow_metrics update_aggregated_metrics
    aggregate_writes lookup insert string_eq series_eq metric_eq labels_eq nat_eq
    new_workflow_collector run key key_of itoa collect_workflow_series delete_workflow_series
    set_time set_duration collect_node_metrics run_time sub unix tally increment count_workflows
    diff_namespaces insert₂ diff_namespace_phases mark diff_phases mark_all
info-shown = refl

interleaved-held_holds :
    (k : String) × (wf : Workflow) × (lookup k handled.informer.collector.workflows ≡ some wf)
    × Own wf info
interleaved-held_holds =
    interleaved-held memory memory-IsLawful blank (λ x. refl) (line _) true quiet handled made refl
      handled-Reach info refl (λ e. some-ne-none _ (sym info-shown ∙ e))

-- The event of the addition and that of the deletion wait, and two workers run.
abbrev waiting : WorkflowSystem (line (Item Workflow))
waiting = record quiet { informer = busy }

two_workers-reorder_example :
    (t : WorkflowSystem (line (Item Workflow))) × (ws : List Write) × WorkflowReach
      (line _)
      waiting
      t
      ws
    × (t.informer.queue.items ≡ [])
    × (t.held ≡ [])
    × (lookup (key build) t.informer.collector.workflows ≡ some build)
unfolding line-IsFifo
two_workers-reorder_example =
    two_workers-reorder (line _) (line-IsFifo _) waiting build (8, pos 1) (9, pos 1) refl refl
      (omega arith)
