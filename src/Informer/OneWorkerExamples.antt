-- ===== src/Informer/OneWorkerExamples.antt =====
-- Runs of a single worker, and instances of the theorems on it.
use argo_workflows_metrics.Base.{◌++◌, List, ◌≡◌, refl, false, [], arith, string_eq}
use argo_workflows_metrics.Base.Int.{pos}
use argo_workflows_metrics.Base.Dict.{lookup}
use argo_workflows_metrics.Workflow.{Workflow}
use argo_workflows_metrics.Queue.Line.{line, empty_line, line-IsFifo}
use argo_workflows_metrics.Informer.{process_item, on_add, on_delete, notify, Item, object}
use argo_workflows_metrics.Informer.Workflows.{workflow_source, run_full_reconcile}
use argo_workflows_metrics.Informer.Delivery.{adding, deleting, queued, handle}
use argo_workflows_metrics.Informer.Interleaving.{Step, Reach, here, next}
use argo_workflows_metrics.Informer.Turns.{items}
use argo_workflows_metrics.Informer.Ordered.{all_arrived, all_finished}
use argo_workflows_metrics.Informer.OneWorker.{one_worker-InOrder, workflows-Leaves}
use argo_workflows_metrics.Informer.Races.{WorkflowSystem, WorkflowReach}
use argo_workflows_metrics.Base.{labels_eq, nat_eq}
use argo_workflows_metrics.Informer.Workflows.{WorkflowInformer}
use argo_workflows_metrics.Metrics.{Write, series_eq, metric_eq}
use argo_workflows_metrics.Workflow.Collector.History.{cached}
use argo_workflows_metrics.Workflow.Collector.{add_workflow}
use argo_workflows_metrics.Informer.{handle_event}
use argo_workflows_metrics.Informer.Examples.{build, idle}
use argo_workflows_metrics.Informer.RaceExamples.{quiet}
use argo_workflows_metrics.Informer.Cached.{no_reconcile, asked, one_worker-cached}

-- One worker, which handles the addition while the deletion comes.
abbrev single : WorkflowSystem (line (Item Workflow))
single = record quiet { informer = record idle { worker_count = pos 1 } }

abbrev first_told : WorkflowInformer (line (Item Workflow)) × List Write
first_told = handle workflow_source (line _) adding 7 (object build) single.informer

abbrev second_told : WorkflowInformer (line (Item Workflow)) × List Write
second_told =
    handle workflow_source (line _) deleting 8 (object build)
      (record first_told.0 { queue = empty_line })

abbrev worked : WorkflowInformer (line (Item Workflow)) × List Write
worked =
    process_item workflow_source (line _) (9, pos 1) (queued adding build) second_told.0.queue
      second_told.0

abbrev half_way : WorkflowSystem (line (Item Workflow))
half_way = record single { informer = worked.0 }

abbrev said : List Write
said = ((([] ++ first_told.1) ++ []) ++ second_told.1) ++ worked.1

half_way-Reach : WorkflowReach (line _) single half_way said
unfolding on_add on_delete notify
half_way-Reach =
    next
      (next
        (next (next here (Step.delivers adding 7 (object build)))
          (Step.takes (queued adding build) empty_line refl (omega arith)))
        (Step.delivers deleting 8 (object build)))
      (Step.handles (9, pos 1) (queued adding build) [] [] refl)

one_worker-InOrder_example :
    items workflow_source (
      all_arrived workflow_source
        (line _)
        (run_full_reconcile (line _) false)
        single
        half_way
        said
        half_way-Reach)
    ≡ all_finished workflow_source
        (line _)
        (run_full_reconcile (line _) false)
        single
        half_way
        said
        half_way-Reach
      ++ (half_way.held ++ half_way.informer.queue.items)
unfolding line-IsFifo on_add on_delete notify handle_event add_workflow string_eq
one_worker-InOrder_example =
    one_worker-InOrder workflow_source (line _) (run_full_reconcile (line _) false) (line-IsFifo _)
      (workflows-Leaves (line _) (line-IsFifo _)) single half_way said half_way-Reach refl refl
      (omega arith) refl

-- The same, without full reconciles, to the end.
abbrev second_taken : WorkflowInformer (line (Item Workflow))
second_taken = record worked.0 { queue = empty_line }

abbrev deleted : WorkflowInformer (line (Item Workflow)) × List Write
deleted =
    process_item workflow_source (line _) (10, pos 1) (queued deleting build) empty_line
      second_taken

abbrev drained : WorkflowSystem (line (Item Workflow))
drained = record single { informer = deleted.0 }

abbrev all_said : List Write
all_said = (said ++ []) ++ deleted.1

drained-Reach : Reach workflow_source (line _) (no_reconcile (line _)) single drained all_said
unfolding on_add on_delete notify handle_event string_eq
drained-Reach =
    next
      (next
        (next
          (next
            (next (next here (Step.delivers adding 7 (object build)))
              (Step.takes (queued adding build) empty_line refl (omega arith)))
            (Step.delivers deleting 8 (object build)))
          (Step.handles (9, pos 1) (queued adding build) [] [] refl))
        (Step.takes (queued deleting build) empty_line refl (omega arith)))
      (Step.handles (10, pos 1) (queued deleting build) [] [] refl)

one_worker-cached_example :
    lookup "ci/build-1" drained.informer.collector.workflows
    ≡ cached "ci/build-1" (lookup "ci/build-1" single.informer.collector.workflows) (
        asked (
          all_arrived workflow_source
            (line _)
            (no_reconcile (line _))
            single
            drained
            all_said
            drained-Reach))
unfolding line-IsFifo on_add on_delete notify handle_event add_workflow string_eq
one_worker-cached_example =
    one_worker-cached (line _) (line-IsFifo _) "ci/build-1" single drained all_said drained-Reach
      refl refl (omega arith) refl refl refl
