-- ===== src/Informer/LateExamples.antt =====
-- An instance of the theorem on a late full reconcile.
use argo_workflows_metrics.Base.{refl, List, arith}
use argo_workflows_metrics.Base.Int.{pos}
use argo_workflows_metrics.Metrics.{Write}
use argo_workflows_metrics.Workflow.{Workflow}
use argo_workflows_metrics.Queue.Line.{line, line-IsFifo}
use argo_workflows_metrics.Informer.{Item}
use argo_workflows_metrics.Informer.Races.{WorkflowSystem, WorkflowReach}
use argo_workflows_metrics.Informer.LateReconcile.{Revived, late_reconcile-revives}
use argo_workflows_metrics.Informer.Examples.{build}
use argo_workflows_metrics.Informer.RaceExamples.{quiet}

late_reconcile-revives_example :
    (t : WorkflowSystem (line (Item Workflow))) × (ws : List Write) × (r : WorkflowReach
      (line _)
      quiet
      t
      ws)
    × Revived (line _) (line-IsFifo _) build quiet t ws r
unfolding line-IsFifo
late_reconcile-revives_example =
    late_reconcile-revives (line _) (line-IsFifo _) quiet build 8 (9, pos 1) (10, pos 1) refl refl
      refl refl refl (omega arith)
