-- ===== src/Workflow/Collector/Runs.antt =====
-- Histories of operations on the collector of workflows as runs, and the metrics that they write.
use argo_workflows_metrics.Base.{refl, List, [], ◌∷◌, All, All-append}
use argo_workflows_metrics.Metrics.{IsLegal}
use argo_workflows_metrics.Metrics.Owners.{On, is_workflow}
use argo_workflows_metrics.Metrics.Histories.{IsRun, loop-IsRun}
use argo_workflows_metrics.Workflow.{WorkflowCollector}
use argo_workflows_metrics.Workflow.Collector.{Call, step}
use argo_workflows_metrics.Workflow.Collector.History.{run_calls}
use argo_workflows_metrics.Workflow.Collector.Legal.{step-On, step-IsLegal}

pub run_calls-IsRun : IsRun run_calls
unfolding run_calls
run_calls-IsRun = loop-IsRun run_calls step (λ c. refl) (λ c call calls. refl)

-- All calls are on the metrics of workflows.
pub run_calls-On :
    (c : WorkflowCollector) (calls : List Call) → On is_workflow (run_calls c calls).1
unfolding run_calls
run_calls-On c [] = tt
run_calls-On c (call ∷ calls) =
    All-append _ (step c call).1 _ (step-On c call) (run_calls-On (step c call).0 calls)

pub run_calls-IsLegal :
    (c : WorkflowCollector) (calls : List Call) → All IsLegal (run_calls c calls).1
unfolding run_calls
run_calls-IsLegal c [] = tt
run_calls-IsLegal c (call ∷ calls) =
    All-append _ (step c call).1 _ (step-IsLegal c call) (run_calls-IsLegal (step c call).0 calls)
