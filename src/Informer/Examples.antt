-- ===== src/Informer/Examples.antt =====
-- Runs of the queue with its workers, and instances of the theorems on them.
use argo_workflows_metrics.Base.{
  ℕ, ◌≡◌, refl, Bool, true, false, String, none, some, List, [], ◌∷◌, ◌++◌, arith, string_eq,
}
use argo_workflows_metrics.Base.Int.{pos}
use argo_workflows_metrics.Base.Time.{Time}
use argo_workflows_metrics.Base.Dict.{lookup}
use argo_workflows_metrics.Metrics.{Write}
use argo_workflows_metrics.Metrics.Registry.{run}
use argo_workflows_metrics.Metrics.Memory.{memory, memory-IsLawful, blank}
use argo_workflows_metrics.Metrics.Trace.{after}
use argo_workflows_metrics.Workflow.{Workflow, new_workflow_collector}
use argo_workflows_metrics.Workflow.Aggregate.{count_series}
use argo_workflows_metrics.Workflow.Aggregate.Loop.{count_in}
use argo_workflows_metrics.Workflow.Aggregate.Exact.{exposed}
use argo_workflows_metrics.Workflow.Collector.History.{cached}
use argo_workflows_metrics.Queue.Line.{line, empty_line, line-IsFifo}
use argo_workflows_metrics.Informer.{
  new_informer, Item, Object, object, tombstone, other_object, Moment, run_worker, stop,
}
use argo_workflows_metrics.Informer.Workflows.{workflow_source, WorkflowInformer}
use argo_workflows_metrics.Informer.Delivery.{Handler, adding, updating, deleting, queued}
use argo_workflows_metrics.Informer.Turns.{operate}
use argo_workflows_metrics.Informer.Workers.{stop-ends}
use argo_workflows_metrics.Informer.Pipeline.{
  calls, accepted_objects, worked, delivered, workflow-MarksOwn, watched-exact,
}

abbrev pub build : Workflow
build = record {
  namespace = "ci";
  name = "build-1";
  uid = "u1";
  priority = none;
  service_account_name = "";
  creation_timestamp = 0;
  phase = "Running";
  started_at = 0;
  finished_at = 0;
  nodes = none;
}

abbrev all_namespaces : String → Bool
all_namespaces namespace = true

abbrev clock : ℕ → Moment
clock k = (100, pos 1)

-- Two workers.
abbrev pub idle : WorkflowInformer (line (Item Workflow))
idle = record {
  collector = new_workflow_collector true;
  health_state = none;
  queue = empty_line;
  worker_count = pos 2;
  full_reconcile_period = pos 600;
  namespace_matcher = all_namespaces;
  stopped = false;
}

-- The workflow's addition and its deletion wait.
abbrev pub busy : WorkflowInformer (line (Item Workflow))
busy = record idle {
  queue = record {
    items = queued adding build ∷ queued deleting build ∷ [];
    requeues = 0;
    shut = false;
  };
}

abbrev deliveries : List (Handler × Time × Object Workflow)
deliveries =
    (adding, 7, object build)
    ∷ (updating, 8, other_object)
    ∷ (updating, 8, object build)
    ∷ (deleting, 9, tombstone (object build))
    ∷ []

stop-ends_example :
    (wi : WorkflowInformer (line (Item Workflow))) × (ws : List Write) × (run_worker workflow_source
        (line _)
        3
        clock
        (stop workflow_source (line _) busy).0
      ≡ some (wi, ws))
    × (wi.queue.items ≡ [])
unfolding line-IsFifo
stop-ends_example =
    stop-ends workflow_source (line _) (line-IsFifo _) 3 clock busy refl (omega arith)

delivered_example :
    let (wi, ws) = worked workflow_source (line _) deliveries clock idle in
    let (c, vs) =
      operate workflow_source 0 clock
        (accepted_objects workflow_source (line _) deliveries idle)
        idle.collector in
    (wi.queue.items ≡ [])
    × (wi.collector ≡ c)
    × (after (count_series "ci") none ws ≡ after (count_series "ci") none vs)
unfolding line-IsFifo
delivered_example =
    delivered workflow_source (line _) workflow-MarksOwn (line-IsFifo _) deliveries clock idle refl
      refl (count_series "ci") none refl

-- A new informer, after the deliveries and its workers' turns.
abbrev fresh : WorkflowInformer (line (Item Workflow)) × List Write
fresh =
    new_informer workflow_source (line _) (new_workflow_collector true) none empty_line (pos 2)
      (pos 600) none

abbrev served : WorkflowInformer (line (Item Workflow)) × List Write
served = worked workflow_source (line _) deliveries clock fresh.0

watched-exact_example :
    (lookup "ci/build-1" served.0.collector.workflows
      ≡ cached "ci/build-1" none
          (calls 0 clock (accepted_objects workflow_source (line _) deliveries fresh.0)))
    × (memory.value (run memory (fresh.1 ++ served.1) blank) (count_series "ci")
        ≡ exposed (count_in "ci" served.0.collector.workflows))
unfolding line-IsFifo
watched-exact_example =
    watched-exact memory memory-IsLawful blank (λ x. refl) (line _) (line-IsFifo _) empty_line refl
      refl true none (pos 2) (pos 600) none deliveries clock "ci/build-1" "ci"
