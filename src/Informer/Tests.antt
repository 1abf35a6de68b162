-- ===== src/Informer/Tests.antt =====
-- The informers over a queue that keeps its items in a list, and instances of their theorems.
use argo_workflows_metrics.Base.{ℕ, ◌≡◌, refl, true, false, none, some, [], ◌∷◌, string_eq}
use argo_workflows_metrics.Base.Int.{pos}
use argo_workflows_metrics.Base.Dict.{lookup}
use argo_workflows_metrics.Workflow.{Workflow, new_workflow_collector}
use argo_workflows_metrics.Queue.Line.{line, line-CountsRequeues}
use argo_workflows_metrics.Informer.{
  Event, Item, event, object, tombstone, other_object, Moment, process_next, handle_event,
}
use argo_workflows_metrics.Informer.Workflows.{
  workflow_source, WorkflowInformer, run_full_reconcile,
}
use argo_workflows_metrics.Informer.Delivery.{deleting, handle, Delivers, handle-Delivers}
use argo_workflows_metrics.Informer.Reconcile.{last_matching, reconciled}
use argo_workflows_metrics.Informer.Retries.{next_count, is_retried, process_next-counts}

abbrev nothing : Event Workflow
nothing = record { event_type = "add"; subject = none }

-- The item in progress was requeued so many times.
abbrev waiting : ℕ → WorkflowInformer (line (Item Workflow))
waiting n = record {
  collector = new_workflow_collector true;
  health_state = none;
  queue = record { items = event nothing ∷ []; requeues = n; shut = false };
  worker_count = pos 1;
  full_reconcile_period = pos 600;
  namespace_matcher = λ ns. true;
  stopped = false;
}

abbrev build : Workflow
build = record {
  namespace = "ci";
  name = "build-1";
  uid = "u1";
  priority = none;
  service_account_name = "";
  creation_timestamp = 0;
  phase = "Running";
  started_at = 0;
  finished_at = 0;
  nodes = none;
}

abbrev moment : Moment
moment = (7, pos 1)

-- The fifth retry, and then none.
fifth :
    (process_next workflow_source (line _) moment (waiting 4)).1.0.queue
    ≡ record { items = event nothing ∷ []; requeues = 5; shut = false }
unfolding process_next handle_event
fifth = refl

dropped :
    (process_next workflow_source (line _) moment (waiting 5)).1.0.queue
    ≡ record { items = []; requeues = 0; shut = false }
unfolding process_next handle_event
dropped = refl

process_next-counts_example :
    (process_next workflow_source (line _) moment (waiting 4)).1.0.queue.requeues
    ≡ next_count (is_retried (event nothing)) 4
process_next-counts_example =
    process_next-counts workflow_source (line _) (line-CountsRequeues _) moment (waiting 4)
      (event nothing) (record { items = []; requeues = 4; shut = false }) refl

handle-Delivers_holds :
    Delivers workflow_source
      (line _)
      (λ wf. true)
      deleting
      (some build)
      (waiting 0).queue
      (handle workflow_source (line _) deleting 7 (tombstone (object build)) (waiting 0)).0.queue
handle-Delivers_holds =
    handle-Delivers workflow_source (line _) deleting 7 (tombstone (object build)) (waiting 0)

reconciled_example :
    lookup "ci/build-1"
      (run_full_reconcile
        (line _)
        false
        moment
        (other_object ∷ object build ∷ [])
        (waiting 0)).0.collector.workflows
    ≡ last_matching
        (waiting 0).namespace_matcher
        "ci/build-1"
        none
        (other_object ∷ object build ∷ [])
reconciled_example =
    reconciled (line _) moment (other_object ∷ object build ∷ []) (waiting 0) "ci/build-1"
