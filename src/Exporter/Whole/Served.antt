-- ===== src/Exporter/Whole/Served.antt =====
-- A run of an elected process: a workflow and a pod come and are handled.
use argo_workflows_metrics.Base.{
  refl, true, none, some, List, [], ◌∷◌, ◌++◌, arith, string_eq, labels_eq, nat_eq,
}
use argo_workflows_metrics.Base.Int.{pos}
use argo_workflows_metrics.Base.Dict.{lookup}
use argo_workflows_metrics.Metrics.{Write, series_eq, metric_eq}
use argo_workflows_metrics.Workflow.{Workflow, WorkflowCollector}
use argo_workflows_metrics.Pod.{Pod, PodCollector}
use argo_workflows_metrics.Queue.Line.{line, empty_line}
use argo_workflows_metrics.Informer.{Item, object, process_item, on_add, notify, new_informer}
use argo_workflows_metrics.Informer.Workflows.{workflow_source}
use argo_workflows_metrics.Informer.Pods.{pod_source, new_pod_informer, is_workflow_pod}
use argo_workflows_metrics.Informer.Delivery.{adding, queued, handle}
use argo_workflows_metrics.Informer.Interleaving
use argo_workflows_metrics.Informer.Interleaving.{System}
use argo_workflows_metrics.Shard.{base_matcher}
use argo_workflows_metrics.Exporter.{started_leading, happen, begin, build}
use argo_workflows_metrics.Exporter.Whole.{
  World, happens, workflows, pods, here, next, wire, lend, reclaim,
}
use argo_workflows_metrics.Exporter.Whole.Examples.{born, born_writes, IsReached}

abbrev build_1 : Workflow
build_1 = record {
  namespace = "ci";
  name = "build-1";
  uid = "u1";
  priority = none;
  service_account_name = "";
  creation_timestamp = 0;
  phase = "Running";
  started_at = 0;
  finished_at = 0;
  nodes = none;
}

abbrev pub build_pod : Pod
build_pod = record {
  namespace = "ci";
  name = "build-1-pod";
  uid = "p1";
  labels = ("workflows.argoproj.io/workflow", "build-1") ∷ [];
  container_statuses =
      record {
        name = "main";
        restart_count = pos 1;
        last_termination = some (record { started_at = 1_000; finished_at = 4_000 });
      }
      ∷ [];
}

-- The replica is elected; then a workflow and a pod are delivered, and a worker of each informer
-- takes the event and handles it.
abbrev elected : World (line (Item Workflow)) (line (Item Pod))
elected = record born { process = (happen started_leading born.process).0; started = true }

abbrev with_workflows :
    World (line (Item Workflow)) (line (Item Pod))
    → System WorkflowCollector (line (Item Workflow))
    → World (line (Item Workflow)) (line (Item Pod))
with_workflows w t = record w {
  workflows = t;
  process = record w.process { health = reclaim w.process.health t };
}

abbrev with_pods :
    World (line (Item Workflow)) (line (Item Pod))
    → System PodCollector (line (Item Pod))
    → World (line (Item Workflow)) (line (Item Pod))
with_pods w t = record w {
  pods = t;
  process = record w.process { health = reclaim w.process.health t };
}

abbrev lent :
    World (line (Item Workflow)) (line (Item Pod)) → System WorkflowCollector (line (Item Workflow))
lent w = lend w.process.health w.workflows

abbrev lent_pods :
    World (line (Item Workflow)) (line (Item Pod)) → System PodCollector (line (Item Pod))
lent_pods w = lend w.process.health w.pods

abbrev told : World (line (Item Workflow)) (line (Item Pod))
told = with_workflows elected (record (lent elected) {
  informer = (handle workflow_source (line _) adding 8 (object build_1) (lent elected).informer).0;
})

abbrev taken : World (line (Item Workflow)) (line (Item Pod))
taken = with_workflows told (record (lent told) {
  informer = record (lent told).informer { queue = empty_line };
  held = queued adding build_1 ∷ [];
})

abbrev handled : World (line (Item Workflow)) (line (Item Pod))
handled = with_workflows taken (record (lent taken) {
  informer =
      (process_item workflow_source (line _) (9, pos 1) (queued adding build_1) empty_line
        (lent taken).informer).0;
  held = [];
})

abbrev pod_told : World (line (Item Workflow)) (line (Item Pod))
pod_told = with_pods handled (record (lent_pods handled) {
  informer =
      (handle pod_source (line _) adding 8 (object build_pod) (lent_pods handled).informer).0;
})

abbrev pod_taken : World (line (Item Workflow)) (line (Item Pod))
pod_taken = with_pods pod_told (record (lent_pods pod_told) {
  informer = record (lent_pods pod_told).informer { queue = empty_line };
  held = queued adding build_pod ∷ [];
})

abbrev pub served : World (line (Item Workflow)) (line (Item Pod))
served = with_pods pod_taken (record (lent_pods pod_taken) {
  informer =
      (process_item pod_source (line _) (9, pos 1) (queued adding build_pod) empty_line
        (lent_pods pod_taken).informer).0;
  held = [];
})

abbrev pub made : List Write
made =
    (((((([] ++ (happen started_leading born.process).1)
              ++ (handle workflow_source (line _) adding 8 (object build_1)
                  (lent elected).informer).1)
            ++ [])
          ++ (process_item workflow_source (line _) (9, pos 1) (queued adding build_1) empty_line
              (lent taken).informer).1)
        ++ (handle pod_source (line _) adding 8 (object build_pod) (lent_pods handled).informer).1)
      ++ [])
    ++ (process_item pod_source (line _) (9, pos 1) (queued adding build_pod) empty_line
        (lent_pods pod_taken).informer).1

pub served-Reach : IsReached served made
unfolding wire happen begin on_add notify new_informer new_pod_informer build base_matcher string_eq
    is_workflow_pod lookup
served-Reach =
    next
      (next
        (next
          (next
            (next
              (next (next here (happens started_leading tt refl))
                (workflows _ _ refl refl (Interleaving.Step.delivers adding 8 (object build_1))))
              (workflows _ _ refl refl
                (Interleaving.Step.takes (queued adding build_1) empty_line refl (omega arith))))
            (workflows _ _ refl refl
              (Interleaving.Step.handles (9, pos 1) (queued adding build_1) [] [] refl)))
          (pods _ _ refl refl (Interleaving.Step.delivers adding 8 (object build_pod))))
        (pods _ _ refl refl
          (Interleaving.Step.takes (queued adding build_pod) empty_line refl (omega arith))))
      (pods _ _ refl refl
        (Interleaving.Step.handles (9, pos 1) (queued adding build_pod) [] [] refl))

abbrev pub all_made : List Write
all_made = born_writes ++ made
