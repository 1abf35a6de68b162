-- ===== src/Informer/Pods.antt =====
-- pkg/informer/pod/pod.go: what is special to the informer of pods, and its full reconcile.
use argo_workflows_metrics.Base.{
  ℕ, Bool, true, false, ◌&&◌, String, Option, some, List, [], ◌∷◌, ◌++◌, if◌then◌else◌, is_some,
  string_eq,
}
use argo_workflows_metrics.Base.Int.{ℤ}
use argo_workflows_metrics.Base.Dict.{lookup}
use argo_workflows_metrics.Base.Time.{Time, Duration}
use argo_workflows_metrics.Metrics.{Write, inc, exporter_full_reconcile_total}
use argo_workflows_metrics.Pod.{Pod, PodCollector, add_pod, delete_pod}
use argo_workflows_metrics.Health.{State, mark_pod_event, mark_pod_synced}
use argo_workflows_metrics.Queue.{WorkQueue}
use argo_workflows_metrics.Informer
use argo_workflows_metrics.Informer.{
  Event, Item, Object, object, tombstone, other_object, Source, ObjectInformer, Moment, Step,
  Started, status, of_informer, handler_error, reconcile_error, observed, new_informer,
  handle_event,
}

-- The label's value may be empty.
unfoldable pub is_workflow_pod : Pod → Bool
is_workflow_pod pod = is_some (lookup "workflows.argoproj.io/workflow" pod.labels)

abbrev pub accepts_pod : (String → Bool) → Pod → Bool
accepts_pod matcher pod = is_workflow_pod pod && matcher pod.namespace

abbrev pub pod_source : Source Pod PodCollector
pod_source = record {
  name = "pod";
  accepts = accepts_pod;
  mark_event = mark_pod_event;
  mark_synced = mark_pod_synced;
  add_object = λ now pod c. add_pod (some pod) c;
  delete_object = λ pod c. delete_pod (some pod) c;
}

abbrev pub PodInformer : WorkQueue (Item Pod) → Type 0
PodInformer Q = ObjectInformer PodCollector Q

unfoldable pub handle_pod_event :
    Time → Event Pod → PodCollector → Option (PodCollector × List Write)
handle_pod_event = Informer.handle_event pod_source

module _ (Q : WorkQueue (Item Pod)) where
  unfoldable pub new_pod_informer :
      PodCollector
      → Option State
      → Q.Queue
      → ℤ
      → Duration
      → Option (String → Bool)
      → PodInformer Q × List Write
  new_pod_informer = Informer.new_informer pod_source Q

  unfoldable pub on_add : Time → Object Pod → PodInformer Q → PodInformer Q × List Write
  on_add = Informer.on_add pod_source Q

  unfoldable pub on_update : Time → Object Pod → PodInformer Q → PodInformer Q × List Write
  on_update = Informer.on_update pod_source Q

  unfoldable pub on_delete : Time → Object Pod → PodInformer Q → PodInformer Q × List Write
  on_delete = Informer.on_delete pod_source Q

  unfoldable pub process_next : Moment → PodInformer Q → Bool × (PodInformer Q × List Write)
  process_next = Informer.process_next pod_source Q

  unfoldable pub run_worker : ℕ → (ℕ → Moment) → PodInformer Q → Option (PodInformer Q × List Write)
  run_worker = Informer.run_worker pod_source Q

  unfoldable pub start : Bool → PodInformer Q → (PodInformer Q × List Write) × Started
  start = Informer.start pod_source Q

  unfoldable pub stop : PodInformer Q → PodInformer Q × List Write
  stop = Informer.stop pod_source Q

-- The loop of the full reconcile over what the store lists, and whether it met an object of another
-- type.
unfoldable pub add_listed :
    (String → Bool) → List (Object Pod) → PodCollector → PodCollector × (List Write × Bool)
add_listed matcher [] c = (c, ([], false))
add_listed matcher (object pod ∷ items) c =
    let (added, ws) = add_pod (some pod) c in
    let (c', (vs, failed)) =
      add_listed matcher items (if accepts_pod matcher pod then added else c) in
    (c', ((if accepts_pod matcher pod then ws ++ vs else vs), failed))
add_listed matcher (_ ∷ items) c =
    let (c', (vs, failed)) = add_listed matcher items c in
    (c', (reconcile_error pod_source "full" ∷ handler_error pod_source "full" ∷ vs, true))

unfoldable pub run_full_reconcile :
    (Q : WorkQueue (Item Pod))
    → Bool
    → Moment
    → List (Object Pod)
    → PodInformer Q
    → PodInformer Q × List Write
unfolding add_listed
run_full_reconcile Q cancelled (now, elapsed) items pi =
    let (c, (ws, failed)) = add_listed pi.namespace_matcher items pi.collector in
    if cancelled then (pi, []) else (
      record pi { collector = c },
      ws
          ++ (inc (
                of_informer pod_source exporter_full_reconcile_total
                  ((if failed then "error" else "success") ∷ []))
              ∷ observed pod_source "full" elapsed
              ∷ []),
    )
