-- ===== src/Informer/LateReconcile.antt =====
-- The full reconcile of workflows, of a listing made before the deletion of a workflow was delivered.
use argo_workflows_metrics.Base.{
  ◌≡◌, ◌≤◌, refl, subst, sym, ap, ◌∙◌, Bool, true, false, String, none, some, List, [], ◌∷◌, ◌++◌,
  length, arith, string_eq, ◌==◌, ◌&&◌, ◌||◌, not, All, if◌then◌else◌,
}
use argo_workflows_metrics.Base.Int.{pos_part}
use argo_workflows_metrics.Base.Time.{Time}
use argo_workflows_metrics.Base.Dict.{lookup}
use argo_workflows_metrics.Metrics.{Write}
use argo_workflows_metrics.Workflow.{Workflow, key}
use argo_workflows_metrics.Queue.{WorkQueue, IsFifo}
use argo_workflows_metrics.Informer.{Item, Object, object, Moment, process_item}
use argo_workflows_metrics.Informer.Workflows.{
  workflow_source, WorkflowInformer, run_full_reconcile,
}
use argo_workflows_metrics.Informer.Delivery.{
  Handler, deleting, queued, handle, handle-Queued, handle_event-queued,
}
use argo_workflows_metrics.Informer.Reconcile.{reconciled}
use argo_workflows_metrics.Informer.Handled.{process_item-waiting}
use argo_workflows_metrics.Informer.Interleaving.{Step, here, next}
use argo_workflows_metrics.Informer.Ordered.{all_arrived, all_finished}
use argo_workflows_metrics.Informer.Races.{WorkflowSystem, WorkflowReach}

-- Whether the last delivery under a key is a deletion, from whether it was before.
abbrev pub is_gone : String → Bool → List (Handler × Workflow) → Bool
is_gone k gone [] = gone
is_gone k gone ((deleting, wf) ∷ ds) = is_gone k (gone || key wf == k) ds
is_gone k gone ((_, wf) ∷ ds) = is_gone k (gone && not (key wf == k)) ds

-- A listing of the store, after these deliveries, has no workflow that is gone by them. The store of
-- client-go takes a deletion in before the handlers get it.
abbrev pub IsCurrent : List (Handler × Workflow) → Object Workflow → Type 0
IsCurrent ds (object wf) = is_gone (key wf) false ds ≡ false
IsCurrent ds _ = Unit

module _ (Q : WorkQueue (Item Workflow)) (F : IsFifo Q) where
  abbrev pub ListedAfter :
      {s t : WorkflowSystem Q} {ws : List Write}
      → List (Handler × Workflow)
      → Step workflow_source Q (run_full_reconcile Q false) s t ws
      → Type 0
  ListedAfter ds (Step.lists items e) = All (IsCurrent ds) items
  ListedAfter ds st = Unit

  -- Each listing on the way has no workflow that was gone by then.
  abbrev pub IsTimely : (s t : WorkflowSystem Q) (ws : List Write) → WorkflowReach Q s t ws → Type 0
  IsTimely s t ws here = Unit
  IsTimely s u us (next {t} {ws = ws} {vs = vs} r st) =
      IsTimely s t ws r
      × ListedAfter (all_arrived workflow_source Q (run_full_reconcile Q false) s t ws r) st

  -- What a run leaves that delivers the deletion of the workflow alone and handles it.
  pub record Revived (wf : Workflow) (s t : WorkflowSystem Q) (ws : List Write)
      (r : WorkflowReach Q s t ws) : Type 0 where
    pub arrives :
        all_arrived workflow_source Q (run_full_reconcile Q false) s t ws r ≡ (deleting, wf) ∷ []
    pub finishes :
        all_finished workflow_source Q (run_full_reconcile Q false) s t ws r
        ≡ queued deleting wf ∷ []
    pub timely : IsTimely s t ws r
    pub waits : F.waiting t.informer.queue ≡ []
    pub free : t.held ≡ []
    pub unlisted : t.listed ≡ none
    pub cached : lookup (key wf) t.informer.collector.workflows ≡ some wf

  -- Handling the deletion leaves the matcher.
  handled-matcher :
      (m : Moment) (wf : Workflow) (q : Q.Queue) (wi : WorkflowInformer Q)
      → (process_item workflow_source Q m (queued deleting wf) q wi).0.namespace_matcher
        ≡ wi.namespace_matcher
  handled-matcher (now, elapsed) wf q wi =
      rw (handle_event-queued workflow_source deleting now wf wi.collector) refl

  -- The delivery of the deletion, to an informer whose queue is empty and open.
  record Told (wf : Workflow) (wi wi' : WorkflowInformer Q) : Type 0 where
    waits : F.waiting wi'.queue ≡ queued deleting wf ∷ []
    matches : wi'.namespace_matcher ≡ wi.namespace_matcher
    workers : wi'.worker_count ≡ wi.worker_count

  tells :
      (now : Time) (wf : Workflow) (wi : WorkflowInformer Q)
      → wi.namespace_matcher wf.namespace ≡ true
      → F.waiting wi.queue ≡ []
      → F.is_shut wi.queue ≡ false
      → Told wf wi (handle workflow_source Q deleting now (object wf) wi).0
  tells now wf wi a w o =
      let (health, e) = handle-Queued workflow_source Q deleting now (object wf) wi in
      let d : Item Workflow = queued deleting wf in
      subst (Told wf wi) (sym e) record {
        waits =
            ap (λ b. F.waiting (if b then Q.push d wi.queue else wi.queue)) a
            ∙ F.waiting-push d wi.queue o
            ∙ ap (λ is. is ++ (d ∷ [])) w;
        matches = refl;
        workers = refl;
      }

  -- From a state of the workflow informer with at least one worker in which nothing waits on a
  -- first in first out queue that is open, nothing is held and nothing is listed, and for any
  -- accepted workflow: there is a run in which only the deletion of that workflow is delivered and
  -- only that deletion is handled, in which each listing of the store has no workflow of which the
  -- last delivery until then is a deletion, and after which nothing waits, is held or is listed,
  -- and the cache holds the deleted workflow.
  pub late_reconcile-revives :
      (s : WorkflowSystem Q) (wf : Workflow) (now : Time) (m₁ m₂ : Moment)
      → s.informer.namespace_matcher wf.namespace ≡ true
      → F.waiting s.informer.queue ≡ []
      → F.is_shut s.informer.queue ≡ false
      → s.held ≡ []
      → s.listed ≡ none
      → 1 ≤ pos_part s.informer.worker_count
      → (t : WorkflowSystem Q) × (ws : List Write) × (r : WorkflowReach Q s t ws) × Revived wf s t
          ws r
  unfolding all_arrived all_finished run_full_reconcile
  late_reconcile-revives s wf now m₁ m₂ a w o h n l =
      let d : Item Workflow = queued deleting wf in
      let items : List (Object Workflow) = object wf ∷ [] in
      let told = handle workflow_source Q deleting now (object wf) s.informer in
      let given : Told wf s.informer told.0 = tells now wf s.informer a w o in
      let (q, g, w', _) = F.get-waiting told.0.queue d [] given.waits in
      let taken : WorkflowInformer Q = record told.0 { queue = q } in
      let done = process_item workflow_source Q m₁ d q taken in
      let r : WorkflowReach Q s _ _ =
        next
          (next
            (next (next (next here (Step.lists items n)) (Step.delivers deleting now (object wf)))
              (Step.takes d q g (omega (arith, ap length h, ap pos_part given.workers, l))))
            (Step.handles m₁ d [] s.held refl))
          (Step.reconciles m₂ items refl) in
      let m : done.0.namespace_matcher wf.namespace ≡ true =
        ap (λ (f : String → Bool). f wf.namespace) (handled-matcher m₁ wf q taken ∙ given.matches)
        ∙ a in
      (
        _,
        _,
        r,
        record {
          arrives =
              ap (λ b. ((([] ++ (if b then (deleting, wf) ∷ [] else [])) ++ []) ++ []) ++ []) a;
          finishes = refl;
          timely = (((((tt, (refl, tt)), tt), tt), tt), tt);
          waits = process_item-waiting workflow_source Q F m₁ deleting wf q taken ∙ w';
          free = h;
          unlisted = refl;
          cached = reconciled Q m₂ items done.0 (key wf) ∙ ground (arith, m);
        },
      )
