-- ===== src/Informer/Races.antt =====
-- What holds in every interleaving, and what two workers can do that one cannot.
use argo_workflows_metrics.Base.{
  subst, none, ◌≢◌, ◌≡◌, ◌≤◌, refl, ap, ◌∙◌, Bool, false, String, some, [], ◌∷◌, length, arith,
  string_eq, true, List,
}
use argo_workflows_metrics.Base.Int.{pos_part}
use argo_workflows_metrics.Base.Dict.{lookup}
use argo_workflows_metrics.Workflow.Series.Own.{Own, is_detail}
use argo_workflows_metrics.Metrics.{Series, Write}
use argo_workflows_metrics.Metrics.Registry.{Registry, IsLawful, run}
use argo_workflows_metrics.Workflow.{Workflow, WorkflowCollector, new_workflow_collector, key}
use argo_workflows_metrics.Workflow.Aggregate.{count_series, total_series}
use argo_workflows_metrics.Workflow.Aggregate.Loop.{count_in, count_phase}
use argo_workflows_metrics.Workflow.Aggregate.Exact.{exposed}
use argo_workflows_metrics.Workflow.Collector.{adds, deletes, step, add_workflow, delete_workflow}
use argo_workflows_metrics.Workflow.Collector.History.{run_calls, lookup-run_calls, IsBlank}
use argo_workflows_metrics.Queue.{WorkQueue, IsFifo}
use argo_workflows_metrics.Informer.{Item, Moment, process_item}
use argo_workflows_metrics.Informer.Workflows.{
  workflow_source, WorkflowInformer, run_full_reconcile,
}
use argo_workflows_metrics.Informer.Delivery.{
  Handler, adding, deleting, queued, operation, handle_event-queued,
}
use argo_workflows_metrics.Informer.Handled.{process_item-waiting}
use argo_workflows_metrics.Informer.Interleaving.{
  System, moved, Step, Reach, here, next, Reach-Effects,
}
use argo_workflows_metrics.Informer.Explained.{workflow_history, workflows-reconcile}
use argo_workflows_metrics.Metrics.Owners.{is_workflow}
use argo_workflows_metrics.Metrics.Histories.{Serial}
use argo_workflows_metrics.Workflow.Collector.Surrounded.{surrounded-exact, surrounded-held}

abbrev pub WorkflowSystem : WorkQueue (Item Workflow) → Type 0
WorkflowSystem Q = System WorkflowCollector Q

abbrev pub WorkflowReach :
    (Q : WorkQueue (Item Workflow)) → WorkflowSystem Q → WorkflowSystem Q → List Write → Type 0
WorkflowReach Q = Reach workflow_source Q (run_full_reconcile Q false)

module _ (R : Registry) (L : IsLawful R) (r : R.State) (blank : IsBlank (R.value r))
    (Q : WorkQueue (Item Workflow)) (details : Bool) (s t : WorkflowSystem Q) (ws : List Write)
    (blank_cache : s.informer.collector ≡ new_workflow_collector details)
    (reach : WorkflowReach Q s t ws) where
  serial : Serial run_calls is_workflow (new_workflow_collector details) t.informer.collector ws
  serial =
      subst (λ c. Serial run_calls is_workflow c t.informer.collector ws) blank_cache
        (Reach-Effects workflow_source Q (run_full_reconcile Q false) workflow_history
          (workflows-reconcile Q) s t ws reach).collected

  -- Whatever the order in which deliveries, several workers and full reconciles of the workflow
  -- informer interleave, from a new collector and on a lawful registry that showed nothing at
  -- first, each `argo_workflow_count` and each `argo_workflow_status_total` series shows the number
  -- of workflows that the cache then holds for its namespace, or its namespace and phase, and is
  -- not exposed where that is 0.
  pub interleaved-exact :
      (n p : String)
      → (R.value (run R ws r) (count_series n)
          ≡ exposed (count_in n t.informer.collector.workflows))
        × (R.value (run R ws r) (total_series n p)
            ≡ exposed (count_phase n p t.informer.collector.workflows))
  interleaved-exact = surrounded-exact R L r blank details t.informer.collector ws serial

  -- Whatever the order in which deliveries, several workers and full reconciles of the workflow
  -- informer interleave, from a new collector and on a lawful registry that showed nothing at
  -- first, a series of a per-workflow metric that is exposed is a series of a workflow that the
  -- cache then holds: its label values begin with that workflow's namespace and name, and a
  -- `workflow_info` series has exactly that workflow's labels.
  pub interleaved-held :
      (x : Series)
      → is_detail x.metric ≡ true
      → R.value (run R ws r) x ≢ none
      → (k : String) × (wf : Workflow) × (lookup k t.informer.collector.workflows ≡ some wf)
        × Own wf x
  interleaved-held = surrounded-held R L r blank details t.informer.collector ws serial

module _ (Q : WorkQueue (Item Workflow)) (F : IsFifo Q) where
  -- Handling a queued workflow.
  process_item-collector :
      (moment : Moment) (h : Handler) (wf : Workflow) (q : Q.Queue) (wi : WorkflowInformer Q)
      → (process_item workflow_source Q moment (queued h wf) q wi).0.collector
        ≡ (operation workflow_source h moment.0 wf wi.collector).0
  process_item-collector (now, elapsed) h wf q wi =
      rw (handle_event-queued workflow_source h now wf wi.collector) refl

  readded :
      (c : WorkflowCollector) (moment : Moment) (wf : Workflow)
      → lookup
          (key wf)
          (add_workflow moment.0 (some wf) (delete_workflow (some wf) c).0).0.workflows
        ≡ some wf
  unfolding run_calls step
  readded c moment wf =
      lookup-run_calls (key wf) c (deletes (some wf) ∷ adds moment.0 (some wf) ∷ []) ∙ ground arith

  -- With two workers or more, when the addition of a workflow and then its deletion wait on a first
  -- in first out queue and no worker holds an item, some interleaving handles both and leaves the
  -- deleted workflow in the cache.
  pub two_workers-reorder :
      (s : WorkflowSystem Q) (wf : Workflow) (m₁ m₂ : Moment)
      → F.waiting s.informer.queue ≡ queued adding wf ∷ queued deleting wf ∷ []
      → s.held ≡ []
      → 2 ≤ pos_part s.informer.worker_count
      → (t : WorkflowSystem Q) × (ws : List Write) × WorkflowReach Q s t ws
        × (F.waiting t.informer.queue ≡ [])
        × (t.held ≡ [])
        × (lookup (key wf) t.informer.collector.workflows ≡ some wf)
  two_workers-reorder s wf m₁ m₂ e h l =
      let a : Item Workflow = queued adding wf in
      let d : Item Workflow = queued deleting wf in
      let (q₁, g₁, w₁, _) = F.get-waiting s.informer.queue a (d ∷ []) e in
      let (q₂, g₂, w₂, _) = F.get-waiting q₁ d [] w₁ in
      let s₁ : WorkflowSystem Q = record s {
        informer = record s.informer { queue = q₁ };
        held = a ∷ s.held;
      } in
      let s₂ : WorkflowSystem Q = record s₁ {
        informer = record s₁.informer { queue = q₂ };
        held = d ∷ s₁.held;
      } in
      let s₃ : WorkflowSystem Q =
        record (moved workflow_source Q (run_full_reconcile Q false) s₂
          (process_item workflow_source Q m₁ d q₂ s₂.informer)) { held = s₁.held } in
      let s₄ : WorkflowSystem Q =
        record (moved workflow_source Q (run_full_reconcile Q false) s₃
          (process_item workflow_source Q m₂ a s₃.informer.queue s₃.informer)) { held = s.held } in
      let r : WorkflowReach Q s s₄ _ =
        next
          (next
            (next (next here (Step.takes a q₁ g₁ (omega (arith, ap length h, l))))
              (Step.takes d q₂ g₂ (omega (arith, ap length h, l))))
            (Step.handles m₁ d [] s₁.held refl))
          (Step.handles m₂ a [] s.held refl) in
      (
        s₄,
        _,
        r,
        process_item-waiting workflow_source Q F m₂ adding wf s₃.informer.queue s₃.informer
            ∙ process_item-waiting workflow_source Q F m₁ deleting wf q₂ s₂.informer
            ∙ w₂,
        h,
        ap (λ (c : WorkflowCollector). lookup (key wf) c.workflows)
              (process_item-collector m₂ adding wf s₃.informer.queue s₃.informer
                ∙ ap (λ c. (add_workflow m₂.0 (some wf) c).0)
                    (process_item-collector m₁ deleting wf q₂ s₂.informer))
            ∙ readded s.informer.collector m₂ wf,
      )
