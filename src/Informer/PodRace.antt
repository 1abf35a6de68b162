-- ===== src/Informer/PodRace.antt =====
-- The full reconcile of pods, of a listing made before a pod was deleted.
use argo_workflows_metrics.Base.{
  ◌≡◌, refl, ap, ◌∙◌, true, false, String, none, some, [], ◌∷◌, ◌++◌, All, subst, arith, string_eq,
  ◌==◌,
}
use argo_workflows_metrics.Base.Int.{ℤ, pos, ◌<ℤ◌, ◌+ℤ◌}
use argo_workflows_metrics.Base.Dict.{Dict, lookup}
use argo_workflows_metrics.Base.Time.{sub}
use argo_workflows_metrics.Metrics.{whole, add}
use argo_workflows_metrics.Metrics.Registry.{Registry, IsLawful, run}
use argo_workflows_metrics.Metrics.Trace.{value-run}
use argo_workflows_metrics.Pod.{
  Pod, PodCollector, ContainerStatus, Terminated, add_pod, delete_pod, cpu_series, workflow_of,
  collect_pod_metrics, count_statuses, count_termination, count_last, container_state_key,
}
use argo_workflows_metrics.Pod.Restarts.{is_read}
use argo_workflows_metrics.Pod.Cleared.{delete_pod-clears}
use argo_workflows_metrics.Queue.{WorkQueue}
use argo_workflows_metrics.Informer.{Item, object, Moment}
use argo_workflows_metrics.Informer.Turns.{after-AllOwn}
use argo_workflows_metrics.Informer.Pods.{PodInformer, accepts_pod, add_listed, run_full_reconcile}

-- A termination that was not counted, of a container that was not seen.
count_termination-unseen :
    (pod : Pod) (status : ContainerStatus) (t : Terminated) (d : Dict String ℤ)
    → lookup (container_state_key pod status.name) d ≡ none
    → pos 0 <ℤ status.restart_count
    → pos 0 <ℤ sub t.finished_at t.started_at
    → (count_termination pod status t d).1
      ≡ add (cpu_series pod status.name) (sub t.finished_at t.started_at) ∷ []
unfolding count_termination
count_termination-unseen pod status t d l g u = rw l (ground (arith, g, u))

-- The calls for a pod of one such container.
add_pod-single :
    (pod : Pod) (status : ContainerStatus) (t : Terminated) (c : PodCollector)
    → is_read pod c ≡ true
    → pod.container_statuses ≡ status ∷ []
    → status.last_termination ≡ some t
    → lookup (container_state_key pod status.name) c.restart_counters ≡ none
    → pos 0 <ℤ status.restart_count
    → pos 0 <ℤ sub t.finished_at t.started_at
    → (add_pod (some pod) c).1
      ≡ add (cpu_series pod status.name) (sub t.finished_at t.started_at) ∷ []
unfolding add_pod collect_pod_metrics count_statuses
add_pod-single pod status t c h e f l g u =
    let (on, off) : (c.collect_container_stats ≡ true) × ((workflow_of pod == "") ≡ false) =
      ground arith in
    rw (on, off)
      (ap (λ statuses. (count_statuses pod statuses c.restart_counters).1) e
        ∙ ap (λ o. (count_last pod status o c.restart_counters).1 ++ []) f
        ∙ ap (λ ws. ws ++ []) (count_termination-unseen pod status t c.restart_counters l g u))

delete_pod-is_read :
    (pod : Pod) (c : PodCollector) → is_read pod (delete_pod (some pod) c).0 ≡ is_read pod c
unfolding delete_pod
delete_pod-is_read pod c = ground arith

-- With container statistics on, take an accepted pod with a workflow label and one container, which
-- was restarted and whose last run took some time: its deletion leaves no CPU series of the
-- container, a full reconcile whose listing was taken before the deletion and that runs after it
-- shows the series again with the time of that run, and a later full reconcile of an empty store
-- leaves it so.
pub late_reconcile-leaks :
    (R : Registry) (L : IsLawful R) (r : R.State) (Q : WorkQueue (Item Pod)) (moment : Moment)
    (pi : PodInformer Q) (pod : Pod) (status : ContainerStatus) (t : Terminated)
    → is_read pod pi.collector ≡ true
    → accepts_pod pi.namespace_matcher pod ≡ true
    → pod.container_statuses ≡ status ∷ []
    → status.last_termination ≡ some t
    → pos 0 <ℤ status.restart_count
    → pos 0 <ℤ sub t.finished_at t.started_at
    → let (deleted, ws) = delete_pod (some pod) pi.collector in
      let (pi', vs) =
        run_full_reconcile Q false moment (object pod ∷ []) (record pi { collector = deleted }) in
      (R.value (run R ws r) (cpu_series pod status.name) ≡ none)
      × (R.value (run R vs (run R ws r)) (cpu_series pod status.name)
          ≡ some (whole 0 +ℤ sub t.finished_at t.started_at))
      × ((later : Moment)
          → R.value
              (run R (run_full_reconcile Q false later [] pi').1 (run R vs (run R ws r)))
              (cpu_series pod status.name)
            ≡ some (whole 0 +ℤ sub t.finished_at t.started_at))
unfolding run_full_reconcile add_listed
late_reconcile-leaks R L r Q moment pi pod status t h a e f g u =
    let x = cpu_series pod status.name in
    let (deleted, ws) = delete_pod (some pod) pi.collector in
    let (gone, _, forgotten) = (subst (All _) e (delete_pod-clears R L r pod pi.collector h)).0 in
    let added =
      add_pod-single pod status t deleted (delete_pod-is_read pod pi.collector ∙ h) e f forgotten g
        u in
    let (pi', vs) =
      run_full_reconcile Q false moment (object pod ∷ []) (record pi { collector = deleted }) in
    let shown : R.value (run R vs (run R ws r)) x
        ≡ some (whole 0 +ℤ sub t.finished_at t.started_at) =
      value-run R L vs (run R ws r) x ∙ (rw (gone, a, added) ground arith) in
    (
      gone,
      shown,
      λ later.
          let us = (run_full_reconcile Q false later [] pi').1 in
          value-run R L us (run R vs (run R ws r)) x
          ∙ after-AllOwn x _ us refl (refl, (refl, tt))
          ∙ shown,
    )
