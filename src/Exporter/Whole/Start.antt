-- ===== src/Exporter/Whole/Start.antt =====
-- The process at its start: the two new informers, and calls on the exporter's own metrics.
use argo_workflows_metrics.Base.{
  ◌≡◌, refl, Bool, true, false, List, ◌++◌, All, All-append, All-map, subst, arith,
}
use argo_workflows_metrics.Base.Time.{Time}
use argo_workflows_metrics.Metrics.{Write, IsLegal, labels, kind}
use argo_workflows_metrics.Metrics.Trace.{target}
use argo_workflows_metrics.Metrics.Owners.{is_own, is_workflow, is_container, On, On-Off}
use argo_workflows_metrics.Metrics.Histories.{Serial, still-Serial, Serial-trans}
use argo_workflows_metrics.Workflow.{Workflow, new_workflow_collector}
use argo_workflows_metrics.Workflow.Collector.History
use argo_workflows_metrics.Workflow.Collector.Runs
use argo_workflows_metrics.Pod.{Pod, new_pod_collector}
use argo_workflows_metrics.Pod.History as PodHistory
use argo_workflows_metrics.Health.{new_state, mark_leader}
use argo_workflows_metrics.Queue.{WorkQueue}
use argo_workflows_metrics.Informer.{Item, new_informer}
use argo_workflows_metrics.Informer.Pods.{new_pod_informer}
use argo_workflows_metrics.Shard.{Matcher}
use argo_workflows_metrics.Exporter.{Flags, Built, build, begin}
use argo_workflows_metrics.Exporter.Whole.{World, Reach, wire}
use argo_workflows_metrics.Exporter.Whole.Apart.{Reach-Histories, own-others}

-- A call on a metric of the exporter itself, as the client library wants it.
abbrev IsOwnCall : Write → Type 0
IsOwnCall w = (is_own (target w).metric ≡ true) × IsLegal w

build-IsOwnCall :
    (flags : Flags) (now : Time) (m : Matcher) → All IsOwnCall (build flags now m).writes
unfolding build new_state labels kind
build-IsOwnCall flags now m = ground arith

begin-IsOwnCall : (b : Built) (elect : Bool) → All IsOwnCall (begin b elect).1
unfolding begin mark_leader labels kind
begin-IsOwnCall b true = tt
begin-IsOwnCall b false = ground arith

module _ (Qw : WorkQueue (Item Workflow)) (Qp : WorkQueue (Item Pod)) (flags : Flags) (now : Time)
    (m : Matcher) (qw : Qw.Queue) (qp : Qp.Queue) where
  -- The process at its start.
  abbrev pub first : World Qw Qp
  first = (wire Qw Qp flags (build flags now m) qw qp).0

  abbrev pub first_writes : List Write
  first_writes = (wire Qw Qp flags (build flags now m) qw qp).1

  first-IsOwnCall : All IsOwnCall first_writes
  unfolding wire new_informer new_pod_informer labels kind
  first-IsOwnCall =
      let b = build flags now m in
      All-append IsOwnCall b.writes _ (build-IsOwnCall flags now m)
        ((refl, (refl, refl)), ((refl, (refl, refl)), begin-IsOwnCall b flags.leader_elect))

  pub first-On : On is_own first_writes
  first-On = All-map _ _ first_writes (λ w h. h.0) first-IsOwnCall

  first-collector : first.workflows.informer.collector ≡ new_workflow_collector flags.wf_details
  unfolding wire new_informer build
  first-collector = refl

  first-pods : first.pods.informer.collector ≡ new_pod_collector flags.pod_metrics
  unfolding wire new_pod_informer new_informer build
  first-pods = refl

  module _ (v : World Qw Qp) (ws : List Write) (reach : Reach Qw Qp first v ws) where
    -- What `/metrics` shows of the workflows is the work of one history of their collector, since the start.
    pub workflows_since :
        Serial History.run_calls is_workflow
          (new_workflow_collector flags.wf_details)
          v.workflows.informer.collector
          (first_writes ++ ws)
    workflows_since =
        Serial-trans History.run_calls is_workflow Runs.run_calls-IsRun _ _ _ first_writes ws
          (still-Serial History.run_calls is_workflow Runs.run_calls-IsRun _ first_writes
            (On-Off is_own is_workflow first_writes (λ n e. (own-others n e).0) first-On))
          (subst (λ c. Serial History.run_calls is_workflow c v.workflows.informer.collector ws)
            first-collector (Reach-Histories Qw Qp first v ws reach).workflows)

    -- The pods likewise.
    pub pods_since :
        Serial PodHistory.run_calls is_container
          (new_pod_collector flags.pod_metrics)
          v.pods.informer.collector
          (first_writes ++ ws)
    pods_since =
        Serial-trans PodHistory.run_calls is_container PodHistory.run_calls-IsRun _ _ _ first_writes
          ws
          (still-Serial PodHistory.run_calls is_container PodHistory.run_calls-IsRun _ first_writes
            (On-Off is_own is_container first_writes (λ n e. (own-others n e).1) first-On))
          (subst (λ c. Serial PodHistory.run_calls is_container c v.pods.informer.collector ws)
            first-pods (Reach-Histories Qw Qp first v ws reach).pods)

    pub since-IsLegal : All IsLegal (first_writes ++ ws)
    since-IsLegal =
        All-append IsLegal first_writes ws (All-map _ _ first_writes (λ w h. h.1) first-IsOwnCall)
          (Reach-Histories Qw Qp first v ws reach).legal
