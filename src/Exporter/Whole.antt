-- ===== src/Exporter/Whole.antt =====
-- cmd/exporter/main.go: the whole process. `main` builds two informers that share one health state; the
-- controllers start with the leadership, or at once without leader election; then callbacks, signals,
-- probes and the steps of the informers come in any order, until the process exits. An access to the health
-- state and the calls on the metrics that follow it are one step here; Health/Overlap.antt takes them apart.
pub mod Apart
pub mod Start
pub mod Shown
pub mod Standby
pub mod Lost
mod Examples
mod Served
mod ServedExamples
use argo_workflows_metrics.Base.{
  ◌≡◌, refl, Bool, true, false, not, String, Option, none, some, List, [], ◌∷◌, ◌++◌, value_or,
}
use argo_workflows_metrics.Metrics.{Write}
use argo_workflows_metrics.Health.{State}
use argo_workflows_metrics.Health.Reach.{live_probe, ready_probe}
use argo_workflows_metrics.Workflow.{Workflow, WorkflowCollector}
use argo_workflows_metrics.Pod.{Pod, PodCollector}
use argo_workflows_metrics.Shard.{Matcher}
use argo_workflows_metrics.Queue.{WorkQueue}
use argo_workflows_metrics.Informer.{Item, new_informer}
use argo_workflows_metrics.Informer.Workflows
use argo_workflows_metrics.Informer.Workflows.{workflow_source}
use argo_workflows_metrics.Informer.Pods
use argo_workflows_metrics.Informer.Pods.{pod_source, new_pod_informer}
use argo_workflows_metrics.Informer.Interleaving
use argo_workflows_metrics.Informer.Interleaving.{System}
use argo_workflows_metrics.Exporter.{
  Flags, Built, Process, Happening, started_leading, stopped_leading, controllers_failed,
  interrupted, drained, calls, begin, happen,
}

-- A matcher that panics ends the process; that is not followed here.
abbrev pub namespace_matcher : Matcher → String → Bool
namespace_matcher m namespace = value_or false (m.accepts namespace)

-- `started` tells whether the controllers have been started.
pub record World (Qw : WorkQueue (Item Workflow)) (Qp : WorkQueue (Item Pod)) : Type 0 where
  pub process : Process
  pub workflows : System WorkflowCollector Qw
  pub pods : System PodCollector Qp
  pub started : Bool

-- The callbacks, the signals and the probes; the other calls on the health state are the informers'.
abbrev pub IsOutside : Happening → Type 0
IsOutside (calls (live_probe now)) = Unit
IsOutside (calls (ready_probe now)) = Unit
IsOutside (calls call) = ⊥
IsOutside _ = Unit

abbrev pub starts : Happening → Bool → Bool
starts started_leading started = true
starts _ started = started

-- The pointer to the health state that an informer holds.
abbrev pub lend : {A C : Type 0} {Q : WorkQueue (Item A)} → State → System C Q → System C Q
lend s system = record system { informer = record system.informer { health_state = some s } }

abbrev pub reclaim : {A C : Type 0} {Q : WorkQueue (Item A)} → State → System C Q → State
reclaim s system = value_or s system.informer.health_state

module _ (Qw : WorkQueue (Item Workflow)) (Qp : WorkQueue (Item Pod)) where
  -- The two informers and the start of the controllers, on two new queues.
  unfoldable pub wire : Flags → Built → Qw.Queue → Qp.Queue → World Qw Qp × List Write
  wire flags b qw qp =
      let matcher = some (namespace_matcher b.matcher) in
      let (wi, ws) =
        new_informer workflow_source Qw b.wf_collector (some b.health_state) qw flags.worker_count
          flags.reconcile_dur matcher in
      let (pi, vs) =
        new_pod_informer Qp b.pod_collector (some b.health_state) qp flags.worker_count
          flags.reconcile_dur matcher in
      let (process, us) = begin b flags.leader_elect in
      (
        record {
          process = process;
          workflows = record { informer = wi; held = []; listed = none };
          pods = record { informer = pi; held = []; listed = none };
          started = not flags.leader_elect;
        },
        b.writes ++ (ws ++ (vs ++ us)),
      )

  pub data Step (w : World Qw Qp) : World Qw Qp → List Write → Type 0 where
    happens :
        (h : Happening)
        → IsOutside h
        → w.process.exited ≡ false
        → Step w
            (record w { process = (happen h w.process).0; started = starts h w.started })
            (happen h w.process).1
    workflows :
        (t : System WorkflowCollector Qw) (ws : List Write)
        → w.process.exited ≡ false
        → w.started ≡ true
        → Interleaving.Step workflow_source Qw
            (Workflows.run_full_reconcile Qw false)
            (lend w.process.health w.workflows)
            t
            ws
        → Step w
            (record w {
              workflows = t;
              process = record w.process { health = reclaim w.process.health t };
            })
            ws
    pods :
        (t : System PodCollector Qp) (ws : List Write)
        → w.process.exited ≡ false
        → w.started ≡ true
        → Interleaving.Step pod_source Qp
            (Pods.run_full_reconcile Qp false)
            (lend w.process.health w.pods)
            t
            ws
        → Step w
            (record w {
              pods = t;
              process = record w.process { health = reclaim w.process.health t };
            })
            ws

  pub data Reach (w : World Qw Qp) : World Qw Qp → List Write → Type 0 where
    here : Reach w w []
    next :
        {v u : World Qw Qp} {ws vs : List Write} → Reach w v ws → Step v u vs → Reach w u (ws ++ vs)
