-- ===== src/Exporter/Whole/Apart.antt =====
-- The whole process as three histories, of the collector of workflows, of the collector of pods and of
-- the health state, each on metrics of its own.
use mathlib.Core.List.{append-nil}
use argo_workflows_metrics.Base.{
  ◌≡◌, subst, true, false, ◌||◌, List, [], ◌∷◌, ◌++◌, arith, All, All-append,
}
use argo_workflows_metrics.Metrics.{Metric, Write, IsLegal}
use argo_workflows_metrics.Metrics.Owners.{
  is_workflow, is_container, is_health, is_own, On, Off, On-Off,
}
use argo_workflows_metrics.Metrics.Histories.{Serial, calls-Serial, still-Serial, Serial-trans}
use argo_workflows_metrics.Workflow.{Workflow}
use argo_workflows_metrics.Workflow.Collector.History
use argo_workflows_metrics.Workflow.Collector.Runs
use argo_workflows_metrics.Pod.{Pod}
use argo_workflows_metrics.Pod.History as PodHistory
use argo_workflows_metrics.Health.{State}
use argo_workflows_metrics.Health.Reach
use argo_workflows_metrics.Health.Runs as HealthRuns
use argo_workflows_metrics.Queue.{WorkQueue}
use argo_workflows_metrics.Informer.{Item}
use argo_workflows_metrics.Informer.Workflows
use argo_workflows_metrics.Informer.Workflows.{workflow_source}
use argo_workflows_metrics.Informer.Pods
use argo_workflows_metrics.Informer.Pods.{pod_source}
use argo_workflows_metrics.Informer.Effects.{Effects}
use argo_workflows_metrics.Informer.Explained.{
  workflow_history, pod_history, workflows-reconcile, pods-reconcile,
}
use argo_workflows_metrics.Informer.Interleaving
use argo_workflows_metrics.Exporter.{
  Process, Stage, serving, draining, cancelled, Happening, started_leading, stopped_leading,
  controllers_failed, interrupted, drained, calls, happen, interrupt,
}
use argo_workflows_metrics.Exporter.Whole.{
  World, Step, happens, workflows, pods, Reach, here, next, lend,
}

workflow-others :
    (m : Metric) → is_workflow m ≡ true → (is_container m ≡ false) × (is_health m ≡ false)
workflow-others m e = ground arith

container-others :
    (m : Metric) → is_container m ≡ true → (is_workflow m ≡ false) × (is_health m ≡ false)
container-others m e = ground arith

health-others :
    (m : Metric) → is_health m ≡ true → (is_workflow m ≡ false) × (is_container m ≡ false)
health-others m e = ground arith

pub own-others : (m : Metric) → is_own m ≡ true → (is_workflow m ≡ false) × (is_container m ≡ false)
own-others m e = ground arith

within-containerless : (m : Metric) → (is_own m || is_workflow m) ≡ true → is_container m ≡ false
within-containerless m e = ground arith

within-workflowless : (m : Metric) → (is_own m || is_container m) ≡ true → is_workflow m ≡ false
within-workflowless m e = ground arith

-- The health state under what happens to the process.
abbrev HealthSerial : State → State → List Write → Type 0
HealthSerial = Serial Reach.run_calls is_health

one-Serial :
    (s : State) (call : Reach.Call) → HealthSerial s (Reach.step s call).0 (Reach.step s call).1
one-Serial s call = rw (HealthRuns.run_calls-one s call) (
    subst (HealthSerial s (Reach.run_calls s (call ∷ [])).0)
      (append-nil (Reach.run_calls s (call ∷ [])).1)
      (calls-Serial Reach.run_calls is_health HealthRuns.calls-IsRun s (call ∷ []) [] [] tt tt))

none-Serial : (s : State) → HealthSerial s s []
none-Serial s = still-Serial Reach.run_calls is_health HealthRuns.calls-IsRun s [] tt

interrupt-Serial :
    (g : Stage) (p : Process) → HealthSerial p.health (interrupt g p).0.health (interrupt g p).1
unfolding Reach.step
interrupt-Serial serving p = one-Serial p.health Reach.shuts_down
interrupt-Serial draining p = none-Serial p.health
interrupt-Serial cancelled p = none-Serial p.health

happen-Serial :
    (h : Happening) (p : Process) → HealthSerial p.health (happen h p).0.health (happen h p).1
unfolding happen Reach.step
happen-Serial started_leading p = one-Serial p.health (Reach.leads true)
happen-Serial stopped_leading p = one-Serial p.health (Reach.leads false)
happen-Serial controllers_failed p = none-Serial p.health
happen-Serial interrupted p = interrupt-Serial p.stage p
happen-Serial drained p = none-Serial p.health
happen-Serial (calls call) p = one-Serial p.health call

interrupt-On : (g : Stage) (p : Process) → On is_health (interrupt g p).1
unfolding Reach.step
interrupt-On serving p = HealthRuns.step-On p.health Reach.shuts_down
interrupt-On draining p = tt
interrupt-On cancelled p = tt

pub happen-On : (h : Happening) (p : Process) → On is_health (happen h p).1
unfolding happen Reach.step
happen-On started_leading p = HealthRuns.step-On p.health (Reach.leads true)
happen-On stopped_leading p = HealthRuns.step-On p.health (Reach.leads false)
happen-On controllers_failed p = tt
happen-On interrupted p = interrupt-On p.stage p
happen-On drained p = tt
happen-On (calls call) p = HealthRuns.step-On p.health call

interrupt-IsLegal : (g : Stage) (p : Process) → All IsLegal (interrupt g p).1
unfolding Reach.step
interrupt-IsLegal serving p = HealthRuns.step-IsLegal p.health Reach.shuts_down
interrupt-IsLegal draining p = tt
interrupt-IsLegal cancelled p = tt

happen-IsLegal : (h : Happening) (p : Process) → All IsLegal (happen h p).1
unfolding happen Reach.step
happen-IsLegal started_leading p = HealthRuns.step-IsLegal p.health (Reach.leads true)
happen-IsLegal stopped_leading p = HealthRuns.step-IsLegal p.health (Reach.leads false)
happen-IsLegal controllers_failed p = tt
happen-IsLegal interrupted p = interrupt-IsLegal p.stage p
happen-IsLegal drained p = tt
happen-IsLegal (calls call) p = HealthRuns.step-IsLegal p.health call

module _ (Qw : WorkQueue (Item Workflow)) (Qp : WorkQueue (Item Pod)) where
  -- From one state of the process to another by three histories.
  pub record Histories (w v : World Qw Qp) (ws : List Write) : Type 0 where
    pub workflows :
        Serial History.run_calls is_workflow w.workflows.informer.collector
          v.workflows.informer.collector ws
    pub pods :
        Serial PodHistory.run_calls is_container w.pods.informer.collector v.pods.informer.collector
          ws
    pub health : HealthSerial w.process.health v.process.health ws
    pub legal : All IsLegal ws

  workflows-still :
      (w : World Qw Qp) (ws : List Write)
      → Off is_workflow ws
      → Serial History.run_calls is_workflow w.workflows.informer.collector
          w.workflows.informer.collector ws
  workflows-still w ws =
      still-Serial History.run_calls is_workflow Runs.run_calls-IsRun w.workflows.informer.collector
        ws

  pods-still :
      (w : World Qw Qp) (ws : List Write)
      → Off is_container ws
      → Serial PodHistory.run_calls is_container w.pods.informer.collector w.pods.informer.collector
          ws
  pods-still w ws =
      still-Serial PodHistory.run_calls is_container PodHistory.run_calls-IsRun
        w.pods.informer.collector ws

  Histories-trans :
      (w v u : World Qw Qp) (ws vs : List Write)
      → Histories w v ws
      → Histories v u vs
      → Histories w u (ws ++ vs)
  Histories-trans w v u ws vs a b = record {
    workflows =
        Serial-trans History.run_calls is_workflow Runs.run_calls-IsRun _ _ _ ws vs a.workflows
          b.workflows;
    pods =
        Serial-trans PodHistory.run_calls is_container PodHistory.run_calls-IsRun _ _ _ ws vs a.pods
          b.pods;
    health =
        Serial-trans Reach.run_calls is_health HealthRuns.calls-IsRun _ _ _ ws vs a.health b.health;
    legal = All-append _ ws vs a.legal b.legal;
  }

  pub Step-Histories : (w v : World Qw Qp) (ws : List Write) → Step Qw Qp w v ws → Histories w v ws
  Step-Histories w v ws (happens h o x) =
      let on = happen-On h w.process in
      record {
        workflows =
            workflows-still w ws
              (On-Off is_health is_workflow ws (λ m e. (health-others m e).0) on);
        pods = pods-still w ws (On-Off is_health is_container ws (λ m e. (health-others m e).1) on);
        health = happen-Serial h w.process;
        legal = happen-IsLegal h w.process;
      }
  Step-Histories w v ws (workflows t vs x l st) =
      let e : Effects workflow_source workflow_history _ _ _ _ _ =
        Interleaving.Step-Effects workflow_source Qw (Workflows.run_full_reconcile Qw false)
          workflow_history (workflows-reconcile Qw) (lend w.process.health w.workflows) t ws st in
      record {
        workflows = e.collected;
        pods = pods-still w ws (On-Off _ is_container ws within-containerless e.confined);
        health = HealthRuns.marked-Serial w.process.health t.informer.health_state ws e.marked;
        legal = e.legal;
      }
  Step-Histories w v ws (pods t vs x l st) =
      let e : Effects pod_source pod_history _ _ _ _ _ =
        Interleaving.Step-Effects pod_source Qp (Pods.run_full_reconcile Qp false) pod_history
          (pods-reconcile Qp) (lend w.process.health w.pods) t ws st in
      record {
        workflows = workflows-still w ws (On-Off _ is_workflow ws within-workflowless e.confined);
        pods = e.collected;
        health = HealthRuns.marked-Serial w.process.health t.informer.health_state ws e.marked;
        legal = e.legal;
      }

  pub Reach-Histories :
      (w v : World Qw Qp) (ws : List Write) → Reach Qw Qp w v ws → Histories w v ws
  Reach-Histories w v ws here = record {
    workflows = workflows-still w [] tt;
    pods = pods-still w [] tt;
    health = none-Serial w.process.health;
    legal = tt;
  }
  Reach-Histories w u us (next {v} {ws = ws} {vs = vs} r st) =
      Histories-trans w v u ws vs (Reach-Histories w v ws r) (Step-Histories v u vs st)
