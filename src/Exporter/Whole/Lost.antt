-- ===== src/Exporter/Whole/Lost.antt =====
-- The whole process after it has lost its lease.
use argo_workflows_metrics.Base.{◌≡◌, ap, ◌∙◌, ◌⊎◌, inl, inr, true, false, List, arith}
use argo_workflows_metrics.Base.Time.{Time}
use argo_workflows_metrics.Metrics.{Write}
use argo_workflows_metrics.Metrics.Owners.{is_health}
use argo_workflows_metrics.Metrics.Histories.{Serial}
use argo_workflows_metrics.Workflow.{Workflow}
use argo_workflows_metrics.Pod.{Pod}
use argo_workflows_metrics.Health.{State, is_live, is_ready}
use argo_workflows_metrics.Health.Reach.{run_calls, run_calls-Keeps}
use argo_workflows_metrics.Queue.{WorkQueue}
use argo_workflows_metrics.Informer.{Item}
use argo_workflows_metrics.Shard.{Matcher}
use argo_workflows_metrics.Exporter.{Flags, Process, build}
use argo_workflows_metrics.Exporter.Lifecycle.{Tracked, begin-Tracked, happen-Tracked}
use argo_workflows_metrics.Exporter.Whole.{
  World, Step, happens, workflows, pods, Reach, here, next, wire,
}
use argo_workflows_metrics.Exporter.Whole.Apart.{Step-Histories}
use argo_workflows_metrics.Exporter.Whole.Start.{first}

-- A history of the health state alone keeps it.
history-Tracked :
    (p : Process) (s : State) (ws : List Write)
    → Serial run_calls is_health p.health s ws
    → Tracked p
    → Tracked (record p { health = s })
history-Tracked p s ws ser t =
    let down : p.health.shutting_down ≡ true → s.shutting_down ≡ true = λ e.
      ap (λ (u : State). u.shutting_down) ser.collected
      ∙ (run_calls-Keeps p.health ser.calls).down e in
    ground (arith, down, t.marked, t.losing)

module _ (Qw : WorkQueue (Item Workflow)) (Qp : WorkQueue (Item Pod)) where
  Step-Tracked :
      (w v : World Qw Qp) (ws : List Write)
      → Step Qw Qp w v ws
      → Tracked w.process
      → Tracked v.process
  Step-Tracked w v ws (happens h o x) t = happen-Tracked h w.process x t
  Step-Tracked w v ws (workflows u vs x l st) t =
      history-Tracked w.process v.process.health ws
        (Step-Histories Qw Qp w v ws (workflows u vs x l st)).health t
  Step-Tracked w v ws (pods u vs x l st) t =
      history-Tracked w.process v.process.health ws
        (Step-Histories Qw Qp w v ws (pods u vs x l st)).health t

  Reach-Tracked :
      (w v : World Qw Qp) (ws : List Write)
      → Reach Qw Qp w v ws
      → Tracked w.process
      → Tracked v.process
  Reach-Tracked w v ws here t = t
  Reach-Tracked w u us (next {v} {ws = ws} {vs = vs} r st) t =
      Step-Tracked v u vs st (Reach-Tracked w v ws r t)

  -- In the whole process, from a start that was not refused, whatever callbacks, signals and probes
  -- come and however the steps of its two informers interleave with them, a process that has lost
  -- its lease has exited, or both its probes answer not ok at any time.
  pub whole-lost :
      (flags : Flags) (now : Time) (m : Matcher) (qw : Qw.Queue) (qp : Qp.Queue) (v : World Qw Qp)
      (ws : List Write)
      → Reach Qw Qp (first Qw Qp flags now m qw qp) v ws
      → v.process.lost ≡ true
      → (later : Time)
      → (v.process.exited ≡ true)
        ⊎ (((is_ready later v.process.health).ok ≡ false)
            × ((is_live later v.process.health).ok ≡ false))
  unfolding wire is_ready is_live
  whole-lost flags now m qw qp v ws r e later =
      let b = build flags now m in
      let t =
        Reach-Tracked (first Qw Qp flags now m qw qp) v ws r (begin-Tracked b flags.leader_elect) in
      elim (t.losing e) [ inl x ↦ inl x | inr d ↦ inr (ground arith) ]
