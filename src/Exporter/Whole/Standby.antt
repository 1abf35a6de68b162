-- ===== src/Exporter/Whole/Standby.antt =====
-- A replica with leader election that has not been elected yet.
use argo_workflows_metrics.Base.{
  ◌≡◌, subst, ◌∙◌, ◌||◌, Bool, true, false, none, List, ◌++◌, All-append, arith,
}
use argo_workflows_metrics.Base.Time.{Time}
use argo_workflows_metrics.Metrics.{Metric, Series, Write}
use argo_workflows_metrics.Metrics.Registry.{Registry, IsLawful, run}
use argo_workflows_metrics.Metrics.Trace.{value-run}
use argo_workflows_metrics.Metrics.Owners.{
  is_own, is_health, is_workflow, is_container, On, Off, On-Off, On-On, after-Off,
}
use argo_workflows_metrics.Workflow.{Workflow}
use argo_workflows_metrics.Workflow.Collector.History.{IsBlank}
use argo_workflows_metrics.Pod.{Pod}
use argo_workflows_metrics.Health.{State, is_ready, mark_leader, mark_shutting_down, new_state}
use argo_workflows_metrics.Health.Reach.{live_probe, ready_probe, step}
use argo_workflows_metrics.Queue.{WorkQueue}
use argo_workflows_metrics.Informer.{Item}
use argo_workflows_metrics.Shard.{Matcher}
use argo_workflows_metrics.Exporter.{
  Flags, build, begin, Process, Happening, started_leading, stopped_leading, controllers_failed,
  interrupted, drained, calls, happen,
}
use argo_workflows_metrics.Exporter.Whole.{
  World, IsOutside, Step, happens, workflows, pods, Reach, here, next, starts, wire,
}
use argo_workflows_metrics.Exporter.Whole.Apart.{happen-On}
use argo_workflows_metrics.Informer.Effects.{health-own}
use argo_workflows_metrics.Exporter.Whole.Start.{first, first_writes, first-On}

own-others : (m : Metric) → is_own m ≡ true → (is_workflow m || is_container m) ≡ false
own-others m e = ground arith

-- Elections are on, and it neither leads nor has an informer that synced.
record Waits (s : State) : Type 0 where
  elects : s.leader_elect ≡ true
  follows : s.is_leader ≡ false
  unsynced : s.workflow_synced ≡ false
  pods_unsynced : s.pod_synced ≡ false

happen-Waits :
    (h : Happening) (p : Process)
    → IsOutside h
    → starts h false ≡ false
    → Waits p.health
    → Waits (happen h p).0.health
unfolding happen mark_leader mark_shutting_down step
happen-Waits started_leading p o n w = absurd cc
happen-Waits stopped_leading p o n w = ground arith
happen-Waits controllers_failed p o n w = w
happen-Waits interrupted p o n w = ground arith
happen-Waits drained p o n w = w
happen-Waits (calls (live_probe now)) p o n w = w
happen-Waits (calls (ready_probe now)) p o n w = w
happen-Waits (calls call) p o n w = elim o [ ]

begin-Waits :
    (flags : Flags) (now : Time) (m : Matcher)
    → flags.leader_elect ≡ true
    → Waits (begin (build flags now m) flags.leader_elect).0.health
unfolding begin build new_state
begin-Waits flags now m e = ground arith

Waits-unready : (s : State) (now : Time) → Waits s → (is_ready now s).ok ≡ false
unfolding is_ready
Waits-unready s now w = ground arith

started_before : (h : Happening) (b : Bool) → starts h b ≡ false → b ≡ false
started_before h b e = ground arith

module _ (Qw : WorkQueue (Item Workflow)) (Qp : WorkQueue (Item Pod)) where
  -- Until the controllers are started, all calls are on the exporter's own metrics.
  record Standing (v : World Qw Qp) (ws : List Write) : Type 0 where
    waits : Waits v.process.health
    own : On is_own ws

  Step-Standing :
      (v u : World Qw Qp) (ws vs : List Write)
      → u.started ≡ false
      → Step Qw Qp v u vs
      → (v.started ≡ false → Standing v ws)
      → Standing u (ws ++ vs)
  Step-Standing v u ws vs n (happens h o x) s =
      let e = started_before h v.started n in
      record {
        waits = happen-Waits h v.process o (subst (λ b. starts h b ≡ false) e n) (s e).waits;
        own =
            All-append _ ws vs (s e).own
              (On-On is_health is_own vs health-own (happen-On h v.process));
      }
  Step-Standing v u ws vs n (workflows t us x l st) s = absurd (cc (n, l))
  Step-Standing v u ws vs n (pods t us x l st) s = absurd (cc (n, l))

  Reach-Standing :
      (w v : World Qw Qp) (ws : List Write)
      → Waits w.process.health
      → Reach Qw Qp w v ws
      → v.started ≡ false
      → Standing v ws
  Reach-Standing w v ws i here n = record { waits = i; own = tt }
  Reach-Standing w u us i (next {v} {ws = ws} {vs = vs} r st) n =
      Step-Standing v u ws vs n st (Reach-Standing w v ws i r)

  module _ (R : Registry) (L : IsLawful R) (r : R.State) (blank : IsBlank (R.value r))
      (flags : Flags) (now : Time) (m : Matcher) (qw : Qw.Queue) (qp : Qp.Queue) (v : World Qw Qp)
      (ws : List Write) (reach : Reach Qw Qp (first Qw Qp flags now m qw qp) v ws) where
    first-Waits : flags.leader_elect ≡ true → Waits (first Qw Qp flags now m qw qp).process.health
    unfolding wire
    first-Waits e = begin-Waits flags now m e

    unseen :
        (P : Metric → Bool) (x : Series) (us : List Write)
        → P x.metric ≡ true
        → Off P us
        → R.value (run R us r) x ≡ none
    unseen P x us p o = value-run R L us r x ∙ after-Off P x (R.value r x) us p o ∙ blank x

    -- A replica with leader election on which the controllers have not been started, whatever
    -- signals, probes and other callbacks came since its start and in whatever order, exposes no
    -- series of a workflow or of a container on a lawful registry that showed nothing at first, and
    -- its readiness probe answers not ok at any time.
    pub standby :
        flags.leader_elect ≡ true
        → v.started ≡ false
        → ((x : Series)
            → (is_workflow x.metric || is_container x.metric) ≡ true
            → R.value (run R (first_writes Qw Qp flags now m qw qp ++ ws) r) x ≡ none)
          × ((later : Time) → (is_ready later v.process.health).ok ≡ false)
    standby e n =
        let s = Reach-Standing (first Qw Qp flags now m qw qp) v ws (first-Waits e) reach n in
        let us = first_writes Qw Qp flags now m qw qp ++ ws in
        let own =
          All-append _ (first_writes Qw Qp flags now m qw qp) ws (first-On Qw Qp flags now m qw qp)
            s.own in
        (
          λ x p.
              unseen (λ k. is_workflow k || is_container k) x us p
                (On-Off is_own _ us own-others own),
          λ later. Waits-unready v.process.health later s.waits,
        )
