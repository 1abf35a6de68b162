-- ===== src/Health/Tests.antt =====
-- Runs of the health state, and instances of its theorems.
use argo_workflows_metrics.Base.{
  ◌+◌, ◌-◌, ◌≤◌, ◌<◌, ◌≡◌, refl, ◌↔◌, ◌⊎◌, true, false, List, [], ◌∷◌, ◌++◌, arith, nat_eq,
}
use argo_workflows_metrics.Base.Int.{pos}
use argo_workflows_metrics.Base.Time.{sub}
use argo_workflows_metrics.Metrics.Registry.{run}
use argo_workflows_metrics.Metrics.Memory.{memory, memory-IsLawful, blank}
use argo_workflows_metrics.Health.{
  State, new_state, mark_shutting_down, is_live, is_ready, is_fresh, not_leader, stale, max_time,
  plain,
}
use argo_workflows_metrics.Health.Readiness.{Serves, IsRecent, ready_iff, ready_by_age}
use argo_workflows_metrics.Health.Reach.{
  Call, leads, workflows_synced, pods_synced, pod_event, ready_probe, run_calls, Keeps,
  run_calls-Keeps, down_forever,
}
use argo_workflows_metrics.Health.Mirror.{Mirrors, mirrored, bit, ready-writes}
use argo_workflows_metrics.Metrics.{set, exporter_readiness}

-- 50 ns of grace, 30 ns of threshold, started at time 100.
abbrev serving : State
serving = record {
  started_at = 100;
  startup_grace = pos 50;
  stale_threshold = pos 30;
  workflow_synced = true;
  pod_synced = true;
  last_workflow_evt = 180;
  last_pod_evt = 200;
  leader_elect = true;
  is_leader = true;
  shutting_down = false;
}

follows : (is_ready 220 (record serving { is_leader = false })).reason ≡ not_leader
unfolding is_ready
follows = refl

too_old : (is_ready 231 serving).reason ≡ stale (pos 31)
unfolding is_ready is_fresh max_time sub nat_eq
too_old = refl

just_ready : (is_ready 230 serving).ok ≡ true
unfolding is_ready is_fresh max_time sub nat_eq
just_ready = refl

serving-Serves : Serves serving
serving-Serves = record { up = refl; leads = λ e. refl; workflows = refl; pods = refl }

ready_by_age_example :
    ((231 ≤ 200 + 30) × ((is_ready 231 serving).ok ≡ true))
    ⊎ ((200 + 30 < 231)
        × ((is_ready 231 serving).ok ≡ false)
        × ((is_ready 231 serving).reason ≡ stale (pos (231 - 200))))
unfolding max_time sub
ready_by_age_example =
    ready_by_age 231 serving 30 serving-Serves refl (omega arith) (omega arith) (omega arith)
      (omega arith) (omega arith)

ready_iff_example : ((is_ready 231 serving).ok ≡ true) ↔ (Serves serving × IsRecent 231 serving)
ready_iff_example = ready_iff 231 serving

abbrev some_calls : List Call
some_calls =
    workflows_synced ∷ leads true ∷ pod_event 210 ∷ pods_synced ∷ ready_probe 220 ∷ leads false ∷ []

run_calls-Keeps_holds : Keeps serving (run_calls serving some_calls).0
run_calls-Keeps_holds = run_calls-Keeps serving some_calls

down_forever_holds :
    ((is_live 300 (run_calls (mark_shutting_down serving).0 some_calls).0).ok ≡ false)
    × ((is_ready 300 (run_calls (mark_shutting_down serving).0 some_calls).0).ok ≡ false)
down_forever_holds = down_forever serving some_calls 300

mirrored_example :
    let (s, ws) = new_state 100 (pos 50) (pos 30) true in
    let (t, vs) = run_calls s some_calls in Mirrors t (memory.value (run memory (ws ++ vs) blank))
mirrored_example =
    mirrored memory memory-IsLawful blank 100 (pos 50) (pos 30) true some_calls
      (tt, (tt, (omega arith, (tt, (tt, (tt, tt))))))

ready-writes_holds :
    (is_ready 231 serving).writes
    ≡ set (plain exporter_readiness) (bit (is_ready 231 serving).ok) ∷ []
ready-writes_holds = ready-writes 231 serving
