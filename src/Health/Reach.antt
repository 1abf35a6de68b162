-- ===== src/Health/Reach.antt =====
-- Histories of the health state, and what its operations never undo.
use argo_workflows_metrics.Base.{
  ◌≡◌, refl, ◌∙◌, Bool, true, false, List, [], ◌∷◌, ◌++◌, arith, nat_eq,
}
use argo_workflows_metrics.Base.Time.{Time}
use argo_workflows_metrics.Metrics.{Write, series_eq}
use argo_workflows_metrics.Health.{
  State, mark_leader, mark_workflow_synced, mark_pod_synced, mark_workflow_event, mark_pod_event,
  mark_shutting_down, is_live, is_ready,
}

-- One call on the state, a probe included.
pub data Call : Type 0 where
  leads : Bool → Call
  workflows_synced pods_synced shuts_down : Call
  workflow_event pod_event live_probe ready_probe : Time → Call

unfoldable pub step : State → Call → State × List Write
unfolding mark_leader mark_workflow_synced mark_pod_synced mark_workflow_event mark_pod_event
    mark_shutting_down is_live is_ready
step s (leads elected) = mark_leader elected s
step s workflows_synced = mark_workflow_synced s
step s pods_synced = mark_pod_synced s
step s shuts_down = mark_shutting_down s
step s (workflow_event now) = mark_workflow_event now s
step s (pod_event now) = mark_pod_event now s
step s (live_probe now) = (s, (is_live now s).writes)
step s (ready_probe now) = (s, (is_ready now s).writes)

unfoldable pub run_calls : State → List Call → State × List Write
run_calls s [] = (s, [])
run_calls s (call ∷ calls) =
    let (s', ws) = step s call in let (s'', vs) = run_calls s' calls in (s'', ws ++ vs)

-- What no call takes back or changes.
pub record Keeps (s t : State) : Type 0 where
  pub down : s.shutting_down ≡ true → t.shutting_down ≡ true
  pub workflows : s.workflow_synced ≡ true → t.workflow_synced ≡ true
  pub pods : s.pod_synced ≡ true → t.pod_synced ≡ true
  pub started : t.started_at ≡ s.started_at
  pub grace : t.startup_grace ≡ s.startup_grace
  pub threshold : t.stale_threshold ≡ s.stale_threshold
  pub elects : t.leader_elect ≡ s.leader_elect

Keeps-trans : {s t u : State} → Keeps s t → Keeps t u → Keeps s u
Keeps-trans p q = record {
  down = λ h. q.down (p.down h);
  workflows = λ h. q.workflows (p.workflows h);
  pods = λ h. q.pods (p.pods h);
  started = q.started ∙ p.started;
  grace = q.grace ∙ p.grace;
  threshold = q.threshold ∙ p.threshold;
  elects = q.elects ∙ p.elects;
}

step-Keeps : (s : State) (call : Call) → Keeps s (step s call).0
unfolding step
step-Keeps s (leads b) = ground arith
step-Keeps s _ = ground arith

-- No sequence of calls, probes included, takes back a shutdown or a synchronisation, and none
-- changes the start time, the grace period, the threshold or whether leaders are elected.
pub run_calls-Keeps : (s : State) (calls : List Call) → Keeps s (run_calls s calls).0
unfolding run_calls
run_calls-Keeps s [] = ground arith
run_calls-Keeps s (call ∷ calls) =
    Keeps-trans (step-Keeps s call) (run_calls-Keeps (step s call).0 calls)

-- Once the shutdown is marked, both probes answer not ok at any time after any calls.
pub down_forever :
    (s : State) (calls : List Call) (now : Time)
    → let t = (run_calls (mark_shutting_down s).0 calls).0 in
      ((is_live now t).ok ≡ false) × ((is_ready now t).ok ≡ false)
unfolding is_live is_ready mark_shutting_down
down_forever s calls now =
    let d = (run_calls-Keeps (mark_shutting_down s).0 calls).down refl in ground arith
