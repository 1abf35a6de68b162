-- ===== src/Health/Runs.antt =====
-- Histories of a health state that may be missing, as runs, and the metrics that they write.
use mathlib.Core.List.{append-nil}
use argo_workflows_metrics.Base.{
  ◌≡◌, refl, sym, ap, value_or, Option, none, some, List, [], ◌∷◌, ◌++◌, All, All-append, arith,
}
use argo_workflows_metrics.Metrics.{Write, IsLegal, labels, kind}
use argo_workflows_metrics.Metrics.Owners.{On, is_health}
use argo_workflows_metrics.Metrics.Histories.{IsRun, loop-IsRun, Serial}
use argo_workflows_metrics.Health.{State, mark_leader}
use argo_workflows_metrics.Health.Reach.{
  Call, leads, workflows_synced, pods_synced, shuts_down, workflow_event, pod_event, live_probe,
  ready_probe, step, run_calls,
}
use argo_workflows_metrics.Health.Mirror.{live-writes, ready-writes}

pub calls-IsRun : IsRun run_calls
unfolding run_calls
calls-IsRun = loop-IsRun run_calls step (λ s. refl) (λ s call calls. refl)

-- A nil pointer takes no calls.
abbrev pub run_marks : Option State → List Call → Option State × List Write
run_marks none calls = (none, [])
run_marks (some s) calls = let (s', ws) = run_calls s calls in (some s', ws)

run_marks-nil : (o : Option State) → run_marks o [] ≡ (o, [])
unfolding run_calls
run_marks-nil none = refl
run_marks-nil (some s) = refl

run_marks-append :
    (o : Option State) (calls later : List Call)
    → run_marks o (calls ++ later) ≡ (
      (run_marks (run_marks o calls).0 later).0,
      (run_marks o calls).1 ++ (run_marks (run_marks o calls).0 later).1,
    )
run_marks-append none calls later = refl
run_marks-append (some s) calls later =
    ap (λ (st : State × List Write). (some st.0, st.1)) (calls-IsRun.append s calls later)

pub run_marks-IsRun : IsRun run_marks
run_marks-IsRun = record { nil = run_marks-nil; append = run_marks-append }

pub step-On : (s : State) (call : Call) → On is_health (step s call).1
unfolding step mark_leader
step-On s (leads b) = ground arith
step-On s workflows_synced = ground arith
step-On s pods_synced = ground arith
step-On s shuts_down = ground arith
step-On s (workflow_event now) = ground arith
step-On s (pod_event now) = ground arith
step-On s (live_probe now) = rw (live-writes now s) (refl, tt)
step-On s (ready_probe now) = rw (ready-writes now s) (refl, tt)

pub run_calls-On : (s : State) (calls : List Call) → On is_health (run_calls s calls).1
unfolding run_calls
run_calls-On s [] = tt
run_calls-On s (call ∷ calls) =
    All-append _ (step s call).1 _ (step-On s call) (run_calls-On (step s call).0 calls)

-- All calls are on the metrics of the health state.
pub run_marks-On : (o : Option State) (calls : List Call) → On is_health (run_marks o calls).1
run_marks-On none calls = tt
run_marks-On (some s) calls = run_calls-On s calls

pub step-IsLegal : (s : State) (call : Call) → All IsLegal (step s call).1
unfolding step mark_leader labels kind
step-IsLegal s (leads b) = ground arith
step-IsLegal s workflows_synced = ground arith
step-IsLegal s pods_synced = ground arith
step-IsLegal s shuts_down = ground arith
step-IsLegal s (workflow_event now) = ground arith
step-IsLegal s (pod_event now) = ground arith
step-IsLegal s (live_probe now) = rw (live-writes now s) ((refl, refl), tt)
step-IsLegal s (ready_probe now) = rw (ready-writes now s) ((refl, refl), tt)

run_calls-IsLegal : (s : State) (calls : List Call) → All IsLegal (run_calls s calls).1
unfolding run_calls
run_calls-IsLegal s [] = tt
run_calls-IsLegal s (call ∷ calls) =
    All-append _ (step s call).1 _ (step-IsLegal s call) (run_calls-IsLegal (step s call).0 calls)

pub run_marks-IsLegal : (o : Option State) (calls : List Call) → All IsLegal (run_marks o calls).1
run_marks-IsLegal none calls = tt
run_marks-IsLegal (some s) calls = run_calls-IsLegal s calls

pub run_marks-one :
    (s : State) (call : Call)
    → run_marks (some s) (call ∷ []) ≡ (some (step s call).0, (step s call).1)
unfolding run_calls
run_marks-one s call = ap (λ ws. (some (step s call).0, ws)) (append-nil (step s call).1)

pub run_calls-one : (s : State) (call : Call) → step s call ≡ run_calls s (call ∷ [])
unfolding run_calls
run_calls-one s call = ap (λ ws. ((step s call).0, ws)) (sym (append-nil (step s call).1))

-- A history of a state that is there.
pub marked-Serial :
    (s : State) (o : Option State) (ws : List Write)
    → Serial run_marks is_health (some s) o ws
    → Serial run_calls is_health s (value_or s o) ws
marked-Serial s o ws ser = record {
  calls = ser.calls;
  collected = ap (value_or s) ser.collected;
  shows = ser.shows;
}
