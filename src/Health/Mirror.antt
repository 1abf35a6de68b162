-- ===== src/Health/Mirror.antt =====
-- The gauges of the health state: they mirror it, whatever calls come.
use text.Mathlib.TextEquality.{eq_iff}
use mathlib.Core.Path.{fun_ext}
use argo_workflows_metrics.Base.{
  ◌<◌, ◌≡◌, sym, subst, ◌∙◌, ◌≢◌, Bool, true, false, String, Option, some, List, [], ◌∷◌, ◌++◌, All,
  arith, nat_eq, if◌then◌else◌,
}
use argo_workflows_metrics.Base.Time.{Time, Duration, is_zero, unix}
use argo_workflows_metrics.Metrics.{
  Series, Sample, Write, set, whole, whole_ℤ, exporter_shutting_down, exporter_is_leader,
  exporter_liveness, exporter_readiness, series_eq,
}
use argo_workflows_metrics.Metrics.Registry.{Registry, IsLawful, run}
use argo_workflows_metrics.Metrics.Trace.{after, after-append, value-run}
use argo_workflows_metrics.Health.{
  State, new_state, is_live, is_ready, is_fresh, informer_synced, last_event, plain,
}
use argo_workflows_metrics.Health.Reach.{
  Call, leads, workflows_synced, pods_synced, shuts_down, workflow_event, pod_event, live_probe,
  ready_probe, step, run_calls,
}

-- The gauges agree with the state.
abbrev pub bit : Bool → Sample
bit b = if b then whole 1 else whole 0

abbrev pub stamp : Time → Sample
stamp t = if is_zero t then whole 0 else whole_ℤ (unix t)

pub record Agrees (s : State) (v : Series → Option Sample) : Type 0 where
  pub workflows : v (informer_synced "workflow") ≡ some (bit s.workflow_synced)
  pub pods : v (informer_synced "pod") ≡ some (bit s.pod_synced)
  pub down : v (plain exporter_shutting_down) ≡ some (bit s.shutting_down)
  pub leader : v (plain exporter_is_leader) ≡ some (bit s.is_leader)

pub record Mirrors (s : State) (v : Series → Option Sample) : Type 0 where
  pub agrees : Agrees s v
  pub workflow_evt : v (last_event "workflow") ≡ some (stamp s.last_workflow_evt)
  pub pod_evt : v (last_event "pod") ≡ some (stamp s.last_pod_evt)

-- Each probe sets its gauge to its answer, on every branch, and makes no other call.
pub live-writes :
    (now : Time) (s : State)
    → (is_live now s).writes ≡ set (plain exporter_liveness) (bit (is_live now s).ok) ∷ []
unfolding is_live
live-writes now s = ground arith

fresh-writes :
    (now : Time) (s : State)
    → (is_fresh now s).writes ≡ set (plain exporter_readiness) (bit (is_fresh now s).ok) ∷ []
unfolding is_fresh
fresh-writes now s = ground arith

-- On every branch the readiness probe makes exactly one call, which sets the readiness gauge to 1
-- if it answers ok and to 0 if not.
pub ready-writes :
    (now : Time) (s : State)
    → (is_ready now s).writes ≡ set (plain exporter_readiness) (bit (is_ready now s).ok) ∷ []
unfolding is_ready
ready-writes now s = ground (arith, fresh-writes now s)

pub workflow_ne_pod : ◌≢◌ {A = String} "workflow" "pod"
workflow_ne_pod = ground (arith, eq_iff "workflow" "pod")

-- The clock never shows the zero Time.
abbrev pub IsTimely : Call → Type 0
IsTimely (workflow_event now) = 0 < now
IsTimely (pod_event now) = 0 < now
IsTimely _ = Unit

abbrev pub apply : List Write → (Series → Option Sample) → Series → Option Sample
apply ws v x = after x (v x) ws

new_state-Mirrors :
    (now : Time) (grace threshold : Duration) (elect : Bool) (v : Series → Option Sample)
    → Mirrors
        (new_state now grace threshold elect).0
        (apply (new_state now grace threshold elect).1 v)
unfolding new_state
new_state-Mirrors now grace threshold elect v = ground (arith, workflow_ne_pod)

step-Agrees :
    (s : State) (call : Call) (v : Series → Option Sample)
    → Agrees s v
    → Agrees (step s call).0 (apply (step s call).1 v)
unfolding step
step-Agrees s (leads true) v m = ground arith
step-Agrees s (leads false) v m = ground arith
step-Agrees s (live_probe now) v m = rw (live-writes now s) (ground arith)
step-Agrees s (ready_probe now) v m = rw (ready-writes now s) (ground arith)
step-Agrees s workflows_synced v m = ground (arith, workflow_ne_pod)
step-Agrees s pods_synced v m = ground (arith, workflow_ne_pod)
step-Agrees s shuts_down v m = ground (arith, workflow_ne_pod)
step-Agrees s (workflow_event now) v m = ground (arith, workflow_ne_pod)
step-Agrees s (pod_event now) v m = ground (arith, workflow_ne_pod)

step-stamped :
    (s : State) (call : Call) (v : Series → Option Sample)
    → IsTimely call
    → Mirrors s v
    → (apply (step s call).1 v (last_event "workflow")
        ≡ some (stamp (step s call).0.last_workflow_evt))
      × (apply (step s call).1 v (last_event "pod") ≡ some (stamp (step s call).0.last_pod_evt))
unfolding step
step-stamped s (leads true) v t m = ground arith
step-stamped s (leads false) v t m = ground arith
step-stamped s workflows_synced v t m = ground (arith, workflow_ne_pod)
step-stamped s pods_synced v t m = ground (arith, workflow_ne_pod)
step-stamped s shuts_down v t m = ground (arith, workflow_ne_pod)
step-stamped s (workflow_event now) v t m = ground (arith, workflow_ne_pod)
step-stamped s (pod_event now) v t m = ground (arith, workflow_ne_pod)
step-stamped s (live_probe now) v t m = rw (live-writes now s) (ground arith)
step-stamped s (ready_probe now) v t m = rw (ready-writes now s) (ground arith)

step-Mirrors :
    (s : State) (call : Call) (v : Series → Option Sample)
    → IsTimely call
    → Mirrors s v
    → Mirrors (step s call).0 (apply (step s call).1 v)
step-Mirrors s call v t m =
    let (w, p) = step-stamped s call v t m in
    record { agrees = step-Agrees s call v m.agrees; workflow_evt = w; pod_evt = p }

-- What each call keeps, if it is as it should be, a history of such calls keeps.
run_calls_inv :
    (P : State → (Series → Option Sample) → Type 0) (ok : Call → Type 0)
    → ((s : State) (call : Call) (v : Series → Option Sample)
        → ok call
        → P s v
        → P (step s call).0 (apply (step s call).1 v))
    → (s : State) (calls : List Call) (v : Series → Option Sample) → All ok calls
    → P s v
    → P (run_calls s calls).0 (apply (run_calls s calls).1 v)
unfolding run_calls
run_calls_inv P ok keep s [] v t m = m
run_calls_inv P ok keep s (call ∷ calls) v t m =
    let ws = (step s call).1 in
    subst (P (run_calls (step s call).0 calls).0)
      (fun_ext λ x. sym (after-append x (v x) ws (run_calls (step s call).0 calls).1))
      (run_calls_inv P ok keep (step s call).0 calls (apply ws v) t.1 (keep s call v t.0 m))

-- After any calls on the health state from its creation, probes included, on a lawful registry, the
-- gauges of the two informers' synchronisation and last event, of the shutdown and of the
-- leadership agree with the state, if no event is marked at the zero Time.
pub mirrored :
    (R : Registry) (L : IsLawful R) (r : R.State) (now : Time) (grace threshold : Duration)
    (elect : Bool) (calls : List Call)
    → All IsTimely calls
    → let (s, ws) = new_state now grace threshold elect in
      let (t, vs) = run_calls s calls in Mirrors t (R.value (run R (ws ++ vs) r))
mirrored R L r now grace threshold elect calls t =
    let (s, ws) = new_state now grace threshold elect in
    let vs = (run_calls s calls).1 in
    subst (Mirrors (run_calls s calls).0)
      (fun_ext λ x. sym (value-run R L (ws ++ vs) r x ∙ after-append x (R.value r x) ws vs))
      (run_calls_inv Mirrors IsTimely step-Mirrors s calls (apply ws (R.value r)) t
        (new_state-Mirrors now grace threshold elect (R.value r)))
