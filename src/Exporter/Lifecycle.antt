-- ===== src/Exporter/Lifecycle.antt =====
-- A replica that has lost its lease.
use argo_workflows_metrics.Base.{
  ◌≡◌, refl, ◌⊎◌, inl, inr, Bool, true, false, List, [], ◌∷◌, arith, Bool-cases,
}
use argo_workflows_metrics.Base.Time.{Time}
use argo_workflows_metrics.Health.{State, is_live, is_ready, mark_leader, mark_shutting_down}
use argo_workflows_metrics.Health.Reach.{Call, step, run_calls, run_calls-Keeps}
use argo_workflows_metrics.Exporter.{
  Built, serving, Process, Happening, started_leading, stopped_leading, controllers_failed,
  interrupted, drained, calls, begin, happen, happenings,
}

-- A process that no longer serves is marked as shutting down, and one that has lost its lease and
-- has not exited no longer serves.
pub record Tracked (p : Process) : Type 0 where
  pub marked : (p.stage ≡ serving) ⊎ (p.health.shutting_down ≡ true)
  pub losing : p.lost ≡ true → (p.exited ≡ true) ⊎ (p.health.shutting_down ≡ true)

pub begin-Tracked : (b : Built) (elect : Bool) → Tracked (begin b elect).0
unfolding begin
begin-Tracked b true = record { marked = inl refl; losing = λ e. absurd (cc) }
begin-Tracked b false = record { marked = inl refl; losing = λ e. absurd (cc) }

step-shutting_down :
    (s : State) (call : Call) → s.shutting_down ≡ true → (step s call).0.shutting_down ≡ true
unfolding run_calls
step-shutting_down s call h = (run_calls-Keeps s (call ∷ [])).down h

pub happen-Tracked :
    (h : Happening) (p : Process) → p.exited ≡ false → Tracked p → Tracked (happen h p).0
unfolding happen mark_leader mark_shutting_down
happen-Tracked started_leading p x t = ground arith
happen-Tracked stopped_leading p x t = ground arith
happen-Tracked controllers_failed p x t = ground arith
happen-Tracked interrupted p x t = ground arith
happen-Tracked drained p x t = ground arith
happen-Tracked (calls call) p x t = ground (arith, step-shutting_down p.health call)

happenings-Tracked : (hs : List Happening) (p : Process) → Tracked p → Tracked (happenings hs p).0
unfolding happenings
happenings-Tracked [] p t = t
happenings-Tracked (h ∷ hs) p t = elim (Bool-cases p.exited) [
  | inl e ↦ simp e (happenings-Tracked hs p t)
  | inr e ↦ simp e (happenings-Tracked hs (happen h p).0 (happen-Tracked h p e t))
]

-- Whatever happens to a process after its start, in any order, a process that has lost its lease
-- has exited, or both its probes answer not ok.
pub lost_lease :
    (b : Built) (elect : Bool) (hs : List Happening) (now : Time)
    → let p = (happenings hs (begin b elect).0).0 in
      p.lost ≡ true
      → (p.exited ≡ true)
        ⊎ (((is_ready now p.health).ok ≡ false) × ((is_live now p.health).ok ≡ false))
unfolding is_ready is_live
lost_lease b elect hs now e =
    let t = happenings-Tracked hs (begin b elect).0 (begin-Tracked b elect) in
    elim (t.losing e) [ inl x ↦ inl x | inr d ↦ inr (ground arith) ]
