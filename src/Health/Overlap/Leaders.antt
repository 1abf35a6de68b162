-- ===== src/Health/Overlap/Leaders.antt =====
-- A start and an end of the leadership that overlap.
use argo_workflows_metrics.Base.{◌≡◌, refl, ◌∙◌, true, false, some, List, [], ◌∷◌, arith}
use argo_workflows_metrics.Metrics.{Write, whole, exporter_is_leader, series_eq}
use argo_workflows_metrics.Metrics.Registry.{Registry, IsLawful, run}
use argo_workflows_metrics.Metrics.Trace.{value-run}
use argo_workflows_metrics.Health.{State, mark_leader, plain}
use argo_workflows_metrics.Health.Reach.{leads, step}
use argo_workflows_metrics.Health.Overlap.{Shared, locks, writes, Reach, here, next, IsSettled}

-- From any health state, on a lawful registry, a start and an end of the leadership that two
-- goroutines mark can overlap so that, once all their calls are made, the state says that the
-- replica does not lead and the gauge of the leadership shows 1.
pub overlapped-disagree :
    (R : Registry) (L : IsLawful R) (r : R.State) (s : State)
    → (t : Shared) × (ws : List Write) × Reach (record { state = s; pending = [] }) t ws
      × IsSettled t
      × (t.state.is_leader ≡ false)
      × (R.value (run R ws r) (plain exporter_is_leader) ≡ some (whole 1))
unfolding step mark_leader
overlapped-disagree R L r s =
    let r₁ : Reach (record { state = s; pending = [] }) _ _ =
      next
        (next
          (next
            (next (next (next here (locks (leads true))) (locks (leads false)))
              (writes _ _ [] _ refl))
            (writes _ _ [] _ refl))
          (writes _ _ ([] ∷ []) _ refl))
        (writes _ _ ([] ∷ []) _ refl) in
    (_, _, r₁, refl, refl, value-run R L _ r (plain exporter_is_leader) ∙ ground arith)
