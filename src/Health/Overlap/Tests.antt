-- ===== src/Health/Overlap/Tests.antt =====
-- Instances of the theorems on overlapping goroutines.
use argo_workflows_metrics.Base.{◌≡◌, refl, true, false, some, List, [], ◌∷◌, ◌++◌}
use argo_workflows_metrics.Base.Int.{pos}
use argo_workflows_metrics.Metrics.{Write, whole, exporter_is_leader}
use argo_workflows_metrics.Metrics.Registry.{run}
use argo_workflows_metrics.Metrics.Memory.{memory, memory-IsLawful, blank}
use argo_workflows_metrics.Health.{
  State, new_state, plain, mark_shutting_down, mark_workflow_synced,
}
use argo_workflows_metrics.Health.Reach.{shuts_down, workflows_synced, step}
use argo_workflows_metrics.Health.Overlap.{Shared, Reach, here, next, locks, writes, IsSettled}
use argo_workflows_metrics.Health.Overlap.Raised.{workflows, gauge_of, Trails, overlapped-Trails}
use argo_workflows_metrics.Health.Overlap.Leaders.{overlapped-disagree}

abbrev fresh : State
fresh = (new_state 7 (pos 0) (pos 0) true).0

abbrev fresh_writes : List Write
fresh_writes = (new_state 7 (pos 0) (pos 0) true).1

abbrev synced : State
synced = (step fresh workflows_synced).0

-- The synchronisation and the shutdown are marked, and the gauge of the shutdown is set.
abbrev half_way : Shared
half_way = record {
  state = (step synced shuts_down).0;
  pending = [] ∷ (step fresh workflows_synced).1 ∷ [];
}

abbrev said : List Write
said = (([] ++ []) ++ []) ++ (step synced shuts_down).1

half_way-Reach : Reach (record { state = fresh; pending = [] }) half_way said
unfolding step mark_shutting_down mark_workflow_synced
half_way-Reach =
    next (next (next here (locks workflows_synced)) (locks shuts_down)) (writes _ [] [] _ refl)

overlapped-Trails_example :
    Trails workflows half_way
      (memory.value (run memory (fresh_writes ++ said) blank) (gauge_of workflows))
overlapped-Trails_example =
    overlapped-Trails memory memory-IsLawful blank 7 (pos 0) (pos 0) true half_way said workflows
      half_way-Reach

overlapped-disagree_example :
    (t : Shared) × (ws : List Write) × Reach (record { state = fresh; pending = [] }) t ws
    × IsSettled t
    × (t.state.is_leader ≡ false)
    × (memory.value (run memory ws blank) (plain exporter_is_leader) ≡ some (whole 1))
overlapped-disagree_example = overlapped-disagree memory memory-IsLawful blank fresh
