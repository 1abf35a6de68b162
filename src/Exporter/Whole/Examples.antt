-- ===== src/Exporter/Whole/Examples.antt =====
-- A run of the process before any election, and an instance of the theorem on it.
use argo_workflows_metrics.Base.{
  ◌≡◌, ◌||◌, refl, true, false, none, List, [], ◌++◌, string_eq, labels_eq, nat_eq,
}
use argo_workflows_metrics.Base.Time.{Time}
use argo_workflows_metrics.Metrics.{Write, Series, series_eq, metric_eq}
use argo_workflows_metrics.Metrics.Owners.{is_workflow, is_container}
use argo_workflows_metrics.Metrics.Registry.{run}
use argo_workflows_metrics.Metrics.Memory.{memory, memory-IsLawful, blank}
use argo_workflows_metrics.Health.{is_ready}
use argo_workflows_metrics.Health.Reach.{ready_probe}
use argo_workflows_metrics.Workflow.{Workflow}
use argo_workflows_metrics.Pod.{Pod}
use argo_workflows_metrics.Queue.Line.{line, empty_line}
use argo_workflows_metrics.Informer.{Item}
use argo_workflows_metrics.Shard.{single_of}
use argo_workflows_metrics.Exporter.{Flags, interrupted, calls, happen, begin}
use argo_workflows_metrics.Exporter.Settings.{defaults}
use argo_workflows_metrics.Exporter.Whole.{World, happens, Reach, here, next, wire}
use argo_workflows_metrics.Exporter.Whole.Start.{first, first_writes}
use argo_workflows_metrics.Exporter.Whole.Standby.{standby}

abbrev pub flags : Flags
flags = defaults.flags

abbrev pub born : World (line (Item Workflow)) (line (Item Pod))
born = first (line _) (line _) flags 7 (single_of "") empty_line empty_line

abbrev pub born_writes : List Write
born_writes = first_writes (line _) (line _) flags 7 (single_of "") empty_line empty_line

abbrev pub IsReached : World (line (Item Workflow)) (line (Item Pod)) → List Write → Type 0
IsReached v ws = Reach (line (Item Workflow)) (line (Item Pod)) born v ws

-- A probe and a signal, before any election.
abbrev probed : World (line (Item Workflow)) (line (Item Pod))
probed = record born { process = (happen (calls (ready_probe 9)) born.process).0 }

abbrev signalled : World (line (Item Workflow)) (line (Item Pod))
signalled = record probed { process = (happen interrupted probed.process).0 }

abbrev unled : List Write
unled =
    ([] ++ (happen (calls (ready_probe 9)) born.process).1) ++ (happen interrupted probed.process).1

signalled-Reach : IsReached signalled unled
unfolding wire happen begin
signalled-Reach =
    next (next here (happens (calls (ready_probe 9)) tt refl)) (happens interrupted tt refl)

standby_example :
    ((x : Series)
      → (is_workflow x.metric || is_container x.metric) ≡ true
      → memory.value (run memory (born_writes ++ unled) blank) x ≡ none)
    × ((later : Time) → (is_ready later signalled.process.health).ok ≡ false)
unfolding wire
standby_example =
    standby (line _) (line _) memory memory-IsLawful blank (λ x. refl) flags 7 (single_of "")
      empty_line empty_line signalled unled signalled-Reach refl refl
