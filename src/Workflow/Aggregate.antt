-- ===== src/Workflow/Aggregate.antt =====
-- The aggregated series: `updateAggregatedMetrics` with `diffNamespaces` and `diffNamespacePhases`.
pub mod Loop
pub mod Stale
pub mod Exact
pub mod Calls
pub mod Order
use argo_workflows_metrics.Base.{
  ℕ, ◌+◌, String, List, [], ◌∷◌, ◌++◌, string_eq, if◌then◌else◌, value_or, is_some,
}
use argo_workflows_metrics.Base.Dict.{Dict, KeySet, contains}
use argo_workflows_metrics.Base.Dict.Count.{increment, mark}
use argo_workflows_metrics.Base.Dict.Nested.{insert₂, lookup₂}
use argo_workflows_metrics.Metrics.{
  Series, Write, labelled, whole, workflow_count, workflow_status_total,
}
use argo_workflows_metrics.Metrics.Loops.{set_each, set_each₂, delete_each, delete_each₂}
use argo_workflows_metrics.Workflow.{Workflow, WorkflowCollector}

pub record Totals : Type 0 where
  pub namespace_counts : Dict String ℕ
  pub namespace_phase_count : Dict String (Dict String ℕ)
  pub current_namespaces : KeySet String
  pub current_namespace_phases : Dict String (KeySet String)

abbrev pub no_totals : Totals
no_totals = record {
  namespace_counts = [];
  namespace_phase_count = [];
  current_namespaces = [];
  current_namespace_phases = [];
}

-- The body of the loop over the cached workflows.
unfoldable pub count_workflow : Totals → String → String → Totals
count_workflow t namespace phase = record {
  namespace_counts = increment namespace t.namespace_counts;
  namespace_phase_count =
      insert₂ namespace phase (value_or 0 (lookup₂ namespace phase t.namespace_phase_count) + 1)
        t.namespace_phase_count;
  current_namespaces = mark namespace t.current_namespaces;
  current_namespace_phases = insert₂ namespace phase tt t.current_namespace_phases;
}

unfoldable pub count_workflows : Totals → Dict String Workflow → Totals
unfolding count_workflow
count_workflows t [] = t
count_workflows t ((key, wf) ∷ workflows) =
    count_workflows (count_workflow t wf.namespace wf.phase) workflows

-- `diffNamespaces`: what was exposed and is there no more. The first argument is the result so far.
unfoldable pub diff_namespaces : KeySet String → KeySet String → KeySet String → KeySet String
diff_namespaces stale [] current = stale
diff_namespaces stale ((namespace, _) ∷ previous) current =
    diff_namespaces (if contains namespace current then stale else mark namespace stale) previous
      current

abbrev pub PhaseSets : Type 0
PhaseSets = Dict String (KeySet String)

-- `diffNamespacePhases`: its inner loop, over the phases of one namespace, and the outer one.
unfoldable pub diff_phases : String → PhaseSets → KeySet String → PhaseSets → PhaseSets
diff_phases namespace stale [] current = stale
diff_phases namespace stale ((phase, _) ∷ phases) current =
    diff_phases namespace
      (if is_some (lookup₂ namespace phase current)
        then stale
        else insert₂ namespace phase tt stale)
      phases current

unfoldable pub diff_namespace_phases : PhaseSets → PhaseSets → PhaseSets → PhaseSets
diff_namespace_phases stale [] current = stale
diff_namespace_phases stale ((namespace, phases) ∷ previous) current =
    diff_namespace_phases (diff_phases namespace stale phases current) previous current

abbrev pub count_series : String → Series
count_series namespace = labelled workflow_count (namespace ∷ [])

abbrev pub total_series : String → String → Series
total_series namespace phase = labelled workflow_status_total (namespace ∷ phase ∷ [])

abbrev pub totals : WorkflowCollector → Totals
totals c = count_workflows no_totals c.workflows

-- The calls on the metrics, after the lock is released.
unfoldable pub aggregate_writes : WorkflowCollector → List Write
aggregate_writes c =
    let t = totals c in
    set_each count_series whole t.namespace_counts
    ++ (delete_each count_series (diff_namespaces [] c.last_namespaces t.current_namespaces)
        ++ (set_each₂ total_series whole t.namespace_phase_count
            ++ delete_each₂ total_series
                (diff_namespace_phases [] c.last_namespace_phases t.current_namespace_phases)))

unfoldable pub update_aggregated_metrics : WorkflowCollector → WorkflowCollector × List Write
unfolding aggregate_writes
update_aggregated_metrics c = (
  record c {
    last_namespaces = (totals c).current_namespaces;
    last_namespace_phases = (totals c).current_namespace_phases;
  },
  aggregate_writes c,
)
