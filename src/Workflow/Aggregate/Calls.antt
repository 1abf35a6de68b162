-- ===== src/Workflow/Aggregate/Calls.antt =====
-- Which calls an update of the aggregated series makes.
use argo_workflows_metrics.Base.{String, [], ◌∷◌, ◌++◌, All, All-append}
use argo_workflows_metrics.Base.Dict.{Dict}
use argo_workflows_metrics.Metrics.{Series, Sample, Write, set, delete, whole}
use argo_workflows_metrics.Metrics.Loops.{set_each, set_each₂, delete_each, delete_each₂}
use argo_workflows_metrics.Workflow.{WorkflowCollector}
use argo_workflows_metrics.Workflow.Aggregate.{
  count_series, total_series, totals, diff_namespaces, diff_namespace_phases, aggregate_writes,
}

module _ {ν} {V : Type ν} (P : Write → Type 0) where
  set_each-All :
      (f : String → Series) (g : V → Sample) (d : Dict String V)
      → ((k : String) (v : Sample) → P (set (f k) v))
      → All P (set_each f g d)
  set_each-All f g [] h = tt
  set_each-All f g ((k, v) ∷ d) h = (h k (g v), set_each-All f g d h)

  delete_each-All :
      (f : String → Series) (d : Dict String V)
      → ((k : String) → P (delete (f k)))
      → All P (delete_each f d)
  delete_each-All f [] h = tt
  delete_each-All f ((k, v) ∷ d) h = (h k, delete_each-All f d h)

  set_each₂-All :
      (f : String → String → Series) (g : V → Sample) (d : Dict String (Dict String V))
      → ((k j : String) (v : Sample) → P (set (f k j) v))
      → All P (set_each₂ f g d)
  set_each₂-All f g [] h = tt
  set_each₂-All f g ((k, i) ∷ d) h =
      All-append P (set_each (f k) g i) (set_each₂ f g d) (set_each-All (f k) g i (h k))
        (set_each₂-All f g d h)

  delete_each₂-All :
      (f : String → String → Series) (d : Dict String (Dict String V))
      → ((k j : String) → P (delete (f k j)))
      → All P (delete_each₂ f d)
  delete_each₂-All f [] h = tt
  delete_each₂-All f ((k, i) ∷ d) h =
      All-append P (delete_each (f k) i) (delete_each₂ f d) (delete_each-All (f k) i (h k))
        (delete_each₂-All f d h)

-- To show something of every call of an update, show it of the four kinds of calls.
module _ (P : Write → Type 0) (sets : (n : String) (v : Sample) → P (set (count_series n) v))
    (removes : (n : String) → P (delete (count_series n)))
    (sets₂ : (n p : String) (v : Sample) → P (set (total_series n p) v))
    (removes₂ : (n p : String) → P (delete (total_series n p))) where
  pub aggregate-All : (c : WorkflowCollector) → All P (aggregate_writes c)
  unfolding aggregate_writes
  aggregate-All c =
      let t = totals c in
      let stale = diff_namespaces [] c.last_namespaces t.current_namespaces in
      let gone = diff_namespace_phases [] c.last_namespace_phases t.current_namespace_phases in
      let w1 = set_each count_series whole t.namespace_counts in
      let w2 = delete_each count_series stale in
      let w3 = set_each₂ total_series whole t.namespace_phase_count in
      let w4 = delete_each₂ total_series gone in
      All-append P w1 (w2 ++ (w3 ++ w4)) (set_each-All P count_series whole t.namespace_counts sets)
        (All-append P w2 (w3 ++ w4) (delete_each-All P count_series stale removes) (
          All-append P w3 w4 (set_each₂-All P total_series whole t.namespace_phase_count sets₂)
            (delete_each₂-All P total_series gone removes₂)))
