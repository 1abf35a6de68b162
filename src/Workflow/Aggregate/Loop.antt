-- ===== src/Workflow/Aggregate/Loop.antt =====
-- What the loop over the cached workflows counts: each of its four maps against a plain count.
use argo_workflows_metrics.Base.{
  ℕ, zero, suc, ◌≡◌, refl, Option, none, some, String, [], ◌∷◌, arith, ◌==◌, string_eq, ltb,
  is_some,
}
use argo_workflows_metrics.Base.Dict.{Dict, lookup, contains, NodupKeys}
use argo_workflows_metrics.Base.Dict.Count.{
  count_where, tally, mark_all, lookup-tally, contains-mark_all, tally-NodupKeys,
}
use argo_workflows_metrics.Base.Dict.Nested.{
  lookup₂, tally₂, mark_all₂, NodupKeys₂, lookup₂-tally₂, contains-mark_all₂, tally₂-NodupKeys₂,
  mark_all₂-NodupKeys₂, hits,
}
use argo_workflows_metrics.Workflow.{Workflow}
use argo_workflows_metrics.Workflow.Aggregate.{Totals, no_totals, count_workflow, count_workflows}

abbrev namespace_of : String × Workflow → String
namespace_of (key, wf) = wf.namespace

abbrev phase_of : String × Workflow → String
phase_of (key, wf) = wf.phase

-- The number of workflows in a namespace, and of those in a phase of it.
abbrev pub count_in : String → Dict String Workflow → ℕ
count_in namespace = count_where λ e. namespace == namespace_of e

abbrev pub count_phase : String → String → Dict String Workflow → ℕ
count_phase namespace phase = count_where (hits namespace_of phase_of namespace phase)

-- The one loop is four loops.
count_workflows_parts :
    (t : Totals) (ws : Dict String Workflow)
    → count_workflows t ws ≡ record {
      namespace_counts = tally namespace_of t.namespace_counts ws;
      namespace_phase_count = tally₂ namespace_of phase_of t.namespace_phase_count ws;
      current_namespaces = mark_all namespace_of t.current_namespaces ws;
      current_namespace_phases = mark_all₂ namespace_of phase_of t.current_namespace_phases ws;
    }
unfolding count_workflows tally tally₂ mark_all mark_all₂
count_workflows_parts t [] = refl
count_workflows_parts t ((key, wf) ∷ ws) =
    count_workflows_parts (count_workflow t wf.namespace wf.phase) ws

-- At most one entry, for a positive count.
abbrev pub counted : ℕ → Option ℕ
counted zero = none
counted (suc n) = some (suc n)

module _ (ws : Dict String Workflow) where
  abbrev t : Totals
  t = count_workflows no_totals ws

  pub lookup-namespace_counts : (n : String) → lookup n t.namespace_counts ≡ counted (count_in n ws)
  unfolding lookup
  lookup-namespace_counts n =
      rw (count_workflows_parts) (ground (arith, lookup-tally namespace_of n [] ws))

  pub contains-current_namespaces :
      (n : String) → contains n t.current_namespaces ≡ ltb 0 (count_in n ws)
  unfolding lookup
  contains-current_namespaces n =
      rw (count_workflows_parts) (ground (arith, contains-mark_all namespace_of n [] ws))

  pub lookup₂-namespace_phase_count :
      (n p : String) → lookup₂ n p t.namespace_phase_count ≡ counted (count_phase n p ws)
  unfolding lookup
  lookup₂-namespace_phase_count n p =
      rw (count_workflows_parts) (ground (arith, lookup₂-tally₂ namespace_of phase_of n p [] ws))

  pub contains-current_namespace_phases :
      (n p : String) → is_some (lookup₂ n p t.current_namespace_phases) ≡ ltb 0 (count_phase n p ws)
  unfolding lookup
  contains-current_namespace_phases n p =
      rw (count_workflows_parts)
        (ground (arith, contains-mark_all₂ namespace_of phase_of n p [] ws))

  pub namespace_counts-NodupKeys : NodupKeys t.namespace_counts
  namespace_counts-NodupKeys = rw (count_workflows_parts) (tally-NodupKeys namespace_of [] ws tt)

  pub namespace_phase_count-NodupKeys₂ : NodupKeys₂ t.namespace_phase_count
  namespace_phase_count-NodupKeys₂ =
      rw (count_workflows_parts) (tally₂-NodupKeys₂ namespace_of phase_of [] ws tt)

  pub current_namespace_phases-NodupKeys₂ : NodupKeys₂ t.current_namespace_phases
  current_namespace_phases-NodupKeys₂ =
      rw (count_workflows_parts) (mark_all₂-NodupKeys₂ namespace_of phase_of [] ws tt)
