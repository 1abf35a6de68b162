-- ===== src/Workflow/Aggregate/Stale.antt =====
-- `diffNamespaces` and `diffNamespacePhases` are set differences.
use argo_workflows_metrics.Base.{
  ◌≡◌, ◌∙◌, Bool, not, ◌&&◌, ◌||◌, String, [], ◌∷◌, arith, ◌==◌, string_eq, if◌then◌else◌, is_some,
}
use argo_workflows_metrics.Base.Dict.{KeySet, lookup, contains}
use argo_workflows_metrics.Base.Dict.Count.{mark, contains-mark}
use argo_workflows_metrics.Base.Dict.Nested.{
  lookup₂, insert₂, NodupKeys₂, lookup₂-insert₂, insert₂-NodupKeys₂,
}
use argo_workflows_metrics.Workflow.Aggregate.{
  PhaseSets, diff_namespaces, diff_phases, diff_namespace_phases,
}

diff_namespaces_from :
    (k : String) (stale previous current : KeySet String)
    → contains k (diff_namespaces stale previous current)
      ≡ (contains k stale || contains k previous && not (contains k current))
unfolding diff_namespaces lookup
diff_namespaces_from k stale [] current = ground arith
diff_namespaces_from k stale ((j, _) ∷ previous) current =
    diff_namespaces_from k (if contains j current then stale else mark j stale) previous current
    ∙ ground (arith, contains-mark k j stale)

-- `diffNamespaces` returns exactly the namespaces of the previous set that the current one lacks.
pub contains-diff_namespaces :
    (k : String) (previous current : KeySet String)
    → contains k (diff_namespaces [] previous current)
      ≡ (contains k previous && not (contains k current))
unfolding lookup
contains-diff_namespaces k previous current = diff_namespaces_from k [] previous current

abbrev has : String → String → PhaseSets → Bool
has k j d = is_some (lookup₂ k j d)

diff_phases_from :
    (k j n : String) (stale : PhaseSets) (phases : KeySet String) (current : PhaseSets)
    → has k j (diff_phases n stale phases current)
      ≡ (has k j stale || (k == n && contains j phases) && not (has k j current))
unfolding diff_phases lookup
diff_phases_from k j n stale [] current = ground arith
diff_phases_from k j n stale ((p, _) ∷ phases) current =
    diff_phases_from k j n (if has n p current then stale else insert₂ n p tt stale) phases current
    ∙ ground (arith, lookup₂-insert₂ k j n p tt stale)

diff_phases-NodupKeys₂ :
    (n : String) (stale : PhaseSets) (phases : KeySet String) (current : PhaseSets)
    → NodupKeys₂ stale
    → NodupKeys₂ (diff_phases n stale phases current)
unfolding diff_phases
diff_phases-NodupKeys₂ n stale [] current u = u
diff_phases-NodupKeys₂ n stale ((p, _) ∷ phases) current u =
    diff_phases-NodupKeys₂ n (if has n p current then stale else insert₂ n p tt stale) phases
      current (ground (arith, insert₂-NodupKeys₂ n p tt stale u))

diff_namespace_phases_from :
    (k j : String) (stale previous current : PhaseSets)
    → NodupKeys₂ previous
    → has k j (diff_namespace_phases stale previous current)
      ≡ (has k j stale || has k j previous && not (has k j current))
unfolding diff_namespace_phases lookup
diff_namespace_phases_from k j stale [] current u = ground arith
diff_namespace_phases_from k j stale ((n, phases) ∷ previous) current u =
    diff_namespace_phases_from k j (diff_phases n stale phases current) previous current u.2
    ∙ ground (arith, diff_phases_from k j n stale phases current)

-- `diffNamespacePhases` returns exactly the pairs of a namespace and a phase that the previous map
-- has and the current one lacks, where no key stands twice in the previous map.
pub has-diff_namespace_phases :
    (k j : String) (previous current : PhaseSets)
    → NodupKeys₂ previous
    → is_some (lookup₂ k j (diff_namespace_phases [] previous current))
      ≡ (is_some (lookup₂ k j previous) && not (is_some (lookup₂ k j current)))
unfolding lookup
has-diff_namespace_phases k j previous current u =
    diff_namespace_phases_from k j [] previous current u

pub diff_namespace_phases-NodupKeys₂ :
    (stale previous current : PhaseSets)
    → NodupKeys₂ stale
    → NodupKeys₂ (diff_namespace_phases stale previous current)
unfolding diff_namespace_phases
diff_namespace_phases-NodupKeys₂ stale [] current u = u
diff_namespace_phases-NodupKeys₂ stale ((n, phases) ∷ previous) current u =
    diff_namespace_phases-NodupKeys₂ (diff_phases n stale phases current) previous current
      (diff_phases-NodupKeys₂ n stale phases current u)
