-- ===== src/Workflow/Aggregate/Exact.antt =====
-- After an update the aggregated series show the counts of the cached workflows, and only those.
use mathlib.Core.Option
use argo_workflows_metrics.Base.{
  ℕ, zero, suc, ◌≡◌, refl, ◌∙◌, Bool, true, false, not, ◌&&◌, Option, none, some, String, List, [],
  ◌++◌, arith, string_eq, if◌then◌else◌, is_some, ltb,
}
use argo_workflows_metrics.Base.Dict.{contains}
use argo_workflows_metrics.Base.Dict.Nested.{lookup₂, NodupKeys₂}
use argo_workflows_metrics.Metrics.{Series, Sample, Write, whole}
use argo_workflows_metrics.Metrics.Trace.{after, after-append}
use argo_workflows_metrics.Metrics.Loops.{
  set_each, set_each₂, delete_each, delete_each₂, override, IsInjective, after-set_each,
  after-set_each_miss, after-delete_each, after-delete_each_miss, after-set_each₂,
  after-delete_each₂, after-set_each₂_miss, after-delete_each₂_miss,
}
use argo_workflows_metrics.Workflow.{WorkflowCollector}
use argo_workflows_metrics.Workflow.Aggregate.{
  count_series, total_series, totals, diff_namespaces, diff_namespace_phases, aggregate_writes,
}
use argo_workflows_metrics.Workflow.Aggregate.Loop.{
  count_in, count_phase, counted, lookup-namespace_counts, contains-current_namespaces,
  lookup₂-namespace_phase_count, contains-current_namespace_phases, namespace_counts-NodupKeys,
  namespace_phase_count-NodupKeys₂,
}
use argo_workflows_metrics.Workflow.Aggregate.Stale.{
  contains-diff_namespaces, has-diff_namespace_phases, diff_namespace_phases-NodupKeys₂,
}

-- How a count is exposed: no series for none.
abbrev pub exposed : ℕ → Option Sample
exposed zero = none
exposed (suc n) = some (whole (suc n))

-- What an update makes of a value: deleted if it was seen and is there no more, and set to a positive
-- count.
abbrev pub updated : Option Sample → Bool → ℕ → Option Sample
updated old seen m =
    if seen && not (ltb 0 m) then none else override (Option.map whole (counted m)) old

exposed_lem :
    (m : ℕ) (seen : Bool) (old : Option Sample)
    → (seen ≡ false → old ≡ none)
    → updated old seen m ≡ exposed m
exposed_lem zero true old h = refl
exposed_lem zero false old h = h refl
exposed_lem (suc m) true old h = ground arith
exposed_lem (suc m) false old h = refl

after_parts :
    (x : Series) (old : Option Sample) (a b c d : List Write)
    → after x old (a ++ (b ++ (c ++ d))) ≡ after x (after x (after x (after x old a) b) c) d
after_parts x old a b c d = simp after-append

count-injective : (j k : String) → count_series j ≡ count_series k → j ≡ k
count-injective j k e = cc

total-IsInjective : IsInjective total_series
total-IsInjective i j k l e = (cc, cc)

-- What is exposed of a namespace that the last update did not see: nothing.
module _ (c : WorkflowCollector) (old : Option Sample) where
  pub after-count_updated :
      (n : String)
      → after (count_series n) old (aggregate_writes c)
        ≡ updated old (contains n c.last_namespaces) (count_in n c.workflows)
  unfolding aggregate_writes
  after-count_updated n =
      let t = totals c in
      let stale = diff_namespaces [] c.last_namespaces t.current_namespaces in
      let gone = diff_namespace_phases [] c.last_namespace_phases t.current_namespace_phases in
      let x = count_series n in
      after_parts x old (set_each count_series whole t.namespace_counts)
        (delete_each count_series stale) (set_each₂ total_series whole t.namespace_phase_count)
        (delete_each₂ total_series gone)
      ∙ after-delete_each₂_miss total_series x _ gone (λ k j e. cc)
      ∙ after-set_each₂_miss total_series whole x _ t.namespace_phase_count (λ k j e. cc)
      ∙ after-delete_each count_series count-injective n _ stale
      ∙ rw
          (
            after-set_each count_series whole count-injective n old t.namespace_counts
                (namespace_counts-NodupKeys c.workflows),
            lookup-namespace_counts c.workflows n,
            contains-diff_namespaces n c.last_namespaces t.current_namespaces,
            contains-current_namespaces c.workflows n,
          )
          refl

  pub after-count :
      (n : String)
      → (contains n c.last_namespaces ≡ false → old ≡ none)
      → after (count_series n) old (aggregate_writes c) ≡ exposed (count_in n c.workflows)
  after-count n h =
      after-count_updated n
      ∙ exposed_lem (count_in n c.workflows) (contains n c.last_namespaces) old h

  pub after-total_updated :
      (n p : String)
      → NodupKeys₂ c.last_namespace_phases
      → after (total_series n p) old (aggregate_writes c)
        ≡ updated old (is_some (lookup₂ n p c.last_namespace_phases)) (count_phase n p c.workflows)
  unfolding aggregate_writes
  after-total_updated n p u =
      let t = totals c in
      let stale = diff_namespaces [] c.last_namespaces t.current_namespaces in
      let gone = diff_namespace_phases [] c.last_namespace_phases t.current_namespace_phases in
      let x = total_series n p in
      after_parts x old (set_each count_series whole t.namespace_counts)
        (delete_each count_series stale) (set_each₂ total_series whole t.namespace_phase_count)
        (delete_each₂ total_series gone)
      ∙ after-delete_each₂ total_series total-IsInjective n p _ gone
          (diff_namespace_phases-NodupKeys₂ [] c.last_namespace_phases _ tt)
      ∙ rw
          (
            after-set_each₂ total_series total-IsInjective whole n p _ t.namespace_phase_count
                (namespace_phase_count-NodupKeys₂ c.workflows),
            after-delete_each_miss count_series x _ stale (λ k e. cc),
            after-set_each_miss count_series whole x old t.namespace_counts (λ k e. cc),
            lookup₂-namespace_phase_count c.workflows n p,
            has-diff_namespace_phases n p c.last_namespace_phases t.current_namespace_phases u,
            contains-current_namespace_phases c.workflows n p,
          )
          refl

  pub after-total :
      (n p : String)
      → NodupKeys₂ c.last_namespace_phases
      → (is_some (lookup₂ n p c.last_namespace_phases) ≡ false → old ≡ none)
      → after (total_series n p) old (aggregate_writes c) ≡ exposed (count_phase n p c.workflows)
  after-total n p u h =
      after-total_updated n p u
      ∙ exposed_lem (count_phase n p c.workflows) (is_some (lookup₂ n p c.last_namespace_phases))
          old h
