-- ===== src/Workflow/Aggregate/Order.antt =====
-- The update of the aggregated series does not depend on the orders in which maps are visited.
use argo_workflows_metrics.Base.{
  ℕ, ◌+◌, ◌≡◌, ◌≢◌, sym, ap, ◌∙◌, Bool, ◌&&◌, Option, String, [], ◌∷◌, arith, string_eq, ◌==◌,
  if◌then◌else◌, is_some, value_or, get_elem?,
}
use argo_workflows_metrics.Base.Dict.{Dict, contains, NodupKeys}
use argo_workflows_metrics.Base.Dict.Count.{count_where}
use argo_workflows_metrics.Base.Dict.Nested.{lookup₂, NodupKeys₂}
use argo_workflows_metrics.Base.Dict.Visits.{Same, visit, visit-Same}
use argo_workflows_metrics.Metrics.{Series, Sample, series_eq}
use argo_workflows_metrics.Metrics.Trace.{after, target, after_missed}
use argo_workflows_metrics.Workflow.{Workflow, WorkflowCollector}
use argo_workflows_metrics.Workflow.Aggregate.{count_series, total_series, aggregate_writes}
use argo_workflows_metrics.Workflow.Aggregate.Loop.{count_in, count_phase}
use argo_workflows_metrics.Workflow.Aggregate.Exact.{
  updated, after-count_updated, after-total_updated,
}
use argo_workflows_metrics.Workflow.Aggregate.Calls.{aggregate-All}

count_where-visit :
    (p : String × Workflow → Bool) (m : ℕ) (d : Dict String Workflow)
    → visit (λ e n. (if p e then 1 else 0) + n) m d ≡ count_where p d + m
count_where-visit p m [] = omega arith
count_where-visit p m (e ∷ d) = omega (arith, count_where-visit p ((if p e then 1 else 0) + m) d)

-- How many entries of a map pass a test.
pub count_where-Same :
    (p : String × Workflow → Bool) (d d' : Dict String Workflow)
    → NodupKeys d
    → NodupKeys d'
    → Same d d'
    → count_where p d ≡ count_where p d'
count_where-Same p d d' u u' h = omega (
  arith,
  count_where-visit p 0 d,
  count_where-visit p 0 d',
  visit-Same (λ e n. (if p e then 1 else 0) + n) (λ x y n. omega arith) 0 d d' u u' h,
)

-- Two collectors that hold the same maps, each in some order.
pub record Alike (c c' : WorkflowCollector) : Type 0 where
  pub details : c.collect_details ≡ c'.collect_details
  pub workflows : Same c.workflows c'.workflows
  pub namespaces : (n : String) → contains n c.last_namespaces ≡ contains n c'.last_namespaces
  pub phases :
      (n p : String)
      → is_some (lookup₂ n p c.last_namespace_phases)
        ≡ is_some (lookup₂ n p c'.last_namespace_phases)
  pub distinct : NodupKeys c.workflows × NodupKeys c'.workflows
  pub distinct_phases : NodupKeys₂ c.last_namespace_phases × NodupKeys₂ c'.last_namespace_phases

-- A series is one of the counts, one of the totals, or neither.
data Kinds (x : Series) : Type 0 where
  is_count : (n : String) → x ≡ count_series n → Kinds x
  is_total : (n p : String) → x ≡ total_series n p → Kinds x
  is_other : ((n : String) → x ≢ count_series n) → ((n p : String) → x ≢ total_series n p) → Kinds x

abbrev part : ℕ → Series → String
part i x = value_or "" (get_elem? x.values i)

kinds : (x : Series) → Kinds x
kinds x = elim (series_eq.dec x (count_series (part 0 x))) [
  | yes e ↦ is_count (part 0 x) e
  | no a ↦ elim (series_eq.dec x (total_series (part 0 x) (part 1 x))) [
    | yes e ↦ is_total (part 0 x) (part 1 x) e
    | no b ↦
        is_other (λ n e. a (e ∙ ap count_series (ap (part 0) (sym e))))
          (λ n p e. b (
            e
            ∙ ap (λ m. total_series m p) (ap (part 0) (sym e))
            ∙ ap (total_series (part 0 x)) (ap (part 1) (sym e))))
  ]
]

-- Two updates over the same maps give every series the same value.
pub aggregate-Alike :
    (x : Series) (old : Option Sample) (c c' : WorkflowCollector)
    → Alike c c'
    → after x old (aggregate_writes c) ≡ after x old (aggregate_writes c')
aggregate-Alike x old c c' a = by_kind (kinds x)
  where
    same_count :
        (p : String × Workflow → Bool) → count_where p c.workflows ≡ count_where p c'.workflows
    same_count p = count_where-Same p c.workflows c'.workflows a.distinct.0 a.distinct.1 a.workflows

    missed :
        (d : WorkflowCollector)
        → ((n : String) → x ≢ count_series n)
        → ((n p : String) → x ≢ total_series n p)
        → after x old (aggregate_writes d) ≡ old
    missed d f g =
        after_missed x old (aggregate_writes d)
          (aggregate-All (λ w. x ≢ target w) (λ n v. f n) f (λ n p v. g n p) g d)

    by_kind : Kinds x → after x old (aggregate_writes c) ≡ after x old (aggregate_writes c')
    by_kind (is_count n e) = rw e (
        after-count_updated c old n
        ∙ ap (λ b. updated old b (count_in n c.workflows)) (a.namespaces n)
        ∙ ap (updated old (contains n c'.last_namespaces)) (same_count (λ w. n == w.1.namespace))
        ∙ sym (after-count_updated c' old n))
    by_kind (is_total n p e) = rw e (
        after-total_updated c old n p a.distinct_phases.0
        ∙ ap (λ b. updated old b (count_phase n p c.workflows)) (a.phases n p)
        ∙ ap (updated old (is_some (lookup₂ n p c'.last_namespace_phases)))
            (same_count (λ w. n == w.1.namespace && p == w.1.phase))
        ∙ sym (after-total_updated c' old n p a.distinct_phases.1))
    by_kind (is_other f g) = missed c f g ∙ sym (missed c' f g)
