-- ===== src/Workflow/Collector/Shown.antt =====
-- What the calls of each operation leave of the series of the workflows in the cache that it makes.
use argo_workflows_metrics.Base.{
  ◌≡◌, refl, sym, ap, subst, ◌∙◌, ◌≢◌, String, true, Option, none, some, List, ◌++◌, arith, All,
  All-append, string_eq, value_or, inl, inr, Option-cases,
}
use mathlib.Core.Option.{some-ne-none}
use argo_workflows_metrics.Base.Time.{Time}
use argo_workflows_metrics.Base.Dict.{
  Dict, lookup, insert, erase, NodupKeys, lookup-insert, lookup-erase,
}
use argo_workflows_metrics.Metrics.{Series, Write}
use argo_workflows_metrics.Metrics.Trace.{after, after-append, target, Misses, after_missed}
use argo_workflows_metrics.Workflow.{Workflow, key}
use argo_workflows_metrics.Workflow.Series.{collect_workflow_series, delete_workflow_series}
use argo_workflows_metrics.Workflow.Series.Own.{is_detail}
use argo_workflows_metrics.Workflow.Series.Cleanup.{Clears, IsDelete, after-deletes}
use argo_workflows_metrics.Workflow.Collector.Aggregated.{Values, apply}
use argo_workflows_metrics.Workflow.Collector.{delete_previous, delete_all, collect_all}
use argo_workflows_metrics.Workflow.Collector.Held.{
  Holder, Held, delete_previous-IsDelete, delete_all-IsDelete, delete_all-Clears,
}
use argo_workflows_metrics.Workflow.Collector.Named.{
  Named, Keyed, Named-key, Own-Named, collect-Misses, delete-Misses, collect_all-at,
}

-- The series with the workflow's name are as collecting the workflow, at some time, leaves them.
abbrev pub Collected : Workflow → Values → Type 0
Collected wf v =
    (now : Time) × ((x : Series)
      → is_detail x.metric ≡ true
      → Named wf x
      → v x ≡ after x none (collect_workflow_series wf now))

abbrev pub AllCollected : Dict String Workflow → Values → Type 0
AllCollected ws v = (k : String) (wf : Workflow) → lookup k ws ≡ some wf → Collected wf v

-- Calls that miss what has a workflow's name leave it collected.
still :
    (wf : Workflow) (v : Values) (ws : List Write)
    → ((x : Series) → Named wf x → Misses x ws)
    → Collected wf v
    → Collected wf (apply ws v)
still wf v ws h (now, f) = (now, λ x d m. after_missed x (v x) ws (h x m) ∙ f x d m)

-- Where deletions clear what the holders of a name hold, nothing is left with that name.
emptied :
    (ws : Dict String Workflow) (v : Values) (ds : List Write) (x : Series)
    → Held ws v
    → All IsDelete ds
    → (Holder ws x → Clears ds x)
    → is_detail x.metric ≡ true
    → after x (v x) ds ≡ none
emptied ws v ds x h d c m = elim (Option-cases (v x)) [
  | inl e ↦ ap (λ o. after x o ds) e ∙ after-deletes x ds d
  | inr (a, e) ↦ c (h x m (λ n. some-ne-none a (sym e ∙ n))) (v x)
]

previous-Misses :
    (wf : Workflow) (x : Series) (o : Option Workflow)
    → ((u : Workflow) → o ≡ some u → key u ≢ key wf)
    → Named wf x
    → Misses x (delete_previous o)
previous-Misses wf x none h m = tt
previous-Misses wf x (some u) h m = delete-Misses wf u x (h u refl) m

value_or-key :
    (wf : Workflow) (o : Option Workflow)
    → ((u : Workflow) → o ≡ some u → key u ≡ key wf)
    → key (value_or wf o) ≡ key wf
value_or-key wf none h = refl
value_or-key wf (some u) h = h u refl

module _ (ws : Dict String Workflow) (v : Values) (held : Held ws v) (keyed : Keyed ws)
    (old : AllCollected ws v) where
  pub add-Collected :
      (wf : Workflow) (now : Time)
      → AllCollected
          (insert (key wf) wf ws)
          (apply (delete_previous (lookup (key wf) ws) ++ collect_workflow_series wf now) v)
  add-Collected wf now k u e = elim (string_eq.dec k (key wf)) [
    | yes p ↦
        let same : wf ≡ u = ground (arith, lookup-insert k (key wf) wf ws) in
        subst (λ u'. Collected u' (apply (ds ++ cs) v)) same
          (
            now,
            λ x d m.
                after-append x (v x) ds cs
                ∙ ap (λ o. after x o cs)
                    (emptied ws v ds x held (delete_previous-IsDelete _) (clears x m) d),
          )
    | no n ↦
        let l : lookup k ws ≡ some u = ground (arith, lookup-insert k (key wf) wf ws) in
        still u v (ds ++ cs) (misses k u n l) (old k u l)
  ]
    where
      ds : List Write
      ds = delete_previous (lookup (key wf) ws)

      cs : List Write
      cs = collect_workflow_series wf now

      clears : (x : Series) → Named wf x → Holder ws x → Clears ds x
      clears x m (j, u', l, own, cleared) =
          let q : j ≡ key wf = sym (keyed j u' l) ∙ Named-key wf u' x m (Own-Named u' x own) in
          rw (subst (λ i. lookup i ws ≡ some u') q l) cleared

      misses :
          (k : String) (u : Workflow)
          → ¬ (k ≡ key wf)
          → lookup k ws ≡ some u
          → (x : Series) → Named u x
          → Misses x (ds ++ cs)
      misses k u n l x m =
          All-append (λ w. x ≢ target w) ds cs
            (previous-Misses u x _ (λ u' l' q. n (sym (keyed k u l) ∙ sym q ∙ keyed (key wf) u' l'))
              m)
            (collect-Misses u wf x now (λ q. n (sym (keyed k u l) ∙ sym q)) m)

  pub delete-Collected :
      (wf : Workflow)
      → AllCollected
          (erase (key wf) ws)
          (apply (delete_workflow_series (value_or wf (lookup (key wf) ws))) v)
  delete-Collected wf k u e =
      still u v (delete_workflow_series target_wf)
        (λ x m. delete-Misses u target_wf x (λ q. n (sym (keyed k u l) ∙ sym q ∙ target-key)) m)
        (old k u l)
    where
      target_wf : Workflow
      target_wf = value_or wf (lookup (key wf) ws)

      n : ¬ (k ≡ key wf)
      n = ground (arith, lookup-erase k (key wf) ws)

      l : lookup k ws ≡ some u
      l = ground (arith, lookup-erase k (key wf) ws)

      target-key : key target_wf ≡ key wf
      target-key = value_or-key wf _ (keyed (key wf))

  pub replace-Collected :
      (next : Dict String Workflow) (now : Time)
      → NodupKeys next
      → Keyed next
      → AllCollected next (apply (delete_all ws ++ collect_all now next) v)
  replace-Collected next now d h k u e = (
    now,
    λ x m p.
        after-append x (v x) (delete_all ws) (collect_all now next)
        ∙ ap (λ o. after x o (collect_all now next))
            (emptied ws v (delete_all ws) x held (delete_all-IsDelete ws)
              (λ (j, w, l, own, cleared). delete_all-Clears j w x ws l cleared) m)
        ∙ collect_all-at u x now next d h p (subst (λ i. lookup i next ≡ some u) (sym (h k u e)) e)
            none,
  )
