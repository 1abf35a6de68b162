-- ===== src/Workflow/Collector/Deletions.antt =====
-- The order in which the series of the cached workflows are deleted does not matter.
use argo_workflows_metrics.Base.{
  ◌≡◌, refl, sym, ◌∙◌, ◌⊎◌, inl, inr, String, Option, none, List, [], ◌∷◌, All, string_eq, ◌==◌,
  Bool-cases,
}
use argo_workflows_metrics.Base.Dict.{Dict, NodupKeys}
use argo_workflows_metrics.Base.Dict.Visits.{Same, visit, visit-Same}
use argo_workflows_metrics.Metrics.{
  Series, Sample, Write, set, delete, inc, add, observe, series_eq,
}
use argo_workflows_metrics.Metrics.Trace.{after, after-append}
use argo_workflows_metrics.Workflow.{Workflow}
use argo_workflows_metrics.Workflow.Series.{delete_workflow_series}
use argo_workflows_metrics.Workflow.Series.Cleanup.{IsDelete, delete_workflow_series-IsDelete}
use argo_workflows_metrics.Workflow.Collector.{delete_all}

-- Calls that delete series leave a series alone, or remove it.
deletes_or_leaves :
    (x : Series) (ws : List Write)
    → All IsDelete ws
    → ((old : Option Sample) → after x old ws ≡ old)
      ⊎ ((old : Option Sample) → after x old ws ≡ none)
deletes_or_leaves x [] h = inl (λ old. refl)
deletes_or_leaves x (delete y ∷ ws) h = elim (Bool-cases (x == y)) [
  | inl e ↦ elim (deletes_or_leaves x ws h.1) [
    | inl l ↦ inr (λ old. rw e (l none))
    | inr r ↦ inr (λ old. rw e (r none))
  ]
  | inr e ↦ elim (deletes_or_leaves x ws h.1) [
    | inl l ↦ inl (λ old. rw e (l old))
    | inr r ↦ inr (λ old. rw e (r old))
  ]
]
deletes_or_leaves x (set y v ∷ ws) h = absurd h.0
deletes_or_leaves x (inc y ∷ ws) h = absurd h.0
deletes_or_leaves x (add y v ∷ ws) h = absurd h.0
deletes_or_leaves x (observe y v ∷ ws) h = absurd h.0

-- Hence the order of deletions does not matter.
deletes_commute :
    (x : Series) (old : Option Sample) (ws vs : List Write)
    → All IsDelete ws
    → All IsDelete vs
    → after x (after x old vs) ws ≡ after x (after x old ws) vs
deletes_commute x old ws vs h h' = elim (deletes_or_leaves x ws h) [
  | inl l ↦ elim (deletes_or_leaves x vs h') [
    | inl l' ↦ l _ ∙ l' old ∙ sym (l' _ ∙ l old)
    | inr r' ↦ l _ ∙ r' old ∙ sym (r' _)
  ]
  | inr r ↦ elim (deletes_or_leaves x vs h') [
    | inl l' ↦ r _ ∙ sym (l' _ ∙ r old)
    | inr r' ↦ r _ ∙ sym (r' _)
  ]
]

abbrev delete_of : Series → String × Workflow → Option Sample → Option Sample
delete_of x e old = after x old (delete_workflow_series e.1)

delete_all-visit :
    (x : Series) (old : Option Sample) (d : Dict String Workflow)
    → after x old (delete_all d) ≡ visit (delete_of x) old d
delete_all-visit x old [] = refl
delete_all-visit x old (e ∷ d) =
    after-append x old (delete_workflow_series e.1) (delete_all d)
    ∙ delete_all-visit x (delete_of x e old) d

pub delete_all-Same :
    (x : Series) (old : Option Sample) (d d' : Dict String Workflow)
    → NodupKeys d
    → NodupKeys d'
    → Same d d'
    → after x old (delete_all d) ≡ after x old (delete_all d')
delete_all-Same x old d d' u u' h =
    delete_all-visit x old d
    ∙ visit-Same (delete_of x)
        (λ e f o.
          deletes_commute x o (delete_workflow_series e.1) (delete_workflow_series f.1)
            (delete_workflow_series-IsDelete e.1) (delete_workflow_series-IsDelete f.1))
        old d d' u u' h
    ∙ sym (delete_all-visit x old d')
