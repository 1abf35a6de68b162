-- ===== src/Workflow/Collector/Held.antt =====
-- No detail series outlives its workflow: what is exposed belongs to a cached workflow, and goes
-- when that workflow is deleted.
use argo_workflows_metrics.Base.{
  ◌≡◌, refl, ap, subst, ◌∙◌, ◌≢◌, ◌⊎◌, inl, inr, String, true, false, Option, none, some, List, [],
  ◌∷◌, ◌++◌, arith, All, All-map, All-zip, All-concat_map, string_eq, value_or,
}
use argo_workflows_metrics.Base.Time.{Time}
use argo_workflows_metrics.Base.Dict.{Dict, lookup, insert, erase, lookup-insert, lookup-erase}
use argo_workflows_metrics.Metrics.{Series, Sample, Write}
use argo_workflows_metrics.Metrics.Trace.{after, after-append, target, after_missed, after_source}
use argo_workflows_metrics.Workflow.{Workflow, WorkflowCollector, key}
use argo_workflows_metrics.Workflow.Series.{collect_workflow_series, delete_workflow_series}
use argo_workflows_metrics.Workflow.Series.Own.{Own, is_detail, collect-All}
use argo_workflows_metrics.Workflow.Series.Cleanup.{
  Clears, Cleared, IsDelete, after-deletes, collect-cleared, delete_workflow_series-IsDelete,
  Clears-append_right,
}
use argo_workflows_metrics.Workflow.Aggregate.{aggregate_writes}
use argo_workflows_metrics.Workflow.Aggregate.Calls.{aggregate-All}
use argo_workflows_metrics.Workflow.Collector.Aggregated.{Values, apply}
use argo_workflows_metrics.Workflow.Collector.{delete_previous, delete_all}

-- A cached workflow that the series belongs to, and with which it is deleted.
abbrev pub Holder : Dict String Workflow → Series → Type 0
Holder ws x = (k : String) × (wf : Workflow) × (lookup k ws ≡ some wf) × Own wf x × Cleared wf x

abbrev pub Held : Dict String Workflow → Values → Type 0
Held ws v = (x : Series) → is_detail x.metric ≡ true → v x ≢ none → Holder ws x

-- The calls on the aggregated series are on other metrics.
abbrev Summary : List Write → Type 0
Summary = All λ w. is_detail (target w).metric ≡ false

aggregate-Summary : (c : WorkflowCollector) → Summary (aggregate_writes c)
aggregate-Summary =
    aggregate-All (λ w. is_detail (target w).metric ≡ false) (λ n v. refl) (λ n. refl)
      (λ n p v. refl) (λ n p. refl)

pub apply-aggregate :
    (x : Series) (v : Values) (ws : List Write) (c : WorkflowCollector)
    → is_detail x.metric ≡ true
    → apply (ws ++ aggregate_writes c) v x ≡ after x (v x) ws
apply-aggregate x v ws c d =
    after-append x (v x) ws (aggregate_writes c)
    ∙ after_missed x _ (aggregate_writes c) (
        All-map _ _ (aggregate_writes c)
          (λ w f e. cc (d, f, ap (λ (y : Series). is_detail y.metric) e)) (aggregate-Summary c))

-- Deleting exposes nothing.
before-deletes :
    (x : Series) (old : Option Sample) (ds : List Write)
    → All IsDelete ds
    → after x old ds ≢ none
    → old ≢ none
before-deletes x old ds h n e = n (ap (λ o. after x o ds) e ∙ after-deletes x ds h)

pub collected :
    (ws : Dict String Workflow) (k : String) (wf : Workflow) (now : Time)
    → lookup k ws ≡ some wf
    → All (λ w. Holder ws (target w)) (collect_workflow_series wf now)
collected ws k wf now e =
    All-map _ _ (collect_workflow_series wf now) (λ w h. (k, wf, e, h.0, h.1))
      (All-zip _ _ (collect_workflow_series wf now)
        (collect-All wf (λ w. Own wf (target w)) (λ x v o. o) now) (collect-cleared wf now))

-- What the three operations do on details: delete the series of some workflows, whose series the
-- cache loses, and collect those of others.
module _ (old next : Dict String Workflow) (v : Values) (ds cs : List Write) where
  pub details-Held :
      Held old v
      → All IsDelete ds
      → All (λ w. Holder next (target w)) cs
      → ((x : Series) → Holder old x → Holder next x ⊎ Clears ds x)
      → (x : Series) → is_detail x.metric ≡ true
      → after x (v x) (ds ++ cs) ≢ none
      → Holder next x
  details-Held h d c keep x m e = elim (after_source (Holder next) x (after x (v x) ds) cs c e') [
    | inl held ↦ held
    | inr e'' ↦ from e'' (keep x (h x m (before-deletes x (v x) ds d e'')))
  ]
    where
      e' : after x (after x (v x) ds) cs ≢ none
      e' = subst (λ o. o ≢ none) (after-append x (v x) ds cs) e

      from : after x (v x) ds ≢ none → Holder next x ⊎ Clears ds x → Holder next x
      from n (inl held) = held
      from n (inr cleared) = absurd (n (cleared (v x)))

pub add-keeps :
    (ws : Dict String Workflow) (wf : Workflow) (x : Series)
    → Holder ws x
    → Holder (insert (key wf) wf ws) x ⊎ Clears (delete_previous (lookup (key wf) ws)) x
add-keeps ws wf x (k, wf', e, own, cleared) = elim (string_eq.dec k (key wf)) [
  | yes p ↦ inr (rw (subst (λ j. lookup j ws ≡ some wf') p e) cleared)
  | no n ↦ inl (k, wf', ground (arith, lookup-insert k (key wf) wf ws), own, cleared)
]

pub delete-keeps :
    (ws : Dict String Workflow) (wf : Workflow) (x : Series)
    → Holder ws x
    → Holder (erase (key wf) ws) x
      ⊎ Clears (delete_workflow_series (value_or wf (lookup (key wf) ws))) x
delete-keeps ws wf x (k, wf', e, own, cleared) = elim (string_eq.dec k (key wf)) [
  | yes p ↦ inr (rw (subst (λ j. lookup j ws ≡ some wf') p e) cleared)
  | no n ↦ inl (k, wf', ground (arith, lookup-erase k (key wf) ws), own, cleared)
]

pub delete_previous-IsDelete : (o : Option Workflow) → All IsDelete (delete_previous o)
delete_previous-IsDelete none = tt
delete_previous-IsDelete (some wf) = delete_workflow_series-IsDelete wf

pub delete_all-IsDelete : (ws : Dict String Workflow) → All IsDelete (delete_all ws)
delete_all-IsDelete ws = All-concat_map _ _ ws (λ e. delete_workflow_series-IsDelete e.1)

-- Deleting the series of all cached workflows clears those of each.
pub delete_all-Clears :
    (k : String) (wf : Workflow) (x : Series) (ws : Dict String Workflow)
    → lookup k ws ≡ some wf
    → Cleared wf x
    → Clears (delete_all ws) x
unfolding lookup
delete_all-Clears k wf x [] e c = λ old. cc
delete_all-Clears k wf x ((j, w) ∷ ws) e c = elim (string_eq.dec k j) [
  | yes p ↦ λ old.
      after-append x old (delete_workflow_series w) (delete_all ws)
      ∙ ap (λ o. after x o (delete_all ws)) (subst (λ u. Cleared u x) (same p) c old)
      ∙ after-deletes x (delete_all ws) (delete_all-IsDelete ws)
  | no n ↦
      Clears-append_right x (delete_workflow_series w) (delete_all ws)
        (delete_all-Clears k wf x ws (rest n) c)
]
  where
    same : k ≡ j → wf ≡ w
    same p = ground arith

    rest : ¬ (k ≡ j) → lookup k ws ≡ some wf
    rest n = ground arith
