-- ===== src/Workflow/Collector/Named.antt =====
-- The series that carry a workflow's name, and the calls for other workflows, which miss them.
use argo_workflows_metrics.Base.{
  ◌≡◌, sym, ap, subst, ◌∙◌, ◌≢◌, String, Option, none, some, List, [], ◌∷◌, arith, All-append,
  string_eq,
}
use argo_workflows_metrics.Base.Time.{Time}
use argo_workflows_metrics.Base.Dict.{
  Dict, lookup, insert, erase, NodupKeys, lookup-insert, lookup-erase, lookup-nil, lookup-cons,
}
use argo_workflows_metrics.Metrics.{Series, Sample}
use argo_workflows_metrics.Metrics.Trace.{after, after-append, target, Misses, after_missed}
use argo_workflows_metrics.Workflow.{Workflow, key}
use argo_workflows_metrics.Workflow.Series.{collect_workflow_series, delete_workflow_series}
use argo_workflows_metrics.Workflow.Series.Own.{Own, collect-All, delete-All}
use argo_workflows_metrics.Workflow.Collector.{collect_all, rebuild}

-- The label values begin with the workflow's namespace and name.
abbrev pub Named : Workflow → Series → Type 0
Named wf x = (rest : List String) × (x.values ≡ wf.namespace ∷ wf.name ∷ rest)

-- Each cached workflow stands under its own key.
abbrev pub Keyed : Dict String Workflow → Type 0
Keyed ws = (k : String) (wf : Workflow) → lookup k ws ≡ some wf → key wf ≡ k

pub Named-key : (wf u : Workflow) (x : Series) → Named wf x → Named u x → key u ≡ key wf
unfolding key
Named-key wf u x (r, e) (q, f) =
    let p : wf.namespace ∷ wf.name ∷ r ≡ u.namespace ∷ u.name ∷ q = sym e ∙ f in cc

pub Own-Named : (wf : Workflow) (x : Series) → Own wf x → Named wf x
Own-Named wf x o = (o.rest, o.named)

apart : (wf u : Workflow) (x y : Series) → key u ≢ key wf → Named wf x → Own u y → x ≢ y
apart wf u x y n m o e = n (Named-key wf u x m (subst (Named u) (sym e) (Own-Named u y o)))

pub collect-Misses :
    (wf u : Workflow) (x : Series) (now : Time)
    → key u ≢ key wf
    → Named wf x
    → Misses x (collect_workflow_series u now)
collect-Misses wf u x now n m =
    collect-All u (λ w. x ≢ target w) (λ y v o. apart wf u x y n m o) now

pub delete-Misses :
    (wf u : Workflow) (x : Series)
    → key u ≢ key wf
    → Named wf x
    → Misses x (delete_workflow_series u)
delete-Misses wf u x n m = delete-All u (λ w. x ≢ target w) (λ y o. apart wf u x y n m o)

pub insert-Keyed :
    (wf : Workflow) (ws : Dict String Workflow) → Keyed ws → Keyed (insert (key wf) wf ws)
insert-Keyed wf ws h k u e = ground (arith, lookup-insert k (key wf) wf ws, h k u)

pub erase-Keyed : (k : String) (ws : Dict String Workflow) → Keyed ws → Keyed (erase k ws)
erase-Keyed j ws h k u e = ground (arith, lookup-erase k j ws, h k u)

pub nil-Keyed : Keyed []
nil-Keyed k u e = let n = lookup-nil {V = Workflow} k in cc

pub rebuild-Keyed :
    (next : Dict String Workflow) (wfs : List (Option Workflow))
    → Keyed next
    → Keyed (rebuild next wfs)
unfolding rebuild
rebuild-Keyed next [] h = h
rebuild-Keyed next (none ∷ wfs) h = rebuild-Keyed next wfs h
rebuild-Keyed next (some wf ∷ wfs) h =
    rebuild-Keyed (insert (key wf) wf next) wfs (insert-Keyed wf next h)

tail-Keyed :
    (j : String) (w : Workflow) (ws : Dict String Workflow)
    → NodupKeys ((j, w) ∷ ws)
    → Keyed ((j, w) ∷ ws)
    → Keyed ws
tail-Keyed j w ws u h k v e = ground (arith, lookup-cons k j w ws, h k v)

head-key : (j : String) (w : Workflow) (ws : Dict String Workflow) → Keyed ((j, w) ∷ ws) → key w ≡ j
head-key j w ws h = h j w (ground (arith, lookup-cons j j w ws))

-- Collecting the series of all workflows misses a name that none of them has.
collect_all-Misses :
    (wf : Workflow) (x : Series) (now : Time) (ws : Dict String Workflow)
    → NodupKeys ws
    → Keyed ws
    → Named wf x
    → lookup (key wf) ws ≡ none
    → Misses x (collect_all now ws)
collect_all-Misses wf x now [] u h m e = tt
collect_all-Misses wf x now ((j, w) ∷ ws) u h m e =
    All-append (λ w'. x ≢ target w') (collect_workflow_series w now) (collect_all now ws)
      (collect-Misses wf w x now (ground (arith, lookup-cons (key wf) j w ws, head-key j w ws h)) m)
      (collect_all-Misses wf x now ws u.1 (tail-Keyed j w ws u h) m
        (ground (arith, lookup-cons (key wf) j w ws)))

-- Of a series with the name of one of the workflows it makes what collecting that one makes.
pub collect_all-at :
    (wf : Workflow) (x : Series) (now : Time) (ws : Dict String Workflow)
    → NodupKeys ws
    → Keyed ws
    → Named wf x
    → lookup (key wf) ws ≡ some wf
    → (old : Option Sample)
    → after x old (collect_all now ws) ≡ after x old (collect_workflow_series wf now)
collect_all-at wf x now [] u h m e old = let n = lookup-nil {V = Workflow} (key wf) in cc
collect_all-at wf x now ((j, w) ∷ ws) u h m e old = elim (string_eq.dec (key wf) j) [
  | yes p ↦
      let same : w ≡ wf = ground (arith, lookup-cons (key wf) j w ws) in
      after-append x old (collect_workflow_series w now) (collect_all now ws)
      ∙ after_missed x _ (collect_all now ws) (
          collect_all-Misses wf x now ws u.1 (tail-Keyed j w ws u h) m
            (subst (λ k. lookup k ws ≡ none) (sym p) u.0))
      ∙ ap (λ v. after x old (collect_workflow_series v now)) same
  | no n ↦
      after-append x old (collect_workflow_series w now) (collect_all now ws)
      ∙ ap (λ o. after x o (collect_all now ws))
          (after_missed x old _ (collect-Misses wf w x now (λ q. n (sym q ∙ head-key j w ws h)) m))
      ∙ collect_all-at wf x now ws u.1 (tail-Keyed j w ws u h) m
          (ground (arith, lookup-cons (key wf) j w ws)) old
]
