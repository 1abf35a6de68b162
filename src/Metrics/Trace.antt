-- ===== src/Metrics/Trace.antt =====
-- The value of one series after a sequence of calls, and what the registry makes of it.
use mathlib.Core.List.{foldl}
use argo_workflows_metrics.Base.{
  ◌≡◌, refl, sym, ◌∙◌, ap, ◌≢◌, ◌⊎◌, inl, inr, subst, none, Option, none, List, [], ◌∷◌, ◌++◌,
  arith, All,
}
use argo_workflows_metrics.Metrics.{
  Series, Sample, Write, Metric, set, delete, inc, add, observe, effect, series_eq,
}
use argo_workflows_metrics.Metrics.Registry.{Registry, IsLawful, run}

abbrev pub after : Series → Option Sample → List Write → Option Sample
after x = foldl (effect x)

abbrev pub target : Write → Series
target (set x v) = x
target (delete x) = x
target (inc x) = x
target (add x v) = x
target (observe x v) = x

pub after-append :
    (x : Series) (old : Option Sample) (ws vs : List Write)
    → after x old (ws ++ vs) ≡ after x (after x old ws) vs
after-append x old [] vs = refl
after-append x old (w ∷ ws) vs = after-append x (effect x old w) ws vs

-- Calls on other series leave a series alone.
abbrev pub Misses : Series → List Write → Type 0
Misses x = All λ w. x ≢ target w

pub effect_missed :
    (x : Series) (old : Option Sample) (w : Write) → x ≢ target w → effect x old w ≡ old
effect_missed x old (set y v) h = ground arith
effect_missed x old (delete y) h = ground arith
effect_missed x old (inc y) h = ground arith
effect_missed x old (add y v) h = ground arith
effect_missed x old (observe y v) h = refl

pub after_missed :
    (x : Series) (old : Option Sample) (ws : List Write) → Misses x ws → after x old ws ≡ old
after_missed x old [] h = refl
after_missed x old (w ∷ ws) h =
    ap (λ o. after x o ws) (effect_missed x old w h.0) ∙ after_missed x old ws h.1

-- Calls on other metrics do.
abbrev pub OffMetric : Metric → List Write → Type 0
OffMetric m = All λ w. (target w).metric ≢ m

pub OffMetric-Misses : (x : Series) (ws : List Write) → OffMetric x.metric ws → Misses x ws
OffMetric-Misses x [] h = tt
OffMetric-Misses x (w ∷ ws) h =
    (λ e. h.0 (ap (λ (y : Series). y.metric) (sym e)), OffMetric-Misses x ws h.1)

-- What is exposed after some calls was set by one of them or exposed before.
pub after_source {ν} :
    (P : Series → Type ν) (x : Series) (old : Option Sample) (ws : List Write)
    → All (λ w. P (target w)) ws
    → after x old ws ≢ none
    → P x ⊎ (old ≢ none)
after_source P x old [] h e = inr e
after_source P x old (w ∷ ws) h e = elim (series_eq.dec x (target w)) [
  | yes p ↦ inl (subst P (sym p) h.0)
  | no n ↦
      after_source P x old ws h.1 (subst (λ o. after x o ws ≢ none) (effect_missed x old w n) e)
]

module _ (R : Registry) (L : IsLawful R) where
  pub value-write :
      (w : Write) (s : R.State) (x : Series) → R.value (R.write w s) x ≡ effect x (R.value s x) w
  value-write (set y v) s x = L.value-set s x y v
  value-write (delete y) s x = L.value-delete s x y
  value-write (inc y) s x = L.value-inc s x y
  value-write (add y v) s x = L.value-add s x y v
  value-write (observe y v) s x = L.value-observe s x y v

  -- A lawful registry shows of each series what the calls did to it, one after the other.
  pub value-run :
      (ws : List Write) (s : R.State) (x : Series)
      → R.value (run R ws s) x ≡ after x (R.value s x) ws
  unfolding run
  value-run [] s x = refl
  value-run (w ∷ ws) s x = value-run ws (R.write w s) x ∙ ap (λ o. after x o ws) (value-write w s x)
