-- ===== src/Health/Overlap/Raises.antt =====
-- Calls on a gauge that is only ever raised.
use argo_workflows_metrics.Base.{
  ◌≡◌, ◌≢◌, ◌⊎◌, inl, inr, refl, sym, ap, ◌∙◌, Option, some, List, [], ◌∷◌, ◌++◌, All, arith,
}
use argo_workflows_metrics.Metrics.{Series, Sample, Write, set, effect, whole, series_eq}
use argo_workflows_metrics.Metrics.Trace.{after, after-append, effect_missed, target}

-- A call that, if it is one on the gauge, raises it.
abbrev pub IsRaise : Series → Write → Type 0
IsRaise x w = (x ≢ target w) ⊎ (w ≡ set x (whole 1))

pub effect-set : (x : Series) (old : Option Sample) (v : Sample) → effect x old (set x v) ≡ some v
effect-set x old v = ground arith

-- Such calls in any order leave the gauge or raise it.
pub raised :
    (x : Series) (ws : List Write)
    → All (IsRaise x) ws
    → after x (some (whole 1)) ws ≡ some (whole 1)
raised x [] a = refl
raised x (w ∷ ws) (inl n, a) = ap (λ o. after x o ws) (effect_missed x _ w n) ∙ raised x ws a
raised x (w ∷ ws) (inr e, a) =
    ap (λ v. after x (effect x (some (whole 1)) v) ws) e
    ∙ ap (λ o. after x o ws) (effect-set x (some (whole 1)) (whole 1))
    ∙ raised x ws a

pub All-remove :
    (P : Write → Type 0) (us ws : List Write) (w : Write)
    → All P (us ++ (w ∷ ws))
    → P w × All P (us ++ ws)
All-remove P [] ws w a = a
All-remove P (u ∷ us) ws w a = let (p, q) = All-remove P us ws w a.1 in (p, (a.0, q))

-- One of them can be made before the others.
pub advanced :
    (x : Series) (old : Option Sample) (us ws : List Write) (w : Write)
    → All (IsRaise x) (us ++ (w ∷ ws))
    → after x old (us ++ (w ∷ ws)) ≡ some (whole 1)
    → after x (effect x old w) (us ++ ws) ≡ some (whole 1)
advanced x old us ws w a e =
    let (p, q) = All-remove (IsRaise x) us ws w a in
    elim p [
      | inl n ↦
          ap (λ o. after x o (us ++ ws)) (effect_missed x old w n)
          ∙ after-append x old us ws
          ∙ ap (λ o. after x o ws) (sym (effect_missed x (after x old us) w n))
          ∙ sym (after-append x old us (w ∷ ws))
          ∙ e
      | inr r ↦
          ap (λ v. after x (effect x old v) (us ++ ws)) r
          ∙ ap (λ o. after x o (us ++ ws)) (effect-set x old (whole 1))
          ∙ raised x (us ++ ws) q
    ]
