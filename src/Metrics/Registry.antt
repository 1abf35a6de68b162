-- ===== src/Metrics/Registry.antt =====
-- The Prometheus client library, which this repository does not contain, as an interface: a state,
-- the calls, and the value that each gauge or counter series exposes, with its documented laws.
use argo_workflows_metrics.Base.{
  ◌≡◌, refl, Option, none, some, List, [], ◌∷◌, ◌++◌, ◌==◌, if◌then◌else◌, value_or,
}
use argo_workflows_metrics.Base.Int.{◌+ℤ◌}
use argo_workflows_metrics.Metrics.{
  Series, Sample, Write, set, delete, inc, add, observe, whole, series_eq,
}

pub record Registry : Type 1 where
  pub State : Type 0
  pub write : Write → State → State
  pub value : State → Series → Option Sample

pub record IsLawful (R : Registry) : Type 0 where
  pub value-set :
      (s : R.State) (x y : Series) (v : Sample)
      → R.value (R.write (set y v) s) x ≡ (if x == y then some v else R.value s x)
  pub value-delete :
      (s : R.State) (x y : Series)
      → R.value (R.write (delete y) s) x ≡ (if x == y then none else R.value s x)
  pub value-inc :
      (s : R.State) (x y : Series)
      → R.value (R.write (inc y) s) x
        ≡ (if x == y then some (value_or (whole 0) (R.value s x) +ℤ whole 1) else R.value s x)
  pub value-add :
      (s : R.State) (x y : Series) (v : Sample)
      → R.value (R.write (add y v) s) x
        ≡ (if x == y then some (value_or (whole 0) (R.value s x) +ℤ v) else R.value s x)
  -- A histogram is not among the values.
  pub value-observe :
      (s : R.State) (x y : Series) (v : Sample) → R.value (R.write (observe y v) s) x ≡ R.value s x

module _ (R : Registry) where
  unfoldable pub run : List Write → R.State → R.State
  run [] s = s
  run (w ∷ ws) s = run ws (R.write w s)

  pub run-append : (ws vs : List Write) (s : R.State) → run (ws ++ vs) s ≡ run vs (run ws s)
  unfolding run
  run-append [] vs s = refl
  run-append (w ∷ ws) vs s = run-append ws vs (R.write w s)
