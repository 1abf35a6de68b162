-- ===== src/Metrics/Memory.antt =====
-- A registry that keeps a value for each series: the laws of the interface can hold.
use mathlib.Core.Path.{refl}
use argo_workflows_metrics.Base.{Option, none}
use argo_workflows_metrics.Metrics.{Series, Sample, effect}
use argo_workflows_metrics.Metrics.Registry.{Registry, IsLawful}

abbrev pub memory : Registry
memory = record {
  State = Series → Option Sample;
  write = λ w s x. effect x (s x) w;
  value = λ s x. s x;
}

pub memory-IsLawful : IsLawful memory
memory-IsLawful = record {
  value-set = λ s x y v. refl;
  value-delete = λ s x y. refl;
  value-inc = λ s x y. refl;
  value-add = λ s x y v. refl;
  value-observe = λ s x y v. refl;
}

-- Nothing is exposed yet.
abbrev pub blank : Series → Option Sample
blank x = none
