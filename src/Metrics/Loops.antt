-- ===== src/Metrics/Loops.antt =====
-- What a loop over a map that sets or deletes one series for each key does to a series.
use mathlib.Core.Logic.{if_pos, if_neg}
use mathlib.Core.Option
use argo_workflows_metrics.Base.{
  ◌≡◌, refl, ◌∙◌, ◌≢◌, Option, none, some, List, [], ◌∷◌, ◌++◌, ◌&&◌, arith, ◌==◌, if◌then◌else◌,
  is_some, String, string_eq,
}
use argo_workflows_metrics.Base.Dict.{Dict, lookup, contains, NodupKeys}
use argo_workflows_metrics.Base.Dict.Nested.{lookup₂, NodupKeys₂}
use argo_workflows_metrics.Metrics.{Series, Sample, Write, set, delete, effect, series_eq}
use argo_workflows_metrics.Metrics.Trace.{after, after-append}

-- The value from the map where there is one, else the old value.
abbrev pub override : Option Sample → Option Sample → Option Sample
override none old = old
override (some v) old = some v

module _ {ν} {V : Type ν} (f : String → Series) (g : V → Sample) where
  -- `for k, v := range d { metric.WithLabelValues(k).Set(g(v)) }`
  abbrev pub set_each : Dict String V → List Write
  set_each [] = []
  set_each ((k, v) ∷ d) = set (f k) (g v) ∷ set_each d

  -- A series that the loop has no key for keeps its value.
  pub after-set_each_miss :
      (x : Series) (old : Option Sample) (d : Dict String V)
      → ((k : String) → x ≢ f k)
      → after x old (set_each d) ≡ old
  after-set_each_miss x old [] h = refl
  after-set_each_miss x old ((k, v) ∷ d) h =
      after-set_each_miss x (effect x old (set (f k) (g v))) d h ∙ ground (arith, h k)

  pub after-set_each :
      ((j k : String) → f j ≡ f k → j ≡ k)
      → (k : String) (old : Option Sample) (d : Dict String V) → NodupKeys d
      → after (f k) old (set_each d) ≡ override (Option.map g (lookup k d)) old
  unfolding lookup
  after-set_each inj k old [] u = refl
  after-set_each inj k old ((j, v) ∷ d) u =
      after-set_each inj k (effect (f k) old (set (f j) (g v))) d u.1 ∙ ground (arith, inj k j)

module _ {ν} {V : Type ν} (f : String → Series) where
  -- `for k := range d { metric.DeleteLabelValues(k) }`
  abbrev pub delete_each : Dict String V → List Write
  delete_each [] = []
  delete_each ((k, v) ∷ d) = delete (f k) ∷ delete_each d

  pub after-delete_each_miss :
      (x : Series) (old : Option Sample) (d : Dict String V)
      → ((k : String) → x ≢ f k)
      → after x old (delete_each d) ≡ old
  after-delete_each_miss x old [] h = refl
  after-delete_each_miss x old ((k, v) ∷ d) h =
      after-delete_each_miss x (effect x old (delete (f k))) d h ∙ ground (arith, h k)

  after-delete_each-none : (x : Series) (d : Dict String V) → after x none (delete_each d) ≡ none
  after-delete_each-none x [] = refl
  after-delete_each-none x ((k, v) ∷ d) = ground (arith, after-delete_each-none x d)

  pub after-delete_each :
      ((j k : String) → f j ≡ f k → j ≡ k)
      → (k : String) (old : Option Sample) (d : Dict String V)
      → after (f k) old (delete_each d) ≡ (if contains k d then none else old)
  unfolding lookup
  after-delete_each inj k old [] = refl
  after-delete_each inj k old ((j, v) ∷ d) =
      ground (arith, after-delete_each inj k old d, after-delete_each-none (f k) d, inj k j)

-- The same over a map of maps.
abbrev pub IsInjective : (String → String → Series) → Type 0
IsInjective f = (i j k l : String) → f i j ≡ f k l → (i ≡ k) × (j ≡ l)

module _ {ν} {V : Type ν} (f : String → String → Series) where
  abbrev pub set_each₂ : (V → Sample) → Dict String (Dict String V) → List Write
  set_each₂ g [] = []
  set_each₂ g ((k, i) ∷ d) = set_each (f k) g i ++ set_each₂ g d

  abbrev pub delete_each₂ : Dict String (Dict String V) → List Write
  delete_each₂ [] = []
  delete_each₂ ((k, i) ∷ d) = delete_each (f k) i ++ delete_each₂ d

  after-set_each_row :
      IsInjective f
      → (g : V → Sample) (k j h : String) (old : Option Sample) (i : Dict String V) → NodupKeys i
      → after (f k j) old (set_each (f h) g i)
        ≡ (if k == h then override (Option.map g (lookup j i)) old else old)
  after-set_each_row inj g k j h old i u = elim (string_eq.dec k h) [
    | yes p ↦ rw (if_pos _ p) (rw p (after-set_each (f h) g (λ a b e. (inj h a h b e).1) j old i u))
    | no n ↦
        rw (if_neg _ n) (after-set_each_miss (f h) g (f k j) old i (λ a e. n (inj k j h a e).0))
  ]

  pub after-set_each₂ :
      IsInjective f
      → (g : V → Sample) (k j : String) (old : Option Sample) (d : Dict String (Dict String V))
      → NodupKeys₂ d
      → after (f k j) old (set_each₂ g d) ≡ override (Option.map g (lookup₂ k j d)) old
  unfolding lookup
  after-set_each₂ inj g k j old [] u = refl
  after-set_each₂ inj g k j old ((h, i) ∷ d) u =
      after-append (f k j) old (set_each (f h) g i) (set_each₂ g d)
      ∙ after-set_each₂ inj g k j (after (f k j) old (set_each (f h) g i)) d u.2
      ∙ ground (arith, after-set_each_row inj g k j h old i u.1)

  after-delete_each_row :
      IsInjective f
      → (k j h : String) (old : Option Sample) (i : Dict String V)
      → after (f k j) old (delete_each (f h) i) ≡ (if k == h && contains j i then none else old)
  after-delete_each_row inj k j h old i = elim (string_eq.dec k h) [
    | yes p ↦ rw p (ground (arith, after-delete_each (f h) (λ a b e. (inj h a h b e).1) j old i))
    | no n ↦ ground (arith, after-delete_each_miss (f h) (f k j) old i (λ a e. n (inj k j h a e).0))
  ]

  pub after-delete_each₂ :
      IsInjective f
      → (k j : String) (old : Option Sample) (d : Dict String (Dict String V)) → NodupKeys₂ d
      → after (f k j) old (delete_each₂ d) ≡ (if is_some (lookup₂ k j d) then none else old)
  unfolding lookup
  after-delete_each₂ inj k j old [] u = refl
  after-delete_each₂ inj k j old ((h, i) ∷ d) u =
      after-append (f k j) old (delete_each (f h) i) (delete_each₂ d)
      ∙ after-delete_each₂ inj k j (after (f k j) old (delete_each (f h) i)) d u.2
      ∙ ground (arith, after-delete_each_row inj k j h old i)

  pub after-set_each₂_miss :
      (g : V → Sample) (x : Series) (old : Option Sample) (d : Dict String (Dict String V))
      → ((k j : String) → x ≢ f k j)
      → after x old (set_each₂ g d) ≡ old
  after-set_each₂_miss g x old [] h = refl
  after-set_each₂_miss g x old ((k, i) ∷ d) h =
      after-append x old (set_each (f k) g i) (set_each₂ g d)
      ∙ after-set_each₂_miss g x (after x old (set_each (f k) g i)) d h
      ∙ after-set_each_miss (f k) g x old i (h k)

  pub after-delete_each₂_miss :
      (x : Series) (old : Option Sample) (d : Dict String (Dict String V))
      → ((k j : String) → x ≢ f k j)
      → after x old (delete_each₂ d) ≡ old
  after-delete_each₂_miss x old [] h = refl
  after-delete_each₂_miss x old ((k, i) ∷ d) h =
      after-append x old (delete_each (f k) i) (delete_each₂ d)
      ∙ after-delete_each₂_miss x (after x old (delete_each (f k) i)) d h
      ∙ after-delete_each_miss (f k) x old i (h k)
