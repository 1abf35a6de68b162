-- ===== src/Base/Dict/Nested.antt =====
-- Maps of maps, read and written at two keys; a missing inner map reads as an empty one.
use argo_workflows_metrics.Base.{
  ℕ, ◌+◌, ◌≡◌, refl, ◌∙◌, Bool, ◌||◌, Option, none, some, List, [], ◌∷◌, arith, Eq, ◌==◌, ◌&&◌,
  if◌then◌else◌, value_or, ltb, is_some,
}
use argo_workflows_metrics.Base.Dict.Count.{count_where, plus, plus-bump}
use argo_workflows_metrics.Base.Dict.{
  Dict, lookup, insert, NodupKeys, lookup-insert, lookup-nil, insert-NodupKeys, KeySet,
}

module _ {κ ν} {K : Type κ} {V : Type ν} ⦃e : Eq K⦄ where
  -- `d[k]`, or a nil map
  abbrev pub inner : K → Dict K (Dict K V) → Dict K V
  inner k d = value_or [] (lookup k d)

  abbrev pub lookup₂ : K → K → Dict K (Dict K V) → Option V
  lookup₂ k j d = lookup j (inner k d)

  -- `if d[k] == nil { d[k] = make(…) }; d[k][j] = v`
  unfoldable pub insert₂ : K → K → V → Dict K (Dict K V) → Dict K (Dict K V)
  insert₂ k j v d = insert k (insert j v (inner k d)) d

  pub lookup₂-insert₂ :
      (k j k' j' : K) (v : V) (d : Dict K (Dict K V))
      → lookup₂ k j (insert₂ k' j' v d) ≡ (if k == k' && j == j' then some v else lookup₂ k j d)
  unfolding insert₂
  lookup₂-insert₂ k j k' j' v d =
      ground
        (arith, lookup-insert k k' (insert j' v (inner k' d)) d, lookup-insert j j' v (inner k' d))

  abbrev pub NodupKeys₂ : Dict K (Dict K V) → Type (κ ⊔ ν)
  NodupKeys₂ [] = Unit
  NodupKeys₂ ((k, i) ∷ d) = (lookup k d ≡ none) × NodupKeys i × NodupKeys₂ d

  pub inner-NodupKeys : (k : K) (d : Dict K (Dict K V)) → NodupKeys₂ d → NodupKeys (inner k d)
  unfolding lookup
  inner-NodupKeys k [] u = tt
  inner-NodupKeys k ((j, i) ∷ d) u = ground (arith, inner-NodupKeys k d u.2)

  insert-NodupKeys₂ :
      (k : K) (i : Dict K V) (d : Dict K (Dict K V))
      → NodupKeys i
      → NodupKeys₂ d
      → NodupKeys₂ (insert k i d)
  unfolding insert
  insert-NodupKeys₂ k i [] v u = (lookup-nil k, v, tt)
  insert-NodupKeys₂ k i ((j, h) ∷ d) v u =
      ground (arith, insert-NodupKeys₂ k i d v u.2, lookup-insert j k i d)

  pub insert₂-NodupKeys₂ :
      (k j : K) (v : V) (d : Dict K (Dict K V)) → NodupKeys₂ d → NodupKeys₂ (insert₂ k j v d)
  unfolding insert₂
  insert₂-NodupKeys₂ k j v d u =
      insert-NodupKeys₂ k _ d (insert-NodupKeys j v (inner k d) (inner-NodupKeys k d u)) u

-- The loops over pairs of keys.
module _ {ℓ κ} {A : Type ℓ} {K : Type κ} ⦃e : Eq K⦄ (f g : A → K) where
  abbrev pub hits : K → K → A → Bool
  hits k j x = k == f x && j == g x

  -- `for x in xs { d[f(x)][g(x)]++ }`
  unfoldable pub tally₂ : Dict K (Dict K ℕ) → List A → Dict K (Dict K ℕ)
  tally₂ d [] = d
  tally₂ d (x ∷ xs) = tally₂ (insert₂ (f x) (g x) (value_or 0 (lookup₂ (f x) (g x) d) + 1) d) xs

  -- `for x in xs { d[f(x)][g(x)] = struct{}{} }`
  unfoldable pub mark_all₂ : Dict K (KeySet K) → List A → Dict K (KeySet K)
  mark_all₂ d [] = d
  mark_all₂ d (x ∷ xs) = mark_all₂ (insert₂ (f x) (g x) tt d) xs

  pub lookup₂-tally₂ :
      (k j : K) (d : Dict K (Dict K ℕ)) (xs : List A)
      → lookup₂ k j (tally₂ d xs) ≡ plus (count_where (hits k j) xs) (lookup₂ k j d)
  unfolding tally₂
  lookup₂-tally₂ k j d [] = refl
  lookup₂-tally₂ k j d (x ∷ xs) =
      let n = value_or 0 (lookup₂ (f x) (g x) d) + 1 in
      lookup₂-tally₂ k j (insert₂ (f x) (g x) n d) xs
      ∙ ground (
        arith,
        lookup₂-insert₂ k j (f x) (g x) n d,
        plus-bump (count_where (hits k j) xs) (lookup₂ k j d),
      )

  pub contains-mark_all₂ :
      (k j : K) (d : Dict K (KeySet K)) (xs : List A)
      → is_some (lookup₂ k j (mark_all₂ d xs))
        ≡ (ltb 0 (count_where (hits k j) xs) || is_some (lookup₂ k j d))
  unfolding mark_all₂
  contains-mark_all₂ k j d [] = refl
  contains-mark_all₂ k j d (x ∷ xs) =
      contains-mark_all₂ k j (insert₂ (f x) (g x) tt d) xs
      ∙ ground (arith, lookup₂-insert₂ k j (f x) (g x) tt d)

  pub tally₂-NodupKeys₂ :
      (d : Dict K (Dict K ℕ)) (xs : List A) → NodupKeys₂ d → NodupKeys₂ (tally₂ d xs)
  unfolding tally₂
  tally₂-NodupKeys₂ d [] u = u
  tally₂-NodupKeys₂ d (x ∷ xs) u =
      tally₂-NodupKeys₂ (insert₂ (f x) (g x) _ d) xs (insert₂-NodupKeys₂ (f x) (g x) _ d u)

  pub mark_all₂-NodupKeys₂ :
      (d : Dict K (KeySet K)) (xs : List A) → NodupKeys₂ d → NodupKeys₂ (mark_all₂ d xs)
  unfolding mark_all₂
  mark_all₂-NodupKeys₂ d [] u = u
  mark_all₂-NodupKeys₂ d (x ∷ xs) u =
      mark_all₂-NodupKeys₂ (insert₂ (f x) (g x) tt d) xs (insert₂-NodupKeys₂ (f x) (g x) tt d u)
