-- ===== src/Base/Dict/Visits.antt =====
-- A visit to every entry of a map, in the order of its list: where the steps commute, the order does
-- not matter.
use argo_workflows_metrics.Base.{
  ◌≡◌, refl, sym, ap, ◌∙◌, none, some, [], ◌∷◌, arith, Eq, ◌==◌, Bool-cases, inl, inr,
}
use argo_workflows_metrics.Base.Dict.{
  Dict, lookup, insert, erase, NodupKeys, lookup-insert, lookup-erase, erase-NodupKeys,
}

module _ {ℓ κ} {K : Type ℓ} {V : Type κ} ⦃e : Eq K⦄ where
  -- The same map, whatever the orders.
  abbrev pub Same : Dict K V → Dict K V → Type (ℓ ⊔ κ)
  Same d d' = (k : K) → lookup k d ≡ lookup k d'

  pub insert-Same :
      (k : K) (v : V) (d d' : Dict K V) → Same d d' → Same (insert k v d) (insert k v d')
  insert-Same k v d d' h j = rw (lookup-insert j k v d, lookup-insert j k v d', h j) refl

  pub erase-Same : (k : K) (d d' : Dict K V) → Same d d' → Same (erase k d) (erase k d')
  erase-Same k d d' h j = rw (lookup-erase j k d, lookup-erase j k d', h j) refl

  erase_missing : (k : K) (d : Dict K V) → lookup k d ≡ none → erase k d ≡ d
  unfolding erase lookup
  erase_missing k [] h = refl
  erase_missing k ((j, w) ∷ d) h = ground (arith, erase_missing k d)

  module _ {μ} {S : Type μ} (g : K × V → S → S) where
    abbrev pub visit : S → Dict K V → S
    visit s [] = s
    visit s (x ∷ d) = visit (g x s) d

    module _ (commutes : (x y : K × V) (s : S) → g x (g y s) ≡ g y (g x s)) where
      visit-erase :
          (k : K) (v : V) (s : S) (d : Dict K V)
          → NodupKeys d
          → lookup k d ≡ some v
          → visit s d ≡ visit (g (k, v) s) (erase k d)
      unfolding erase lookup
      visit-erase k v s [] u h = absurd (cc)
      visit-erase k v s ((j, w) ∷ d) u h = elim (Bool-cases (k == j)) [
        | inl p ↦ ground (arith, erase_missing k d)
        | inr p ↦
            let h' : lookup k d ≡ some v = ground arith in
            let r =
              visit-erase k v (g (j, w) s) d u.1 h'
              ∙ ap (λ t. visit t (erase k d)) (commutes (k, v) (j, w) s) in
            rw p r
      ]

      -- Over two orders of one map a visit gives the same.
      pub visit-Same :
          (s : S) (d d' : Dict K V)
          → NodupKeys d
          → NodupKeys d'
          → Same d d'
          → visit s d ≡ visit s d'
      unfolding lookup
      visit-Same s [] [] u u' h = refl
      visit-Same s [] ((j, w) ∷ d') u u' h = absurd (ground (arith, h j))
      visit-Same s ((k, v) ∷ d) d' u u' h =
          visit-Same (g (k, v) s) d (erase k d') u.1 (erase-NodupKeys k d' u')
            (λ j. ground (arith, h j, lookup-erase j k d'))
          ∙ sym (visit-erase k v s d' u' (ground (arith, h k)))
