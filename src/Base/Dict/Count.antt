-- ===== src/Base/Dict/Count.antt =====
-- Loops of the form `for x in xs { d[f(x)]++ }` and `d[f(x)] = struct{}{}`, and what they leave in
-- the map.
use argo_workflows_metrics.Base.{
  ℕ, zero, suc, ◌+◌, ◌≡◌, refl, ◌∙◌, Bool, ◌||◌, Option, some, List, [], ◌∷◌, arith, Eq, ◌==◌,
  if◌then◌else◌, value_or, ltb,
}
use argo_workflows_metrics.Base.Dict.{
  Dict, KeySet, lookup, insert, contains, NodupKeys, lookup-insert, insert-NodupKeys,
}

-- How many members pass a test.
abbrev pub count_where {ℓ} : {A : Type ℓ} → (A → Bool) → List A → ℕ
count_where p [] = 0
count_where p (x ∷ xs) = (if p x then 1 else 0) + count_where p xs

-- A counter raised n times; no entry is made for none.
abbrev pub plus : ℕ → Option ℕ → Option ℕ
plus zero o = o
plus (suc n) o = some (suc n + value_or 0 o)

pub plus-bump : (n : ℕ) (o : Option ℕ) → plus n (some (value_or 0 o + 1)) ≡ plus (1 + n) o
plus-bump zero o = ground arith
plus-bump (suc n) o = ground arith

module _ {κ} {K : Type κ} ⦃e : Eq K⦄ where
  -- `d[k]++`
  unfoldable pub increment : K → Dict K ℕ → Dict K ℕ
  increment k d = insert k (value_or 0 (lookup k d) + 1) d

  -- `d[k] = struct{}{}`
  unfoldable pub mark : K → KeySet K → KeySet K
  mark k d = insert k tt d

  pub lookup-increment :
      (j k : K) (d : Dict K ℕ)
      → lookup j (increment k d)
        ≡ (if j == k then some (value_or 0 (lookup j d) + 1) else lookup j d)
  unfolding increment
  lookup-increment j k d = ground (arith, lookup-insert j k (value_or 0 (lookup k d) + 1) d)

  pub contains-mark : (j k : K) (d : KeySet K) → contains j (mark k d) ≡ (j == k || contains j d)
  unfolding mark
  contains-mark j k d = ground (arith, lookup-insert j k tt d)

module _ {ℓ κ} {A : Type ℓ} {K : Type κ} ⦃e : Eq K⦄ (f : A → K) where
  unfoldable pub tally : Dict K ℕ → List A → Dict K ℕ
  tally d [] = d
  tally d (x ∷ xs) = tally (increment (f x) d) xs

  unfoldable pub mark_all : KeySet K → List A → KeySet K
  mark_all d [] = d
  mark_all d (x ∷ xs) = mark_all (mark (f x) d) xs

  pub lookup-tally :
      (k : K) (d : Dict K ℕ) (xs : List A)
      → lookup k (tally d xs) ≡ plus (count_where (λ x. k == f x) xs) (lookup k d)
  unfolding tally
  lookup-tally k d [] = refl
  lookup-tally k d (x ∷ xs) =
      lookup-tally k (increment (f x) d) xs
      ∙ ground (
        arith,
        lookup-increment k (f x) d,
        plus-bump (count_where (λ x. k == f x) xs) (lookup k d),
      )

  pub tally-NodupKeys : (d : Dict K ℕ) (xs : List A) → NodupKeys d → NodupKeys (tally d xs)
  unfolding tally increment
  tally-NodupKeys d [] u = u
  tally-NodupKeys d (x ∷ xs) u =
      tally-NodupKeys (increment (f x) d) xs (insert-NodupKeys (f x) _ d u)

  pub contains-mark_all :
      (k : K) (d : KeySet K) (xs : List A)
      → contains k (mark_all d xs) ≡ (ltb 0 (count_where (λ x. k == f x) xs) || contains k d)
  unfolding mark_all
  contains-mark_all k d [] = refl
  contains-mark_all k d (x ∷ xs) =
      contains-mark_all k (mark (f x) d) xs ∙ ground (arith, contains-mark k (f x) d)
