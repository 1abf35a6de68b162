-- ===== src/Base/Lists.antt =====
-- Lists measured by the native numbers, and a predicate on all the members of a list.
use Prim.Native.Nat.{ℕ, zero, suc, ◌+◌}
use mathlib.Core.Path.{◌≡◌}
use mathlib.Core.List.{List, [], ◌∷◌, ◌++◌}
use mathlib.Core.Option.{Option, none, some}
use mathlib.Core.Bool.{Bool, true, false, cond}
use native.Mathlib.Omega.{arith}

module _ {ℓ} {A : Type ℓ} where
  abbrev pub length : List A → ℕ
  length [] = 0
  length (x ∷ xs) = suc (length xs)

  abbrev pub get_elem? : List A → ℕ → Option A
  get_elem? [] i = none
  get_elem? (x ∷ xs) zero = some x
  get_elem? (x ∷ xs) (suc i) = get_elem? xs i

  pub length-append : (xs ys : List A) → length (xs ++ ys) ≡ length xs + length ys
  length-append [] ys = omega arith
  length-append (x ∷ xs) ys = omega (arith, length-append xs ys)

  abbrev pub All {κ} : (A → Type κ) → List A → Type κ
  All P [] = Unit
  All P (x ∷ xs) = P x × All P xs

  pub All-append {κ} : (P : A → Type κ) (xs ys : List A) → All P xs → All P ys → All P (xs ++ ys)
  All-append P [] ys hx hy = hy
  All-append P (x ∷ xs) ys hx hy = (hx.0, All-append P xs ys hx.1 hy)

pub All-cond {ℓ κ} :
    {A : Type ℓ} (P : A → Type κ) (b : Bool) (xs ys : List A)
    → All P xs
    → All P ys
    → All P (cond b xs ys)
All-cond P true xs ys hx hy = hx
All-cond P false xs ys hx hy = hy

-- A list of at most one member.
pub All-cond-one {ℓ κ} :
    {A : Type ℓ} (P : A → Type κ) (b : Bool) (x : A) → P x → All P (cond b [] (x ∷ []))
All-cond-one P true x h = tt
All-cond-one P false x h = (h, tt)

-- One list of results for each member, joined in order.
module _ {ℓ} {A : Type ℓ} where
  abbrev pub concat_map {κ} : {B : Type κ} → (A → List B) → List A → List B
  concat_map f [] = []
  concat_map f (x ∷ xs) = f x ++ concat_map f xs

pub All-concat_map {ℓ κ ν} :
    {A : Type ℓ} {B : Type κ} (P : B → Type ν) (f : A → List B) (xs : List A)
    → ((x : A) → All P (f x))
    → All P (concat_map f xs)
All-concat_map P f [] h = tt
All-concat_map P f (x ∷ xs) h = All-append P (f x) (concat_map f xs) (h x) (All-concat_map P f xs h)

pub All-concat_map_mem {ℓ κ ν μ} :
    {A : Type ℓ} {B : Type κ} (Q : A → Type μ) (P : B → Type ν) (f : A → List B) (xs : List A)
    → ((x : A) → Q x → All P (f x))
    → All Q xs
    → All P (concat_map f xs)
All-concat_map_mem Q P f [] h q = tt
All-concat_map_mem Q P f (x ∷ xs) h q =
    All-append P (f x) (concat_map f xs) (h x q.0) (All-concat_map_mem Q P f xs h q.1)

-- Members that satisfy a predicate satisfy a weaker one.
pub All-map {ℓ κ ν} :
    {A : Type ℓ} (P : A → Type κ) (Q : A → Type ν) (xs : List A)
    → ((x : A) → P x → Q x)
    → All P xs
    → All Q xs
All-map P Q [] h p = tt
All-map P Q (x ∷ xs) h p = (h x p.0, All-map P Q xs h p.1)

pub All-zip {ℓ κ ν} :
    {A : Type ℓ} (P : A → Type κ) (Q : A → Type ν) (xs : List A)
    → All P xs
    → All Q xs
    → All (λ x. P x × Q x) xs
All-zip P Q [] p q = tt
All-zip P Q (x ∷ xs) p q = ((p.0, q.0), All-zip P Q xs p.1 q.1)
