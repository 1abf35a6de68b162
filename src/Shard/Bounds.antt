-- ===== src/Shard/Bounds.antt =====
-- The configurations that the exporter starts with, and what their matchers do on every namespace.
use native.Mathlib.Nat.{mod-eq_of_lt, mul-mod_left}
use mathlib.Core.Option.{some-ne-none}
use argo_workflows_metrics.Base.{
  ℕ, suc, ◌*◌, ◌%◌, ◌^◌, ◌<◌, ◌≡◌, refl, sym, subst, ◌∙◌, ap, ◌≢◌, ◌⊎◌, inl, inr, true, false,
  Option, none, some, String, [], ◌∷◌, string_eq, nat_eq, arith,
}
use argo_workflows_metrics.Base.Int.{ℤ, pos, negsuc, ltb_ℤ, int_eq, ◌≤ℤ◌, ◌<ℤ◌}
use argo_workflows_metrics.Shard.{
  Result, ok, err, to_u32, namespace_shard, Matcher, base_matcher, shard_matcher, single_of,
  shard_of, sharded, resolve_shard_index, build_namespace_matcher, check_derived, index_after,
  index_read, derived_index, index_of_hostname,
}
use argo_workflows_metrics.Shard.Partition.{configured}
use argo_workflows_metrics.Shard.Bytes.{Text, atoi, after_last_dash}

abbrev pub InRange : ℤ → ℤ → Type 0
InRange total index = (pos 0 ≤ℤ index) × (index <ℤ total)

-- A result, if there is one, is in the range.
abbrev IsRanged : ℤ → Result ℤ → Type 0
IsRanged total (ok index) = InRange total index
IsRanged total (err e) = Unit

check_derived-IsRanged : (total index : ℤ) → IsRanged total (check_derived total index)
unfolding check_derived
check_derived-IsRanged total index = ground arith

index_after-IsRanged :
    (total : ℤ) (host : Text) (suffix : Option Text)
    → IsRanged total (index_after total host suffix)
index_after-IsRanged total host none = tt
index_after-IsRanged total host (some []) = tt
index_after-IsRanged total host (some (b ∷ bs)) = go (atoi (b ∷ bs))
  where
    go : (o : Option ℤ) → IsRanged total (index_read total host o)
    go none = tt
    go (some index) = check_derived-IsRanged total index

derived_index-IsRanged :
    (total : ℤ) (host : Option Text) → IsRanged total (derived_index total host)
unfolding index_of_hostname
derived_index-IsRanged total none = tt
derived_index-IsRanged total (some host) = index_after-IsRanged total host (after_last_dash host)

resolve-IsRanged :
    (host : Option Text) (total k : ℤ) → IsRanged total (resolve_shard_index host total k)
unfolding resolve_shard_index
resolve-IsRanged host total k = let h = derived_index-IsRanged total host in ground arith

-- A matcher, if there is one, is that of a configuration in range.
abbrev pub IsBuilt : String → ℤ → Result Matcher → Type 0
IsBuilt target total (err e) = Unit
IsBuilt target total (ok m) =
    ((total ≡ pos 1) × (m ≡ single_of target))
    ⊎ ((pos 1 <ℤ total) × InRange total m.index × (m ≡ shard_of target total m.index))

sharded-IsBuilt :
    (target : String) (total : ℤ) (r : Result ℤ)
    → pos 1 <ℤ total
    → IsRanged total r
    → IsBuilt target total (sharded target total r)
sharded-IsBuilt target total (ok index) h u = inr (h, u, refl)
sharded-IsBuilt target total (err e) h u = tt

more_than_one : (t : ℤ) → ltb_ℤ t (pos 1) ≡ false → t ≢ pos 1 → pos 1 <ℤ t
more_than_one (pos n) h e = let ne : n ≢ 1 = λ p. e (ap pos p) in ground arith
more_than_one (negsuc n) h e = ground arith

pub build-IsBuilt :
    (host : Option Text) (target : String) (total k : ℤ)
    → IsBuilt target total (build_namespace_matcher host target total k)
unfolding build_namespace_matcher
build-IsBuilt host target total k =
    let r = resolve-IsRanged host total k in
    ground
      (arith, more_than_one total, sharded-IsBuilt target total (resolve_shard_index host total k))

-- What a matcher that was built is.
built :
    (host : Option Text) (target : String) (total k : ℤ) (m : Matcher)
    → build_namespace_matcher host target total k ≡ ok m
    → IsBuilt target total (ok m)
built host target total k m e = subst (IsBuilt target total) e (build-IsBuilt host target total k)

-- Whatever the flags and the hostname, a configuration that is accepted has at least one shard and
-- an index in [0, total).
pub built-in_range :
    (host : Option Text) (target : String) (total k : ℤ) (m : Matcher)
    → build_namespace_matcher host target total k ≡ ok m
    → (pos 1 ≤ℤ total) × (pos 0 ≤ℤ m.index) × (m.index <ℤ total)
built-in_range host target total k m e = elim (built host target total k m e) [
  | inl (t, p) ↦ rw (t, p) (omega arith, omega arith, omega arith)
  | inr (h, u, p) ↦ (omega (arith, h), u.0, u.1)
]

to_u32_pos : (total : ℤ) → pos 1 <ℤ total → total <ℤ pos (2 ^ 32) → 0 < to_u32 total
to_u32_pos (pos n) h l =
    let e : n % 2 ^ 32 ≡ n = mod-eq_of_lt (omega (arith, l)) in rw e (omega (arith, h))
to_u32_pos (negsuc n) h l = ground arith

shard_matcher-is_some :
    (target : String) (total k : ℤ) (ns : String)
    → 0 < to_u32 total
    → shard_matcher target total k ns ≢ none
unfolding shard_matcher namespace_shard
shard_matcher-is_some target total k ns h = ground arith

single_of-answers : (target ns : String) → (single_of target).accepts ns ≢ none
single_of-answers target ns = some-ne-none _

-- Below 2^32 shards, the matcher of an accepted configuration answers on every namespace: it does
-- not panic.
pub built-answers :
    (host : Option Text) (target : String) (total k : ℤ) (m : Matcher) (ns : String)
    → build_namespace_matcher host target total k ≡ ok m
    → total <ℤ pos (2 ^ 32)
    → m.accepts ns ≢ none
built-answers host target total k m ns e l = elim (built host target total k m e) [
  | inl (t, p) ↦ λ x. single_of-answers target ns (ap (λ m'. m'.accepts ns) (sym p) ∙ x)
  | inr (h, u, p) ↦ rw p (shard_matcher-is_some target total m.index ns (to_u32_pos total h l))
]

-- With a total that is a positive multiple of 2^32 and index 0, the configuration is accepted and
-- its matcher panics, by a division by zero, on each watched namespace but the empty one.
pub wrapped-panics :
    (host : Option Text) (target ns : String) (k : ℕ)
    → base_matcher target ns ≡ true
    → ns ≢ ""
    → (m : Matcher) × (build_namespace_matcher host target (pos (suc k * 2 ^ 32)) (pos 0) ≡ ok m)
      × (m.accepts ns ≡ none)
unfolding shard_matcher namespace_shard
wrapped-panics host target ns k b e = (
  shard_of target (pos (suc k * 2 ^ 32)) (pos 0),
  configured host target (suc k * 2 ^ 32) 0 (omega arith) (omega arith),
  rw (b, mul-mod_left (suc k) (2 ^ 32)) (ground arith),
)
