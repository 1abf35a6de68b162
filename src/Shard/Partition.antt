-- ===== src/Shard/Partition.antt =====
-- The replicas of one configuration and the namespaces: who accepts what, and when the matcher panics.
use native.Mathlib.Nat.{mod-lt, mod-eq_of_lt}
use argo_workflows_metrics.Base.{
  ℕ, ◌%◌, ◌^◌, ◌≤◌, ◌<◌, ◌≡◌, ◌≢◌, ap, true, Option, some, String, string_eq, nat_eq, ◌==◌, arith,
}
use argo_workflows_metrics.Base.Int.{pos, pos_part, int_eq}
use argo_workflows_metrics.Shard.{
  ok, namespace_shard, Matcher, base_matcher, shard_matcher, shard_of, resolve_shard_index,
  build_namespace_matcher,
}
use argo_workflows_metrics.Shard.Bytes.{Text, bytes, fnv32a}

pos-inj : {a b : ℕ} → pos a ≡ pos b → a ≡ b
pos-inj e = ap pos_part e

-- The matcher of a replica whose index is configured and in range.
pub configured :
    (host : Option Text) (target : String) (n j : ℕ)
    → 2 ≤ n
    → j < n
    → build_namespace_matcher host target (pos n) (pos j) ≡ ok (shard_of target (pos n) (pos j))
unfolding build_namespace_matcher resolve_shard_index
configured host target n j h l =
    let ne : pos n ≢ pos 1 = λ e. omega (arith, pos-inj e) in ground arith

-- The number of a non-empty namespace, when the total fits 32 bits.
namespace_shard_lem :
    (ns : String) (n : ℕ)
    → 1 ≤ n
    → n < 2 ^ 32
    → namespace_shard ns (pos n) ≡ some (fnv32a (bytes ns) % n)
unfolding namespace_shard
namespace_shard_lem ns n h l = rw (mod-eq_of_lt l) (ground arith)

matched :
    (target ns : String) (n i : ℕ)
    → 1 ≤ n
    → n < 2 ^ 32
    → base_matcher target ns ≡ true
    → ns ≢ ""
    → shard_matcher target (pos n) (pos i) ns ≡ some (pos (fnv32a (bytes ns) % n) == pos i)
unfolding shard_matcher
matched target ns n i h l b e = rw (b, namespace_shard_lem ns n h l) (ground arith)

-- With n shards, 2 ≤ n < 2^32, and each index configured on one replica, every watched non-empty
-- namespace has exactly one owner: there is an index i < n such that for each j < n the
-- configuration is accepted, and its matcher accepts the namespace exactly when j is i.
pub assigned_once :
    (host : Option Text) (target ns : String) (n : ℕ)
    → 2 ≤ n
    → n < 2 ^ 32
    → base_matcher target ns ≡ true
    → ns ≢ ""
    → (i : ℕ) × (i < n)
      × ((j : ℕ)
          → j < n
          → (m : Matcher) × (build_namespace_matcher host target (pos n) (pos j) ≡ ok m)
            × (m.accepts ns ≡ some (pos i == pos j)))
assigned_once host target ns n h l b e = (
  fnv32a (bytes ns) % n,
  mod-lt (fnv32a (bytes ns)) (omega arith),
  λ j u. (
    shard_of target (pos n) (pos j),
    configured host target n j h u,
    matched target ns n j (omega arith) l b e,
  ),
)
