-- ===== src/Shard/Tests.antt =====
-- Runs of the partition on concrete configurations, and instances of its theorems.
use text.Mathlib.TextEquality.{eq_iff}
use argo_workflows_metrics.Base.{
  ℕ, ◌^◌, ◌*◌, ◌≡◌, refl, ◌≢◌, ◌<◌, true, none, some, String, ◌∷◌, ◌++◌, string_eq, nat_eq, ◌==◌,
  arith,
}
use argo_workflows_metrics.Base.Int.{pos, negsuc, ◌≤ℤ◌, ◌<ℤ◌, int_eq}
use argo_workflows_metrics.Shard.{
  ok, err, no_hostname, index_out_of_range, base_matcher, resolve_shard_index, Matcher,
  build_namespace_matcher, shard_of, single_of,
}
use argo_workflows_metrics.Shard.Bytes.{bytes, fnv32a, atoi}
use argo_workflows_metrics.Shard.Partition.{assigned_once, configured}
use argo_workflows_metrics.Shard.Bounds.{built-in_range, built-answers, wrapped-panics}
use argo_workflows_metrics.Shard.Hostname.{decimal, resolve-decimal}

-- The published values of the hash.
fnv32a_empty : fnv32a (bytes "") ≡ 2_166_136_261
unfolding fnv32a bytes
fnv32a_empty = refl

fnv32a_a : fnv32a (bytes "a") ≡ 0xe40c_292c
unfolding fnv32a bytes
fnv32a_a = refl

fnv32a_foobar : fnv32a (bytes "foobar") ≡ 0xbf9c_f968
unfolding fnv32a bytes
fnv32a_foobar = refl

atoi_signed : atoi (bytes "-12") ≡ some (negsuc 11)
unfolding atoi bytes nat_eq
atoi_signed = refl

-- A single shard takes any negative index, where the message names only -1.
single_negative : build_namespace_matcher none "" (pos 1) (negsuc 4) ≡ ok (single_of "")
unfolding build_namespace_matcher int_eq
single_negative = refl

no_host : resolve_shard_index none (pos 3) (negsuc 0) ≡ err no_hostname
unfolding resolve_shard_index
no_host = refl

out_of_range : resolve_shard_index none (pos 3) (pos 3) ≡ err (index_out_of_range (pos 3))
unfolding resolve_shard_index
out_of_range = refl

team_ne : ◌≢◌ {A = String} "team-a" ""
team_ne = ground (arith, eq_iff "team-a" "")

all_watched : base_matcher "" "team-a" ≡ true
unfolding base_matcher string_eq
all_watched = refl

assigned_once_example :
    (i : ℕ) × (i < 3)
    × ((j : ℕ)
        → j < 3
        → (m : Matcher) × (build_namespace_matcher none "" (pos 3) (pos j) ≡ ok m)
          × (m.accepts "team-a" ≡ some (pos i == pos j)))
assigned_once_example =
    assigned_once none "" "team-a" 3 (omega arith) (omega arith) all_watched team_ne

built_example : build_namespace_matcher none "" (pos 3) (pos 2) ≡ ok (shard_of "" (pos 3) (pos 2))
built_example = configured none "" 3 2 (omega arith) (omega arith)

built-in_range_holds : (pos 1 ≤ℤ pos 3) × (pos 0 ≤ℤ pos 2) × (pos 2 <ℤ pos 3)
built-in_range_holds =
    built-in_range none "" (pos 3) (pos 2) (shard_of "" (pos 3) (pos 2)) built_example

built-answers_example : (shard_of "" (pos 3) (pos 2)).accepts "team-a" ≢ none
built-answers_example =
    built-answers none "" (pos 3) (pos 2) (shard_of "" (pos 3) (pos 2)) "team-a" built_example
      (omega arith)

wrapped-panics_example :
    (m : Matcher) × (build_namespace_matcher none "" (pos (1 * 2 ^ 32)) (pos 0) ≡ ok m)
    × (m.accepts "team-a" ≡ none)
wrapped-panics_example = wrapped-panics none "" "team-a" 0 all_watched team_ne

resolve-decimal_example :
    resolve_shard_index (some (bytes "exporter" ++ (b'-' ∷ decimal 12))) (pos 20) (negsuc 0)
    ≡ ok (pos 12)
resolve-decimal_example = resolve-decimal (bytes "exporter") 12 20 0 (omega arith) (omega arith)
