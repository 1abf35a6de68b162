-- ===== src/Shard.antt =====
-- cmd/exporter/main.go: the partition of the namespaces among replicas, `buildNamespaceMatcher`,
-- `resolveShardIndex` and `namespaceShard`, with the library functions that they call.
pub mod Bytes
pub mod Partition
pub mod Bounds
pub mod Hostname
mod Tests
use mathlib.Core.Option
use argo_workflows_metrics.Base.{
  ℕ, ◌-◌, ◌%◌, ◌^◌, Bool, true, false, not, ◌||◌, Option, none, some, String, List, [], ◌∷◌, suc,
  string_eq, nat_eq, ◌==◌, ltb, leb, if◌then◌else◌,
}
use argo_workflows_metrics.Base.Int.{ℤ, pos, negsuc, ltb_ℤ, leb_ℤ, int_eq}
pub use Bytes.{Text}
use Bytes.{Text, bytes, fnv32a, after_last_dash, atoi}

-- The errors, each with the numbers and the text that its message shows.
pub data ConfigError : Type 0 where
  total_too_small index_not_single no_hostname : ConfigError
  index_out_of_range : ℤ → ConfigError
  no_index_in_hostname bad_suffix : Text → ConfigError
  derived_out_of_range : ℤ → ℤ → ConfigError

pub data Result {ℓ} (A : Type ℓ) : Type ℓ where
  ok : A → Result A
  err : ConfigError → Result A

-- `uint32(n)` of an int
abbrev pub to_u32 : ℤ → ℕ
to_u32 (pos n) = n % 2 ^ 32
to_u32 (negsuc n) = 2 ^ 32 - 1 - n % 2 ^ 32

-- `none` is the panic of a division by zero.
unfoldable pub namespace_shard : String → ℤ → Option ℕ
namespace_shard namespace total =
    if to_u32 total == 0 then none else some (fnv32a (bytes namespace) % to_u32 total)

-- An index that was read from the hostname, against the total.
unfoldable pub check_derived : ℤ → ℤ → Result ℤ
check_derived total index =
    if ltb_ℤ index (pos 0) || leb_ℤ total index
    then err (derived_out_of_range index total)
    else ok index

abbrev pub index_read : ℤ → Text → Option ℤ → Result ℤ
index_read total host none = err (bad_suffix host)
index_read total host (some index) = check_derived total index

abbrev pub index_after : ℤ → Text → Option Text → Result ℤ
index_after total host none = err (no_index_in_hostname host)
index_after total host (some []) = err (no_index_in_hostname host)
index_after total host (some (b ∷ suffix)) = index_read total host (atoi (b ∷ suffix))

-- The index behind the last dash of the hostname, a StatefulSet pod's number.
unfoldable pub index_of_hostname : ℤ → Text → Result ℤ
index_of_hostname total host = index_after total host (after_last_dash host)

abbrev pub derived_index : ℤ → Option Text → Result ℤ
derived_index total none = err no_hostname
derived_index total (some host) = index_of_hostname total host

-- `hostname` is what `os.Hostname` returns, `none` its error.
unfoldable pub resolve_shard_index : Option Text → ℤ → ℤ → Result ℤ
resolve_shard_index hostname total configured =
    if leb_ℤ (pos 0) configured
    then (if leb_ℤ total configured then err (index_out_of_range total) else ok configured)
    else derived_index total hostname

pub data Mode : Type 0 where
  single shard : Mode

-- The matcher may panic, as `namespaceShard` may.
pub record Matcher : Type 0 where
  pub accepts : String → Option Bool
  pub mode : Mode
  pub index : ℤ

unfoldable pub base_matcher : String → String → Bool
base_matcher target namespace = if target == "" then true else namespace == target

unfoldable pub shard_matcher : String → ℤ → ℤ → String → Option Bool
unfolding base_matcher namespace_shard
shard_matcher target total index namespace =
    if not (base_matcher target namespace)
    then some false
    else if namespace == ""
    then some false
    else Option.map (λ n. pos n == index) (namespace_shard namespace total)

abbrev pub single_of : String → Matcher
single_of target = record {
  accepts = λ ns. some (base_matcher target ns);
  mode = single;
  index = pos 0;
}

abbrev pub shard_of : String → ℤ → ℤ → Matcher
shard_of target total index = record {
  accepts = shard_matcher target total index;
  mode = shard;
  index = index;
}

abbrev pub sharded : String → ℤ → Result ℤ → Result Matcher
sharded target total (err e) = err e
sharded target total (ok index) = ok (shard_of target total index)

unfoldable pub build_namespace_matcher : Option Text → String → ℤ → ℤ → Result Matcher
build_namespace_matcher hostname target total index =
    if ltb_ℤ total (pos 1)
    then err total_too_small
    else if total == pos 1
    then (if ltb_ℤ (pos 0) index then err index_not_single else ok (single_of target))
    else sharded target total (resolve_shard_index hostname total index)
