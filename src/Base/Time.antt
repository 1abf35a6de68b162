-- ===== src/Base/Time.antt =====
-- Package time of the Go library, as the exporter uses it. A `Time` is the number of nanoseconds
-- since the zero Time (1 January of year 1, UTC); a `Duration` is an int64 number of nanoseconds.
use argo_workflows_metrics.Base.{ℕ, ◌+◌, ◌-◌, ◌/◌, ◌^◌, ◌≤◌, Bool, arith, ltb, nat_eq, ◌==◌}
use argo_workflows_metrics.Base.{if◌then◌else◌, ◌≡◌}
use argo_workflows_metrics.Base.Int.{ℤ, pos, negsuc, sub_ℕ, ltb_ℤ}

abbrev pub Time : Type 0
Time = ℕ

abbrev pub Duration : Type 0
Duration = ℤ

abbrev pub second : ℕ
second = 1_000_000_000

abbrev pub zero_time : Time
zero_time = 0

abbrev pub is_zero : Time → Bool
is_zero t = t == zero_time

-- `a.After(b)`
abbrev pub after : Time → Time → Bool
after a b = ltb b a

abbrev pub max_duration : Duration
max_duration = pos (2 ^ 63 - 1)

abbrev pub min_duration : Duration
min_duration = negsuc (2 ^ 63 - 1)

-- `a.Sub(b)`, which stops at the ends of the int64 range.
unfoldable pub sub : Time → Time → Duration
sub a b =
    let d = sub_ℕ a b in
    if ltb_ℤ max_duration d then max_duration else if ltb_ℤ d min_duration then min_duration else d

-- Seconds from the zero Time to the Unix epoch.
abbrev pub epoch : ℕ
epoch = 62_135_596_800

-- `t.Unix()`
unfoldable pub unix : Time → ℤ
unix t = sub_ℕ (t / second) epoch

-- The differences that the exporter meets are exact: 2^63 nanoseconds are 292 years.
pub sub_exact : (a b : Time) → b ≤ a → a ≤ b + (2 ^ 63 - 1) → sub a b ≡ pos (a - b)
unfolding sub
sub_exact a b h k = ground arith
