-- ===== src/Shard/Bytes.antt =====
-- Go's strings as byte sequences, and the library functions of `hash/fnv`, `strings` and `strconv`
-- that the partition calls.
use Prim.Native.Char.{code}
use Prim.Native.Nat.{bit_xor}
use Prim.Native.String.{String}
use mathlib.Core.List.{foldl}
use argo_workflows_metrics.Base.{
  ℕ, ◌+◌, ◌-◌, ◌*◌, ◌/◌, ◌%◌, ◌^◌, Bool, true, false, ◌&&◌, Option, none, some, List, [], ◌∷◌, ◌++◌,
  nat_eq, ◌==◌, ltb, leb, if◌then◌else◌,
}
use argo_workflows_metrics.Base.Int.{ℤ, pos, negsuc}

abbrev pub Text : Type 0
Text = List ℕ

-- The UTF-8 bytes of a character.
abbrev utf8 : ℕ → Text
utf8 c =
    if ltb c 0x80
    then c ∷ []
    else if ltb c 0x800
    then (0xc0 + c / 64) ∷ (0x80 + c % 64) ∷ []
    else if ltb c 0x1_0000
    then (0xe0 + c / 4096) ∷ (0x80 + c / 64 % 64) ∷ (0x80 + c % 64) ∷ []
    else (0xf0 + c / 262144) ∷ (0x80 + c / 4096 % 64) ∷ (0x80 + c / 64 % 64) ∷ (0x80 + c % 64) ∷ []

-- `[]byte(s)`
unfoldable pub bytes : String → Text
bytes String.[] = []
bytes (String.◌∷◌ c s) = utf8 (code c) ++ bytes s

-- One byte of the FNV-1a hash, in 32 bits.
abbrev fnv_step : ℕ → ℕ → ℕ
fnv_step h b = bit_xor h b * 16_777_619 % 2 ^ 32

-- `fnv.New32a`, `Write`, `Sum32`
unfoldable pub fnv32a : Text → ℕ
fnv32a = foldl fnv_step 2_166_136_261

-- What follows the last dash: `host[strings.LastIndex(host, "-")+1:]`, and `none` with no dash.
unfoldable pub after_last_dash : Text → Option Text
after_last_dash [] = none
after_last_dash (b ∷ bs) = elim (after_last_dash bs) [
  | some suffix ↦ some suffix
  | none ↦ if b == b'-' then some bs else none
]

abbrev pub is_digit : ℕ → Bool
is_digit b = leb b'0' b && leb b b'9'

-- The number that the digits make, after those read so far.
unfoldable pub read_digits : ℕ → Text → Option ℕ
read_digits n [] = some n
read_digits n (b ∷ bs) =
    let rest = read_digits (n * 10 + (b - b'0')) bs in if is_digit b then rest else none

-- At least one digit.
unfoldable pub read_number : Text → Option ℕ
unfolding read_digits
read_number [] = none
read_number (b ∷ bs) = read_digits 0 (b ∷ bs)

-- A number that an int64 holds.
abbrev pub int_of : Bool → Option ℕ → Option ℤ
int_of negative none = none
int_of false (some n) = if ltb n (2 ^ 63) then some (pos n) else none
int_of true (some n) =
    if n == 0 then some (pos 0) else if leb n (2 ^ 63) then some (negsuc (n - 1)) else none

abbrev pub atoi_after : Text → Text → Option ℤ
atoi_after [] s = none
atoi_after (b ∷ bs) s =
    if b == b'-'
    then int_of true (read_number bs)
    else if b == b'+'
    then int_of false (read_number bs)
    else int_of false (read_number s)

-- `strconv.Atoi`; `none` is its error, of syntax or of range.
unfoldable pub atoi : Text → Option ℤ
unfolding read_number
atoi s = atoi_after s s
