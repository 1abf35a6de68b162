-- ===== src/Shard/Hostname.antt =====
-- The index that a StatefulSet's pod reads from its hostname: the number at its end, printed by
-- Kubernetes in decimal, is read back.
use argo_workflows_metrics.Base.{
  ℕ, zero, suc, ◌+◌, ◌-◌, ◌*◌, ◌/◌, ◌%◌, ◌^◌, ◌≤◌, ◌<◌, ◌≡◌, refl, ap, ◌∙◌, none, some, List, [],
  ◌∷◌, ◌++◌, map, All, All-append, arith, nat_eq, ltb, Bool-cases, inl, inr, ltb→lt, subst,
}
use argo_workflows_metrics.Base.Int.{pos, negsuc}
use argo_workflows_metrics.Base.Decimal.{digits, digits_within}
use argo_workflows_metrics.Shard.{
  ok, check_derived, index_after, index_of_hostname, resolve_shard_index,
}
use argo_workflows_metrics.Shard.Bytes.{Text, after_last_dash, read_digits, read_number, atoi}

-- The bytes of a list of digits.
abbrev digit_byte : ℕ → ℕ
digit_byte d = d + b'0'

abbrev pub decimal : ℕ → Text
decimal n = map digit_byte (digits n)

abbrev IsDigit : ℕ → Type 0
IsDigit d = d < 10

-- The number of some digits, after those read so far.
abbrev number : ℕ → List ℕ → ℕ
number n [] = n
number n (d ∷ ds) = number (n * 10 + d) ds

read_digits-map :
    (n : ℕ) (ds : List ℕ) → All IsDigit ds → read_digits n (map digit_byte ds) ≡ some (number n ds)
unfolding read_digits
read_digits-map n [] h = refl
read_digits-map n (d ∷ ds) h =
    let e : d + b'0' - b'0' ≡ d = omega arith in
    rw e (let r = read_digits-map (n * 10 + d) ds h.1 in ground arith)

number-append : (n : ℕ) (ds : List ℕ) (d : ℕ) → number n (ds ++ (d ∷ [])) ≡ number n ds * 10 + d
number-append n [] d = refl
number-append n (e ∷ ds) d = number-append (n * 10 + e) ds d

digits_within-All : (fuel n : ℕ) → All IsDigit (digits_within fuel n)
unfolding digits_within
digits_within-All zero n = tt
digits_within-All (suc fuel) n = elim (Bool-cases (ltb n 10)) [
  | inl e ↦ rw e (ltb→lt n 10 e, tt)
  | inr e ↦ rw e (
      All-append IsDigit (digits_within fuel (n / 10)) (n % 10 ∷ [])
        (digits_within-All fuel (n / 10)) (omega arith, tt))
]

-- Enough fuel gives digits that make the number again.
number-digits_within : (fuel n : ℕ) → n < fuel → number 0 (digits_within fuel n) ≡ n
unfolding digits_within
number-digits_within zero n h = omega (arith, h)
number-digits_within (suc fuel) n h = elim (Bool-cases (ltb n 10)) [
  | inl e ↦ rw e (omega arith)
  | inr e ↦
      let g : 10 ≤ n = ground arith in
      let r = number-digits_within fuel (n / 10) (omega (arith, g, h)) in
      rw (e, number-append 0 (digits_within fuel (n / 10)) (n % 10), r) (omega arith)
]

number-digits : (n : ℕ) → number 0 (digits n) ≡ n
unfolding digits
number-digits n = number-digits_within (suc n) n (omega arith)

digits-All : (n : ℕ) → All IsDigit (digits n)
unfolding digits
digits-All n = digits_within-All (suc n) n

append-cons : (ds : List ℕ) (d : ℕ) → (e : ℕ) × (es : List ℕ) × (ds ++ (d ∷ []) ≡ e ∷ es)
append-cons [] d = (d, [], refl)
append-cons (e ∷ ds) d = (e, ds ++ (d ∷ []), refl)

digits-cons : (n : ℕ) → (d : ℕ) × (ds : List ℕ) × (digits n ≡ d ∷ ds)
unfolding digits digits_within
digits-cons n = elim (Bool-cases (ltb n 10)) [
  | inl e ↦ (n, [], rw e refl)
  | inr e ↦ rw e (append-cons (digits_within n (n / 10)) (n % 10))
]

no_dash : (ds : List ℕ) → after_last_dash (map digit_byte ds) ≡ none
unfolding after_last_dash
no_dash [] = refl
no_dash (d ∷ ds) = rw (no_dash ds) (ground arith)

-- Nothing before the last dash counts.
after_last_dash-append :
    (prefix : Text) (ds : List ℕ)
    → after_last_dash (prefix ++ (b'-' ∷ map digit_byte ds)) ≡ some (map digit_byte ds)
unfolding after_last_dash
after_last_dash-append [] ds = rw (after_last_dash, no_dash ds) (ground arith)
after_last_dash-append (b ∷ prefix) ds = rw (after_last_dash, after_last_dash-append prefix ds) refl

-- A printed number that an int64 holds is read back.
pub atoi-decimal : (n : ℕ) → n < 2 ^ 63 → atoi (decimal n) ≡ some (pos n)
unfolding atoi read_number
atoi-decimal n l =
    let (d, ds, e) = digits-cons n in
    let r : read_digits 0 (map digit_byte (d ∷ ds)) ≡ some n =
      subst (λ t. read_digits 0 (map digit_byte t) ≡ some n) e
        (read_digits-map 0 (digits n) (digits-All n) ∙ ap some (number-digits n)) in
    rw e (ground arith)

-- The number that was read, when it is in range.
read-decimal :
    (host : Text) (i n : ℕ)
    → i < n
    → n ≤ 2 ^ 63
    → index_after (pos n) host (some (decimal i)) ≡ ok (pos i)
unfolding check_derived
read-decimal host i n l u =
    let (d, ds, e) = digits-cons i in
    let r : atoi (map digit_byte (d ∷ ds)) ≡ some (pos i) =
      subst (λ t. atoi (map digit_byte t) ≡ some (pos i)) e
        (atoi-decimal i (omega (arith, l, u))) in
    rw (e, r) (ground arith)

-- With a negative index configured, a replica whose hostname is any prefix, a dash and a number i
-- in decimal, with i below the total and the total at most 2^63, gets the index i.
pub resolve-decimal :
    (prefix : Text) (i n k : ℕ)
    → i < n
    → n ≤ 2 ^ 63
    → resolve_shard_index (some (prefix ++ (b'-' ∷ decimal i))) (pos n) (negsuc k) ≡ ok (pos i)
unfolding resolve_shard_index index_of_hostname check_derived
resolve-decimal prefix i n k l u =
    let host = prefix ++ (b'-' ∷ decimal i) in
    rw (after_last_dash-append prefix (digits i), read-decimal host i n l u) (ground arith)
