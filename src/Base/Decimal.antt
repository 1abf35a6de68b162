-- ===== src/Base/Decimal.antt =====
-- Decimal notation, as strconv.Itoa writes it.
use argo_workflows_metrics.Base.{
  ℕ, zero, suc, ◌/◌, ◌%◌, List, [], ◌∷◌, ◌++◌, String, ◌<>◌, ltb, if◌then◌else◌,
}
use argo_workflows_metrics.Base.Int.{ℤ, pos, negsuc}

-- The digits of n, the highest first. The first argument is fuel: n / 10 < n, so that n + 1 suffices.
unfoldable pub digits_within : ℕ → ℕ → List ℕ
digits_within zero n = []
digits_within (suc fuel) n =
    let rest = digits_within fuel (n / 10) in if ltb n 10 then n ∷ [] else rest ++ (n % 10 ∷ [])

unfoldable pub digits : ℕ → List ℕ
unfolding digits_within
digits n = digits_within (suc n) n

digit_text : ℕ → String
digit_text zero = "0"
digit_text (suc zero) = "1"
digit_text (suc (suc zero)) = "2"
digit_text (suc (suc (suc zero))) = "3"
digit_text (suc (suc (suc (suc zero)))) = "4"
digit_text (suc (suc (suc (suc (suc zero))))) = "5"
digit_text (suc (suc (suc (suc (suc (suc zero)))))) = "6"
digit_text (suc (suc (suc (suc (suc (suc (suc zero))))))) = "7"
digit_text (suc (suc (suc (suc (suc (suc (suc (suc zero)))))))) = "8"
digit_text _ = "9"

unfoldable pub text_of_digits : List ℕ → String
unfolding digit_text
text_of_digits [] = ""
text_of_digits (d ∷ ds) = digit_text d <> text_of_digits ds

unfoldable pub itoa : ℤ → String
unfolding digits text_of_digits
itoa (pos n) = text_of_digits (digits n)
itoa (negsuc n) = "-" <> text_of_digits (digits (suc n))
