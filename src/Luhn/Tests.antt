-- ===== src/Luhn/Tests.antt =====
-- Runs of the Luhn test, and its theorems at concrete numbers.
use rtz_server.Base.{ℕ, ◌≡◌, refl, ◌∷◌, [], true, false, arith, ◌<◌, ◌+◌, ◌%◌, ◌==◌, ◌⊎◌}
use rtz_server.Base.Int.{pos, negsuc}
use rtz_server.Luhn.{luhn_valid}
use rtz_server.Luhn.Digits.{value, luhn_sum, luhn_valid-luhn_sum}
use rtz_server.Luhn.Detection.{check_digit_unique, single_error_detected, transposition_detected}

imei_runs :
    (luhn_valid (pos 490154203237518) ≡ true)
    × (luhn_valid (pos 490154203237517) ≡ false)
    × (luhn_valid (pos 0) ≡ true)
    × (luhn_valid (negsuc 19) ≡ true)
    × (luhn_valid (negsuc 17) ≡ false)
unfolding luhn_valid
imei_runs = (refl, refl, refl, refl, refl)

luhn_valid-luhn_sum_example :
    luhn_valid (pos (value (8 ∷ 1 ∷ []))) ≡ ((8 + luhn_sum true (1 ∷ [])) % 10 == 0)
luhn_valid-luhn_sum_example = luhn_valid-luhn_sum 8 (1 ∷ []) (omega arith) (omega arith)

check_digit_unique_example :
    (c : ℕ) × (c < 10)
    × (luhn_valid (pos (value (c ∷ 1 ∷ []))) ≡ true)
    × ((c' : ℕ) → c' < 10 → luhn_valid (pos (value (c' ∷ 1 ∷ []))) ≡ true → c' ≡ c)
check_digit_unique_example = check_digit_unique (1 ∷ []) (omega arith)

single_error_detected_example : ◌≡◌ {A = ℕ} 8 8
unfolding luhn_valid
single_error_detected_example =
    single_error_detected [] (1 ∷ []) 8 8 (omega arith) (omega arith) refl refl

transposition_detected_example :
    ◌≡◌ {A = ℕ} 0 9 ⊎ ((◌≡◌ {A = ℕ} 0 0 × ◌≡◌ {A = ℕ} 9 9) ⊎ (◌≡◌ {A = ℕ} 0 9 × ◌≡◌ {A = ℕ} 9 0))
unfolding luhn_valid
transposition_detected_example =
    transposition_detected (1 ∷ []) (0 ∷ []) 0 9 (omega arith) (omega arith) refl refl
