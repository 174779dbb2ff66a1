-- ===== src/Luhn/Detection.antt =====
-- What the Luhn test of internal/utils/checksum.go detects.
use rtz_server.Base.{
  ℕ, ◌+◌, ◌*◌, ◌-◌, ◌/◌, ◌%◌, ◌<◌, ◌≡◌, refl, sym, ◌∙◌, List, [], ◌∷◌, ◌++◌, Bool, true, false,
  arith, All-append_right, ==_iff, ◌⊎◌,
}
use rtz_server.Base.Int.{pos}
use rtz_server.Luhn.{luhn_valid}
use rtz_server.Luhn.Digits.{value, AreDigits, weight, flip, luhn_sum, luhn_valid-luhn_sum}

valid_lem :
    (ds : List ℕ) → AreDigits ds → luhn_valid (pos (value ds)) ≡ true → luhn_sum false ds % 10 ≡ 0
unfolding luhn_sum
valid_lem [] h v = refl
valid_lem (c ∷ ds) (hc, h) v = (==_iff _ 0).0 (sym (luhn_valid-luhn_sum c ds hc h) ∙ v)

-- For any decimal digits there is exactly one digit that, put behind them, makes the number valid.
pub check_digit_unique :
    (ds : List ℕ)
    → AreDigits ds
    → (c : ℕ) × (c < 10)
      × (luhn_valid (pos (value (c ∷ ds))) ≡ true)
      × ((c' : ℕ) → c' < 10 → luhn_valid (pos (value (c' ∷ ds))) ≡ true → c' ≡ c)
check_digit_unique ds h =
    let s = luhn_sum true ds in
    let c : ℕ = (10 - s % 10) % 10 in
    let small : c < 10 = omega arith in
    (
      c,
      small,
      luhn_valid-luhn_sum c ds small h ∙ (==_iff _ 0).1 (omega arith),
      λ c' hc v.
          let zero_sum : (c' + s) % 10 ≡ 0 =
            (==_iff _ 0).0 (sym (luhn_valid-luhn_sum c' ds hc h) ∙ v) in
          omega arith,
    )

parity : Bool → List ℕ → Bool
parity b [] = b
parity b (x ∷ xs) = parity (flip b) xs

luhn_sum-append :
    (b : Bool) (xs ys : List ℕ) → luhn_sum b (xs ++ ys) ≡ luhn_sum b xs + luhn_sum (parity b xs) ys
unfolding luhn_sum parity
luhn_sum-append b [] ys = omega arith
luhn_sum-append b (x ∷ xs) ys = omega (arith, luhn_sum-append (flip b) xs ys)

weight_injective :
    (b : Bool) (x y k : ℕ) → x < 10 → y < 10 → (k + weight b x) % 10 ≡ (k + weight b y) % 10 → x ≡ y
weight_injective true x y k hx hy e = ground arith
weight_injective false x y k hx hy e = omega arith

exchange_digits :
    (a b : ℕ)
    → a < 10
    → b < 10
    → (2 * a / 10 + 2 * a % 10 + b) % 10 ≡ (2 * b / 10 + 2 * b % 10 + a) % 10
    → (a ≡ b) ⊎ (((a ≡ 0) × (b ≡ 9)) ⊎ ((a ≡ 9) × (b ≡ 0)))
exchange_digits a b ha hb e = ground arith

weight_exchange :
    (p : Bool) (a b k : ℕ)
    → a < 10
    → b < 10
    → (k + weight p a + weight (flip p) b) % 10 ≡ (k + weight p b + weight (flip p) a) % 10
    → (a ≡ b) ⊎ (((a ≡ 0) × (b ≡ 9)) ⊎ ((a ≡ 9) × (b ≡ 0)))
weight_exchange true a b k ha hb e = exchange_digits a b ha hb (omega arith)
weight_exchange false a b k ha hb e = exchange_digits a b ha hb (omega arith)

sum_at :
    (xs ys : List ℕ) (a : ℕ)
    → luhn_sum false (xs ++ a ∷ ys)
      ≡ luhn_sum false xs + luhn_sum (flip (parity false xs)) ys + weight (parity false xs) a
sum_at xs ys a = luhn_sum-append false xs (a ∷ ys) ∙ unfold luhn_sum in omega arith

sum_at_two :
    (xs ys : List ℕ) (a b : ℕ)
    → luhn_sum false (xs ++ a ∷ b ∷ ys)
      ≡ luhn_sum false xs
        + luhn_sum (flip (flip (parity false xs))) ys
        + weight (parity false xs) a
        + weight (flip (parity false xs)) b
sum_at_two xs ys a b = luhn_sum-append false xs (a ∷ b ∷ ys) ∙ unfold luhn_sum in omega arith

-- Two valid numbers whose decimal digits are the same but at one place are the same there too.
pub single_error_detected :
    (xs ys : List ℕ) (a b : ℕ)
    → AreDigits (xs ++ a ∷ ys)
    → AreDigits (xs ++ b ∷ ys)
    → luhn_valid (pos (value (xs ++ a ∷ ys))) ≡ true
    → luhn_valid (pos (value (xs ++ b ∷ ys))) ≡ true
    → a ≡ b
single_error_detected xs ys a b ha hb va vb =
    let p = parity false xs in
    let (small_a, _) = All-append_right (λ d. d < 10) xs (a ∷ ys) ha in
    let (small_b, _) = All-append_right (λ d. d < 10) xs (b ∷ ys) hb in
    weight_injective p a b (luhn_sum false xs + luhn_sum (flip p) ys) small_a small_b (
      omega (
        arith,
        valid_lem (xs ++ a ∷ ys) ha va,
        valid_lem (xs ++ b ∷ ys) hb vb,
        sum_at xs ys a,
        sum_at xs ys b,
      ))

-- If a number and the one with two neighbouring digits exchanged are both valid, the two digits are
-- equal, or they are 0 and 9.
pub transposition_detected :
    (xs ys : List ℕ) (a b : ℕ)
    → AreDigits (xs ++ a ∷ b ∷ ys)
    → AreDigits (xs ++ b ∷ a ∷ ys)
    → luhn_valid (pos (value (xs ++ a ∷ b ∷ ys))) ≡ true
    → luhn_valid (pos (value (xs ++ b ∷ a ∷ ys))) ≡ true
    → (a ≡ b) ⊎ (((a ≡ 0) × (b ≡ 9)) ⊎ ((a ≡ 9) × (b ≡ 0)))
transposition_detected xs ys a b ha hb va vb =
    let p = parity false xs in
    let (small_a, (small_b, _)) = All-append_right (λ d. d < 10) xs (a ∷ b ∷ ys) ha in
    weight_exchange p a b (luhn_sum false xs + luhn_sum (flip (flip p)) ys) small_a small_b (
      omega (
        arith,
        valid_lem (xs ++ a ∷ b ∷ ys) ha va,
        valid_lem (xs ++ b ∷ a ∷ ys) hb vb,
        sum_at_two xs ys a b,
        sum_at_two xs ys b a,
      ))
