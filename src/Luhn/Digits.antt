-- ===== src/Luhn/Digits.antt =====
-- The checksum over the list of a number's digits, the last digit first.
use rtz_server.Base.{
  ℕ, zero, suc, ◌+◌, ◌*◌, ◌/◌, ◌%◌, ◌≤◌, ◌<◌, ◌≡◌, refl, ◌∙◌, ap, List, [], ◌∷◌, Bool, true, false,
  arith, ◌==◌, if◌then◌else◌, All, Bool-cases, ==_iff, inl, inr,
}
use mathlib.Core.Path.{ap₂}
use rtz_server.Base.Int.{pos}
use rtz_server.Luhn.{luhn_digit, checksum_from, luhn_valid}

-- The number that digits spell, the last digit first.
abbrev pub value : List ℕ → ℕ
value [] = 0
value (d ∷ ds) = value ds * 10 + d

abbrev pub AreDigits : List ℕ → Type 0
AreDigits = All (λ d. d < 10)

-- The rule of ISO/IEC 7812: from the right, every second digit is doubled, starting with the
-- first digit before the check digit, and the decimal digits of the products are added up.
abbrev pub weight : Bool → ℕ → ℕ
weight doubled d = if doubled then (2 * d / 10 + 2 * d % 10) else d

abbrev pub flip : Bool → Bool
flip true = false
flip false = true

unfoldable pub luhn_sum : Bool → List ℕ → ℕ
luhn_sum doubled [] = 0
luhn_sum doubled (d ∷ ds) = weight doubled d + luhn_sum (flip doubled) ds

abbrev pub is_even : ℕ → Bool
is_even i = i % 2 == 0

luhn_digit-weight : (i d : ℕ) → d < 10 → luhn_digit i d ≡ weight (is_even i) d
unfolding luhn_digit
luhn_digit-weight i d h = ground arith

flip-is_even : (i : ℕ) → is_even (i + 1) ≡ flip (is_even i)
flip-is_even i = ground arith

luhn_sum_zero : (b : Bool) (ds : List ℕ) → AreDigits ds → value ds ≡ 0 → luhn_sum b ds ≡ 0
unfolding luhn_sum
luhn_sum_zero b [] h e = refl
luhn_sum_zero true (d ∷ ds) (hd, h) e = ground (arith, luhn_sum_zero false ds h)
luhn_sum_zero false (d ∷ ds) (hd, h) e = ground (arith, luhn_sum_zero true ds h)

luhn_sum_cons :
    (b b' : Bool) (d : ℕ) (ds : List ℕ) (acc : ℕ)
    → b' ≡ flip b
    → (acc + weight b d) + luhn_sum b' ds ≡ acc + luhn_sum b (d ∷ ds)
unfolding luhn_sum
luhn_sum_cons b b' d ds acc e = rw e (omega arith)

checksum_from_zero : (i n acc : ℕ) → checksum_from 0 i n acc ≡ acc
unfolding checksum_from
checksum_from_zero i n acc = refl

checksum_from_stop : (fuel i acc : ℕ) → checksum_from fuel i 0 acc ≡ acc
unfolding checksum_from
checksum_from_stop zero i acc = refl
checksum_from_stop (suc fuel) i acc = refl

checksum_from_step :
    (fuel i n acc : ℕ)
    → (n == 0) ≡ false
    → checksum_from (suc fuel) i n acc
      ≡ checksum_from fuel (i + 1) (n / 10) (acc + luhn_digit i (n % 10))
unfolding checksum_from
checksum_from_step fuel i n acc h = rw h

checksum_from_last :
    (fuel i v d acc : ℕ)
    → d < 10
    → (v * 10 + d == 0) ≡ false
    → checksum_from (suc fuel) i (v * 10 + d) acc
      ≡ checksum_from fuel (i + 1) v (acc + weight (is_even i) d)
checksum_from_last fuel i v d acc hd h =
    let front : (v * 10 + d) / 10 ≡ v = omega arith in
    let last : (v * 10 + d) % 10 ≡ d = omega arith in
    checksum_from_step fuel i (v * 10 + d) acc h
    ∙ ap₂ (λ n w. checksum_from fuel (i + 1) n (acc + luhn_digit i w)) front last
    ∙ ap (λ w. checksum_from fuel (i + 1) v (acc + w)) (luhn_digit-weight i d hd)

-- The loop adds the weighted digits, and stops with fuel left over.
pub checksum_from-sum :
    (ds : List ℕ) (fuel i acc : ℕ)
    → AreDigits ds
    → value ds ≤ fuel
    → checksum_from fuel i (value ds) acc ≡ acc + luhn_sum (is_even i) ds
checksum_from-sum [] fuel i acc h le =
    checksum_from_stop fuel i acc ∙ unfold luhn_sum in omega arith
checksum_from-sum (d ∷ ds) zero i acc (hd, h) le =
    checksum_from_zero i (value (d ∷ ds)) acc ∙ ground (arith, luhn_sum_zero (is_even i) (d ∷ ds))
checksum_from-sum (d ∷ ds) (suc fuel) i acc (hd, h) le =
    elim (Bool-cases (value ds * 10 + d == 0)) [
      | inl e ↦
          let nil : value (d ∷ ds) ≡ 0 = (==_iff _ _).0 e in
          ap (λ n. checksum_from (suc fuel) i n acc) nil
          ∙ checksum_from_stop (suc fuel) i acc
          ∙ omega (arith, luhn_sum_zero (is_even i) (d ∷ ds) (hd, h) nil)
      | inr e ↦
          checksum_from_last fuel i (value ds) d acc hd e
          ∙ checksum_from-sum ds fuel (i + 1) (acc + weight (is_even i) d) h (ground arith)
          ∙ luhn_sum_cons (is_even i) (is_even (i + 1)) d ds acc (flip-is_even i)
    ]

-- `LuhnValid` is the Luhn test: the check digit and the weighted digits before it add up to a
-- multiple of ten.
pub luhn_valid-luhn_sum :
    (c : ℕ) (ds : List ℕ)
    → c < 10
    → AreDigits ds
    → luhn_valid (pos (value (c ∷ ds))) ≡ ((c + luhn_sum true ds) % 10 == 0)
unfolding luhn_valid
luhn_valid-luhn_sum c ds hc h =
    let front : (value ds * 10 + c) / 10 ≡ value ds = omega arith in
    let last : (value ds * 10 + c) % 10 ≡ c = omega arith in
    let sum : checksum_from (value ds) 0 (value ds) 0 ≡ luhn_sum true ds =
      checksum_from-sum ds (value ds) 0 0 h (omega arith) ∙ omega arith in
    rw (last, front, sum) (ap (λ n. n == 0) (omega arith))
