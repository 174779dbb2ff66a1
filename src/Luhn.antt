-- ===== src/Luhn.antt =====
-- internal/utils/checksum.go: the Luhn test of an IMEI.
pub mod Digits
pub mod Detection
mod Tests
use rtz_server.Base.{
  ℕ, zero, suc, ◌+◌, ◌*◌, ◌/◌, ◌%◌, ◌<◌, ◌≡◌, refl, Bool, true, false, arith, ltb, ◌==◌,
  if◌then◌else◌,
}
use rtz_server.Base.Int.{ℤ, pos, negsuc}

-- What the digit `cur` at place `i` adds: the body of the loop of `checksum`.
pub luhn_digit : ℕ → ℕ → ℕ
luhn_digit i cur =
    if i % 2 == 0 then (if ltb 9 (cur * 2) then cur * 2 % 10 + cur * 2 / 10 else cur * 2) else cur

-- The loop of `checksum`, on fuel: `i`, `number` and `luhn` are its variables. It is called on
-- numbers of at least 0; a negative one does not enter the loop.
pub checksum_from : ℕ → ℕ → ℕ → ℕ → ℕ
checksum_from zero i number luhn = luhn
checksum_from (suc fuel) i number luhn =
    let rest = checksum_from fuel (i + 1) (number / 10) (luhn + luhn_digit i (number % 10)) in
    if number == 0 then luhn else rest

-- The fuel `number` is enough, since each round divides `number` by ten.
pub checksum : ℤ → ℕ
checksum (pos number) = checksum_from number 0 number 0 % 10
checksum (negsuc _) = 0

-- Go's `/` and `%` round towards 0, so a negative number has a negative last digit. The sum of that
-- digit and the checksum, which is 0, is a multiple of ten exactly if the digit is 0.
unfoldable pub luhn_valid : ℤ → Bool
unfolding checksum checksum_from luhn_digit
luhn_valid (pos number) = (number % 10 + checksum (pos (number / 10))) % 10 == 0
luhn_valid (negsuc n) = suc n % 10 == 0
