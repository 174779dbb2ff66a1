-- ===== src/Controllers/RouteFiles/Names/Printed.antt =====
-- The patterns of names of internal/server/controllers/v1/route_files.go on names that are put together.
use rtz_server.Base.{◌≡◌, ◌≢◌, refl, ap, true, false, [], ◌∷◌, ◌++◌, some, All, all, arith}
use rtz_server.GoText.{Str, is_empty, has_prefix, trim_prefix, skip}
use rtz_server.GoText.Numbers.RoundTrip.{IsDigit}
use rtz_server.Controllers.RouteFiles.Names.{is_digit, is_hex, take_hex, drop_hex, hex_part}

-- Hexadecimal digits, one at least.
abbrev pub IsHexName : Str → Type 0
IsHexName s = All (λ c. is_hex c ≡ true) s × (s ≢ [])

take_hex-append : (p rest : Str) → All (λ c. is_hex c ≡ true) p → take_hex (p ++ (b'-' ∷ rest)) ≡ p
unfolding take_hex
take_hex-append [] rest h = refl
take_hex-append (c ∷ p) rest (hex, h) = rw hex (ap (λ s. c ∷ s) (take_hex-append p rest h))

drop_hex-append :
    (p rest : Str) → All (λ c. is_hex c ≡ true) p → drop_hex (p ++ (b'-' ∷ rest)) ≡ b'-' ∷ rest
unfolding drop_hex
drop_hex-append [] rest h = refl
drop_hex-append (c ∷ p) rest (hex, h) = rw hex (drop_hex-append p rest h)

pub is_empty_lem : (s : Str) → s ≢ [] → is_empty s ≡ false
unfolding is_empty
is_empty_lem [] h = absurd (h refl)
is_empty_lem (c ∷ s) h = refl

pub hex_part-append :
    (p rest : Str) → IsHexName p → hex_part (p ++ (b'-' ∷ b'-' ∷ rest)) ≡ some (p, rest)
unfolding hex_part has_prefix trim_prefix skip
hex_part-append p rest (hex, set) =
    let taken = take_hex-append p (b'-' ∷ rest) hex in
    let left = drop_hex-append p (b'-' ∷ rest) hex in
    let full = is_empty_lem p set in rw (taken, full, left)

pub all_digits : (s : Str) → All IsDigit s → all is_digit s ≡ true
all_digits [] h = refl
all_digits (c ∷ s) (d, h) = let here : is_digit c ≡ true = ground arith in rw (here, all_digits s h)
