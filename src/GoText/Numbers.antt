-- ===== src/GoText/Numbers.antt =====
-- strconv.FormatInt and strconv.ParseInt in base 10 for int64; strconv.Atoi is ParseInt, since an
-- int has 64 bits.
pub mod RoundTrip
use rtz_server.Base.{
  ℕ, zero, suc, ◌+◌, ◌-◌, ◌*◌, ◌/◌, ◌%◌, ◌^◌, ◌≡◌, refl, Bool, true, false, ◌&&◌, ◌||◌, List, [],
  ◌∷◌, ◌++◌, Option, none, some, ltb, leb, ◌==◌, if◌then◌else◌,
}
use rtz_server.Base.Int.{ℤ, pos, negsuc, sub_ℕ}
use rtz_server.GoText.{Str, codes}

-- The loop that writes the digits from the last one on, on fuel.
pub emit : ℕ → ℕ → Str → Str
emit zero n out = out
emit (suc fuel) n out =
    let rest = emit fuel (n / 10) ((b'0' + n % 10) ∷ out) in if n == 0 then out else rest

unfoldable pub format_nat : ℕ → Str
unfolding emit
format_nat n = if n == 0 then b'0' ∷ [] else emit n n []

unfoldable pub format_int : ℤ → Str
unfolding format_nat
format_int (pos n) = format_nat n
format_int (negsuc n) = b'-' ∷ format_nat (suc n)

-- strconv.ErrSyntax and strconv.ErrRange
pub data NumError : Type 0 where
  syntax range : NumError

pub data Scanned : Type 0 where
  scanned : ℕ → Scanned
  failed : NumError → Scanned

-- The loop of strconv.ParseUint: it stops at the first bad byte or at the first overflow of uint64.
unfoldable pub scan_uint : Str → ℕ → Scanned
scan_uint [] n = scanned n
scan_uint (c ∷ s) n =
    let rest = scan_uint s (n * 10 + (c - b'0')) in
    if ltb c b'0' || ltb b'9' c
    then failed syntax
    else if leb (2 ^ 64) (n * 10 + (c - b'0'))
    then failed range
    else rest

unfoldable pub parse_uint : Str → Scanned
parse_uint [] = failed syntax
parse_uint (c ∷ s) = scan_uint (c ∷ s) 0

abbrev pub min_int64 : ℤ
min_int64 = negsuc (2 ^ 63 - 1)

abbrev pub max_int64 : ℤ
max_int64 = pos (2 ^ 63 - 1)

abbrev pub positive : Scanned → ℤ × Option NumError
positive (scanned n) = if leb (2 ^ 63) n then (max_int64, some range) else (pos n, none)
positive (failed syntax) = (pos 0, some syntax)
positive (failed range) = (max_int64, some range)

abbrev pub negative : Scanned → ℤ × Option NumError
negative (scanned n) = if ltb (2 ^ 63) n then (min_int64, some range) else (sub_ℕ 0 n, none)
negative (failed syntax) = (pos 0, some syntax)
negative (failed range) = (min_int64, some range)

-- The value and the error of strconv.ParseInt(s, 10, 64). The value on an error is part of the
-- contract: 0 on bad syntax, the nearest int64 out of range.
unfoldable pub parse_int : Str → ℤ × Option NumError
unfolding scan_uint parse_uint
parse_int [] = (pos 0, some syntax)
parse_int (c ∷ s) =
    if c == b'-'
    then negative (parse_uint s)
    else if c == b'+'
    then positive (parse_uint s)
    else positive (parse_uint (c ∷ s))

int_runs :
    (parse_int (codes "-12") ≡ (negsuc 11, none))
    × (parse_int (codes "+7") ≡ (pos 7, none))
    × (parse_int (codes "1x") ≡ (pos 0, some syntax))
    × (parse_int (codes "9223372036854775808") ≡ (max_int64, some range))
    × (format_int (negsuc 119) ≡ codes "-120")
unfolding parse_int format_int
int_runs = (refl, refl, refl, refl, refl)
