-- ===== src/GoText/Numbers/RoundTrip.antt =====
-- Every int64 is read back from its decimal print.
use mathlib.Core.List.{cons-ne-nil}
use rtz_server.Base.{
  ℕ, zero, suc, ◌+◌, ◌/◌, ◌%◌, ◌^◌, ◌≤◌, ◌<◌, ◌≡◌, refl, sym, ap, ◌∙◌, ◌≢◌, false, [], ◌∷◌, none,
  arith, ◌==◌, All, inl, inr, Bool-cases, ==_iff,
}
use rtz_server.Base.Int.{ℤ, pos, negsuc, ◌≤ℤ◌}
use rtz_server.GoText.{Str}
use rtz_server.GoText.Numbers.{
  emit, format_nat, format_int, scanned, scan_uint, parse_uint, parse_int, min_int64, max_int64,
  positive, negative,
}

abbrev pub IsDigit : ℕ → Type 0
IsDigit c = (b'0' ≤ c) × (c ≤ b'9')

scan_last :
    (n : ℕ) (out : Str) → n < 2 ^ 64 → scan_uint ((b'0' + n % 10) ∷ out) (n / 10) ≡ scan_uint out n
unfolding scan_uint
scan_last n out h = ground arith

scan-emit :
    (fuel n : ℕ) (out : Str)
    → n ≤ fuel
    → n < 2 ^ 64
    → scan_uint (emit fuel n out) 0 ≡ scan_uint out n
unfolding emit
scan-emit zero n out le small = ap (scan_uint out) (omega arith)
scan-emit (suc fuel) n out le small = elim (Bool-cases (n == 0)) [
  | inl e ↦ rw e (ap (scan_uint out) (sym ((==_iff n 0).0 e)))
  | inr e ↦ rw e (
      scan-emit fuel (n / 10) ((b'0' + n % 10) ∷ out) (ground arith) (omega arith)
      ∙ scan_last n out small)
]

emit-IsDigit : (fuel n : ℕ) (out : Str) → All IsDigit out → All IsDigit (emit fuel n out)
unfolding emit
emit-IsDigit zero n out h = h
emit-IsDigit (suc fuel) n out h = elim (Bool-cases (n == 0)) [
  | inl e ↦ rw e h
  | inr e ↦
      rw e (emit-IsDigit fuel (n / 10) ((b'0' + n % 10) ∷ out) ((omega arith, omega arith), h))
]

emit-ne-nil : (fuel n : ℕ) (out : Str) → out ≢ [] → emit fuel n out ≢ []
unfolding emit
emit-ne-nil zero n out h = h
emit-ne-nil (suc fuel) n out h = elim (Bool-cases (n == 0)) [
  | inl e ↦ rw e h
  | inr e ↦ rw e (emit-ne-nil fuel (n / 10) ((b'0' + n % 10) ∷ out) (cons-ne-nil _ _))
]

-- A printed number is one digit or more.
pub format_nat-IsDigit : (n : ℕ) → All IsDigit (format_nat n) × (format_nat n ≢ [])
unfolding format_nat
format_nat-IsDigit zero = (((omega arith, omega arith), tt), cons-ne-nil _ _)
format_nat-IsDigit (suc n) =
    let nonzero : (suc n == 0) ≡ false = ground arith in
    rw nonzero (
      (
        emit-IsDigit n (suc n / 10) _ ((omega arith, omega arith), tt),
        emit-ne-nil n (suc n / 10) _ (cons-ne-nil _ []),
      ))

parse_uint-scan : (s : Str) → s ≢ [] → parse_uint s ≡ scan_uint s 0
unfolding parse_uint
parse_uint-scan [] h = absurd (h refl)
parse_uint-scan (c ∷ s) h = refl

scan-format_nat : (n : ℕ) → n < 2 ^ 64 → scan_uint (format_nat n) 0 ≡ scanned n
unfolding format_nat scan_uint
scan-format_nat zero h = refl
scan-format_nat (suc n) h =
    let nonzero : (suc n == 0) ≡ false = ground arith in
    rw nonzero (rw nonzero at (scan-emit (suc n) (suc n) [] (omega arith) h))

parse_uint-format_nat : (n : ℕ) → n < 2 ^ 64 → parse_uint (format_nat n) ≡ scanned n
parse_uint-format_nat n h = parse_uint-scan _ (format_nat-IsDigit n).1 ∙ scan-format_nat n h

positive_lem : (n : ℕ) → n < 2 ^ 63 → positive (scanned n) ≡ (pos n, none)
positive_lem n h = ground arith

negative_lem : (n : ℕ) → n < 2 ^ 63 → negative (scanned (suc n)) ≡ (negsuc n, none)
negative_lem n h = ground arith

parse_int_digits :
    (s : Str) (n : ℕ)
    → All IsDigit s
    → s ≢ []
    → parse_uint s ≡ scanned n
    → n < 2 ^ 63
    → parse_int s ≡ (pos n, none)
unfolding parse_int
parse_int_digits [] n h e p small = absurd (e refl)
parse_int_digits (c ∷ s) n (hc, h) e p small =
    let no_minus : (c == b'-') ≡ false = ground arith in
    let no_plus : (c == b'+') ≡ false = ground arith in
    rw (no_minus, no_plus) (ap positive p ∙ positive_lem n small)

-- ParseInt reads back what FormatInt writes, for every int64.
pub parse_int-format_int :
    (z : ℤ) → min_int64 ≤ℤ z → z ≤ℤ max_int64 → parse_int (format_int z) ≡ (z, none)
unfolding format_int
parse_int-format_int (pos n) lo hi =
    parse_int_digits (format_nat n) n (format_nat-IsDigit n).0 (format_nat-IsDigit n).1
      (parse_uint-format_nat n (omega arith)) (omega arith)
parse_int-format_int (negsuc n) lo hi =
    unfold parse_int in
    ap negative (parse_uint-format_nat (suc n) (omega arith)) ∙ negative_lem n (omega arith)

-- The bytes from '-' up to '9', which are all that a printed number has.
abbrev pub IsPlain : ℕ → Type 0
IsPlain c = (b'-' ≤ c) × (c ≤ b'9')

All-IsPlain : (s : Str) → All IsDigit s → All IsPlain s
All-IsPlain [] h = tt
All-IsPlain (c ∷ s) (hc, h) = (omega arith, All-IsPlain s h)

pub format_int-IsPlain : (z : ℤ) → All IsPlain (format_int z) × (format_int z ≢ [])
unfolding format_int
format_int-IsPlain (pos n) =
    (All-IsPlain (format_nat n) (format_nat-IsDigit n).0, (format_nat-IsDigit n).1)
format_int-IsPlain (negsuc n) = (
  ((omega arith, omega arith), All-IsPlain (format_nat (suc n)) (format_nat-IsDigit (suc n)).0),
  cons-ne-nil _ _,
)
