-- ===== src/Controllers/RouteFiles/Names/Taken.antt =====
-- What the patterns of names of internal/server/controllers/v1/route_files.go and v1.4/upload.go take off the
-- front of a text, and what is read of a directory's name with any digits at its end.
use mathlib.Core.Path.{subst}
use rtz_server.Base.{
  ℕ, ◌≡◌, ◌≢◌, refl, sym, ◌∙◌, ap, true, false, ◌||◌, ◌==◌, [], ◌∷◌, ◌++◌, Option, none, some, All,
  all, inl, inr, arith, Bool-cases, if_true, if_false, some_injective, ltb, leb, ◌*◌, ◌+◌, ◌-◌, ◌^◌,
}
use rtz_server.GoText.{Str, codes, is_empty, has_prefix, trim_prefix, skip}
use rtz_server.GoText.Laws.{append-skip}
use rtz_server.GoText.Numbers.{
  NumError, Scanned, scan_uint, parse_uint, parse_int, positive, syntax, range,
}
use rtz_server.GoText.Numbers.RoundTrip.{IsDigit}
use rtz_server.Controllers.RouteFiles.Names.{
  is_digit, is_hex, take_hex, drop_hex, hex_part, numbered, named_part, match_upload_dir,
  segment_number, non_negative,
}
use rtz_server.Controllers.RouteFiles.Names.Printed.{
  IsHexName, is_empty_lem, hex_part-append, all_digits,
}

take_hex-drop_hex : (s : Str) → take_hex s ++ drop_hex s ≡ s
unfolding take_hex drop_hex
take_hex-drop_hex [] = refl
take_hex-drop_hex (c ∷ s) =
    let rest = take_hex-drop_hex s in
    elim (Bool-cases (is_hex c)) [
      | inl hex ↦ rw hex (ap (λ t. c ∷ t) rest)
      | inr other ↦ rw other refl
    ]

take_hex-All : (s : Str) → All (λ c. is_hex c ≡ true) (take_hex s)
unfolding take_hex
take_hex-All [] = tt
take_hex-All (c ∷ s) =
    let rest = take_hex-All s in
    elim (Bool-cases (is_hex c)) [ inl hex ↦ rw hex (hex, rest) | inr other ↦ rw other tt ]

nonempty : (s : Str) → is_empty s ≡ false → s ≢ []
unfolding is_empty
nonempty [] e h = cc
nonempty (c ∷ s) e h = cc

after_hex :
    (s h t : Str)
    → is_empty (take_hex s) ≡ false
    → has_prefix (drop_hex s) (codes "--") ≡ true
    → ◌≡◌ {A = Option (Str × Str)}
        (some (take_hex s, trim_prefix (drop_hex s) (codes "--")))
        (some (h, t))
    → IsHexName h × (s ≡ h ++ (b'-' ∷ b'-' ∷ t))
unfolding trim_prefix
after_hex s h t set dashes e =
    let pair = some_injective e in
    let first : take_hex s ≡ h = ap (λ x. x.0) pair in
    let left : skip (drop_hex s) (codes "--") ≡ t =
      sym (if_true (has_prefix (drop_hex s) (codes "--")) _ _ dashes) ∙ ap (λ x. x.1) pair in
    (
      subst IsHexName first (take_hex-All s, nonempty (take_hex s) set),
      sym (take_hex-drop_hex s)
          ∙ ap (λ x. x ++ drop_hex s) first
          ∙ ap (λ x. h ++ x) (sym (append-skip (drop_hex s) (codes "--") dashes))
          ∙ ap (λ x. h ++ (b'-' ∷ b'-' ∷ x)) left,
    )

-- What a part of hexadecimal digits is.
pub hex_part_sound :
    (s h t : Str) → hex_part s ≡ some (h, t) → IsHexName h × (s ≡ h ++ (b'-' ∷ b'-' ∷ t))
unfolding hex_part
hex_part_sound s h t e = elim (Bool-cases (is_empty (take_hex s))) [
  | inl empty ↦
      let bad : ◌≡◌ {A = Option (Str × Str)} none (some (h, t)) = sym (if_true _ _ _ empty) ∙ e in
      cc
  | inr set ↦
      let e1 = sym (if_false (is_empty (take_hex s)) _ _ set) ∙ e in
      elim (Bool-cases (has_prefix (drop_hex s) (codes "--"))) [
        | inr other ↦
            let bad : ◌≡◌ {A = Option (Str × Str)} none (some (h, t)) =
              sym (if_false _ _ _ other) ∙ e1 in
            cc
        | inl dashes ↦ after_hex s h t set dashes (sym (if_true _ _ _ dashes) ∙ e1)
      ]
]

-- A directory's name of two names in hexadecimal digits and a text.
named_part-append :
    (count name s : Str)
    → IsHexName count
    → IsHexName name
    → match_upload_dir (count ++ (b'-' ∷ b'-' ∷ (name ++ (b'-' ∷ b'-' ∷ s))))
      ≡ numbered (some (name, s))
unfolding match_upload_dir named_part
named_part-append count name s h k =
    ap named_part (hex_part-append count (name ++ (b'-' ∷ b'-' ∷ s)) h)
    ∙ ap numbered (hex_part-append name s k)

pub match-digits :
    (count name s : Str)
    → IsHexName count
    → IsHexName name
    → All IsDigit s
    → s ≢ []
    → match_upload_dir (count ++ (b'-' ∷ b'-' ∷ (name ++ (b'-' ∷ b'-' ∷ s)))) ≡ some (name, s)
match-digits count name s h k digits set =
    let full = is_empty_lem s set in
    let each = all_digits s digits in named_part-append count name s h k ∙ rw (full, each) refl

all_digits-junk :
    (s junk : Str) (c : ℕ) → is_digit c ≡ false → all is_digit (s ++ (c ∷ junk)) ≡ false
all_digits-junk [] junk c other = rw other refl
all_digits-junk (d ∷ s) junk c other = ground (arith, all_digits-junk s junk c other)

pub match-junk :
    (count name s junk : Str) (c : ℕ)
    → IsHexName count
    → IsHexName name
    → is_digit c ≡ false
    → match_upload_dir (count ++ (b'-' ∷ b'-' ∷ (name ++ (b'-' ∷ b'-' ∷ (s ++ (c ∷ junk)))))) ≡ none
match-junk count name s junk c h k other =
    let some_other = all_digits-junk s junk c other in
    named_part-append count name (s ++ (c ∷ junk)) h k ∙ ground arith

-- Neither an end of the digits that is no digit nor an overflow on the way there is a number.
scan_uint-junk :
    (s junk : Str) (c n : ℕ)
    → is_digit c ≡ false
    → (e : NumError) × (scan_uint (s ++ (c ∷ junk)) n ≡ Scanned.failed e)
unfolding scan_uint
scan_uint-junk [] junk c n other = (syntax, ground arith)
scan_uint-junk (d ∷ s) junk c n other =
    let (err, rest) = scan_uint-junk s junk c (n * 10 + (d - b'0')) other in
    elim (Bool-cases (ltb d b'0' || ltb b'9' d)) [
      | inl bad ↦ (syntax, rw bad refl)
      | inr good ↦ elim (Bool-cases (leb (2 ^ 64) (n * 10 + (d - b'0')))) [
        | inl large ↦ (range, rw (good, large) refl)
        | inr fits ↦ (err, rw (good, fits) rest)
      ]
    ]

positive_failed : (e : NumError) → non_negative (positive (Scanned.failed e)) ≡ none
positive_failed syntax = refl
positive_failed range = refl

pub segment_number-junk :
    (s junk : Str) (c : ℕ)
    → All IsDigit s
    → s ≢ []
    → is_digit c ≡ false
    → segment_number (s ++ (c ∷ junk)) ≡ none
unfolding parse_int parse_uint
segment_number-junk [] junk c digits set other = absurd (set refl)
segment_number-junk (d ∷ s) junk c (digit, digits) set other =
    let (err, bad) = scan_uint-junk (d ∷ s) junk c 0 other in
    let not_minus : (d == b'-') ≡ false = ground arith in
    let not_plus : (d == b'+') ≡ false = ground arith in
    rw (not_minus, not_plus, bad) (positive_failed err)
