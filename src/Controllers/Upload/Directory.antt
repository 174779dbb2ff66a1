-- ===== src/Controllers/Upload/Directory.antt =====
-- The route that newRouteInfoFromPath of internal/server/controllers/v1.4/upload.go gives an upload, and the
-- directory where internal/server/controllers/v1/route_files.go looks for its segments.
use mathlib.Core.List.{append-nil, append_assoc}
use mathlib.Core.Path.{subst}
use rtz_server.Base.{
  ℕ, ◌≡◌, ◌≢◌, refl, sym, ◌∙◌, ap, true, false, [], ◌∷◌, ◌++◌, Option, none, some, All, All-append,
  All-append_right, if_false, some_injective, arith, Bool-cases, ◌⊎◌, inl, inr,
}
use rtz_server.GoText.{Str, codes, str_eq}
use rtz_server.GoText.Laws.{str_eq_iff, has_prefix-append, trim_prefix-append}
use rtz_server.GoText.Numbers.RoundTrip.{IsDigit}
use rtz_server.LogParser.Scheduler.{RouteInfo}
use rtz_server.Controllers.RouteFiles.Names.{
  is_digit, is_hex, match_upload_dir, segment_of, segment_number, prefixed_segment,
  segment_from_upload_dir,
}
use rtz_server.Controllers.RouteFiles.Names.Printed.{IsHexName}
use rtz_server.Controllers.RouteFiles.Names.Taken.{match-digits, match-junk, segment_number-junk}
use rtz_server.Controllers.Upload.{new_route_info_from_path}
use rtz_server.Controllers.Upload.Parsed.{
  IsCut, matched, IsRead, new_route_info_from_path-IsRead, overlap,
}

hex_no_slash : (s : Str) → All (λ c. is_hex c ≡ true) s → All (λ c. c ≢ b'/') s
hex_no_slash [] h = tt
hex_no_slash (c ∷ s) (hex, h) =
    (λ e. let bad : is_hex b'/' ≡ true = subst (λ x. is_hex x ≡ true) e hex in cc, hex_no_slash s h)

digits_no_slash : (s : Str) → All IsDigit s → All (λ c. c ≢ b'/') s
digits_no_slash [] h = tt
digits_no_slash (c ∷ s) (digit, h) = (λ e. omega (arith, digit.0, digit.1, e), digits_no_slash s h)

joined_no_slash :
    (s t : Str)
    → All (λ c. c ≢ b'/') s
    → All (λ c. c ≢ b'/') t
    → All (λ c. c ≢ b'/') (s ++ (b'-' ∷ b'-' ∷ t))
joined_no_slash s t h k =
    All-append (λ c. c ≢ b'/') s (b'-' ∷ b'-' ∷ t) h
      ((λ e. omega (arith, e)), ((λ e. omega (arith, e)), k))

matched_no_slash : (path : Str) (r : RouteInfo) → IsRead path r → All (λ c. c ≢ b'/') (matched r)
matched_no_slash path r read =
    joined_no_slash r.route r.segment
      (subst (All (λ c. c ≢ b'/')) (sym read.joined) (
        joined_no_slash r.motonic read.name (hex_no_slash r.motonic read.motonic_hex.0)
          (hex_no_slash read.name read.name_hex.0)))
      (digits_no_slash r.segment read.digits)

-- No hexadecimal digit is a '-'.
no_dashes :
    (route motonic : Str)
    → All (λ c. is_hex c ≡ true) route
    → str_eq route (motonic ++ (b'-' ∷ b'-' ∷ route)) ≡ false
no_dashes route motonic h = elim (Bool-cases (str_eq route (motonic ++ (b'-' ∷ b'-' ∷ route)))) [
  | inr other ↦ other
  | inl same ↦
      let equal = (str_eq_iff route (motonic ++ (b'-' ∷ b'-' ∷ route))).0 same in
      let (dash, _) =
        All-append_right (λ c. is_hex c ≡ true) motonic (b'-' ∷ b'-' ∷ route)
          (subst (All (λ c. is_hex c ≡ true)) equal h) in
      absurd (let bad : is_hex b'-' ≡ true = dash in cc)
]

prefixed_segment_lem :
    (route s : Str) → prefixed_segment route (route ++ (b'-' ∷ b'-' ∷ s)) ≡ segment_number s
unfolding prefixed_segment
prefixed_segment_lem route s =
    let p = route ++ codes "--" in
    let shape : route ++ (b'-' ∷ b'-' ∷ s) ≡ p ++ s = sym (append_assoc route (codes "--") s) in
    let good = has_prefix-append p s in
    let cut = trim_prefix-append p s in rw shape (rw (good, cut) refl)

-- A directory of the route by its full name, whatever follows the second "--".
segment_of_lem :
    (motonic name s : Str) (o : Option (Str × Str))
    → All (λ c. is_hex c ≡ true) name
    → ((o ≡ none) ⊎ (o ≡ some (name, s)))
    → segment_of
        (motonic ++ (b'-' ∷ b'-' ∷ name))
        ((motonic ++ (b'-' ∷ b'-' ∷ name)) ++ (b'-' ∷ b'-' ∷ s))
        o
      ≡ segment_number s
unfolding segment_of
segment_of_lem motonic name s none h either =
    prefixed_segment_lem (motonic ++ (b'-' ∷ b'-' ∷ name)) s
segment_of_lem motonic name s (some (other, t)) h (inl e) = cc e
segment_of_lem motonic name s (some (other, t)) h (inr e) =
    let same : name ≡ other = ap (λ x. x.0) (sym (some_injective e)) in
    if_false (str_eq other (motonic ++ (b'-' ∷ b'-' ∷ name))) _ _
      (ap (λ x. str_eq x (motonic ++ (b'-' ∷ b'-' ∷ name))) (sym same) ∙ no_dashes name motonic h)
    ∙ prefixed_segment_lem (motonic ++ (b'-' ∷ b'-' ∷ name)) s

read_segment :
    (motonic name s : Str)
    → IsHexName name
    → ((match_upload_dir (motonic ++ (b'-' ∷ b'-' ∷ (name ++ (b'-' ∷ b'-' ∷ s)))) ≡ none)
        ⊎ (match_upload_dir (motonic ++ (b'-' ∷ b'-' ∷ (name ++ (b'-' ∷ b'-' ∷ s))))
            ≡ some (name, s)))
    → segment_from_upload_dir
        (motonic ++ (b'-' ∷ b'-' ∷ name))
        ((motonic ++ (b'-' ∷ b'-' ∷ name)) ++ (b'-' ∷ b'-' ∷ s))
      ≡ segment_number s
unfolding segment_from_upload_dir
read_segment motonic name s h either =
    let shape : (motonic ++ (b'-' ∷ b'-' ∷ name)) ++ (b'-' ∷ b'-' ∷ s)
        ≡ motonic ++ (b'-' ∷ b'-' ∷ (name ++ (b'-' ∷ b'-' ∷ s))) =
      append_assoc motonic (b'-' ∷ b'-' ∷ name) (b'-' ∷ b'-' ∷ s) in
    segment_of_lem motonic name s _ h.0 (
      subst (λ x. (match_upload_dir x ≡ none) ⊎ (match_upload_dir x ≡ some (name, s))) (sym shape)
        either)

module _ {path : Str} {r : RouteInfo} (read : IsRead path r) where
  exact_segment : segment_from_upload_dir r.route (matched r) ≡ segment_number r.segment
  exact_segment = rw read.joined (
      read_segment r.motonic read.name r.segment read.name_hex (
        inr (
          match-digits r.motonic read.name r.segment read.motonic_hex read.name_hex read.digits
            read.digits_set)))

  junk_segment :
      (c : ℕ) (junk : Str)
      → is_digit c ≡ false
      → segment_from_upload_dir r.route (matched r ++ (c ∷ junk)) ≡ none
  junk_segment c junk other =
      ap (segment_from_upload_dir r.route)
        (append_assoc r.route (b'-' ∷ b'-' ∷ r.segment) (c ∷ junk))
      ∙ rw read.joined (
          read_segment r.motonic read.name (r.segment ++ (c ∷ junk)) read.name_hex (
            inl (
              match-junk r.motonic read.name r.segment junk c read.motonic_hex read.name_hex
                other)))
      ∙ segment_number-junk r.segment junk c read.digits read.digits_set other

read-segment :
    (dir rest : Str) (r : RouteInfo) (left junk : Str)
    → IsRead (dir ++ (b'/' ∷ rest)) r
    → IsCut left
    → dir ≡ matched r ++ junk
    → left ≡ junk ++ (b'/' ∷ rest)
    → ((dir ≡ matched r) × (segment_from_upload_dir r.route dir ≡ segment_number r.segment))
      ⊎ ((c : ℕ) × (junk : Str) × (dir ≡ matched r ++ (c ∷ junk))
          × (is_digit c ≡ false)
          × (segment_from_upload_dir r.route dir ≡ none))
read-segment dir rest r left [] read cut shape more =
    let exact : dir ≡ matched r = shape ∙ append-nil (matched r) in
    inl (exact, ap (segment_from_upload_dir r.route) exact ∙ exact_segment read)
read-segment dir rest r left (c ∷ junk) read cut shape more =
    let other : is_digit c ≡ false = subst IsCut more cut in
    inr (
      c,
      junk,
      shape,
      other,
      ap (segment_from_upload_dir r.route) shape ∙ junk_segment read c junk other,
    )

-- For an upload with a path in a directory for which `newRouteInfoFromPath` gives a route and a segment,
-- `segmentFromUploadDir` reads of that directory's name, for this route, the int that the segment's
-- digits are, if they are one, in the case that the name is the route, "--" and the digits. In every
-- other case the name goes on after them with a byte that is no digit, and it finds no segment.
pub new_route_info_from_path-segment :
    (dir rest : Str) (r : RouteInfo)
    → new_route_info_from_path (dir ++ (b'/' ∷ rest)) ≡ some r
    → ((dir ≡ matched r) × (segment_from_upload_dir r.route dir ≡ segment_number r.segment))
      ⊎ ((c : ℕ) × (junk : Str) × (dir ≡ matched r ++ (c ∷ junk))
          × (is_digit c ≡ false)
          × (segment_from_upload_dir r.route dir ≡ none))
new_route_info_from_path-segment dir rest r e =
    let read = new_route_info_from_path-IsRead (dir ++ (b'/' ∷ rest)) r e in
    let (junk, shape, more) =
      overlap (matched r) read.left dir rest (matched_no_slash _ r read) (sym read.shape) in
    read-segment dir rest r read.left junk read read.cut shape more
