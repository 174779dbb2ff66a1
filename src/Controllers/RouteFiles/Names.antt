-- ===== src/Controllers/RouteFiles/Names.antt =====
-- The names of routes and of upload directories: `routeNameBase` and `segmentFromUploadDir` of
-- internal/server/controllers/v1/route_files.go.
pub mod Printed
pub mod Taken
use rtz_server.Base.{
  ℕ, Bool, true, false, not, ◌&&◌, ◌||◌, List, [], ◌∷◌, ◌++◌, Option, none, some, ◌==◌, leb, all,
  if◌then◌else◌,
}
use rtz_server.Base.Int.{ℤ, pos, negsuc}
use rtz_server.GoText.{Str, codes, str_eq, is_empty, has_prefix, trim_prefix}
use rtz_server.GoText.Numbers.{NumError, parse_int}

-- What is before the last byte `sep`, if there is one.
unfoldable pub before_last : ℕ → Str → Option Str
before_last sep [] = none
before_last sep (c ∷ s) = elim (before_last sep s) [
  | some p ↦ some (c ∷ p)
  | none ↦ if c == sep then some [] else none
]

unfoldable pub route_name_base : Str → Str
unfolding before_last
route_name_base s = elim (before_last b':' s) [ some p ↦ p | none ↦ s ]

abbrev pub is_digit : ℕ → Bool
is_digit c = leb b'0' c && leb c b'9'

abbrev pub is_hex : ℕ → Bool
is_hex c = is_digit c || leb b'a' c && leb c b'f' || leb b'A' c && leb c b'F'

-- The longest part of hexadecimal digits at the start, and what follows it.
unfoldable pub take_hex : Str → Str
take_hex [] = []
take_hex (c ∷ s) = let rest = take_hex s in if is_hex c then c ∷ rest else []

unfoldable pub drop_hex : Str → Str
drop_hex [] = []
drop_hex (c ∷ s) = let rest = drop_hex s in if is_hex c then rest else c ∷ s

-- One or more hexadecimal digits and "--": the digits, and what follows.
unfoldable pub hex_part : Str → Option (Str × Str)
unfolding take_hex drop_hex
hex_part s =
    if is_empty (take_hex s)
    then none
    else if has_prefix (drop_hex s) (codes "--")
    then some (take_hex s, trim_prefix (drop_hex s) (codes "--"))
    else none

abbrev pub numbered : Option (Str × Str) → Option (Str × Str)
numbered none = none
numbered (some (name, s)) = if not (is_empty s) && all is_digit s then some (name, s) else none

unfoldable pub named_part : Option (Str × Str) → Option (Str × Str)
unfolding hex_part
named_part none = none
named_part (some (_, s)) = numbered (hex_part s)

-- The groups 2 and 3 of `newUploadRouteDirRegex`: no digit is a "-", so it matches in one way.
unfoldable pub match_upload_dir : Str → Option (Str × Str)
unfolding hex_part named_part
match_upload_dir s = named_part (hex_part s)

abbrev pub non_negative : ℤ × Option NumError → Option ℕ
non_negative (pos n, none) = some n
non_negative (pos n, some _) = none
non_negative (negsuc n, _) = none

-- strconv.Atoi, for a segment of at least 0.
abbrev pub segment_number : Str → Option ℕ
segment_number s = non_negative (parse_int s)

unfoldable pub prefixed_segment : Str → Str → Option ℕ
prefixed_segment route_base dir_name =
    if has_prefix dir_name (route_base ++ codes "--")
    then segment_number (trim_prefix dir_name (route_base ++ codes "--"))
    else none

unfoldable pub segment_of : Str → Str → Option (Str × Str) → Option ℕ
unfolding prefixed_segment
segment_of route_base dir_name none = prefixed_segment route_base dir_name
segment_of route_base dir_name (some (name, number)) =
    if str_eq name route_base then segment_number number else prefixed_segment route_base dir_name

-- `none` where the second result is false.
unfoldable pub segment_from_upload_dir : Str → Str → Option ℕ
unfolding match_upload_dir segment_of
segment_from_upload_dir route_base dir_name =
    segment_of route_base dir_name (match_upload_dir dir_name)
