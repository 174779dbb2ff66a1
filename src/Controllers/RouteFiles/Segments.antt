-- ===== src/Controllers/RouteFiles/Segments.antt =====
-- The numbers and the times of a route's segments: `routeSegmentMetadata` and the functions that it
-- calls, in internal/server/controllers/v1/route_files.go. An int that is no negative number is a
-- natural number.
use rtz_server.Base.{
  ℕ, suc, ◌*◌, ◌/◌, ◌^◌, true, false, not, ◌&&◌, ◌||◌, List, [], ◌∷◌, ◌++◌, map, Option, none, some,
  ◌==◌, any, length, leb, get_or, if◌then◌else◌,
}
use rtz_server.Base.Int.{ℤ, pos, negsuc, ◌+ℤ◌, ltb_ℤ, leb_ℤ, eqb_ℤ, wrap_int64}
use rtz_server.Models.Int64Array.{Int64Array}
use rtz_server.Models.Rows.{Route, Time}
use rtz_server.Controllers.Devices.{unix_milli}

abbrev pub max_int32 : ℕ
max_int32 = 2147483647

-- The elements of the slice; a nil slice has none.
abbrev pub elements : Int64Array → List ℤ
elements none = []
elements (some xs) = xs

-- The numbers of the row that are segments.
unfoldable pub stored_segments : List ℤ → List ℕ
stored_segments [] = []
stored_segments (pos n ∷ rest) =
    let kept = stored_segments rest in if leb n max_int32 then n ∷ kept else kept
stored_segments (negsuc n ∷ rest) = stored_segments rest

-- The uploaded segments that have not been seen.
unfoldable pub unseen : List ℕ → List ℕ → List ℕ
unseen seen [] = []
unseen seen (s ∷ rest) = elim (any (λ t. t == s) seen) [
  | true ↦ unseen seen rest
  | false ↦ s ∷ unseen (s ∷ seen) rest
]

-- sort.Ints
unfoldable pub insert : ℕ → List ℕ → List ℕ
insert a [] = a ∷ []
insert a (b ∷ xs) = let rest = insert a xs in if leb a b then a ∷ b ∷ xs else b ∷ rest

unfoldable pub sort_ints : List ℕ → List ℕ
unfolding insert
sort_ints [] = []
sort_ints (a ∷ xs) = insert a (sort_ints xs)

abbrev pub or_first : List ℕ → List ℕ
or_first [] = 0 ∷ []
or_first (s ∷ rest) = s ∷ rest

unfoldable pub route_segments : Route → List ℕ → List ℕ
unfolding stored_segments unseen sort_ints
route_segments route uploaded =
    let stored = stored_segments (elements route.segment_numbers) in
    or_first (sort_ints (stored ++ unseen stored uploaded))

-- The loop of `routeSegmentIndex`.
unfoldable pub index_from : ℕ → List ℤ → ℕ → Option ℕ
index_from i [] segment = none
index_from i (n ∷ rest) segment =
    let later = index_from (suc i) rest segment in if eqb_ℤ n (pos segment) then some i else later

-- `none` is -1.
unfoldable pub route_segment_index : Route → ℕ → Option ℕ
unfolding index_from
route_segment_index route segment =
    let count = length (elements route.segment_numbers) in
    if not (count == length (elements route.segment_start_times))
      || not (count == length (elements route.segment_end_times))
    then none
    else index_from 0 (elements route.segment_numbers) segment

-- Nanoseconds, which a time in milliseconds is never as large as, to milliseconds.
unfoldable pub normalize_api_time : ℤ → ℤ
normalize_api_time (pos n) = if leb n (10 ^ 15) then pos n else pos (n / 10 ^ 6)
normalize_api_time (negsuc n) = negsuc n

abbrev pub default_segment_duration_millis : ℕ
default_segment_duration_millis = 60000

-- start + defaultSegmentDurationMillis
abbrev pub minute_after : ℤ → ℤ
minute_after t = wrap_int64 (t +ℤ pos default_segment_duration_millis)

-- No later than the end of the route, if it has one.
abbrev pub until : Time → ℤ → ℤ
until none t = t
until (some e) t = if ltb_ℤ (unix_milli (some e)) t then unix_milli (some e) else t

-- The times that a segment has by its number.
unfoldable pub computed_times : Route → ℕ → ℤ × ℤ
computed_times route segment =
    let start = wrap_int64 (
      unix_milli route.start_time
      +ℤ wrap_int64 (pos (segment * default_segment_duration_millis))) in
    let end = until route.end_time (minute_after start) in
    (start, if leb_ℤ end start then minute_after start else end)

-- The times of the row at an index, if they are in order.
unfoldable pub times_at : Route → ℕ → Option ℕ → ℤ × ℤ
unfolding normalize_api_time computed_times
times_at route segment none = computed_times route segment
times_at route segment (some i) =
    let start = normalize_api_time (get_or (elements route.segment_start_times) i (pos 0)) in
    let end = normalize_api_time (get_or (elements route.segment_end_times) i (pos 0)) in
    if ltb_ℤ (pos 0) start && ltb_ℤ start end then (start, end) else computed_times route segment

unfoldable pub segment_times : Route → ℕ → ℤ × ℤ
unfolding times_at route_segment_index
segment_times route segment = times_at route segment (route_segment_index route segment)

unfoldable pub route_segment_metadata : Route → List ℕ → List ℤ × List ℤ × List ℕ
unfolding route_segments segment_times
route_segment_metadata route uploaded =
    let segments = route_segments route uploaded in
    (
      map (λ s. (segment_times route s).0) segments,
      map (λ s. (segment_times route s).1) segments,
      segments,
    )
