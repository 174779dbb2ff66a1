-- ===== src/Controllers/RouteFiles/Ordered.antt =====
-- The times of a route's segments: each ends after it starts. The segments are in order.
use mathlib.Core.Path.{subst}
use rtz_server.Base.{
  ℕ, ◌+◌, ◌*◌, ◌^◌, ◌≤◌, ◌≡◌, sym, ◌∙◌, ap, inl, inr, ◌&&◌, List, [], ◌∷◌, ◌++◌, map, Option, none,
  some, All, All-append, if◌then◌else◌, if_true, if_false, length, length-map, Bool-cases, arith,
  get_or,
}
use rtz_server.Base.Int.{
  pos_part, neg_part, ℤ, pos, negsuc, ◌+ℤ◌, ◌≤ℤ◌, ◌<ℤ◌, ltb_ℤ, leb_ℤ, wrap_int64, wrap_int64_small,
}
use rtz_server.Models.Rows.{Route}
use rtz_server.Controllers.Devices.{unix_milli}
use rtz_server.Controllers.RouteFiles.Segments.{
  elements, stored_segments, unseen, or_first, route_segments, route_segment_index,
  normalize_api_time, default_segment_duration_millis, minute_after, until, computed_times,
  times_at, segment_times, route_segment_metadata,
}
use rtz_server.Controllers.RouteFiles.Sorting.{
  IsSorted, IsSegment, stored_segments-IsSegment, All-unseen, All-sort_ints, sort_ints-IsSorted,
}

-- Two lists of one length whose elements are related in order.
abbrev pub AllPairs : {A : Type 0} → (A → A → Type 0) → List A → List A → Type 0
AllPairs R [] [] = Unit
AllPairs R [] (y ∷ ys) = ⊥
AllPairs R (x ∷ xs) [] = ⊥
AllPairs R (x ∷ xs) (y ∷ ys) = R x y × AllPairs R xs ys

abbrev pub IsInterval : ℤ × ℤ → Type 0
IsInterval p = p.0 <ℤ p.1

-- A time in milliseconds from which on the segments' times do not overflow an int64.
abbrev pub IsModest : ℤ → Type 0
IsModest t = (negsuc (2 ^ 62) ≤ℤ t) × (t ≤ℤ pos (2 ^ 62))

add_pos_lem :
    (t : ℤ) (k : ℕ) → pos_part (t +ℤ pos k) + neg_part t ≡ pos_part t + k + neg_part (t +ℤ pos k)
unfolding ◌+ℤ◌
add_pos_lem (pos n) k = ground arith
add_pos_lem (negsuc n) k = ground arith

-- A sum that does not overflow.
sum_same :
    (t : ℤ) (k : ℕ)
    → negsuc (2 ^ 62) ≤ℤ t
    → t ≤ℤ pos (2 ^ 62 + 2 ^ 61)
    → k ≤ 2 ^ 60
    → wrap_int64 (t +ℤ pos k) ≡ t +ℤ pos k
sum_same t k lo hi small =
    let parts = add_pos_lem t k in
    wrap_int64_small (t +ℤ pos k) (omega (arith, parts, hi, small))
      (omega (arith, parts, lo, small))

minute_after-later :
    (t : ℤ) → negsuc (2 ^ 62) ≤ℤ t → t ≤ℤ pos (2 ^ 62 + 2 ^ 61) → t <ℤ minute_after t
minute_after-later t lo hi =
    let parts = add_pos_lem t 60000 in
    let later : t <ℤ t +ℤ pos 60000 = omega (arith, parts) in
    subst (λ x. t <ℤ x) (sym (sum_same t 60000 lo hi (omega arith))) later

later_of :
    (start end : ℤ)
    → start <ℤ minute_after start
    → start <ℤ (if leb_ℤ end start then minute_after start else end)
later_of start end h = elim (Bool-cases (leb_ℤ end start)) [
  | inl early ↦ rw early h
  | inr late ↦ let after : start <ℤ end = ground arith in rw late after
]

stored_or_computed :
    (start end : ℤ) (computed : ℤ × ℤ)
    → IsInterval computed
    → IsInterval (if ltb_ℤ (pos 0) start && ltb_ℤ start end then (start, end) else computed)
stored_or_computed start end computed h =
    elim (Bool-cases (ltb_ℤ (pos 0) start && ltb_ℤ start end)) [
      | inl good ↦
          let fits : start <ℤ end = ground arith in
          subst IsInterval (sym (if_true _ (start, end) computed good)) fits
      | inr bad ↦ subst IsInterval (sym (if_false _ (start, end) computed bad)) h
    ]

module _ (route : Route) (s : ℕ) where
  abbrev start_of : ℤ
  start_of =
      wrap_int64
        (unix_milli route.start_time +ℤ wrap_int64 (pos (s * default_segment_duration_millis)))

  start_of_lem :
      IsSegment s
      → IsModest (unix_milli route.start_time)
      → start_of ≡ unix_milli route.start_time +ℤ pos (s * 60000)
  start_of_lem small (lo, hi) =
      let offset : wrap_int64 (pos (s * 60000)) ≡ pos (s * 60000) =
        wrap_int64_small (pos (s * 60000)) (omega (arith, small)) (omega arith) in
      ap (λ z. wrap_int64 (unix_milli route.start_time +ℤ z)) offset
      ∙ sum_same (unix_milli route.start_time) (s * 60000) lo (omega (arith, hi))
          (omega (arith, small))

  start_of-later :
      IsSegment s → IsModest (unix_milli route.start_time) → start_of <ℤ minute_after start_of
  start_of-later small (lo, hi) =
      let parts = add_pos_lem (unix_milli route.start_time) (s * 60000) in
      subst (λ z. z <ℤ minute_after z) (sym (start_of_lem small (lo, hi)))
        (minute_after-later (unix_milli route.start_time +ℤ pos (s * 60000))
          (omega (arith, parts, lo)) (omega (arith, parts, hi, small)))

  computed_times-IsInterval :
      IsSegment s → IsModest (unix_milli route.start_time) → IsInterval (computed_times route s)
  unfolding computed_times
  computed_times-IsInterval small modest =
      later_of start_of (until route.end_time (minute_after start_of)) (start_of-later small modest)

  times_at-IsInterval :
      IsSegment s
      → IsModest (unix_milli route.start_time)
      → (i : Option ℕ) → IsInterval (times_at route s i)
  unfolding times_at
  times_at-IsInterval small modest none = computed_times-IsInterval small modest
  times_at-IsInterval small modest (some i) =
      stored_or_computed
        (normalize_api_time (get_or (elements route.segment_start_times) i (pos 0)))
        (normalize_api_time (get_or (elements route.segment_end_times) i (pos 0)))
        (computed_times route s) (computed_times-IsInterval small modest)

  segment_times-IsInterval :
      IsSegment s → IsModest (unix_milli route.start_time) → IsInterval (segment_times route s)
  unfolding segment_times
  segment_times-IsInterval small modest =
      times_at-IsInterval small modest (route_segment_index route s)

or_first-IsSorted : (xs : List ℕ) → IsSorted xs → IsSorted (or_first xs)
or_first-IsSorted [] h = (tt, tt)
or_first-IsSorted (a ∷ xs) h = h

or_first-IsSegment : (xs : List ℕ) → All IsSegment xs → All IsSegment (or_first xs)
or_first-IsSegment [] h = (omega arith, tt)
or_first-IsSegment (a ∷ xs) h = h

route_segments-IsSegment :
    (route : Route) (uploaded : List ℕ)
    → All IsSegment uploaded
    → All IsSegment (route_segments route uploaded)
unfolding route_segments
route_segments-IsSegment route uploaded h =
    let stored = stored_segments (elements route.segment_numbers) in
    or_first-IsSegment _ (
      All-sort_ints IsSegment (stored ++ unseen stored uploaded) (
        All-append IsSegment stored (unseen stored uploaded)
          (stored_segments-IsSegment (elements route.segment_numbers))
          (All-unseen IsSegment stored uploaded h)))

route_segments-IsSorted :
    (route : Route) (uploaded : List ℕ) → IsSorted (route_segments route uploaded)
unfolding route_segments
route_segments-IsSorted route uploaded =
    let stored = stored_segments (elements route.segment_numbers) in
    or_first-IsSorted _ (sort_ints-IsSorted (stored ++ unseen stored uploaded))

AllPairs-map :
    {A B : Type 0} (R : B → B → Type 0) (f g : A → B) (xs : List A)
    → All (λ a. R (f a) (g a)) xs
    → AllPairs R (map f xs) (map g xs)
AllPairs-map R f g [] h = tt
AllPairs-map R f g (a ∷ xs) (r, h) = (r, AllPairs-map R f g xs h)

All-imp :
    {A : Type 0} (P Q : A → Type 0) (xs : List A) → ((a : A) → P a → Q a) → All P xs → All Q xs
All-imp P Q [] f h = tt
All-imp P Q (a ∷ xs) f (p, h) = (f a p, All-imp P Q xs f h)

-- If every uploaded segment is at most the largest int32 and the route starts within 2 ^ 62
-- milliseconds of 1970, then of the segments of `routeSegmentMetadata` each has one start and one end,
-- its start is before its end, and the numbers of the segments are in order.
pub route_segment_metadata-IsSorted :
    (route : Route) (uploaded : List ℕ)
    → All IsSegment uploaded
    → IsModest (unix_milli route.start_time)
    → AllPairs
        (λ a b. a <ℤ b)
        (route_segment_metadata route uploaded).0
        (route_segment_metadata route uploaded).1
      × (length (route_segment_metadata route uploaded).0
          ≡ length (route_segment_metadata route uploaded).2)
      × IsSorted (route_segment_metadata route uploaded).2
unfolding route_segment_metadata
route_segment_metadata-IsSorted route uploaded h modest = (
  AllPairs-map (λ a b. a <ℤ b) _ _ (route_segments route uploaded)
      (All-imp IsSegment _ (route_segments route uploaded)
        (λ s small. segment_times-IsInterval route s small modest)
        (route_segments-IsSegment route uploaded h)),
  length-map (route_segments route uploaded) _,
  route_segments-IsSorted route uploaded,
)
