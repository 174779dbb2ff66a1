-- ===== src/LogParser/Processing/Segments.antt =====
-- The segments of a route that `processLog` of internal/logparser/queue.go saves.
use mathlib.Core.List.{Memᴰ}
use mathlib.Core.Path.{subst}
use rtz_server.Base.{
  ℕ, zero, suc, ◌≡◌, refl, ◌∙◌, ap, inl, inr, List, [], ◌∷◌, ◌++◌, length, length-append,
  Option-cases, arith,
}
use rtz_server.Base.Int.{ℤ, pos}
use rtz_server.GoText.{Str}
use rtz_server.Models.Rows.{Device, Route, Database}
use rtz_server.Models.Gorm.{Fetched-cases}
use rtz_server.Models.Queries.{
  find_device_by_dongle_id, find_route_for_segment, find_route_for_segment_sound,
}
use rtz_server.LogParser.{Floats, SegmentData}
use rtz_server.LogParser.Decoder.{decode_segment_data}
use rtz_server.LogParser.Scheduler.{Work}
use rtz_server.LogParser.Processing.{
  ext, elements, new_route, set_first_clock, set_start_time, set_start_position, add_segment,
  add_distance, set_end, update_route, Outside, Stream, saves, decompress, process_device,
  process_log,
}

-- 1, 2, …, n
pub count_up : ℕ → List ℤ
count_up zero = []
count_up (suc n) = count_up n ++ (pos (suc n) ∷ [])

length-count_up : (n : ℕ) → length (count_up n) ≡ n
unfolding count_up
length-count_up zero = refl
length-count_up (suc n) =
    let longer = length-append (count_up n) (pos (suc n) ∷ []) in
    omega (arith, longer, length-count_up n)

-- The route has `n` segments, numbered from 1, each with a start and an end.
pub record IsAligned (n : ℕ) (route : Route) : Type 0 where
  pub numbers : elements route.segment_numbers ≡ count_up n
  pub starts : length (elements route.segment_start_times) ≡ n
  pub ends : length (elements route.segment_end_times) ≡ n

-- Two routes with the same segments.
abbrev HasSameSegments : Route → Route → Type 0
HasSameSegments r r' =
    (r'.segment_numbers ≡ r.segment_numbers)
    × (r'.segment_start_times ≡ r.segment_start_times)
    × (r'.segment_end_times ≡ r.segment_end_times)

IsAligned-same : (n : ℕ) (r r' : Route) → HasSameSegments r r' → IsAligned n r → IsAligned n r'
IsAligned-same n r r' (ns, ss, es) a = record {
  numbers = ap elements ns ∙ a.numbers;
  starts = ap (λ x. length (elements x)) ss ∙ a.starts;
  ends = ap (λ x. length (elements x)) es ∙ a.ends;
}

module _ (floats : Floats) (segment_data : SegmentData) where
  set_first_clock_same : (r : Route) → HasSameSegments r (set_first_clock floats segment_data r)
  unfolding set_first_clock
  set_first_clock_same r = (ground arith, ground arith, ground arith)

  set_start_time_same : (r : Route) → HasSameSegments r (set_start_time floats segment_data r)
  unfolding set_start_time
  set_start_time_same r = (ground arith, ground arith, ground arith)

  set_start_position_same :
      (r : Route) → HasSameSegments r (set_start_position floats segment_data r)
  unfolding set_start_position
  set_start_position_same r = (ground arith, ground arith, ground arith)

  add_distance_same : (r : Route) → HasSameSegments r (add_distance floats segment_data r)
  unfolding add_distance
  add_distance_same r = (ground arith, ground arith, ground arith)

  set_end_same : (r : Route) → HasSameSegments r (set_end floats segment_data r)
  unfolding set_end
  set_end_same r = (ground arith, ground arith, ground arith)

  add_segment-IsAligned :
      (n : ℕ) (r : Route) → IsAligned n r → IsAligned (suc n) (add_segment floats segment_data r)
  unfolding add_segment count_up
  add_segment-IsAligned n r a =
      let size : length (elements r.segment_numbers) ≡ n =
        ap length a.numbers ∙ length-count_up n in
      record {
        numbers = rw (size, a.numbers) refl;
        starts = length-append (elements r.segment_start_times) _ ∙ omega (arith, a.starts);
        ends = length-append (elements r.segment_end_times) _ ∙ omega (arith, a.ends);
      }

  -- Every log adds one segment, with the next number, a start and an end.
  pub update_route-IsAligned :
      (n : ℕ) (r : Route) → IsAligned n r → IsAligned (suc n) (update_route floats segment_data r)
  unfolding update_route
  update_route-IsAligned n r a =
      let r1 : Route = set_first_clock floats segment_data r in
      let r2 : Route = set_start_time floats segment_data r1 in
      let r3 : Route = set_start_position floats segment_data r2 in
      let r4 : Route = add_segment floats segment_data r3 in
      let r5 : Route = add_distance floats segment_data r4 in
      let clocked = IsAligned-same n r r1 (set_first_clock_same r) a in
      let started = IsAligned-same n r1 r2 (set_start_time_same r1) clocked in
      let placed = IsAligned-same n r2 r3 (set_start_position_same r2) started in
      let longer = add_segment-IsAligned n r3 placed in
      let measured = IsAligned-same (suc n) r4 r5 (add_distance_same r4) longer in
      IsAligned-same (suc n) r5 (set_end floats segment_data r5) (set_end_same r5) measured

  new_route-IsAligned :
      (device_id : ℕ) (route : Str) → IsAligned 0 (new_route floats device_id route segment_data)
  unfolding new_route count_up
  new_route-IsAligned device_id route = record { numbers = refl; starts = refl; ends = refl }

saves_injective : {r r' : Route} → saves r ≡ saves r' → r ≡ r'
saves_injective e = cc

module _ (outside : Outside) where
  open outside use {gorm, floats, newest_first, open_log}

  -- The routes of the table have as many starts and ends as numbers, which count from 1.
  abbrev pub AreAligned : Database → Type 0
  AreAligned db = (r : Route) → Memᴰ r (newest_first db.routes) → (n : ℕ) × IsAligned n r

  process_device-IsAligned :
      (db : Database) (work : Work) (device : Device) (stream : Stream) (r' : Route)
      → AreAligned db
      → process_device outside db work device stream ≡ saves r'
      → (n : ℕ) × IsAligned (suc n) r'
  unfolding process_device
  process_device-IsAligned db work device (messages, eof) r' aligned e =
      elim (Option-cases (decode_segment_data floats messages eof)) [
        | inl bad ↦ ground arith
        | inr (d, good) ↦
            elim (Fetched-cases
              (find_route_for_segment gorm db newest_first device.id work.route_info.route)) [
                | inl (r, found) ↦
                    let (listed, _, _) =
                      find_route_for_segment_sound gorm db newest_first device.id
                        work.route_info.route r found in
                    let (n, a) = aligned r listed in
                    let same : update_route floats d r ≡ r' = saves_injective (ground arith) in
                    (n, subst (IsAligned (suc n)) same (update_route-IsAligned floats d n r a))
                | inr (inl missing) ↦
                    let r : Route = new_route floats device.id work.route_info.route d in
                    let same : update_route floats d r ≡ r' = saves_injective (ground arith) in
                    (
                      0,
                      subst (IsAligned 1) same (
                          update_route-IsAligned floats d 0 r
                            (new_route-IsAligned floats d device.id work.route_info.route)),
                    )
                | inr (inr broken) ↦ ground arith
              ]
      ]

  -- If the routes of the table have a start, an end and a number for each segment, with the numbers
  -- counting from 1, then the route that `processLog` saves, if it saves one, has them too, and has at
  -- least one segment.
  pub process_log-IsAligned :
      (db : Database) (work : Work) (r' : Route)
      → AreAligned db
      → process_log outside db work ≡ saves r'
      → (n : ℕ) × IsAligned (suc n) r'
  unfolding process_log
  process_log-IsAligned db work r' aligned e =
      elim (Option-cases (open_log work.dongle_id work.path)) [
        | inl unopened ↦ ground arith
        | inr (content, opened) ↦
            elim (Fetched-cases (find_device_by_dongle_id gorm db work.dongle_id)) [
              | inr unknown ↦ ground arith
              | inl (device, known) ↦
                  elim (Fetched-cases (decompress outside (ext work.path) content)) [
                    | inr packed ↦ ground arith
                    | inl (stream, unpacked) ↦
                        process_device-IsAligned db work device stream r' aligned (ground arith)
                  ]
            ]
      ]
