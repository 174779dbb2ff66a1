-- ===== src/LogParser/Decoder/Facts.antt =====
-- What `DecodeSegmentData` of internal/logparser/parser.go has gathered when it succeeds.
use mathlib.Core.List.{append_assoc, append-nil}
use rtz_server.Base.{
  some_injective, ℕ, Bool, true, false, ◌≡◌, refl, sym, ◌∙◌, ap, inl, inr, List, [], ◌∷◌, ◌++◌,
  Option, none, some, ◌==◌, arith, Bool-cases, Option-cases,
}
use rtz_server.Models.Rows.{Float64}
use rtz_server.LogParser.{Floats, KalmanPosition, SegmentData, Event, Message}
use rtz_server.LogParser.Decoder.{
  last_position, empty_segment, add_position, set_clock, read_event, decode_from,
  decode_segment_data,
}
use rtz_server.LogParser.Decoder.Events.{
  first_nonzero, last_time, cons_found, clock_times, last_position-append, positions, path_length,
  ReadAs, read_quiet, read_location, read_clock, read_which-ReadAs,
}

module _ (floats : Floats) where
  open floats use {plus, zero_float}

  -- The facts about data `d` that become those about `d'` by reading the messages.
  abbrev Gathers : List Message → SegmentData → SegmentData → Type 0
  Gathers ms d d' =
      (d'.end_log_mono_time ≡ last_time d.end_log_mono_time ms)
      × (d'.first_clock_wall_time_nanos
          ≡ first_nonzero (d.first_clock_wall_time_nanos ∷ clock_times ms))
      × (d'.kalman_positions ≡ d.kalman_positions ++ positions floats ms)
      × (d'.total_distance
          ≡ path_length floats (last_position d.kalman_positions) d.total_distance
              (positions floats ms))

  add_position_lem :
      (d : SegmentData) (p : KalmanPosition)
      → ((add_position floats d p).end_log_mono_time ≡ d.end_log_mono_time)
        × ((add_position floats d p).first_clock_wall_time_nanos ≡ d.first_clock_wall_time_nanos)
        × ((add_position floats d p).kalman_positions ≡ d.kalman_positions ++ (p ∷ []))
        × ((add_position floats d p).total_distance
            ≡ path_length floats (last_position d.kalman_positions) d.total_distance (p ∷ []))
  unfolding add_position path_length
  add_position_lem d p = elim (Option-cases (last_position d.kalman_positions)) [
    | inl first ↦ (
      rw (first, add_position) refl,
      rw (first, add_position) refl,
      rw (first, add_position) refl,
      rw (first, add_position) refl,
    )
    | inr (q, later) ↦ (
      rw (later, add_position) refl,
      rw (later, add_position) refl,
      rw (later, add_position) refl,
      rw (later, add_position) refl,
    )
  ]

  path_length-cons :
      (last : Option KalmanPosition) (total : Float64) (p : KalmanPosition)
      (ps : List KalmanPosition)
      → path_length floats (some p) (path_length floats last total (p ∷ [])) ps
        ≡ path_length floats last total (p ∷ ps)
  unfolding path_length
  path_length-cons none total p ps = refl
  path_length-cons (some q) total p ps = refl

  set_clock_lem :
      (d : SegmentData) (t c : ℕ) (ts : List ℕ)
      → ((set_clock floats d t c).end_log_mono_time ≡ d.end_log_mono_time)
        × ((set_clock floats d t c).kalman_positions ≡ d.kalman_positions)
        × ((set_clock floats d t c).total_distance ≡ d.total_distance)
        × (first_nonzero ((set_clock floats d t c).first_clock_wall_time_nanos ∷ ts)
            ≡ first_nonzero (d.first_clock_wall_time_nanos ∷ c ∷ ts))
  unfolding set_clock first_nonzero
  set_clock_lem d t c ts = elim (Bool-cases (d.first_clock_wall_time_nanos == 0)) [
    | inl unset ↦ (rw unset refl, rw unset refl, rw unset refl, ground arith)
    | inr set ↦ (rw set refl, rw set refl, rw set refl, ground arith)
  ]

  Gathers-step :
      (e : Event) (ms : List Message) (d d1 d2 : SegmentData)
      → ReadAs floats e.which (record d { end_log_mono_time = e.log_mono_time }) d1
      → Gathers ms d1 d2
      → Gathers (some e ∷ ms) d d2
  unfolding cons_found clock_times positions last_time
  Gathers-step e ms d d1 d2 (read_quiet no_location no_clock (at, clock, ps, total))
        (at', clock', ps', total') =
      (
        at' ∙ ap (λ t. last_time t ms) at,
        rw (no_clock, cons_found) (clock' ∙ ap (λ c. first_nonzero (c ∷ clock_times ms)) clock),
        rw (no_location, cons_found) (ps' ∙ ap (λ qs. qs ++ positions floats ms) ps),
        rw (no_location, cons_found) (cc (total', ps, total)),
      )
  Gathers-step e ms d d1 d2 (read_location p location no_clock same) (at', clock', ps', total') =
      let d0 : SegmentData = record d { end_log_mono_time = e.log_mono_time } in
      let (at, clock, ps, total) = add_position_lem d0 p in
      let last : last_position d1.kalman_positions ≡ some p =
        ap (λ x. last_position x.kalman_positions) same
        ∙ ap last_position ps
        ∙ last_position-append d.kalman_positions p in
      let total1 : d1.total_distance
          ≡ path_length floats (last_position d.kalman_positions) d.total_distance (p ∷ []) =
        ap (λ x. x.total_distance) same ∙ total in
      let whole =
        path_length-cons (last_position d.kalman_positions) d.total_distance p
          (positions floats ms) in
      (
        at' ∙ ap (λ x. last_time x.end_log_mono_time ms) same ∙ ap (λ t. last_time t ms) at,
        rw (no_clock, cons_found)
            (clock'
              ∙ ap (λ x. first_nonzero (x.first_clock_wall_time_nanos ∷ clock_times ms)) same
              ∙ ap (λ c. first_nonzero (c ∷ clock_times ms)) clock),
        rw (location, cons_found)
            (ps'
              ∙ ap (λ x. x.kalman_positions ++ positions floats ms) same
              ∙ ap (λ qs. qs ++ positions floats ms) ps
              ∙ append_assoc d.kalman_positions (p ∷ []) (positions floats ms)),
        rw (location, cons_found) (cc (total', last, total1, whole)),
      )
  Gathers-step e ms d d1 d2 (read_clock t c no_location clock same) (at', clock', ps', total') =
      let d0 : SegmentData = record d { end_log_mono_time = e.log_mono_time } in
      let (at, ps, total, merged) = set_clock_lem d0 t c (clock_times ms) in
      let ps1 : d1.kalman_positions ≡ d.kalman_positions = ap (λ x. x.kalman_positions) same ∙ ps in
      let total1 : d1.total_distance ≡ d.total_distance = ap (λ x. x.total_distance) same ∙ total in
      (
        at' ∙ ap (λ x. last_time x.end_log_mono_time ms) same ∙ ap (λ t. last_time t ms) at,
        rw (clock, cons_found)
            (clock'
              ∙ ap (λ x. first_nonzero (x.first_clock_wall_time_nanos ∷ clock_times ms)) same
              ∙ merged),
        rw (no_location, cons_found) (ps' ∙ ap (λ qs. qs ++ positions floats ms) ps1),
        rw (no_location, cons_found) (cc (total', ps1, total1)),
      )

  first_nonzero_lem : (t : ℕ) → t ≡ first_nonzero (t ∷ [])
  unfolding first_nonzero
  first_nonzero_lem t = ground arith

  Gathers-end :
      (eof : Bool) (d d' : SegmentData) → decode_from floats d [] eof ≡ some d' → Gathers [] d d'
  unfolding decode_from last_time clock_times positions path_length
  Gathers-end true d d' e =
      let same : d' ≡ d = sym (some_injective e) in
      (
        ap (λ x. x.end_log_mono_time) same,
        ap (λ x. x.first_clock_wall_time_nanos) same
            ∙ first_nonzero_lem d.first_clock_wall_time_nanos,
        ap (λ x. x.kalman_positions) same ∙ sym (append-nil d.kalman_positions),
        ap (λ x. x.total_distance) same,
      )
  Gathers-end false d d' e = cc

  decode_from-Gathers :
      (ms : List Message) (eof : Bool) (d d' : SegmentData)
      → decode_from floats d ms eof ≡ some d'
      → Gathers ms d d'
  unfolding decode_from read_event
  decode_from-Gathers [] eof d d' e = Gathers-end eof d d' e
  decode_from-Gathers (none ∷ ms) eof d d' e = cc
  decode_from-Gathers (some event ∷ ms) eof d d' e =
      elim (Option-cases (read_event floats d event)) [
        | inl bad ↦ ground arith
        | inr (d1, good) ↦
            Gathers-step event ms d d1 d'
              (read_which-ReadAs floats (record d { end_log_mono_time = event.log_mono_time }) d1
                event.log_mono_time event.which good)
              (decode_from-Gathers ms eof d1 d' (ground arith))
      ]

  -- If `DecodeSegmentData` succeeds, its data holds the valid positions floats of the log in their order,
  -- the sum of the distances between neighbours, the first wall time that is not 0, and the time of
  -- the last event.
  pub decode_segment_data_lem :
      (ms : List Message) (eof : Bool) (d : SegmentData)
      → decode_segment_data floats ms eof ≡ some d
      → (d.kalman_positions ≡ positions floats ms)
        × (d.total_distance ≡ path_length floats none zero_float (positions floats ms))
        × (d.first_clock_wall_time_nanos ≡ first_nonzero (clock_times ms))
        × (d.end_log_mono_time ≡ last_time 0 ms)
  unfolding decode_segment_data last_position first_nonzero
  decode_segment_data_lem ms eof d e =
      let (at, clock, ps, total) = decode_from-Gathers ms eof (empty_segment floats) d e in
      (ps, total, clock, at)
