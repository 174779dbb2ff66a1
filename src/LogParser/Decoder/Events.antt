-- ===== src/LogParser/Decoder/Events.antt =====
-- What one event changes of the data, in `DecodeSegmentData` of internal/logparser/parser.go.
use mathlib.Core.Path.{subst}
use rtz_server.Base.{
  some_injective, ℕ, ◌≡◌, refl, sym, inl, inr, List, [], ◌∷◌, ◌++◌, Option, none, some, ◌==◌,
  if◌then◌else◌, arith, Bool-cases, Option-cases,
}
use rtz_server.GoText.{codes, str_eq}
use rtz_server.Models.Rows.{Float64}
use rtz_server.LogParser.{
  Floats, KalmanPosition, SegmentData, SentinelType, start_sentinel, end_sentinel, other_sentinel,
  Param, InitData, Which, live_location, sentinel, clocks, init_data, other_event, Message,
}
use rtz_server.LogParser.Decoder.{
  ◌>>=◌, last_position, calculate_ecef_distance, position_of, add_position, mark_sentinel,
  set_clock, read_params, read_init, read_which,
}

past :
    {A B : Type 0} (o : Option A) (f : A → Option B) (b : B)
    → (o >>= f) ≡ some b
    → (a : A) × (o ≡ some a) × (f a ≡ some b)
past none f b e = cc
past (some a) f b e = (a, refl, e)

-- The first number that is not 0.
unfoldable pub first_nonzero : List ℕ → ℕ
first_nonzero [] = 0
first_nonzero (t ∷ ts) = let rest = first_nonzero ts in if t == 0 then rest else t

-- The time of the last event.
unfoldable pub last_time : ℕ → List Message → ℕ
last_time t [] = t
last_time t (none ∷ ms) = last_time t ms
last_time t (some e ∷ ms) = last_time e.log_mono_time ms

unfoldable pub cons_found : {A : Type 0} → Option A → List A → List A
cons_found none xs = xs
cons_found (some x) xs = x ∷ xs

unfoldable pub clock_of : Which → Option ℕ
clock_of (clocks c) = c
clock_of (live_location l) = none
clock_of (sentinel s) = none
clock_of (init_data i) = none
clock_of other_event = none

-- The wall times of the events on clocks.
unfoldable pub clock_times : List Message → List ℕ
unfolding clock_of cons_found
clock_times [] = []
clock_times (none ∷ ms) = clock_times ms
clock_times (some e ∷ ms) = cons_found (clock_of e.which) (clock_times ms)

pub last_position-append :
    (ps : List KalmanPosition) (p : KalmanPosition) → last_position (ps ++ (p ∷ [])) ≡ some p
unfolding last_position
last_position-append [] p = refl
last_position-append (q ∷ ps) p = rw (last_position-append ps p)

module _ (floats : Floats) where
  open floats use {plus, zero_float}

  unfoldable pub location_of : Which → Option KalmanPosition
  location_of (live_location l) = l >>= λ location. position_of floats location
  location_of (clocks c) = none
  location_of (sentinel s) = none
  location_of (init_data i) = none
  location_of other_event = none

  -- The valid positions of the log.
  unfoldable pub positions : List Message → List KalmanPosition
  unfolding location_of cons_found
  positions [] = []
  positions (none ∷ ms) = positions ms
  positions (some e ∷ ms) = cons_found (location_of e.which) (positions ms)

  -- The distances between neighbours, added up from the left.
  unfoldable pub path_length : Option KalmanPosition → Float64 → List KalmanPosition → Float64
  path_length last total [] = total
  path_length none total (p ∷ ps) = path_length (some p) total ps
  path_length (some q) total (p ∷ ps) =
      path_length (some p) (plus total (calculate_ecef_distance floats q p)) ps

  -- Two data that agree in what the facts are about.
  abbrev pub Agrees : SegmentData → SegmentData → Type 0
  Agrees d d' =
      (d'.end_log_mono_time ≡ d.end_log_mono_time)
      × (d'.first_clock_wall_time_nanos ≡ d.first_clock_wall_time_nanos)
      × (d'.kalman_positions ≡ d.kalman_positions)
      × (d'.total_distance ≡ d.total_distance)

  -- How one event changes the data.
  pub data ReadAs (w : Which) (d d' : SegmentData) : Type 0 where
    read_quiet : location_of w ≡ none → clock_of w ≡ none → Agrees d d' → ReadAs w d d'
    read_location :
        (p : KalmanPosition)
        → location_of w ≡ some p
        → clock_of w ≡ none
        → d' ≡ add_position floats d p
        → ReadAs w d d'
    read_clock :
        (t c : ℕ)
        → location_of w ≡ none
        → clock_of w ≡ some c
        → d' ≡ set_clock floats d t c
        → ReadAs w d d'

  read_params-Agrees :
      (d d' : SegmentData) (ps : List Param) → read_params floats d ps ≡ some d' → Agrees d d'
  unfolding read_params
  read_params-Agrees d d' [] e =
      let same : d ≡ d' = some_injective e in rw same (refl, refl, refl, refl)
  read_params-Agrees d d' (p ∷ ps) e = elim (Option-cases p.key) [
    | inl no_key ↦ ground arith
    | inr (key, got) ↦ elim (Option-cases p.val) [
      | inl no_val ↦ ground arith
      | inr (val, got') ↦ elim (Bool-cases (str_eq key (codes "CarModel"))) [
        | inl car ↦ read_params-Agrees (record d { car_model = val }) d' ps (ground arith)
        | inr other ↦ read_params-Agrees d d' ps (ground arith)
      ]
    ]
  ]

  read_init-Agrees :
      (d d' : SegmentData) (t : ℕ) (i : InitData) → read_init floats d t i ≡ some d' → Agrees d d'
  unfolding read_init
  read_init-Agrees d d' t i e =
      let (_, _, e1) = past i.git_remote _ d' e in
      let (_, _, e2) = past i.git_branch _ d' e1 in
      let (_, _, e3) = past i.git_commit _ d' e2 in
      let (_, _, e4) = past i.version _ d' e3 in
      let (_, _, e5) = past i.dongle_id _ d' e4 in
      let (params, _, e6) = past i.entries _ d' e5 in read_params-Agrees _ d' params e6

  mark_sentinel-Agrees : (d : SegmentData) (s : SentinelType) → Agrees d (mark_sentinel floats d s)
  unfolding mark_sentinel
  mark_sentinel-Agrees d start_sentinel = (refl, refl, refl, refl)
  mark_sentinel-Agrees d end_sentinel = (refl, refl, refl, refl)
  mark_sentinel-Agrees d other_sentinel = (refl, refl, refl, refl)

  pub read_which-ReadAs :
      (d d' : SegmentData) (t : ℕ) (w : Which) → read_which floats d t w ≡ some d' → ReadAs w d d'
  unfolding read_which location_of clock_of
  read_which-ReadAs d d' t (live_location l) e =
      let (location, got, e1) = past l _ d' e in
      elim (Option-cases (position_of floats location)) [
        | inl nowhere ↦
            read_quiet (rw got nowhere) refl
              (let same : d ≡ d' = ground arith in rw same (refl, refl, refl, refl))
        | inr (p, somewhere) ↦ read_location p (rw got somewhere) refl (ground arith)
      ]
  read_which-ReadAs d d' t (sentinel s) e =
      let (kind, got, e1) = past s _ d' e in
      let same : mark_sentinel floats d kind ≡ d' = some_injective e1 in
      read_quiet refl refl (subst (Agrees d) same (mark_sentinel-Agrees d kind))
  read_which-ReadAs d d' t (clocks c) e =
      let (time, got, e1) = past c _ d' e in read_clock t time refl got (sym (some_injective e1))
  read_which-ReadAs d d' t (init_data i) e =
      let (init, got, e1) = past i _ d' e in read_quiet refl refl (read_init-Agrees d d' t init e1)
  read_which-ReadAs d d' t other_event e =
      let same : d ≡ d' = some_injective e in
      read_quiet refl refl (rw same (refl, refl, refl, refl))
