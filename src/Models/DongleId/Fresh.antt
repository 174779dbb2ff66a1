-- ===== src/Models/DongleId/Fresh.antt =====
-- The dongle ids that GenerateDongleID of internal/db/models/device.go returns.
use mathlib.Core.Path.{subst}
use rtz_server.Base.{
  ℕ, suc, zero, ◌*◌, ◌/◌, ◌%◌, ◌≤◌, ◌<◌, ◌≡◌, ◌≢◌, refl, sym, ◌∙◌, ap, ◌⊎◌, inl, inr, true, false,
  List, [], ◌∷◌, ◌++◌, map, Option, none, some, All, length, ltb, ◌==◌, Bool-cases, arith,
}
use rtz_server.GoText.{Str}
use rtz_server.GoText.Laws.{str_eq_iff}
use rtz_server.Models.Rows.{Device, Database}
use rtz_server.Models.Gorm.{Gorm, fetched, not_found, query_failed, Fetched-cases}
use rtz_server.Models.Queries.{find_device_by_dongle_id}
use rtz_server.Models.DongleId.{
  hex_digit, hex_encode, first_bytes, candidate, generated, generate_dongle_id,
}

-- A lower-case digit of base 16.
abbrev pub IsHexDigit : ℕ → Type 0
IsHexDigit c = ((b'0' ≤ c) × (c ≤ b'9')) ⊎ ((b'a' ≤ c) × (c ≤ b'f'))

abbrev pub IsByte : ℕ → Type 0
IsByte b = b < 256

-- What a call of rand.Read has filled in are bytes.
abbrev pub IsRead : Option (List ℕ) → Type 0
IsRead none = Unit
IsRead (some buff) = All IsByte buff

hex_digit-IsHexDigit : (n : ℕ) → n < 16 → IsHexDigit (hex_digit n)
hex_digit-IsHexDigit n h = elim (Bool-cases (ltb n 10)) [
  | inl low ↦ inl (ground arith, ground arith)
  | inr high ↦ inr (ground arith, ground arith)
]

hex_encode-IsHexDigit : (bs : List ℕ) → All IsByte bs → All IsHexDigit (hex_encode bs)
unfolding hex_encode
hex_encode-IsHexDigit [] h = tt
hex_encode-IsHexDigit (b ∷ bs) (byte, rest) = (
  hex_digit-IsHexDigit (b / 16) (omega (arith, byte)),
  (hex_digit-IsHexDigit (b % 16) (omega arith), hex_encode-IsHexDigit bs rest),
)

length-hex_encode : (bs : List ℕ) → length (hex_encode bs) ≡ 2 * length bs
unfolding hex_encode
length-hex_encode [] = refl
length-hex_encode (b ∷ bs) = omega (arith, length-hex_encode bs)

length-first_bytes : (n : ℕ) (s : Str) → n ≤ length s → length (first_bytes n s) ≡ n
unfolding first_bytes
length-first_bytes zero s h = refl
length-first_bytes (suc n) [] h = omega (arith, h)
length-first_bytes (suc n) (c ∷ s) h = omega (arith, length-first_bytes n s (omega (arith, h)))

All-first_bytes : (P : ℕ → Type 0) (n : ℕ) (s : Str) → All P s → All P (first_bytes n s)
unfolding first_bytes
All-first_bytes P zero s h = tt
All-first_bytes P (suc n) [] h = tt
All-first_bytes P (suc n) (c ∷ s) (p, h) = (p, All-first_bytes P n s h)

-- Sixteen digits of base 16.
abbrev pub IsDongleId : Str → Type 0
IsDongleId s = (length s ≡ 16) × All IsHexDigit s

candidate-IsDongleId :
    (buff : List ℕ) → All IsByte buff → (length buff == 32) ≡ true → IsDongleId (candidate buff)
unfolding candidate
candidate-IsDongleId buff bytes full = (
  length-first_bytes 16 (hex_encode buff) (
      let double = length-hex_encode buff in
      let full1 : length buff ≡ 32 = ground arith in omega (arith, double, full1)),
  All-first_bytes IsHexDigit 16 (hex_encode buff) (hex_encode-IsHexDigit buff bytes),
)

generated_injective : {s t : Str} → generated s ≡ generated t → s ≡ t
generated_injective e = cc

module _ (gorm : Gorm) (db : Database) where
  -- No device has the dongle id.
  abbrev pub IsFree : Str → Type 0
  IsFree s = All (λ d. d.dongle_id ≢ s) db.devices

  apart :
      (s : Str) (rows : List Device)
      → s ≢ []
      → All (λ d. gorm.str_cond s d.dongle_id ≡ false) rows
      → All (λ d. d.dongle_id ≢ s) rows
  apart s [] h _ = tt
  apart s (d ∷ rows) h (miss, rest) = (
    λ same.
        let hit : gorm.str_cond s d.dongle_id ≡ true =
          gorm.str_cond_set s d.dongle_id h ∙ (str_eq_iff s d.dongle_id).1 (sym same) in
        let bad : true ≡ false = sym hit ∙ miss in cc,
    apart s rows h rest,
  )

  not_found-IsFree :
      (s : Str) → IsDongleId s → find_device_by_dongle_id gorm db s ≡ not_found → IsFree s
  unfolding find_device_by_dongle_id
  not_found-IsFree s (sixteen, _) e =
      apart s db.devices
        (λ none. let bad : length s ≡ 0 = ap length none in omega (arith, bad, sixteen))
        (gorm.first_not_found Device (λ d. gorm.str_cond s d.dongle_id) db.devices e)

  -- If each read gives bytes, an id that `GenerateDongleID` returns is sixteen lower-case digits of base
  -- 16, and no device of the database has it, unless the query for it has failed.
  pub generate_dongle_id-IsFree :
      (reads : List (Option (List ℕ))) (s : Str)
      → All IsRead reads
      → generate_dongle_id gorm db reads ≡ generated s
      → IsDongleId s × (IsFree s ⊎ (find_device_by_dongle_id gorm db s ≡ query_failed))
  unfolding generate_dongle_id
  generate_dongle_id-IsFree [] s h e = cc
  generate_dongle_id-IsFree (none ∷ reads) s h e = cc
  generate_dongle_id-IsFree (some buff ∷ reads) s (bytes, h) e =
      elim (Bool-cases (length buff == 32)) [
        | inr short ↦ ground arith
        | inl full ↦
            let shape = candidate-IsDongleId buff bytes full in
            elim (Fetched-cases (find_device_by_dongle_id gorm db (candidate buff))) [
              | inl (d, taken) ↦ generate_dongle_id-IsFree reads s h (ground arith)
              | inr (inl free) ↦
                  let same : candidate buff ≡ s = generated_injective (ground arith) in
                  subst
                    (λ t.
                      IsDongleId t
                      × (IsFree t ⊎ (find_device_by_dongle_id gorm db t ≡ query_failed)))
                    same (shape, inl (not_found-IsFree (candidate buff) shape free))
              | inr (inr failed) ↦
                  let same : candidate buff ≡ s = generated_injective (ground arith) in
                  subst
                    (λ t.
                      IsDongleId t
                      × (IsFree t ⊎ (find_device_by_dongle_id gorm db t ≡ query_failed)))
                    same (shape, inr failed)
            ]
      ]

  -- `GenerateDongleID` returns the first candidate that is not stored, however many before it are, if
  -- every read fills the 32 bytes.
  pub generate_dongle_id-first :
      (taken : List (List ℕ)) (buff : List ℕ) (reads : List (Option (List ℕ)))
      → All
          (λ b.
            (length b ≡ 32)
            × (d : Device) × (find_device_by_dongle_id gorm db (candidate b) ≡ fetched d))
          taken
      → length buff ≡ 32
      → find_device_by_dongle_id gorm db (candidate buff) ≡ not_found
      → generate_dongle_id gorm db (map some taken ++ (some buff ∷ reads))
        ≡ generated (candidate buff)
  unfolding generate_dongle_id
  generate_dongle_id-first [] buff reads h full free = ground arith
  generate_dongle_id-first (b ∷ taken) buff reads ((full1, d, hit), h) full free =
      let rest = generate_dongle_id-first taken buff reads h full free in ground arith
