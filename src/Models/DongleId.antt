-- ===== src/Models/DongleId.antt =====
-- GenerateDongleID of internal/db/models/device.go. The random bytes are an argument.
pub mod Fresh
use rtz_server.Base.{
  ℕ, suc, zero, ◌+◌, ◌-◌, ◌/◌, ◌%◌, List, [], ◌∷◌, Option, none, some, ltb, ◌==◌, length, not,
  if◌then◌else◌,
}
use rtz_server.GoText.{Str}
use rtz_server.Models.Rows.{Database}
use rtz_server.Models.Gorm.{Gorm, Fetched, fetched, not_found, query_failed}
use rtz_server.Models.Queries.{find_device_by_dongle_id}

-- A digit of encoding/hex.
abbrev pub hex_digit : ℕ → ℕ
hex_digit n = if ltb n 10 then b'0' + n else b'a' + (n - 10)

-- hex.EncodeToString
unfoldable pub hex_encode : List ℕ → Str
hex_encode [] = []
hex_encode (b ∷ bs) = hex_digit (b / 16) ∷ hex_digit (b % 16) ∷ hex_encode bs

-- s[:n]
unfoldable pub first_bytes : ℕ → Str → Str
first_bytes zero s = []
first_bytes (suc n) [] = []
first_bytes (suc n) (c ∷ s) = c ∷ first_bytes n s

unfoldable pub candidate : List ℕ → Str
unfolding hex_encode first_bytes
candidate buff = first_bytes 16 (hex_encode buff)

-- What the function returns: an id, an error, or nothing yet, where it waits for a further read of
-- random bytes.
pub data Generated : Type 0 where
  generated : Str → Generated
  random_failed : Generated
  pending : Generated

-- `reads` are the results of the successive calls of rand.Read, `none` an error. An id that is
-- stored is tried no more; any error of the query counts as an id that is not.
unfoldable pub generate_dongle_id : Gorm → Database → List (Option (List ℕ)) → Generated
unfolding candidate
generate_dongle_id gorm db [] = pending
generate_dongle_id gorm db (none ∷ reads) = random_failed
generate_dongle_id gorm db (some buff ∷ reads) =
    let rest = generate_dongle_id gorm db reads in
    if not (length buff == 32)
    then random_failed
    else elim (find_device_by_dongle_id gorm db (candidate buff)) [
      | fetched d ↦ rest
      | not_found ↦ generated (candidate buff)
      | query_failed ↦ generated (candidate buff)
    ]
