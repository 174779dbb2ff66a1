-- ===== src/Models/Int64Array/Tests.antt =====
-- Columns that are written and read back, and columns that Scan of
-- internal/db/models/int64_array.go refuses.
use rtz_server.Base.{◌≡◌, refl, List, [], ◌∷◌, Option, none, some, arith}
use rtz_server.Base.Int.{ℤ, pos, negsuc}
use rtz_server.GoText.{Str}
use rtz_server.Models.Int64Array.{int64, other, unsupported, value, scan}
use rtz_server.Models.Int64Array.RoundTrip.{scan-value}

abbrev no_json : Str → Option (List ℤ)
no_json s = none

scalar : scan no_json none (int64 (pos 4)) ≡ (some (pos 4 ∷ []), none)
unfolding scan
scalar = refl

foreign : scan no_json (some []) other ≡ (some [], some unsupported)
unfolding scan
foreign = refl

scan-value_example :
    scan no_json none (value (some (pos 1782771092838954186 ∷ negsuc 4 ∷ [])))
    ≡ (some (pos 1782771092838954186 ∷ negsuc 4 ∷ []), none)
scan-value_example =
    scan-value no_json none (some (pos 1782771092838954186 ∷ negsuc 4 ∷ []))
      (omega arith, (omega arith, tt))
