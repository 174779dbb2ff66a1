-- ===== src/Models/Int64Array.antt =====
-- internal/db/models/int64_array.go: how a slice of int64 is written to a column and read back.
pub mod RoundTrip
mod Tests
use rtz_server.Base.{
  ℕ, ◌≡◌, refl, Bool, true, false, ◌&&◌, ◌||◌, List, [], ◌∷◌, ◌++◌, map, Option, none, some, leb,
  ◌==◌, ◌-◌, ◌⊎◌, inl, inr, if◌then◌else◌,
}
use rtz_server.Base.Int.{ℤ, pos, negsuc}
use rtz_server.GoText.{
  Str, codes, str_eq, is_empty, has_prefix, has_suffix, trim_prefix, trim_suffix, trim, is_space,
  split, join,
}
use rtz_server.GoText.Numbers.{NumError, format_int, parse_int}

-- `Int64Array`: `none` is the nil slice, which the code tells from the empty one.
abbrev pub Int64Array : Type 0
Int64Array = Option (List ℤ)

-- What a database driver hands to `Scan` and takes from `Value`, by its dynamic type.
pub data DriverValue : Type 0 where
  null : DriverValue
  int64 int : ℤ → DriverValue
  bytes string : Str → DriverValue
  other : DriverValue

pub data ScanError : Type 0 where
  bad_json : ScanError
  bad_number : NumError → ScanError
  unsupported : ScanError

abbrev pub open_brace : Str
open_brace = b'{' ∷ []

abbrev pub close_brace : Str
close_brace = b'}' ∷ []

abbrev pub comma : ℕ
comma = b','

abbrev pub is_quote : ℕ → Bool
is_quote c = c == b'"'

unfoldable pub value : Int64Array → DriverValue
value none = null
value (some a) = string (open_brace ++ (join (map format_int a) comma ++ close_brace))

-- `strings.EqualFold(part, "NULL")`: no letter outside ASCII folds to one of these.
abbrev pub to_upper : ℕ → ℕ
to_upper c = if leb b'a' c && leb c b'z' then c - 32 else c

unfoldable pub is_null : Str → Bool
unfolding str_eq
is_null part = str_eq (map to_upper part) (codes "NULL")

abbrev pub tidy : Str → Str
tidy part = trim is_space (trim is_quote part)

-- The loop over the parts; `values` holds the numbers read so far. `inr` is the error of ParseInt.
unfoldable pub scan_parts : List Str → List ℤ → List ℤ ⊎ NumError
scan_parts [] values = inl values
scan_parts (part ∷ parts) values =
    let skipped = scan_parts parts values in
    let (number, err) = parse_int (tidy part) in
    let next = scan_parts parts (values ++ number ∷ []) in
    if is_empty (tidy part) || is_null (tidy part)
    then skipped
    else elim err [ none ↦ next | some e ↦ inr e ]

abbrev pub assign : Int64Array → List ℤ ⊎ NumError → Int64Array × Option ScanError
assign a (inl values) = (some values, none)
assign a (inr e) = (a, some (bad_number e))

-- `{1,2}` without its braces
unfoldable pub unbraced : Str → Str
unfolding has_prefix trim_prefix
unbraced v =
    if has_prefix v open_brace && has_suffix v close_brace
    then trim_suffix (trim_prefix v open_brace) close_brace
    else v

-- `unmarshal` is `json.Unmarshal` into a `[]int64`. Each result is the receiver's new value and the
-- error; on an error the receiver keeps its value.
module _ (unmarshal : Str → Option (List ℤ)) where
  scan_unbraced : Int64Array → Str → Int64Array × Option ScanError
  scan_unbraced a v =
      if is_empty v then (some [], none) else assign a (scan_parts (split v comma) [])

  scan_trimmed : Int64Array → Str → Int64Array × Option ScanError
  unfolding scan_unbraced
  scan_trimmed a v =
      if is_empty v
      then (some [], none)
      else if has_prefix v (codes "[")
      then elim (unmarshal v) [ none ↦ (a, some bad_json) | some values ↦ (some values, none) ]
      else scan_unbraced a (unbraced v)

  pub scan_string : Int64Array → Str → Int64Array × Option ScanError
  unfolding scan_trimmed
  scan_string a v = scan_trimmed a (trim is_space v)

  pub scan : Int64Array → DriverValue → Int64Array × Option ScanError
  scan a null = (none, none)
  scan a (int64 n) = (some (n ∷ []), none)
  scan a (int n) = (some (n ∷ []), none)
  scan a (bytes v) = scan_string a v
  scan a (string v) = scan_string a v
  scan a other = (a, some unsupported)
