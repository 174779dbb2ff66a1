-- ===== src/Controllers/Pilot/Tests.antt =====
-- The handlers of internal/server/controllers/v2/pilot.go on a small database, and the properties of
-- the modules below this one at such requests.
use mathlib.Core.List.{Memᴰ}
use rtz_server.Base.{
  ℕ, ◌+◌, ◌<◌, true, false, not, ◌≡◌, ◌≢◌, ◌⊎◌, refl, sym, ◌∙◌, ap, List, [], ◌∷◌, ◌++◌, map, none,
  some, All, arith,
}
use rtz_server.Base.Int.{pos}
use rtz_server.GoText.{Str, codes, str_eq, is_empty, has_prefix}
use rtz_server.GoText.Numbers.{parse_int, parse_uint, scan_uint, syntax}
use rtz_server.Luhn.{luhn_valid}
use rtz_server.Models.Rows.{User, Device, Database}
use rtz_server.Models.Gorm.{fetched, not_found, query_failed}
use rtz_server.Models.Queries.{find_device_by_dongle_id, find_device_by_serial}
use rtz_server.Models.DongleId.{hex_encode, first_bytes, candidate, generated, generate_dongle_id}
use rtz_server.Models.DongleId.Fresh.{
  IsDongleId, IsFree, generate_dongle_id-IsFree, generate_dongle_id-first,
}
use rtz_server.Models.Fixtures.{sample_gorm, sample_user, sample_device, sample_database}
use rtz_server.Models.Writes.Devices.{AreDongleIdsUnique}
use rtz_server.Models.Writes.Fixtures.{sample_writes}
use rtz_server.Jwt.{Token, public_key}
use rtz_server.Jwt.Fixtures.{sample_keys, sample_parser}
use rtz_server.Server.Http.{of_user, Context, next}
use rtz_server.Server.Middleware.{require_device_owner}
use rtz_server.Server.Middleware.Fixtures.{sample_env, known_request}
use rtz_server.Controllers.Handler.{answered}
use rtz_server.Controllers.Pilot.{
  PilotPairJwtClaims, RegisterJwtClaims, Paired, PilotAuthQuery, pair_key, pair_device,
  post_pilot_pair, check_imeis, register_key, new_device, create_row, create_device, verify_with,
  post_pilot_auth,
}
use rtz_server.Controllers.Pilot.Pairing.{PairProof, with_owner_of, post_pilot_pair-PairProof}
use rtz_server.Controllers.Pilot.Granted.{post_pilot_pair-next}
use rtz_server.Controllers.Pilot.Stops.{registered}
use rtz_server.Controllers.Pilot.Registration.{RegisterProof, IsCreated, post_pilot_auth-IsCreated}
use rtz_server.Controllers.Pilot.Malformed.{post_pilot_auth-not_integer}
use rtz_server.Controllers.Pilot.Unique.{post_pilot_auth-AreDongleIdsUnique}

-- Bytes whose candidate is "0101010101010101".
abbrev ones : List ℕ
ones =
    1 ∷ 1 ∷ 1 ∷ 1 ∷ 1 ∷ 1 ∷ 1 ∷ 1 ∷ 1 ∷ 1 ∷ 1 ∷ 1 ∷ 1 ∷ 1 ∷ 1 ∷ 1 ∷ 1 ∷ 1 ∷ 1 ∷ 1 ∷ 1 ∷ 1 ∷ 1 ∷ 1
    ∷ 1 ∷ 1 ∷ 1 ∷ 1 ∷ 1 ∷ 1 ∷ 1 ∷ 1 ∷ []

ones_test : candidate ones ≡ codes "0101010101010101"
unfolding candidate hex_encode first_bytes
ones_test = refl

abbrev twos : List ℕ
twos = map (λ n. n + 171) ones

twos_test : candidate twos ≡ codes "acacacacacacacac"
unfolding candidate hex_encode first_bytes
twos_test = refl

abbrev named_ones : Database
named_ones = record sample_database {
  devices = record sample_device { dongle_id = codes "0101010101010101" } ∷ [];
}

generates :
    generate_dongle_id sample_gorm named_ones (some ones ∷ some twos ∷ [])
    ≡ generated (codes "acacacacacacacac")
unfolding generate_dongle_id candidate hex_encode first_bytes find_device_by_dongle_id str_eq
    is_empty
generates = refl

bytes : All (λ b. b < 256) ones
bytes = ground arith

ones_taken :
    find_device_by_dongle_id sample_gorm named_ones (candidate ones)
    ≡ fetched (record sample_device { dongle_id = codes "0101010101010101" })
unfolding candidate hex_encode first_bytes find_device_by_dongle_id str_eq is_empty
ones_taken = refl

twos_free : find_device_by_dongle_id sample_gorm named_ones (candidate twos) ≡ not_found
unfolding candidate hex_encode first_bytes find_device_by_dongle_id str_eq is_empty
twos_free = refl

generate_dongle_id-first_example :
    generate_dongle_id sample_gorm named_ones (map some (ones ∷ []) ++ (some twos ∷ []))
    ≡ generated (candidate twos)
generate_dongle_id-first_example =
    generate_dongle_id-first sample_gorm named_ones (ones ∷ []) twos [] ((refl, _, ones_taken), tt)
      refl twos_free

abbrev pair_token : Token PilotPairJwtClaims
pair_token = record {
  claims = record { expires_at = some 1; identity = codes "d1"; pair = true };
  is_hmac = false;
}

abbrev other_user : User
other_user = record sample_user { id = 8 }

abbrev pair_request : Context
pair_request = record known_request { user = some (of_user other_user) }

abbrev paired : Paired
paired = record { first_pair = false; dongle_id = codes "d1" }

abbrev paired_database : Database
paired_database = with_owner_of sample_device other_user sample_database

pairs :
    post_pilot_pair sample_gorm sample_writes sample_keys
      (sample_parser pair_token)
      pair_request
      (codes "k1sig")
    ≡ (answered paired, some paired_database)
unfolding post_pilot_pair pair_device pair_key public_key find_device_by_dongle_id str_eq is_empty
    has_prefix
pairs = refl

post_pilot_pair-PairProof_example :
    (db : Database) × (device : Device) × (user : User) × (pair_request.db ≡ some db)
    × (pair_request.user ≡ some (of_user user))
    × PairProof sample_gorm sample_writes sample_keys
        (sample_parser pair_token)
        db
        (codes "k1sig")
        device
    × (paired ≡ record { first_pair = not device.is_paired; dongle_id = device.dongle_id })
    × (paired_database ≡ with_owner_of device user db)
post_pilot_pair-PairProof_example =
    post_pilot_pair-PairProof sample_gorm sample_writes sample_keys (sample_parser pair_token)
      pair_request (codes "k1sig") paired paired_database pairs

one_row : AreDongleIdsUnique sample_database
one_row d e (Memᴰ.head p) (Memᴰ.head q) same = p ∙ sym q
one_row d e (Memᴰ.head p) (Memᴰ.tail m) same = elim m [ ]
one_row d e (Memᴰ.tail m) q same = elim m [ ]

abbrev owner_request : Context
owner_request = record pair_request { db = some paired_database }

finds :
    find_device_by_dongle_id sample_gorm paired_database (codes "d1")
    ≡ fetched (record sample_device { owner_id = 8 })
unfolding find_device_by_dongle_id str_eq is_empty
finds = refl

post_pilot_pair-next_example : require_device_owner sample_env owner_request ≡ next owner_request
post_pilot_pair-next_example =
    post_pilot_pair-next sample_env sample_writes (sample_parser pair_token) pair_request
      owner_request (codes "k1sig") paired sample_database paired_database other_user
      (record sample_device { owner_id = 8 }) refl one_row refl (omega arith) pairs refl refl finds
      refl

abbrev register_token : Token RegisterJwtClaims
register_token = record {
  claims = record { expires_at = some 1; register = true };
  is_hmac = false;
}

abbrev query : PilotAuthQuery
query = record {
  imei = some (codes "000000000000000");
  imei2 = some [];
  serial = some (codes "s2");
  public_key = some (codes "k2");
  register_token = some (codes "k2sig");
}

abbrev grown_database : Database
grown_database = record sample_database {
  devices =
      sample_device ∷ new_device (codes "0101010101010101") (codes "s2") (codes "k2") none 5 ∷ [];
}

registers :
    registered (
      post_pilot_auth sample_gorm sample_writes sample_keys
        (sample_parser register_token)
        true
        (some sample_database)
        query
        none
        (some ones ∷ []))
    ≡ some (codes "0101010101010101", some grown_database)
unfolding post_pilot_auth check_imeis verify_with register_key create_device create_row public_key
    find_device_by_serial find_device_by_dongle_id generate_dongle_id candidate hex_encode
    first_bytes parse_int parse_uint scan_uint luhn_valid str_eq is_empty has_prefix
registers = refl

post_pilot_auth-IsCreated_example :
    (true ≡ true)
    × (db : Database) × (serial : Str) × (signing_key : Str) × (token : Str) × (some sample_database
        ≡ some db)
    × (query.serial ≡ some serial)
    × (serial ≢ [])
    × (query.public_key ≡ some signing_key)
    × (signing_key ≢ [])
    × (query.register_token ≡ some token)
    × RegisterProof sample_gorm sample_writes sample_keys
        (sample_parser register_token)
        signing_key
        token
    × IsCreated sample_gorm sample_writes sample_keys db grown_database serial signing_key
        (codes "0101010101010101")
        none
        (some ones ∷ [])
post_pilot_auth-IsCreated_example =
    post_pilot_auth-IsCreated sample_gorm sample_writes sample_keys (sample_parser register_token)
      true (some sample_database) query none (some ones ∷ []) (codes "0101010101010101")
      grown_database registers

ones_free :
    find_device_by_dongle_id sample_gorm sample_database (codes "0101010101010101") ≡ not_found
unfolding find_device_by_dongle_id str_eq is_empty
ones_free = refl

unasked :
    find_device_by_dongle_id sample_gorm sample_database (codes "0101010101010101") ≢ query_failed
unasked e = cc (e, ones_free)

post_pilot_auth-AreDongleIdsUnique_example : AreDongleIdsUnique grown_database
post_pilot_auth-AreDongleIdsUnique_example =
    post_pilot_auth-AreDongleIdsUnique sample_gorm sample_writes sample_keys
      (sample_parser register_token) true sample_database grown_database query none (some ones ∷ [])
      (codes "0101010101010101") one_row (bytes, tt) (λ e. cc) unasked registers

letters_syntax : parse_int (codes "fifteen letters") ≡ (pos 0, some syntax)
unfolding parse_int parse_uint scan_uint
letters_syntax = refl

letters : (parse_int (codes "fifteen letters")).1 ≡ some syntax
letters = ap (λ x. x.1) letters_syntax

zeros_valid : luhn_valid (parse_int (codes "000000000000000")).0 ≡ true
unfolding parse_int parse_uint scan_uint luhn_valid
zeros_valid = refl

post_pilot_auth-not_integer_example :
    registered (
      post_pilot_auth sample_gorm sample_writes sample_keys
        (sample_parser register_token)
        true
        (some sample_database)
        (record query { imei = some (codes "fifteen letters") })
        none
        (some ones ∷ []))
    ≡ registered (
        post_pilot_auth sample_gorm sample_writes sample_keys
          (sample_parser register_token)
          true
          (some sample_database)
          (record query { imei = some (codes "000000000000000") })
          none
          (some ones ∷ []))
post_pilot_auth-not_integer_example =
    post_pilot_auth-not_integer sample_gorm sample_writes sample_keys (sample_parser register_token)
      true (some sample_database) query none (some ones ∷ []) (codes "fifteen letters")
      (codes "000000000000000") refl letters refl zeros_valid

generates_one :
    generate_dongle_id sample_gorm sample_database (some ones ∷ [])
    ≡ generated (codes "0101010101010101")
unfolding generate_dongle_id candidate hex_encode first_bytes find_device_by_dongle_id str_eq
    is_empty
generates_one = refl

generate_dongle_id-IsFree_example :
    IsDongleId (codes "0101010101010101")
    × (IsFree sample_gorm sample_database (codes "0101010101010101")
        ⊎ (find_device_by_dongle_id sample_gorm sample_database (codes "0101010101010101")
            ≡ query_failed))
generate_dongle_id-IsFree_example =
    generate_dongle_id-IsFree sample_gorm sample_database (some ones ∷ [])
      (codes "0101010101010101") (bytes, tt) generates_one
