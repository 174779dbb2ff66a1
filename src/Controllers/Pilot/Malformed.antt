-- ===== src/Controllers/Pilot/Malformed.antt =====
-- A registration by POSTPilotAuth of internal/server/controllers/v2/pilot.go with an IMEI that is no number.
use rtz_server.Base.{
  ℕ, Bool, true, false, ◌≡◌, refl, sym, ◌∙◌, ap, inl, inr, List, [], ◌∷◌, ◌++◌, Option, none, some,
  ◌==◌, ==_iff, Bool-cases, length, arith,
}
use rtz_server.Base.Int.{pos}
use rtz_server.GoText.{Str}
use rtz_server.GoText.Numbers.{
  syntax, range, Scanned, scanned, failed, positive, negative, parse_uint, parse_int,
}
use rtz_server.Luhn.{luhn_valid}
use rtz_server.Models.Rows.{Device, Database, Time}
use rtz_server.Models.Gorm.{Gorm}
use rtz_server.Models.Writes.{Writes}
use rtz_server.Models.Queries.{find_device_by_serial}
use rtz_server.Models.DongleId.{generate_dongle_id}
use rtz_server.Jwt.{
  KeyAnswer, use_key, refuse, key_panic, Parsed, parsed, rejected, parse_panic, Parser, Keys,
  public_key, device_jwt_signing_methods,
}
use rtz_server.Server.Http.{◌>>=◌, require}
use rtz_server.Controllers.Handler.{Reply, answered, failed, crash}
use rtz_server.Controllers.Pilot.{
  RegisterJwtClaims, PilotAuthQuery, Registered, stop, require_parsed, optional_number,
  optional_complaint, complaint, check_second, check_first, check_imeis, filled, new_device,
  dongle_id_or_empty, serial_is_taken, register_key, created, create_row, create_device,
  verify_with, post_pilot_auth,
}
use rtz_server.Controllers.Pilot.Stops.{registered, registered-stop}

positive-syntax : (x : Scanned) → (positive x).1 ≡ some syntax → (positive x).0 ≡ pos 0
positive-syntax (scanned n) e = ground arith
positive-syntax (Scanned.failed syntax) e = refl
positive-syntax (Scanned.failed range) e = cc

negative-syntax : (x : Scanned) → (negative x).1 ≡ some syntax → (negative x).0 ≡ pos 0
negative-syntax (scanned n) e = ground arith
negative-syntax (Scanned.failed syntax) e = refl
negative-syntax (Scanned.failed range) e = cc

-- On a syntax error strconv.ParseInt gives 0.
parse_int-syntax : (s : Str) → (parse_int s).1 ≡ some syntax → (parse_int s).0 ≡ pos 0
unfolding parse_int
parse_int-syntax [] e = refl
parse_int-syntax (c ∷ s) e = elim (Bool-cases (c == b'-')) [
  | inl minus ↦
      let same : parse_int (c ∷ s) ≡ negative (parse_uint s) = rw minus refl in
      ap (λ x. x.0) same ∙ negative-syntax (parse_uint s) (ap (λ x. x.1) (sym same) ∙ e)
  | inr not_minus ↦ elim (Bool-cases (c == b'+')) [
    | inl plus ↦
        let same : parse_int (c ∷ s) ≡ positive (parse_uint s) = rw (not_minus, plus) refl in
        ap (λ x. x.0) same ∙ positive-syntax (parse_uint s) (ap (λ x. x.1) (sym same) ∙ e)
    | inr digits ↦
        let same : parse_int (c ∷ s) ≡ positive (parse_uint (c ∷ s)) =
          rw (not_minus, digits) refl in
        ap (λ x. x.0) same ∙ positive-syntax (parse_uint (c ∷ s)) (ap (λ x. x.1) (sym same) ∙ e)
  ]
]

-- What has been said before does not change what a registration comes to.
module _ (said said' : List (Reply Str)) where
  stop-silent :
      (db : Option Database) (r : Reply Str)
      → registered (stop db said r) ≡ registered (stop db said' r)
  stop-silent db r = registered-stop db said r ∙ sym (registered-stop db said' r)

  require-silent :
      {A : Type 0} (db : Option Database) (r : Reply Str) (o : Option A) (f g : A → Registered)
      → ((a : A) → registered (f a) ≡ registered (g a))
      → registered (require o (stop db said r) >>= f)
        ≡ registered (require o (stop db said' r) >>= g)
  require-silent db r none f g h = stop-silent db r
  require-silent db r (some a) f g h = h a

  require_parsed-silent :
      {C : Type 0} (db : Option Database) (refusal panic : Reply Str) (r : Parsed C)
      (f g : C → Registered)
      → ((c : C) → registered (f c) ≡ registered (g c))
      → registered (require_parsed r (stop db said refusal) (stop db said panic) >>= f)
        ≡ registered (require_parsed r (stop db said' refusal) (stop db said' panic) >>= g)
  require_parsed-silent db refusal panic (parsed c true) f g h = h c
  require_parsed-silent db refusal panic (parsed c false) f g h = stop-silent db refusal
  require_parsed-silent db refusal panic rejected f g h = stop-silent db refusal
  require_parsed-silent db refusal panic parse_panic f g h = stop-silent db panic

  module _ (gorm : Gorm) (writes : Writes) (keys : Keys) where
    created-silent :
        (s : Option Database) (db : Database) (id : Str) (o : Option (List Device))
        → registered (created gorm writes keys s said db id o)
          ≡ registered (created gorm writes keys s said' db id o)
    created-silent s db id none = stop-silent s (failed 500 "Try again later")
    created-silent s db id (some rows) =
        stop-silent (some (record db { devices = rows })) (answered id)

    create_row-silent :
        (db : Database) (serial signing_key : Str) (now : Time) (id : Option Str)
        → registered (create_row gorm writes keys said db serial signing_key now id)
          ≡ registered (create_row gorm writes keys said' db serial signing_key now id)
    unfolding create_row
    create_row-silent db serial signing_key now none = refl
    create_row-silent db serial signing_key now (some id) =
        created-silent (some db) db id
          (writes.create Device (λ d. d.id) (new_device id serial signing_key now) db.devices)

    create_device-silent :
        (db : Database) (serial signing_key : Str) (now : Time) (reads : List (Option (List ℕ)))
        → registered (create_device gorm writes keys said db serial signing_key now reads)
          ≡ registered (create_device gorm writes keys said' db serial signing_key now reads)
    unfolding create_device
    create_device-silent db serial signing_key now reads =
        elim (Bool-cases (serial_is_taken (find_device_by_serial gorm db serial))) [
          | inl taken ↦ rw taken (stop-silent (some db) (failed 400 "serial is already registered"))
          | inr fresh ↦ rw fresh (
              create_row-silent db serial signing_key now
                (dongle_id_or_empty (generate_dongle_id gorm db reads)))
        ]

    verify_with-silent :
        (p : Parser RegisterJwtClaims keys.Key) (db : Option Database) (token : Str)
        (a : KeyAnswer keys.Key) (f g : RegisterJwtClaims → Registered)
        → ((c : RegisterJwtClaims) → registered (f c) ≡ registered (g c))
        → registered (verify_with gorm writes keys p db said token a >>= f)
          ≡ registered (verify_with gorm writes keys p db said' token a >>= g)
    unfolding verify_with
    verify_with-silent p db token key_panic f g h = stop-silent db crash
    verify_with-silent p db token refuse f g h = stop-silent db (failed 400 "public_key is invalid")
    verify_with-silent p db token (use_key key) f g h =
        require_parsed-silent db (failed 400 "register_token is invalid") crash
          (p.parse_with_claims device_jwt_signing_methods token (register_key gorm writes keys key))
          f g h

check_second-silent :
    (said said' : List (Reply Str)) (db : Option Database) (imei2 : Option Str)
    (f : List (Reply Str) → Registered)
    → ((t t' : List (Reply Str)) → registered (f t) ≡ registered (f t'))
    → registered (check_second db said imei2 >>= f) ≡ registered (check_second db said' imei2 >>= f)
check_second-silent said said' db none f h =
    stop-silent said said' db (failed 400 "imei2 is required")
check_second-silent said said' db (some imei2) f h =
    let more = optional_complaint imei2 (failed 400 "imei2 is not an integer") in
    elim (Bool-cases (luhn_valid (optional_number imei2))) [
      | inl good ↦ rw good (h (said ++ more) (said' ++ more))
      | inr bad ↦
          rw bad (stop-silent (said ++ more) (said' ++ more) db (failed 400 "imei2 is invalid"))
    ]

-- The first test lets an IMEI of 15 characters through that is no number, and one that is a number
-- with a valid checksum.
check_first-next :
    (db : Option Database) (imei : Str) (imei2 : Option Str)
    → length imei ≡ 15
    → luhn_valid (parse_int imei).0 ≡ true
    → (said : List (Reply Str)) × (check_first db (some imei) imei2 ≡ check_second db said imei2)
check_first-next db imei imei2 long valid =
    let fifteen : (length imei == 15) ≡ true = (==_iff (length imei) 15).1 long in
    (complaint imei (failed 400 "imei is not an integer"), rw (fifteen, valid) refl)

zero_valid : luhn_valid (pos 0) ≡ true
unfolding luhn_valid
zero_valid = refl

-- An IMEI of 15 characters that strconv.ParseInt does not read, for its syntax, comes to the same
-- registration as any IMEI of 15 characters that is an integer with a valid checksum: in every
-- configuration, database and query, which may be refused by its other parameters, `POSTPilotAuth` ends
-- with the same dongle id and database, or without one in both cases.
pub post_pilot_auth-not_integer :
    (gorm : Gorm) (writes : Writes) (keys : Keys) (p : Parser RegisterJwtClaims keys.Key)
    (enabled : Bool) (s : Option Database) (q : PilotAuthQuery) (now : Time)
    (reads : List (Option (List ℕ))) (imei number : Str)
    → length imei ≡ 15
    → (parse_int imei).1 ≡ some syntax
    → length number ≡ 15
    → luhn_valid (parse_int number).0 ≡ true
    → registered
        (post_pilot_auth gorm writes keys p enabled s (record q { imei = some imei }) now reads)
      ≡ registered
          (post_pilot_auth gorm writes keys p enabled s (record q { imei = some number }) now reads)
unfolding post_pilot_auth check_imeis
post_pilot_auth-not_integer gorm writes keys p false s q now reads imei number long bad long'
      valid =
    refl
post_pilot_auth-not_integer gorm writes keys p true s q now reads imei number long bad long' valid =
    let zero_read = ap luhn_valid (parse_int-syntax imei bad) ∙ zero_valid in
    let (said, first) = check_first-next s imei q.imei2 long zero_read in
    let (said', second) = check_first-next s number q.imei2 long' valid in
    rw (first, second)
      (check_second-silent said said' s q.imei2 _ (λ t t'.
        require-silent t t' s (failed 400 "serial is required") (filled q.serial) _ _ (λ serial.
          require-silent t t' s (failed 400 "public_key is required") (filled q.public_key) _ _
            (λ signing_key.
              require-silent t t' s (failed 400 "register_token is required") q.register_token _ _
                (λ token.
                  verify_with-silent t t' gorm writes keys p s token (public_key keys signing_key) _
                    _
                    (λ claims. require-silent t t' s (failed 500 "Try again later") s _ _ (λ db.
                      create_device-silent t t' gorm writes keys db serial signing_key now
                        reads)))))))
