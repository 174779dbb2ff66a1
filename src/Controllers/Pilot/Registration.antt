-- ===== src/Controllers/Pilot/Registration.antt =====
-- What POSTPilotAuth of internal/server/controllers/v2/pilot.go asks for, and the device that it adds.
use mathlib.Core.Path.{subst}
use rtz_server.Base.{
  ℕ, Bool, true, false, ◌≡◌, ◌≢◌, refl, sym, ◌∙◌, ap, inl, inr, List, [], ◌∷◌, Option, none, some,
  some_injective, Bool-cases, if_true, if_false,
}
use rtz_server.GoText.{Str, is_empty}
use rtz_server.Models.Rows.{Device, Database, Time}
use rtz_server.Models.Gorm.{Gorm}
use rtz_server.Models.Writes.{Writes, IsAdded}
use rtz_server.Models.Queries.{find_device_by_serial}
use rtz_server.Models.DongleId.{generate_dongle_id}
use rtz_server.Jwt.{
  Token, KeyAnswer, use_key, refuse, key_panic, Parser, Keys, public_key,
  device_jwt_signing_methods,
}
use rtz_server.Jwt.Laws.{parse-Checked, expiring_sound}
use rtz_server.Server.Http.{value, answer}
use rtz_server.Controllers.Handler.{Reply, answered, failed, crash}
use rtz_server.Controllers.Pilot.{
  RegisterJwtClaims, PilotAuthQuery, Registered, check_imeis, filled, new_device,
  dongle_id_or_empty, serial_is_taken, register_key, created, create_row, create_device,
  verify_with, post_pilot_auth,
}
use rtz_server.Controllers.Pilot.Stops.{
  registered, registered-stop, past_stop, past_check, check_imeis-stop, stopped,
  require_parsed-stop, require_parsed-parsed,
}

module _ (gorm : Gorm) (writes : Writes) (keys : Keys) where
  -- A token for registration that is signed with the key which registers.
  pub record RegisterProof (p : Parser RegisterJwtClaims keys.Key) (signing_key s : Str)
      : Type 0 where
    pub token : Token RegisterJwtClaims
    pub key : keys.Key
    pub read : p.peek device_jwt_signing_methods s ≡ some token
    pub expires : token.claims.expires_at ≢ none
    pub registers : token.claims.register ≡ true
    pub keyed : public_key keys signing_key ≡ use_key key
    pub signed : p.verified device_jwt_signing_methods s key ≡ true

  verify_with-stop :
      (p : Parser RegisterJwtClaims keys.Key) (db : Option Database) (said : List (Reply Str))
      (s : Str) (answered_key : KeyAnswer keys.Key) (early : Registered)
      → verify_with gorm writes keys p db said s answered_key ≡ answer early
      → registered early ≡ none
  unfolding verify_with
  verify_with-stop p db said s key_panic early = stopped db said crash early refl
  verify_with-stop p db said s refuse early = stopped db said _ early refl
  verify_with-stop p db said s (use_key key) early =
      require_parsed-stop
        (p.parse_with_claims device_jwt_signing_methods s (register_key gorm writes keys key)) _ _
        early (registered-stop db said (failed 400 "register_token is invalid"))
        (registered-stop db said crash)

  verify_with-RegisterProof :
      (p : Parser RegisterJwtClaims keys.Key) (db : Option Database) (said : List (Reply Str))
      (signing_key s : Str) (a : KeyAnswer keys.Key) (claims : RegisterJwtClaims)
      → public_key keys signing_key ≡ a
      → verify_with gorm writes keys p db said s a ≡ value claims
      → RegisterProof p signing_key s
  unfolding verify_with register_key
  verify_with-RegisterProof p db said signing_key s key_panic claims keyed e = cc e
  verify_with-RegisterProof p db said signing_key s refuse claims keyed e = cc e
  verify_with-RegisterProof p db said signing_key s (use_key key) claims keyed e =
      let read =
        require_parsed-parsed
          (p.parse_with_claims device_jwt_signing_methods s (register_key gorm writes keys key)) _ _
          claims e in
      let (t, checked, _) =
        parse-Checked p device_jwt_signing_methods s (register_key gorm writes keys key) claims true
          read in
      let (expires, registers, same) =
        expiring_sound t.claims.expires_at t.claims.register (use_key key) checked.key
          checked.keyed in
      record {
        token = t;
        key = checked.key;
        read = checked.read;
        expires = expires;
        registers = registers;
        keyed = keyed ∙ same;
        signed = checked.signed;
      }

  -- What a registration has added.
  pub record IsCreated (db db' : Database) (serial signing_key id : Str) (now : Time)
      (reads : List (Option (List ℕ))) : Type 0 where
    pub new_serial : serial_is_taken (find_device_by_serial gorm db serial) ≡ false
    pub new_id : dongle_id_or_empty (generate_dongle_id gorm db reads) ≡ some id
    pub others : db' ≡ record db { devices = db'.devices }
    pub added : IsAdded (λ d. d.id) (new_device id serial signing_key now) db.devices db'.devices

  created-IsCreated :
      (said : List (Reply Str)) (db db' : Database) (serial signing_key id : Str) (now : Time)
      (reads : List (Option (List ℕ))) (dongle_id : Str)
      → serial_is_taken (find_device_by_serial gorm db serial) ≡ false
      → dongle_id_or_empty (generate_dongle_id gorm db reads) ≡ some dongle_id
      → (o : Option (List Device))
      → writes.create Device (λ d. d.id) (new_device dongle_id serial signing_key now) db.devices
        ≡ o
      → registered (created gorm writes keys (some db) said db dongle_id o) ≡ some (id, some db')
      → IsCreated db db' serial signing_key id now reads
  created-IsCreated said db db' serial signing_key id now reads dongle_id fresh made none written
        e =
      absurd (
        let bad : none ≡ some (id, some db') =
          sym (registered-stop (some db) said (failed 500 "Try again later")) ∙ e in
        cc)
  created-IsCreated said db db' serial signing_key id now reads dongle_id fresh made (some rows)
        written e =
      let done : some (dongle_id, some (record db { devices = rows })) ≡ some (id, some db') =
        sym (registered-stop (some (record db { devices = rows })) said (answered dongle_id)) ∙ e in
      let same_id : dongle_id ≡ id = ap (λ x. x.0) (some_injective done) in
      let left : record db { devices = rows } ≡ db' =
        some_injective (ap (λ x. x.1) (some_injective done)) in
      let same_rows : rows ≡ db'.devices = ap (λ x. x.devices) left in
      record {
        new_serial = fresh;
        new_id = made ∙ ap (λ x. some x) same_id;
        others = sym left ∙ ap (λ t. record db { devices = t }) same_rows;
        added =
            subst
              (λ t.
                IsAdded (λ d. d.id) (new_device t serial signing_key now) db.devices db'.devices)
              same_id
              (subst
                (λ t.
                  IsAdded (λ d. d.id) (new_device dongle_id serial signing_key now) db.devices t)
                same_rows
                (writes.create_done Device (λ d. d.id) (new_device dongle_id serial signing_key now)
                  db.devices rows written));
      }

  create_row-IsCreated :
      (said : List (Reply Str)) (db db' : Database) (serial signing_key id : Str) (now : Time)
      (reads : List (Option (List ℕ))) (dongle_id : Option Str)
      → serial_is_taken (find_device_by_serial gorm db serial) ≡ false
      → dongle_id_or_empty (generate_dongle_id gorm db reads) ≡ dongle_id
      → registered (create_row gorm writes keys said db serial signing_key now dongle_id)
        ≡ some (id, some db')
      → IsCreated db db' serial signing_key id now reads
  unfolding create_row
  create_row-IsCreated said db db' serial signing_key id now reads none fresh made e = cc e
  create_row-IsCreated said db db' serial signing_key id now reads (some dongle_id) fresh made e =
      created-IsCreated said db db' serial signing_key id now reads dongle_id fresh made
        (writes.create Device (λ d. d.id) (new_device dongle_id serial signing_key now) db.devices)
        refl e

  create_device-IsCreated :
      (said : List (Reply Str)) (db db' : Database) (serial signing_key id : Str) (now : Time)
      (reads : List (Option (List ℕ)))
      → registered (create_device gorm writes keys said db serial signing_key now reads)
        ≡ some (id, some db')
      → IsCreated db db' serial signing_key id now reads
  unfolding create_device
  create_device-IsCreated said db db' serial signing_key id now reads e =
      elim (Bool-cases (serial_is_taken (find_device_by_serial gorm db serial))) [
        | inl taken ↦ absurd (
            let bad : none ≡ some (id, some db') =
              sym (registered-stop (some db) said (failed 400 "serial is already registered"))
              ∙ ap registered (sym (if_true _ _ _ taken))
              ∙ e in
            cc)
        | inr fresh ↦
            create_row-IsCreated said db db' serial signing_key id now reads _ fresh refl
              (ap registered (sym (if_false _ _ _ fresh)) ∙ e)
      ]

  filled-set : (o : Option Str) (s : Str) → filled o ≡ some s → (o ≡ some s) × (s ≢ [])
  unfolding is_empty
  filled-set none s e = cc
  filled-set (some []) s e = cc
  filled-set (some (c ∷ t)) s e =
      (e, λ empty. let bad : c ∷ t ≡ [] = some_injective e ∙ empty in cc)

  -- When the last body that `POSTPilotAuth` writes has a dongle id, registration is enabled, and the query
  -- has a serial and a public key that are not empty and a token for registration, with an expiration,
  -- that verifies under that key; the query for a device with the serial has found none or has failed.
  -- One row is added, with a primary key of its own and these three, and nothing else has changed.
  pub post_pilot_auth-IsCreated :
      (p : Parser RegisterJwtClaims keys.Key) (enabled : Bool) (s : Option Database)
      (q : PilotAuthQuery) (now : Time) (reads : List (Option (List ℕ))) (id : Str) (db' : Database)
      → registered (post_pilot_auth gorm writes keys p enabled s q now reads) ≡ some (id, some db')
      → (enabled ≡ true)
        × (db : Database) × (serial : Str) × (signing_key : Str) × (token : Str) × (s ≡ some db)
        × (q.serial ≡ some serial)
        × (serial ≢ [])
        × (q.public_key ≡ some signing_key)
        × (signing_key ≢ [])
        × (q.register_token ≡ some token)
        × RegisterProof p signing_key token
        × IsCreated db db' serial signing_key id now reads
  unfolding post_pilot_auth
  post_pilot_auth-IsCreated p false s q now reads id db' e = absurd (
      let bad : none ≡ some (id, some db') =
        sym (registered-stop s [] (failed 404 "Registration is disabled")) ∙ e in
      cc)
  post_pilot_auth-IsCreated p true s q now reads id db' e =
      let (said, _, e1) = past_check (check_imeis s q) _ (check_imeis-stop s q) e in
      let (serial, serial_given, e2) =
        past_stop (filled q.serial) _ _ (registered-stop s said (failed 400 "serial is required"))
          e1 in
      let (signing_key, key_given, e3) =
        past_stop (filled q.public_key) _ _
          (registered-stop s said (failed 400 "public_key is required")) e2 in
      let (token, token_given, e4) =
        past_stop q.register_token _ _
          (registered-stop s said (failed 400 "register_token is required")) e3 in
      let (claims, verified, e5) =
        past_check (verify_with gorm writes keys p s said token (public_key keys signing_key)) _
          (verify_with-stop p s said token (public_key keys signing_key)) e4 in
      let (db, stored, e6) =
        past_stop s _ _ (registered-stop s said (failed 500 "Try again later")) e5 in
      let (serial_sent, serial_set) = filled-set q.serial serial serial_given in
      let (key_sent, key_set) = filled-set q.public_key signing_key key_given in
      (
        refl,
        db,
        serial,
        signing_key,
        token,
        stored,
        serial_sent,
        serial_set,
        key_sent,
        key_set,
        token_given,
        verify_with-RegisterProof p s said signing_key token _ claims refl verified,
        create_device-IsCreated said db db' serial signing_key id now reads e6,
      )
