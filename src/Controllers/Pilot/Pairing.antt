-- ===== src/Controllers/Pilot/Pairing.antt =====
-- What POSTPilotPair of internal/server/controllers/v2/pilot.go asks for, and what it changes.
use rtz_server.Base.{
  ℕ, true, false, not, ◌≡◌, ◌≢◌, refl, sym, ◌∙◌, ap, inl, inr, [], ◌∷◌, none, some, ◌==◌,
  Bool-cases, if_cases, if◌then◌else◌,
}
use rtz_server.GoText.{Str, is_empty}
use rtz_server.Models.Rows.{User, Device, Database}
use rtz_server.Models.Gorm.{Gorm, fetched}
use rtz_server.Models.Writes.{Writes, changed_rows}
use rtz_server.Models.Writes.Devices.{assigned}
use rtz_server.Models.Queries.{find_device_by_dongle_id}
use rtz_server.Jwt.{
  Token, use_key, refuse, Parsed, parsed, rejected, parse_panic, Parser, Keys, public_key,
  device_jwt_signing_methods,
}
use rtz_server.Jwt.Laws.{Checked, parse-Checked, expiring_sound}
use rtz_server.Server.Http.{of_user, Context, ◌>>=◌}
use rtz_server.Server.Http.Returns.{require_past, past_found, past_value}
use rtz_server.Controllers.Handler.{
  answered, failed_answered, crash_answered, current_user, current_user-IsRefused,
  current_user-of_user,
}
use rtz_server.Controllers.Pilot.{
  PilotPairJwtClaims, Paired, require_parsed, pair_key, with_owner, pair_device, post_pilot_pair,
}

-- The device in the hands of the user.
abbrev pub taken_by : User → Device → Device
taken_by user d = record d {
  owner_id = if user.id == 0 then d.owner_id else user.id;
  is_paired = true;
}

-- The tables with every row of the device in the hands of the user.
abbrev pub with_owner_of : Device → User → Database → Database
with_owner_of device user db = record db {
  devices = changed_rows (λ d. d.id == device.id) (taken_by user) db.devices;
}

with_owner-taken :
    (writes : Writes) (device : Device) (user : User) (db : Database)
    → record db {
      devices = changed_rows (λ d. d.id == device.id) (with_owner writes user) db.devices;
    }
      ≡ with_owner_of device user db
with_owner-taken writes device user db i = record db {
  devices =
      changed_rows (λ d. d.id == device.id)
        (λ d. record d {
          owner_id = assigned writes ℕ (user.id == 0) user.id d.owner_id i;
          is_paired = true;
        })
        db.devices;
}

refuse-use_key : {K : Type 0} {k : K} → refuse ≢ use_key k
refuse-use_key e = cc

is_empty-set : (s : Str) → is_empty s ≡ false → s ≢ []
unfolding is_empty
is_empty-set [] h = cc
is_empty-set (c ∷ s) h = λ e. cc

require_parsed-value :
    {R C : Type 0} (p : Parsed C) (refusal panic end : R) (f : C → R)
    → refusal ≢ end
    → panic ≢ end
    → (require_parsed p refusal panic >>= f) ≡ end
    → (c : C) × (p ≡ parsed c true) × (f c ≡ end)
require_parsed-value (parsed c true) refusal panic end f h k e = (c, refl, e)
require_parsed-value (parsed c false) refusal panic end f h k e = absurd (h e)
require_parsed-value rejected refusal panic end f h k e = absurd (h e)
require_parsed-value parse_panic refusal panic end f h k e = absurd (k e)

module _ (gorm : Gorm) (writes : Writes) (keys : Keys) where
  -- A token for pairing that names a stored device and is signed with that device's key.
  pub record PairProof (p : Parser PilotPairJwtClaims keys.Key) (db : Database) (s : Str)
      (device : Device) : Type 0 where
    pub token : Token PilotPairJwtClaims
    pub key : keys.Key
    pub read : p.peek device_jwt_signing_methods s ≡ some token
    pub expires : token.claims.expires_at ≢ none
    pub pairs : token.claims.pair ≡ true
    pub named : token.claims.identity ≢ []
    pub found : find_device_by_dongle_id gorm db token.claims.identity ≡ fetched device
    pub keyed : public_key keys device.public_key ≡ use_key key
    pub signed : p.verified device_jwt_signing_methods s key ≡ true

  pair_device-rows :
      (c : Context) (db db' : Database) (claims : PilotPairJwtClaims) (r : Paired)
      → pair_device gorm writes keys c db claims ≡ (answered r, some db')
      → (device : Device) × (user : User) × (find_device_by_dongle_id gorm db claims.identity
          ≡ fetched device)
        × (c.user ≡ some (of_user user))
        × (r ≡ record { first_pair = not device.is_paired; dongle_id = device.dongle_id })
        × (db' ≡ record db {
          devices = changed_rows (λ d. d.id == device.id) (with_owner writes user) db.devices;
        })
  unfolding pair_device
  pair_device-rows c db db' claims r e =
      let (device, found, e1) =
        past_found (find_device_by_dongle_id gorm db claims.identity) _ _ _ failed_answered e in
      let (user, by, e2) =
        past_value (current_user c) _ _ (λ b bad. current_user-IsRefused c b r (some db') bad) e1 in
      let (rows, written, e3) =
        require_past
          (writes.update Device (λ d. d.id == device.id) (with_owner writes user) db.devices) _ _ _
          failed_answered e2 in
      let left : record db { devices = rows } ≡ db' = cc e3 in
      (
        device,
        user,
        found,
        current_user-of_user c user by,
        cc e3,
        sym left
            ∙ ap (λ t. record db { devices = t })
                (writes.update_done Device (λ d. d.id == device.id) (with_owner writes user)
                  db.devices rows written),
      )

  pair_key_sound :
      (p : Parser PilotPairJwtClaims keys.Key) (db : Database) (s : Str) (device : Device)
      (t : Token PilotPairJwtClaims)
      → find_device_by_dongle_id gorm db t.claims.identity ≡ fetched device
      → Checked p device_jwt_signing_methods s (pair_key gorm writes keys db) t
      → PairProof p db s device
  unfolding pair_key
  pair_key_sound p db s device t found checked =
      let (expires, pairs, e1) =
        expiring_sound t.claims.expires_at t.claims.pair _ _ checked.keyed in
      elim (Bool-cases (is_empty t.claims.identity)) [
        | inl none_named ↦ absurd (refuse-use_key (sym (rw none_named) ∙ e1))
        | inr set ↦ record {
          token = t;
          key = checked.key;
          read = checked.read;
          expires = expires;
          pairs = pairs;
          named = is_empty-set t.claims.identity set;
          found = found;
          keyed = cc (e1, set, found);
          signed = checked.signed;
        }
      ]

  -- When `POSTPilotPair` succeeds, its token has been read with an expiration, for pairing and with the
  -- identity of a stored device, and verified under that device's key; a user is in the context. The
  -- rows with that device's primary key then are paired and have the user for owner, unless the user's
  -- primary key is 0, and nothing else of the database has changed; the answer says whether
  -- the device was not paired before.
  pub post_pilot_pair-PairProof :
      (p : Parser PilotPairJwtClaims keys.Key) (c : Context) (s : Str) (r : Paired) (db' : Database)
      → post_pilot_pair gorm writes keys p c s ≡ (answered r, some db')
      → (db : Database) × (device : Device) × (user : User) × (c.db ≡ some db)
        × (c.user ≡ some (of_user user))
        × PairProof p db s device
        × (r ≡ record { first_pair = not device.is_paired; dongle_id = device.dongle_id })
        × (db' ≡ with_owner_of device user db)
  unfolding post_pilot_pair
  post_pilot_pair-PairProof p c s r db' =
      if_cases (is_empty s) (λ bad. absurd (failed_answered bad))
        (λ e.
          let (db, stored, e1) = require_past c.db _ _ _ failed_answered e in
          let (claims, read, e2) =
            require_parsed-value
              (p.parse_with_claims device_jwt_signing_methods s (pair_key gorm writes keys db)) _ _
              _ _ failed_answered crash_answered e1 in
          let (t, checked, same) =
            parse-Checked p device_jwt_signing_methods s (pair_key gorm writes keys db) claims true
              read in
          let (device, user, found, by, said, left) = pair_device-rows c db db' claims r e2 in
          let found1 = ap (λ x. find_device_by_dongle_id gorm db x.identity) same ∙ found in
          (
            db,
            device,
            user,
            stored,
            by,
            pair_key_sound p db s device t found1 checked,
            said,
            left ∙ with_owner-taken writes device user db,
          ))
