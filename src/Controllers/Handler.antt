-- ===== src/Controllers/Handler.antt =====
-- What the handlers of internal/server/controllers share: an answer, the database that it leaves
-- behind, and the device that the path names. What `applyMiddleware` of
-- internal/server/middleware.go provides (the configuration, the metrics) is there.
use Prim.Native.String.{String}
use rtz_server.Base.{arith, Option-cases, inl, inr, ℕ, Option, none, some, ◌≡◌, ◌≢◌}
use rtz_server.GoText.{Str}
use rtz_server.Models.Rows.{User, Device, Database}
use rtz_server.Models.Gorm.{Gorm, fetched}
use rtz_server.Models.Queries.{find_device_by_dongle_id}
use rtz_server.Server.Http.{
  of_user, of_device, of_other, Context, Early, value, answer, ◌>>=◌, require, require_found,
}
use rtz_server.Server.Http.Returns.{require_past, past_found}

-- A status of 200 with its body, another status with its message, or a panic.
pub data Reply (B : Type 0) : Type 0 where
  answered : B → Reply B
  failed : ℕ → String → Reply B
  crash : Reply B

-- The answer, and the database after it.
abbrev pub Outcome : Type 0 → Type 0
Outcome B = Reply B × Option Database

module _ {B : Type 0} where
  abbrev pub bad_request : Option Database → String → Outcome B
  bad_request db message = (failed 400 message, db)

  abbrev pub server_error : Option Database → Outcome B
  server_error db = (failed 500 "Try again later", db)

  -- `c.MustGet("user").(*models.User)`
  abbrev pub current_user : Context → Early (Outcome B) User
  current_user c = elim c.user [
    | none ↦ answer (crash, c.db)
    | some s ↦ elim s [
      | of_user u ↦ value u
      | of_device d ↦ answer (server_error c.db)
      | of_other ↦ answer (server_error c.db)
    ]
  ]

-- A refusal is no success.
pub failed_answered :
    {B : Type 0} {status : ℕ} {message : String} {db db' : Option Database} {b : B}
    → ◌≢◌ {A = Outcome B} (failed status message, db) (answered b, db')
failed_answered e = cc

pub crash_answered :
    {B : Type 0} {db db' : Option Database} {b : B}
    → ◌≢◌ {A = Outcome B} (crash, db) (answered b, db')
crash_answered e = cc

pub current_user-IsRefused :
    {B : Type 0} (c : Context) (r : Outcome B) (b : B) (after : Option Database)
    → current_user c ≡ answer r
    → r ≢ (answered b, after)
current_user-IsRefused c r b after e = λ h. ground arith

pub current_user-of_user :
    {B : Type 0} (c : Context) (u : User)
    → current_user {B = B} c ≡ value u
    → c.user ≡ some (of_user u)
current_user-of_user c u e = elim (Option-cases c.user) [
  | inl missing ↦ ground arith
  | inr (of_user v, here) ↦ ground arith
  | inr (of_device d, here) ↦ ground arith
  | inr (of_other, here) ↦ ground arith
]

module _ (gorm : Gorm) where
  -- The first lines of most handlers: the device of the path.
  unfoldable pub with_device : {B : Type 0} → Context → (Database → Device → Outcome B) → Outcome B
  with_device c handle = do
    dongle_id ← require c.dongle_id (bad_request c.db "dongle_id is required")
    db ← require c.db (server_error c.db)
    device ← require_found (find_device_by_dongle_id gorm db dongle_id) (server_error c.db)
    handle db device

  -- The device that the path names, in the database of the request.
  pub record IsNamed (c : Context) (db : Database) (device : Device) : Type 0 where
    pub id : Str
    pub named : c.dongle_id ≡ some id
    pub stored : c.db ≡ some db
    pub found : find_device_by_dongle_id gorm db id ≡ fetched device

  -- A request that has succeeded has found its device.
  pub with_device-IsNamed :
      {B : Type 0} (c : Context) (handle : Database → Device → Outcome B) (b : B)
      (db' : Option Database)
      → with_device c handle ≡ (answered b, db')
      → (db : Database) × (device : Device) × IsNamed c db device
        × (handle db device ≡ (answered b, db'))
  unfolding with_device
  with_device-IsNamed c handle b db' e =
      let (id, named, e1) = require_past c.dongle_id _ _ _ failed_answered e in
      let (db, stored, e2) = require_past c.db _ _ _ failed_answered e1 in
      let (device, found, e3) =
        past_found (find_device_by_dongle_id gorm db id) _ _ _ failed_answered e2 in
      (db, device, record { id = id; named = named; stored = stored; found = found }, e3)

  pub with_device-found :
      {B : Type 0} (c : Context) (handle : Database → Device → Outcome B) {db : Database}
      {device : Device}
      → IsNamed c db device
      → with_device c handle ≡ handle db device
  unfolding with_device
  with_device-found c handle named = rw (named.named, named.stored, named.found)
