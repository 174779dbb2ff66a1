-- ===== src/Controllers/Ownership.antt =====
-- Who owns a device: what the handlers of internal/server/controllers/v1/devices.go, v1/navigation.go and
-- v2/pilot.go that write to the database do to it, and an abstract machine that only knows the owners.
pub mod Rows
pub mod Unseen
pub mod Refined
mod Tests
use mathlib.Core.List.{Memᴰ}
use rtz_server.Base.{ℕ, Bool, ◌≡◌, ◌≢◌, List, [], ◌∷◌, ◌++◌, Option, some, ◌==◌, All}
use rtz_server.GoText.{Str}
use rtz_server.Models.Rows.{User, Device, Database, Time}
use rtz_server.Models.Gorm.{Gorm}
use rtz_server.Models.Writes.{Writes, changed_rows}
use rtz_server.Jwt.{Parser, Keys}
use rtz_server.Server.Http.{of_user, Context}
use rtz_server.Controllers.Handler.{answered}
use rtz_server.Controllers.Devices.{patch_device, post_device_add_user, post_device_unpair}
use rtz_server.Controllers.Navigation.{
  Destination, SaveLocation, SetDestination, Outside, post_set_destination, get_navigation_next,
  delete_navigation_next, put_navigation_locations, delete_navigation_location,
}
use rtz_server.Controllers.Pilot.{
  PilotPairJwtClaims, RegisterJwtClaims, Paired, PilotAuthQuery, post_pilot_pair, post_pilot_auth,
}
use rtz_server.Controllers.Pilot.Stops.{registered}

-- What the abstract machine knows of a device: its primary key, its dongle id, and the primary key of
-- its owner, where 0 is nobody.
pub record Holding : Type 0 where
  pub key : ℕ
  pub dongle_id : Str
  pub owner : ℕ

abbrev pub Owners : Type 0
Owners = List Holding

abbrev pub holding : Device → Holding
holding d = record { key = d.id; dongle_id = d.dongle_id; owner = d.owner_id }

abbrev pub owners : List Device → Owners
owners [] = []
owners (d ∷ rows) = holding d ∷ owners rows

-- The device with a primary key in the hands of a user.
abbrev pub handed : ℕ → ℕ → Owners → Owners
handed k u s = changed_rows (λ h. h.key == k) (λ h. record h { owner = u }) s

-- What an observer of the owners sees of a request: nothing, that the device with a dongle id is given
-- up, that it is taken by the user with a primary key, or that one is added.
pub data Kind : Type 0 where
  unseen_by : Kind
  given_up added : Str → Kind
  taken_over : Str → ℕ → Kind

-- A step of the abstract machine: all stays as it is, the device with that dongle id, which is there,
-- changes hands, or a new device with it comes without an owner.
pub data Transfer (s s' : Owners) : Kind → Type 0 where
  stays : s' ≡ s → Transfer s s' unseen_by
  frees : (h : Holding) → Memᴰ h s → s' ≡ handed h.key 0 s → Transfer s s' (given_up h.dongle_id)
  gives :
      (h : Holding) (u : ℕ)
      → Memᴰ h s
      → s' ≡ handed h.key u s
      → Transfer s s' (taken_over h.dongle_id u)
  joins :
      (h : Holding)
      → h.owner ≡ 0
      → All (λ x. x.key ≢ h.key) s
      → s' ≡ s ++ (h ∷ [])
      → Transfer s s' (added h.dongle_id)

module _ (gorm : Gorm) (writes : Writes) (keys : Keys) where
  -- A request that has succeeded. Of a path only a dongle id that is not empty comes through.
  pub data Request (db db' : Database) : Kind → Type 0 where
    patches :
        (c : Context) (body : Option (Option Str)) (shown : Device)
        → c.db ≡ some db
        → patch_device gorm writes c body ≡ (answered shown, some db')
        → Request db db' unseen_by
    shares :
        (c : Context) (body : Option Str)
        → c.db ≡ some db
        → post_device_add_user gorm writes c body ≡ (answered tt, some db')
        → Request db db' unseen_by
    sets_destination :
        (c : Context) (outside : Outside) (body : Option Destination) (r : SetDestination)
        → c.db ≡ some db
        → post_set_destination gorm writes c outside body ≡ (answered r, some db')
        → Request db db' unseen_by
    reads_next :
        (c : Context) (shown : Destination)
        → c.db ≡ some db
        → get_navigation_next gorm writes c ≡ (answered shown, some db')
        → Request db db' unseen_by
    drops_next :
        (c : Context)
        → c.db ≡ some db
        → delete_navigation_next gorm writes c ≡ (answered tt, some db')
        → Request db db' unseen_by
    puts_location :
        (c : Context) (body : Option SaveLocation)
        → c.db ≡ some db
        → put_navigation_locations gorm writes c body ≡ (answered tt, some db')
        → Request db db' unseen_by
    deletes_location :
        (c : Context) (body : Option Str)
        → c.db ≡ some db
        → delete_navigation_location gorm writes c body ≡ (answered tt, some db')
        → Request db db' unseen_by
    unpairs :
        (c : Context) (path : Str)
        → c.db ≡ some db
        → c.dongle_id ≡ some path
        → path ≢ []
        → post_device_unpair gorm writes c ≡ (answered tt, some db')
        → Request db db' (given_up path)
    pairs :
        (p : Parser PilotPairJwtClaims keys.Key) (c : Context) (s : Str) (r : Paired) (u : User)
        → c.db ≡ some db
        → c.user ≡ some (of_user u)
        → u.id ≢ 0
        → post_pilot_pair gorm writes keys p c s ≡ (answered r, some db')
        → Request db db' (taken_over r.dongle_id u.id)
    registers :
        (p : Parser RegisterJwtClaims keys.Key) (enabled : Bool) (q : PilotAuthQuery) (now : Time)
        (reads : List (Option (List ℕ))) (id : Str)
        → registered (post_pilot_auth gorm writes keys p enabled (some db) q now reads)
          ≡ some (id, some db')
        → Request db db' (added id)

  -- Requests one after another, the last first in the list of what is seen.
  pub data Requests (db : Database) : Database → List Kind → Type 0 where
    no_request : Requests db db []
    then_request :
        {db1 db2 : Database} {ks : List Kind} {k : Kind}
        → Requests db db1 ks
        → Request db1 db2 k
        → Requests db db2 (k ∷ ks)

-- Steps one after another.
pub data Transfers (s : Owners) : Owners → List Kind → Type 0 where
  no_transfer : Transfers s s []
  then_transfer :
      {s1 s2 : Owners} {ks : List Kind} {k : Kind}
      → Transfers s s1 ks
      → Transfer s1 s2 k
      → Transfers s s2 (k ∷ ks)
