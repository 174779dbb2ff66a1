-- ===== src/Controllers/Devices/Pairing.antt =====
-- What POSTDeviceUnpair and PATCHDevice of internal/server/controllers/v1/devices.go do to the tables.
use rtz_server.Base.{Bool, true, false, ◌≡◌, refl, sym, ◌∙◌, ap, List, Option, none, some, ◌==◌}
use rtz_server.GoText.{Str}
use rtz_server.Models.Rows.{Device, Database}
use rtz_server.Models.Gorm.{Gorm}
use rtz_server.Models.Writes.{Writes, changed_rows}
use rtz_server.Models.Writes.Tables.{changed_rows-changed_rows, changed_rows-same}
use rtz_server.Server.Http.{Context}
use rtz_server.Server.Http.Returns.{require_past}
use rtz_server.Controllers.Handler.{
  answered, failed_answered, server_error, IsNamed, with_device-IsNamed,
}
use rtz_server.Controllers.Devices.{unpair, post_device_unpair, update_alias, patch_device}

-- The device without its owner.
abbrev pub unpaired : Device → Device
unpaired d = record d { is_paired = false; owner_id = 0 }

-- The tables with every row of the device unpaired.
abbrev pub without_owner : Device → Database → Database
without_owner device db = record db {
  devices = changed_rows (λ d. d.id == device.id) unpaired db.devices;
}

module _ (gorm : Gorm) (writes : Writes) where
  unpair-without_owner :
      (c : Context) (db db' : Database) (device : Device)
      → unpair gorm writes c db device ≡ (answered tt, some db')
      → db' ≡ without_owner device db
  unfolding unpair
  unpair-without_owner c db db' device e =
      let at : Device → Bool = λ d. d.id == device.id in
      let (rows, first, e1) =
        require_past (writes.update Device at (λ d. record d { is_paired = false }) db.devices) _ _
          _ failed_answered e in
      let (rows', second, e2) =
        require_past (writes.update Device at (λ d. record d { owner_id = 0 }) rows) _ _ _
          failed_answered e1 in
      let done : record db { devices = rows' } ≡ db' = cc e2 in
      let all : rows' ≡ changed_rows at unpaired db.devices =
        writes.update_done Device at (λ d. record d { owner_id = 0 }) rows rows' second
        ∙ ap (λ t. changed_rows at (λ d. record d { owner_id = 0 }) t)
            (writes.update_done Device at (λ d. record d { is_paired = false }) db.devices rows
              first)
        ∙ changed_rows-changed_rows at _ _ (λ d. refl) db.devices in
      sym done ∙ ap (λ t. record db { devices = t }) all

  -- When `POSTDeviceUnpair` succeeds, the path names a device of the database, and the handler leaves
  -- that database with one change: every row with the device's primary key is not paired and has no
  -- owner. So the shares of the device are the same as before.
  pub post_device_unpair-without_owner :
      (c : Context) (db' : Database)
      → post_device_unpair gorm writes c ≡ (answered tt, some db')
      → (db : Database) × (device : Device) × IsNamed gorm c db device
        × (db' ≡ without_owner device db)
  unfolding post_device_unpair
  post_device_unpair-without_owner c db' e =
      let (db, device, named, e1) =
        with_device-IsNamed gorm c (unpair gorm writes c) tt (some db') e in
      (db, device, named, unpair-without_owner c db db' device e1)

  -- A failure of the second update.
  pub unpair-half_done :
      (c : Context) (db : Database) (device : Device) (rows : List Device)
      → writes.update Device
          (λ d. d.id == device.id)
          (λ d. record d { is_paired = false })
          db.devices
        ≡ some rows
      → writes.update Device (λ d. d.id == device.id) (λ d. record d { owner_id = 0 }) rows ≡ none
      → unpair gorm writes c db device ≡ server_error (some (record db { devices = rows }))
  unfolding unpair
  unpair-half_done c db device rows first second = rw (first, second)

  update_alias-null :
      (c : Context) (db db' : Database) (device shown : Device)
      → update_alias gorm writes c (some none) db device ≡ (answered shown, some db')
      → (db' ≡ db) × (shown.alias ≡ none)
  unfolding update_alias
  update_alias-null c db db' device shown e =
      let at : Device → Bool = λ d. d.id == device.id in
      let kept : Device → Device =
        λ d. record d { alias = writes.assign (Option Str) true none d.alias } in
      let (rows, written, e1) =
        require_past (writes.update Device at kept db.devices) _ _ _ failed_answered e in
      let done : record db { devices = rows } ≡ db' = cc e1 in
      let seen : record device { alias = none } ≡ shown = cc e1 in
      let same : rows ≡ db.devices =
        writes.update_done Device at kept db.devices rows written
        ∙ changed_rows-same at kept
            (λ d. ap (λ a. record d { alias = a }) (writes.assign_zero (Option Str) none d.alias))
            db.devices in
      (sym done ∙ ap (λ t. record db { devices = t }) same, ap (λ d. d.alias) (sym seen))

  -- When `PATCHDevice` succeeds on a body with a null alias, the tables are the same as before,
  -- although the device of the answer has a null alias.
  patch_device-null :
      (c : Context) (db' : Database) (shown : Device)
      → patch_device gorm writes c (some none) ≡ (answered shown, some db')
      → (c.db ≡ some db') × (shown.alias ≡ none)
  unfolding patch_device
  patch_device-null c db' shown e =
      let (db, device, named, e1) =
        with_device-IsNamed gorm c (update_alias gorm writes c (some none)) shown (some db') e in
      let (same, null) = update_alias-null c db db' device shown e1 in
      (named.stored ∙ ap (λ d. some d) (sym same), null)
