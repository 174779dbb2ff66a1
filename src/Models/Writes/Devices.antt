-- ===== src/Models/Writes/Devices.antt =====
-- A device found again after an update of its row.
use mathlib.Core.List.{Memᴰ}
use mathlib.Core.Path.{subst}
use rtz_server.Base.{
  Bool, true, false, if◌then◌else◌, true, ◌≡◌, ◌≢◌, sym, ◌∙◌, ap, inl, inr, List, [], ◌==◌, ==_iff,
  Bool-cases, arith,
}
use rtz_server.GoText.{Str}
use rtz_server.Models.Rows.{Device, Database}
use rtz_server.Models.Gorm.{Gorm, fetched}
use rtz_server.Models.Writes.{Writes, changed_rows}
use rtz_server.Models.Writes.Tables.{Memᴰ-changed_rows}
use rtz_server.Models.Queries.{find_device_by_dongle_id, find_device_by_dongle_id_sound}

-- No two rows have the same dongle id, as the unique index of the column says.
abbrev pub AreDongleIdsUnique : Database → Type 0
AreDongleIdsUnique db =
    (d e : Device) → Memᴰ d db.devices → Memᴰ e db.devices → d.dongle_id ≡ e.dongle_id → d ≡ e

module _ (writes : Writes) where
  pub assigned :
      (A : Type 0) (zero_value : Bool) (new old : A)
      → writes.assign A zero_value new old ≡ (if zero_value then old else new)
  assigned A true new old = writes.assign_zero A new old
  assigned A false new old = writes.assign_set A new old

module _ (gorm : Gorm) where
  -- A device that is found again after an update is the device that was found before, updated.
  pub found-updated :
      (db : Database) (device d1 : Device) (id : Str) (f : Device → Device) (rows : List Device)
      → AreDongleIdsUnique db
      → id ≢ []
      → ((d : Device) → (f d).dongle_id ≡ d.dongle_id)
      → find_device_by_dongle_id gorm db id ≡ fetched device
      → rows ≡ changed_rows (λ d. d.id == device.id) f db.devices
      → find_device_by_dongle_id gorm (record db { devices = rows }) id ≡ fetched d1
      → d1 ≡ f device
  found-updated db device d1 id f rows unique h keep before written after =
      let (named, listed) = find_device_by_dongle_id_sound gorm db id device h before in
      let (named1, listed1) =
        find_device_by_dongle_id_sound gorm (record db { devices = rows }) id d1 h after in
      let (d0, listed0, made) =
        Memᴰ-changed_rows (λ d. d.id == device.id) f db.devices d1
          (subst (λ t. Memᴰ d1 t) written listed1) in
      let name0 : d0.dongle_id ≡ d1.dongle_id = elim (Bool-cases (d0.id == device.id)) [
        | inl hit ↦
            sym (keep d0) ∙ ap (λ d. d.dongle_id) (let e : d1 ≡ f d0 = ground arith in sym e)
        | inr miss ↦ let e : d1 ≡ d0 = ground arith in ap (λ d. d.dongle_id) (sym e)
      ] in
      let same : d0 ≡ device = unique d0 device listed0 listed (name0 ∙ named1 ∙ sym named) in
      let hit : (d0.id == device.id) ≡ true = (==_iff d0.id device.id).1 (ap (λ d. d.id) same) in
      let e : d1 ≡ f d0 = ground arith in e ∙ ap f same
