-- ===== src/Controllers/Navigation/Destinations.antt =====
-- The destination that internal/server/controllers/v1/navigation.go keeps for a device: what is set is
-- what is read next, once.
use rtz_server.Base.{
  true, false, ◌≡◌, ◌≢◌, refl, sym, ◌∙◌, ap, inl, inr, List, [], some, ◌==◌, some_injective,
  if◌then◌else◌, if_cases,
}
use rtz_server.GoText.{Str, is_empty}
use rtz_server.Models.Rows.{Device, Database, Float64}
use rtz_server.Models.Gorm.{Gorm, fetched}
use rtz_server.Models.Writes.{Writes}
use rtz_server.Models.Writes.Devices.{AreDongleIdsUnique, assigned, found-updated}
use rtz_server.Models.Queries.{find_device_by_dongle_id}
use rtz_server.Server.Http.{Context}
use rtz_server.Server.Http.Returns.{require_past}
use rtz_server.Controllers.Handler.{answered, failed, failed_answered, IsNamed, with_device-found}
use rtz_server.Controllers.Navigation.Calls.{
  clear-rows, set_destination-cases, save_destination-rows, post_set_destination-named,
}
use rtz_server.Controllers.Navigation.{
  Destination, SetDestination, Outside, with_destination, not_set, post_set_destination,
  next_destination, get_navigation_next, read_destination,
}

-- A destination over the one that a device has: a column that is zero in it is left.
abbrev pub merged : Destination → Device → Destination
merged t d = record {
  latitude = if t.latitude == 0 then d.destination_latitude else t.latitude;
  longitude = if t.longitude == 0 then d.destination_longitude else t.longitude;
  place_details = if is_empty t.place_details then d.destination_place_details else t.place_details;
  place_name = if is_empty t.place_name then d.destination_place_name else t.place_name;
}

module _ (gorm : Gorm) (writes : Writes) where
  with_destination-merged :
      (t : Destination) (d : Device) → read_destination (with_destination writes t d) ≡ merged t d
  with_destination-merged t d = rw (
    assigned writes Float64 (t.latitude == 0) t.latitude d.destination_latitude,
    assigned writes Float64 (t.longitude == 0) t.longitude d.destination_longitude,
    assigned writes Str (is_empty t.place_details) t.place_details d.destination_place_details,
    assigned writes Str (is_empty t.place_name) t.place_name d.destination_place_name,
  )

  next_destination-answered :
      (c : Context) (db : Database) (device : Device) (rows : List Device)
      → device.destination_set ≡ true
      → writes.update Device (λ d. d.id == device.id) not_set db.devices ≡ some rows
      → next_destination gorm writes c db device
        ≡ (answered (read_destination device), some (record db { devices = rows }))
  unfolding next_destination
  next_destination-answered c db device rows set written = rw (set, written)

  next_destination-rows :
      (c : Context) (t : Destination) (db db' : Database) (device : Device)
      → next_destination gorm writes c db device ≡ (answered t, some db')
      → (rows : List Device) × (writes.update Device (λ d. d.id == device.id) not_set db.devices
          ≡ some rows)
        × (db' ≡ record db { devices = rows })
  unfolding next_destination
  next_destination-rows c t db db' device =
      if_cases device.destination_set
        (λ e.
          let (rows, written, e1) =
            require_past (writes.update Device (λ d. d.id == device.id) not_set db.devices) _ _ _
              failed_answered e in
          (rows, written, cc e1))
        (λ bad. absurd (failed_answered bad))

  next_destination-missing :
      (c : Context) (db : Database) (device : Device)
      → device.destination_set ≡ false
      → next_destination gorm writes c db device ≡ (failed 404 "Not found", c.db)
  unfolding next_destination
  next_destination-missing c db device miss = rw miss

  -- Where dongle ids are unique and the path's is not empty, what a success of `POSTSetDestination`
  -- has saved is what `GETNavigationNext` answers for the same path on the database that it leaves, if
  -- the device is found there and the update of its row succeeds: the destination that was sent, but
  -- with the latitude, longitude, name and details of the row for those that are zero or empty.
  pub post_set_destination-next :
      (c c1 : Context) (outside : Outside) (t : Destination) (db db' : Database)
      (r : SetDestination) (device d1 : Device) (rows : List Device)
      (named : IsNamed gorm c db device)
      → named.id ≢ []
      → AreDongleIdsUnique db
      → post_set_destination gorm writes c outside (some t) ≡ (answered r, some db')
      → r.saved_next ≡ true
      → c1.dongle_id ≡ c.dongle_id
      → IsNamed gorm c1 db' d1
      → writes.update Device (λ d. d.id == d1.id) not_set db'.devices ≡ some rows
      → get_navigation_next gorm writes c1
        ≡ (answered (merged t device), some (record db' { devices = rows }))
  unfolding get_navigation_next
  post_set_destination-next c c1 outside t db db' r device d1 rows named h unique e saved path
        named1 written1 =
      let e0 = post_set_destination-named gorm writes c outside t db db' device r named e in
      elim (set_destination-cases gorm writes c outside t db db' device r e0) [
        | inl (_, cleared) ↦
            let (other, _) = clear-rows gorm writes c db db' device r cleared in
            absurd (let bad : true ≡ false = sym saved ∙ other in cc)
        | inr kept ↦
            let (_, saved_rows, written, left) =
              save_destination-rows gorm writes c t db db' device r kept in
            let same_id : named1.id ≡ named.id =
              some_injective (sym named1.named ∙ path ∙ named.named) in
            let found1 : find_device_by_dongle_id gorm (record db { devices = saved_rows }) named.id
                ≡ fetched d1 =
              ap (λ d. find_device_by_dongle_id gorm d named.id) (sym left)
              ∙ ap (λ i. find_device_by_dongle_id gorm db' i) (sym same_id)
              ∙ named1.found in
            let set : d1 ≡ with_destination writes t device =
              found-updated gorm db device d1 named.id (with_destination writes t) saved_rows unique
                h (λ d. refl) named.found
                (writes.update_done Device (λ d. d.id == device.id) (with_destination writes t)
                  db.devices saved_rows written)
                found1 in
            with_device-found gorm c1 (next_destination gorm writes c1) named1
            ∙ next_destination-answered c1 db' d1 rows (ap (λ d. d.destination_set) set) written1
            ∙ ap (λ x. (answered x, some (record db' { devices = rows })))
                (ap read_destination set ∙ with_destination-merged t device)
      ]

  -- Where dongle ids are unique and the path's is not empty, `GETNavigationNext` answers a destination
  -- once: after a success, a request for the same path on the database that it leaves is answered
  -- with 404 and changes nothing, if the device is found there.
  pub get_navigation_next-once :
      (c c1 : Context) (t : Destination) (db db' : Database) (device d1 : Device)
      (named : IsNamed gorm c db device)
      → named.id ≢ []
      → AreDongleIdsUnique db
      → get_navigation_next gorm writes c ≡ (answered t, some db')
      → c1.dongle_id ≡ c.dongle_id
      → IsNamed gorm c1 db' d1
      → get_navigation_next gorm writes c1 ≡ (failed 404 "Not found", c1.db)
  unfolding get_navigation_next
  get_navigation_next-once c c1 t db db' device d1 named h unique e path named1 =
      let (rows, written, left) =
        next_destination-rows c t db db' device
          (sym (with_device-found gorm c (next_destination gorm writes c) named) ∙ e) in
      let same_id : named1.id ≡ named.id = some_injective (sym named1.named ∙ path ∙ named.named) in
      let found1 : find_device_by_dongle_id gorm (record db { devices = rows }) named.id
          ≡ fetched d1 =
        ap (λ d. find_device_by_dongle_id gorm d named.id) (sym left)
        ∙ ap (λ i. find_device_by_dongle_id gorm db' i) (sym same_id)
        ∙ named1.found in
      let cleared : d1 ≡ not_set device =
        found-updated gorm db device d1 named.id not_set rows unique h (λ d. refl) named.found
          (writes.update_done Device (λ d. d.id == device.id) not_set db.devices rows written)
          found1 in
      with_device-found gorm c1 (next_destination gorm writes c1) named1
      ∙ next_destination-missing c1 db' d1 (ap (λ d. d.destination_set) cleared)
