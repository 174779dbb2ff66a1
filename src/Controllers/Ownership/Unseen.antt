-- ===== src/Controllers/Ownership/Unseen.antt =====
-- The handlers of internal/server/controllers/v1/devices.go and v1/navigation.go that change no owner.
use rtz_server.Base.{
  not, ◌≡◌, refl, sym, ◌∙◌, ap, inl, inr, Option, some, ◌==◌, if_cases, some_injective,
}
use rtz_server.GoText.{Str, is_empty}
use rtz_server.Models.Rows.{Device, Location, Database}
use rtz_server.Models.Gorm.{Gorm}
use rtz_server.Models.Writes.{Writes, changed_rows}
use rtz_server.Server.Http.{Context}
use rtz_server.Server.Http.Returns.{require_past}
use rtz_server.Controllers.Handler.{answered, failed_answered, with_device-IsNamed}
use rtz_server.Controllers.Devices.{is_none, update_alias, patch_device}
use rtz_server.Controllers.Navigation.{
  Destination, SaveLocation, SetDestination, Outside, with_destination, not_set, new_location,
  uint32, set_destination, next_destination, delete_next, make_place, put_location,
  post_set_destination, get_navigation_next, delete_navigation_next, put_navigation_locations,
  delete_navigation_location,
}
use rtz_server.Controllers.Navigation.Calls.{
  clear-rows, set_destination-cases, save_destination-changed,
}
use rtz_server.Controllers.Ownership.{owners, unseen_by, Transfer, stays}
use rtz_server.Controllers.Ownership.Rows.{owners-same, rows_changed, kept_owners}

module _ (gorm : Gorm) (writes : Writes) where
  pub patched :
      (c : Context) (body : Option (Option Str)) (shown : Device) (db db' : Database)
      → c.db ≡ some db
      → patch_device gorm writes c body ≡ (answered shown, some db')
      → Transfer (owners db.devices) (owners db'.devices) unseen_by
  unfolding patch_device update_alias
  patched c body shown db db' stored e =
      let (db0, device, named, e1) =
        with_device-IsNamed gorm c (update_alias gorm writes c body) shown (some db') e in
      let (alias, sent, e2) = require_past body _ _ _ failed_answered e1 in
      let kept : Device → Device =
        λ d. record d { alias = writes.assign (Option Str) (is_none alias) alias d.alias } in
      let (rows, written, e3) =
        require_past (writes.update Device (λ d. d.id == device.id) kept db0.devices) _ _ _
          failed_answered e2 in
      let left : record db0 { devices = rows } ≡ db' = cc e3 in
      let same : db0 ≡ db = some_injective (sym named.stored ∙ stored) in
      let all : db'.devices ≡ changed_rows (λ d. d.id == device.id) kept db.devices =
        ap (λ d. d.devices) (sym left)
        ∙ writes.update_done Device (λ d. d.id == device.id) kept db0.devices rows written
        ∙ ap (λ d. changed_rows (λ x. x.id == device.id) kept d.devices) same in
      stays (ap owners all ∙ owners-same device.id kept (λ d. refl) db.devices)

  pub destination_set :
      (c : Context) (outside : Outside) (body : Option Destination) (r : SetDestination)
      (db db' : Database)
      → c.db ≡ some db
      → post_set_destination gorm writes c outside body ≡ (answered r, some db')
      → Transfer (owners db.devices) (owners db'.devices) unseen_by
  unfolding post_set_destination
  destination_set c outside body r db db' stored e =
      let (t, sent, e1) = require_past body _ _ _ failed_answered e in
      let (id, path, e2) = require_past c.dongle_id _ _ _ failed_answered e1 in
      if_cases outside.has_nats
        (λ e3.
          let (db0, device, named, e4) =
            with_device-IsNamed gorm c (set_destination gorm writes c outside t) r (some db') e3 in
          let same : db0 ≡ db = some_injective (sym named.stored ∙ stored) in
          elim (set_destination-cases gorm writes c outside t db0 db' device r e4) [
            | inl (_, cleared) ↦
                let (_, left) = clear-rows gorm writes c db0 db' device r cleared in
                kept_owners writes db db0 db' device not_set (λ d. refl) same left
            | inr saved ↦
                let (_, left) = save_destination-changed gorm writes c t db0 db' device r saved in
                kept_owners writes db db0 db' device (with_destination writes t) (λ d. refl) same
                  left
          ])
        (λ bad. absurd (failed_answered bad)) e2

  pub next_read :
      (c : Context) (shown : Destination) (db db' : Database)
      → c.db ≡ some db
      → get_navigation_next gorm writes c ≡ (answered shown, some db')
      → Transfer (owners db.devices) (owners db'.devices) unseen_by
  unfolding get_navigation_next next_destination
  next_read c shown db db' stored e =
      let (db0, device, named, e1) =
        with_device-IsNamed gorm c (next_destination gorm writes c) shown (some db') e in
      let same : db0 ≡ db = some_injective (sym named.stored ∙ stored) in
      if_cases device.destination_set
        (λ e2.
          let (rows, written, e3) =
            require_past (writes.update Device (λ d. d.id == device.id) not_set db0.devices) _ _ _
              failed_answered e2 in
          let left : record db0 { devices = rows } ≡ db' = cc e3 in
          kept_owners writes db db0 db' device not_set (λ d. refl) same
            (sym left ∙ rows_changed writes db0 device not_set rows written))
        (λ bad. absurd (failed_answered bad)) e1

  pub next_dropped :
      (c : Context) (db db' : Database)
      → c.db ≡ some db
      → delete_navigation_next gorm writes c ≡ (answered tt, some db')
      → Transfer (owners db.devices) (owners db'.devices) unseen_by
  unfolding delete_navigation_next delete_next
  next_dropped c db db' stored e =
      let (db0, device, named, e1) =
        with_device-IsNamed gorm c (delete_next gorm writes c) tt (some db') e in
      let same : db0 ≡ db = some_injective (sym named.stored ∙ stored) in
      let (rows, written, e2) =
        require_past (writes.update Device (λ d. d.id == device.id) not_set db0.devices) _ _ _
          failed_answered e1 in
      let left : record db0 { devices = rows } ≡ db' = cc e2 in
      kept_owners writes db db0 db' device not_set (λ d. refl) same
        (sym left ∙ rows_changed writes db0 device not_set rows written)

  pub location_put :
      (c : Context) (body : Option SaveLocation) (db db' : Database)
      → c.db ≡ some db
      → put_navigation_locations gorm writes c body ≡ (answered tt, some db')
      → Transfer (owners db.devices) (owners db'.devices) unseen_by
  unfolding put_navigation_locations put_location
  location_put c body db db' stored e =
      let (t, sent, e1) = require_past body _ _ _ failed_answered e in
      if_cases (is_empty t.save_type) (λ bad. absurd (failed_answered bad))
        (λ e2.
          let (db0, device, named, e3) =
            with_device-IsNamed gorm c (put_location gorm writes c t) tt (some db') e2 in
          let same : db0 ≡ db = some_injective (sym named.stored ∙ stored) in
          let (rest, made, e4) =
            require_past (make_place gorm writes t.label db0 device) _ _ _ failed_answered e3 in
          let (rows, written, e5) =
            require_past (writes.create Location (λ l. l.id) (new_location device t) rest) _ _ _
              failed_answered e4 in
          let left : record db0 { locations = rows } ≡ db' = cc e5 in
          stays (ap (λ d. owners d.devices) (sym left) ∙ ap (λ d. owners d.devices) same))
        e1

  pub location_deleted :
      (c : Context) (body : Option Str) (db db' : Database)
      → c.db ≡ some db
      → delete_navigation_location gorm writes c body ≡ (answered tt, some db')
      → Transfer (owners db.devices) (owners db'.devices) unseen_by
  unfolding delete_navigation_location
  location_deleted c body db db' stored e =
      let (text, sent, e1) = require_past body _ _ _ failed_answered e in
      let (id, read, e2) = require_past (uint32 text) _ _ _ failed_answered e1 in
      let (db0, stored0, e3) = require_past c.db _ _ _ failed_answered e2 in
      let same : db0 ≡ db = some_injective (sym stored0 ∙ stored) in
      let (rows, written, e4) =
        require_past
          (writes.delete Location (not (id == 0)) (λ l. gorm.num_cond id l.id) db0.locations) _ _ _
          failed_answered e3 in
      let left : record db0 { locations = rows } ≡ db' = some_injective (ap (λ x. x.1) e4) in
      stays (ap (λ d. owners d.devices) (sym left) ∙ ap (λ d. owners d.devices) same)
