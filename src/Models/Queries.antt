-- ===== src/Models/Queries.antt =====
-- The queries of internal/db/models that the middleware and the handlers call. Gorm is a parameter.
use mathlib.Core.List.{Memᴰ}
use rtz_server.Base.{none, some, false, ℕ, ◌&&◌, List, [], ◌≡◌, ◌≢◌, sym, ◌∙◌, ◌==◌, ==_iff, arith}
use rtz_server.GoText.{Str, str_eq}
use rtz_server.GoText.Laws.{str_eq_iff}
use rtz_server.Base.Int.{ℤ, eqb_ℤ}
use rtz_server.Models.Rows.{Location, User, Device, DeviceShare, Route, Database}
use rtz_server.Models.Gorm.{Fetched, fetched, Gorm}

module _ (gorm : Gorm) (db : Database) where
  -- `db.First(&user, id)` is a condition on the primary key, with no zero value skipped
  unfoldable pub find_user_by_id : ℕ → Fetched User
  find_user_by_id id = gorm.first User (λ u. id == u.id) db.users

  pub find_device_by_id : ℕ → Fetched Device
  find_device_by_id id = gorm.first Device (λ d. id == d.id) db.devices

  unfoldable pub find_device_by_dongle_id : Str → Fetched Device
  find_device_by_dongle_id id = gorm.first Device (λ d. gorm.str_cond id d.dongle_id) db.devices

  unfoldable pub find_device_by_serial : Str → Fetched Device
  find_device_by_serial serial = gorm.first Device (λ d. gorm.str_cond serial d.serial) db.devices

  unfoldable pub list_shared_to_by_user_id : ℕ → Fetched (List DeviceShare)
  list_shared_to_by_user_id shared_to_id =
      gorm.find DeviceShare (λ s. gorm.num_cond shared_to_id s.shared_to_user_id) db.device_shares

  pub get_devices_owned_by_user : ℕ → Fetched (List Device)
  get_devices_owned_by_user user_id =
      gorm.find Device (λ d. gorm.num_cond user_id d.owner_id) db.devices

  -- A null column equals nothing; nulltype's values that are not null are no zero values.
  pub find_user_by_git_hub_id : ℤ → Fetched User
  find_user_by_git_hub_id id =
      gorm.first User (λ u. elim u.github_user_id [ none ↦ false | some n ↦ eqb_ℤ n id ]) db.users

  unfoldable pub find_user_by_google_id : Str → Fetched User
  find_user_by_google_id id =
      gorm.first User (λ u. elim u.google_user_id [ none ↦ false | some s ↦ str_eq s id ]) db.users

  pub find_user_by_custom_id : ℤ → Fetched User
  find_user_by_custom_id id =
      gorm.first User (λ u. elim u.custom_user_id [ none ↦ false | some n ↦ eqb_ℤ n id ]) db.users

  unfoldable pub find_locations_by_device_id : ℕ → Fetched (List Location)
  find_locations_by_device_id device_id =
      gorm.find Location (λ l. gorm.num_cond device_id l.device_id) db.locations

  -- `newest_first` is `Order("init_log_mono_time desc")`.
  unfoldable pub find_route_for_segment : (List Route → List Route) → ℕ → Str → Fetched Route
  find_route_for_segment newest_first device_id route =
      gorm.first Route (λ r. (r.device_id == device_id) && str_eq r.route_id route)
        (newest_first db.routes)

  -- A device that is found by a dongle id that is not empty has that dongle id.
  pub find_device_by_dongle_id_sound :
      (id : Str) (d : Device)
      → id ≢ []
      → find_device_by_dongle_id id ≡ fetched d
      → (d.dongle_id ≡ id) × Memᴰ d db.devices
  unfolding find_device_by_dongle_id
  find_device_by_dongle_id_sound id d h e =
      let (hit, listed) =
        gorm.first_fetched Device (λ d. gorm.str_cond id d.dongle_id) db.devices d e in
      (sym ((str_eq_iff _ _).0 (sym (gorm.str_cond_set id d.dongle_id h) ∙ hit)), listed)

  pub find_user_by_id_sound :
      (id : ℕ) (u : User) → find_user_by_id id ≡ fetched u → (u.id ≡ id) × Memᴰ u db.users
  unfolding find_user_by_id
  find_user_by_id_sound id u e =
      let (hit, listed) = gorm.first_fetched User (λ u. id == u.id) db.users u e in
      (sym ((==_iff id u.id).0 hit), listed)

  -- The shares that are listed for a user are shares with that user.
  pub list_shared_to_by_user_id_sound :
      (id : ℕ) (found : List DeviceShare) (s : DeviceShare)
      → id ≢ 0
      → list_shared_to_by_user_id id ≡ fetched found
      → Memᴰ s found
      → (s.shared_to_user_id ≡ id) × Memᴰ s db.device_shares
  unfolding list_shared_to_by_user_id
  list_shared_to_by_user_id_sound id found s h e m =
      let (hit, listed) =
        (gorm.find_fetched DeviceShare (λ s. gorm.num_cond id s.shared_to_user_id) db.device_shares
            found e s).0
          m in
      (sym ((==_iff id s.shared_to_user_id).0 (sym (gorm.num_cond_set id _ h) ∙ hit)), listed)

  -- Every share with the user that the table holds is listed.
  pub list_shared_to_by_user_id_complete :
      (id : ℕ) (found : List DeviceShare) (s : DeviceShare)
      → id ≢ 0
      → list_shared_to_by_user_id id ≡ fetched found
      → Memᴰ s db.device_shares
      → s.shared_to_user_id ≡ id
      → Memᴰ s found
  unfolding list_shared_to_by_user_id
  list_shared_to_by_user_id_complete id found s h e listed same =
      (gorm.find_fetched DeviceShare (λ s. gorm.num_cond id s.shared_to_user_id) db.device_shares
          found e s).1
        (gorm.num_cond_set id _ h ∙ (==_iff id s.shared_to_user_id).1 (sym same), listed)

  -- A route that is found is one of the table's, for the device and with the route id.
  pub find_route_for_segment_sound :
      (newest_first : List Route → List Route) (device_id : ℕ) (route : Str) (r : Route)
      → find_route_for_segment newest_first device_id route ≡ fetched r
      → Memᴰ r (newest_first db.routes) × (r.device_id ≡ device_id) × (r.route_id ≡ route)
  unfolding find_route_for_segment
  find_route_for_segment_sound newest_first device_id route r e =
      let (hit, listed) =
        gorm.first_fetched Route (λ r. (r.device_id == device_id) && str_eq r.route_id route)
          (newest_first db.routes) r e in
      (listed, ground arith, (str_eq_iff r.route_id route).0 (ground arith))
