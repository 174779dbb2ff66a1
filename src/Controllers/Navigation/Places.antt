-- ===== src/Controllers/Navigation/Places.antt =====
-- The saved locations of internal/server/controllers/v1/navigation.go: what PUTNavigationLocations and
-- DELETENavigationLocation leave.
use mathlib.Core.List.{Memᴰ}
use mathlib.Core.Path.{subst}
use rtz_server.Base.{
  ℕ, zero, suc, ◌<◌, ◌^◌, Bool, true, false, not, ◌&&◌, ◌≡◌, ◌≢◌, refl, sym, ◌∙◌, ap, ◌↔◌, ◌⊎◌, inl,
  inr, List, [], ◌∷◌, ◌++◌, Option, none, some, ◌==◌, ==_iff, some_injective, Bool-cases, if_cases,
  arith, leb,
}
use rtz_server.GoText.{Str, codes, str_eq, is_empty}
use rtz_server.GoText.Laws.{str_eq_iff}
use rtz_server.GoText.Numbers.{Scanned, parse_uint, scanned}
use rtz_server.Models.Rows.{Device, Location, Database}
use rtz_server.Models.Gorm.{Gorm}
use rtz_server.Models.Writes.{Writes, other_rows, IsAdded}
use rtz_server.Models.Writes.Tables.{replaced_rows_iff}
use rtz_server.Server.Http.{Context}
use rtz_server.Server.Http.Returns.{require_past}
use rtz_server.Controllers.Handler.{answered, failed_answered, IsNamed, with_device-found}
use rtz_server.Controllers.Navigation.{
  SaveLocation, has_label, new_location, make_place, put_location, put_navigation_locations,
  below_2_32, uint32, delete_navigation_location,
}

-- A location of the device with the label.
abbrev pub IsLabelled : Device → Str → Location → Type 0
IsLabelled device label l = (l.device_id ≡ device.id) × (l.label ≡ some label)

some_label_iff :
    (label : Str) (o : Option Str)
    → ((elim o [ none ↦ false | some t ↦ str_eq t label ]) ≡ true) ↔ (o ≡ some label)
some_label_iff label none = (λ h. cc, λ h. cc)
some_label_iff label (some t) = (
  λ h. ap (λ x. some x) ((str_eq_iff t label).0 h),
  λ h. (str_eq_iff t label).1 (some_injective h),
)

has_label_iff : (label : Str) (l : Location) → (has_label label l ≡ true) ↔ (l.label ≡ some label)
has_label_iff label l = some_label_iff label l.label

below_2_32-scanned :
    (s : Scanned) (id : ℕ) → below_2_32 s ≡ some id → (s ≡ scanned id) × (id < 2 ^ 32)
below_2_32-scanned (scanned n) id e = elim (Bool-cases (leb (2 ^ 32) n)) [
  | inl high ↦ ground arith
  | inr low ↦
      let same : n ≡ id = some_injective (ground arith) in (ap (λ k. scanned k) same, ground arith)
]
below_2_32-scanned (Scanned.failed err) id e = cc

-- The labels that only one location of a device has.
abbrev pub IsSingle : Str → Type 0
IsSingle label = (label ≡ codes "home") ⊎ (label ≡ codes "work")

module _ (gorm : Gorm) (writes : Writes) where
  abbrev takes_place : Device → Str → Location → Bool
  takes_place device label l = gorm.num_cond device.id l.device_id && has_label label l

  takes_place_iff :
      (device : Device) (label : Str) (l : Location)
      → device.id ≢ 0
      → (takes_place device label l ≡ true) ↔ IsLabelled device label l
  takes_place_iff device label l key =
      let cond = gorm.num_cond_set device.id l.device_id key in
      (
        λ h. (
          sym ((==_iff device.id l.device_id).0 (sym cond ∙ ground arith)),
          (has_label_iff label l).0 (ground arith),
        ),
        λ (here, labelled).
            let at : gorm.num_cond device.id l.device_id ≡ true =
              cond ∙ (==_iff device.id l.device_id).1 (sym here) in
            let hit = (has_label_iff label l).1 labelled in rw (at, hit),
      )

  make_place-single :
      (label : Str) (db : Database) (device : Device) (rest : List Location)
      → IsSingle label
      → make_place gorm writes label db device ≡ some rest
      → rest ≡ other_rows (takes_place device label) db.locations
  unfolding make_place str_eq
  make_place-single label db device rest (inl home) e =
      let at : make_place gorm writes (codes "home") db device ≡ some rest =
        subst (λ t. make_place gorm writes t db device ≡ some rest) home e in
      writes.delete_done Location (takes_place device (codes "home")) db.locations rest at
      ∙ ap (λ t. other_rows (takes_place device t) db.locations) (sym home)
  make_place-single label db device rest (inr work) e =
      let at : make_place gorm writes (codes "work") db device ≡ some rest =
        subst (λ t. make_place gorm writes t db device ≡ some rest) work e in
      writes.delete_done Location (takes_place device (codes "work")) db.locations rest at
      ∙ ap (λ t. other_rows (takes_place device t) db.locations) (sym work)

  put_location-rows :
      (c : Context) (t : SaveLocation) (db db' : Database) (device : Device)
      → put_location gorm writes c t db device ≡ (answered tt, some db')
      → (rest : List Location) × (make_place gorm writes t.label db device ≡ some rest)
        × IsAdded (λ l. l.id) (new_location device t) rest db'.locations
  unfolding put_location
  put_location-rows c t db db' device e =
      let (rest, placed, e1) =
        require_past (make_place gorm writes t.label db device) _ _ _ failed_answered e in
      let (locations, made, e2) =
        require_past (writes.create Location (λ l. l.id) (new_location device t) rest) _ _ _
          failed_answered e1 in
      let left : record db { locations = locations } ≡ db' = cc e2 in
      (
        rest,
        placed,
        subst (λ d. IsAdded (λ l. l.id) (new_location device t) rest d.locations) left
            (writes.create_done Location (λ l. l.id) (new_location device t) rest locations made),
      )

  single-set : (label : Str) → IsSingle label → is_empty label ≡ false
  unfolding is_empty
  single-set label (inl home) = ap is_empty home
  single-set label (inr work) = ap is_empty work

  put_navigation_locations-named :
      (c : Context) (t : SaveLocation) (db db' : Database) (device : Device)
      → IsNamed gorm c db device
      → put_navigation_locations gorm writes c (some t) ≡ (answered tt, some db')
      → put_location gorm writes c t db device ≡ (answered tt, some db')
  unfolding put_navigation_locations
  put_navigation_locations-named c t db db' device named =
      if_cases (is_empty t.save_type) (λ bad. absurd (failed_answered bad))
        (λ e. sym (with_device-found gorm c (put_location gorm writes c t) named) ∙ e)

  -- When `PUTNavigationLocations` succeeds for a device whose primary key is not 0 and the label "home"
  -- or "work", the locations that it leaves are the new one, which has that label, and those before
  -- that are no location of the device with that label.
  pub put_navigation_locations-single :
      (c : Context) (t : SaveLocation) (db db' : Database) (device : Device)
      → IsNamed gorm c db device
      → device.id ≢ 0
      → IsSingle t.label
      → put_navigation_locations gorm writes c (some t) ≡ (answered tt, some db')
      → (id : ℕ) × IsLabelled device t.label (new_location device t id)
        × ((l : Location)
            → Memᴰ l db'.locations ↔ (
                (Memᴰ l db.locations × ¬ IsLabelled device t.label l)
                ⊎ (l ≡ new_location device t id)))
  put_navigation_locations-single c t db db' device named key single e =
      let (rest, placed, (id, _, _, grown)) =
        put_location-rows c t db db' device
          (put_navigation_locations-named c t db db' device named e) in
      let left = make_place-single t.label db device rest single placed in
      (
        id,
        (refl, rw (single-set t.label single)),
        replaced_rows_iff (takes_place device t.label) (IsLabelled device t.label) db.locations
            db'.locations (new_location device t id) (λ l. takes_place_iff device t.label l key)
            (grown ∙ ap (λ rows. rows ++ (new_location device t id ∷ [])) left),
      )

  deleted_by_id :
      (id : ℕ) (rows rows' : List Location)
      → writes.delete Location (not (id == 0)) (λ l. gorm.num_cond id l.id) rows ≡ some rows'
      → (id ≢ 0) × (rows' ≡ other_rows (λ l. id == l.id) rows)
  deleted_by_id zero rows rows' e = absurd (
      let bad : none ≡ some rows' =
        sym (writes.delete_refused Location (λ l. gorm.num_cond 0 l.id) rows) ∙ e in
      cc)
  deleted_by_id (suc n) rows rows' e =
      let key : suc n ≢ 0 = omega arith in
      let set : not (suc n == 0) ≡ true = ground arith in
      let e1 : writes.delete Location true (λ l. gorm.num_cond (suc n) l.id) rows ≡ some rows' =
        ap (λ b. writes.delete Location b (λ l. gorm.num_cond (suc n) l.id) rows) (sym set) ∙ e in
      (
        key,
        writes.delete_done Location (λ l. gorm.num_cond (suc n) l.id) rows rows' e1
            ∙ (λ i. other_rows (λ l. gorm.num_cond_set (suc n) l.id key i) rows),
      )

  -- `DELETENavigationLocation` succeeds only for an id from 1 up to 2 ^ 32 - 1 that its text is; it
  -- takes out the locations with that id, of whichever device, and leaves all else.
  pub delete_navigation_location-others :
      (c : Context) (text : Str) (db' : Database)
      → delete_navigation_location gorm writes c (some text) ≡ (answered tt, some db')
      → (id : ℕ) × (db : Database) × (parse_uint text ≡ scanned id)
        × (id ≢ 0)
        × (id < 2 ^ 32)
        × (c.db ≡ some db)
        × (db' ≡ record db { locations = other_rows (λ l. id == l.id) db.locations })
  unfolding delete_navigation_location
  delete_navigation_location-others c text db' e =
      let (id, read, e1) = require_past (uint32 text) _ _ _ failed_answered e in
      let (db, stored, e2) = require_past c.db _ _ _ failed_answered e1 in
      let (locations, written, e3) =
        require_past
          (writes.delete Location (not (id == 0)) (λ l. gorm.num_cond id l.id) db.locations) _ _ _
          failed_answered e2 in
      let (number, bounded) = below_2_32-scanned (parse_uint text) id read in
      let (key, kept) = deleted_by_id id db.locations locations written in
      let left : record db { locations = locations } ≡ db' = cc e3 in
      (id, db, number, key, bounded, stored, sym left ∙ ap (λ t. record db { locations = t }) kept)
