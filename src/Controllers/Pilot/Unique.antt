-- ===== src/Controllers/Pilot/Unique.antt =====
-- The dongle ids of the devices after POSTPilotAuth of internal/server/controllers/v2/pilot.go.
use mathlib.Core.List.{Memᴰ}
use mathlib.Core.Path.{subst}
use rtz_server.Base.{
  ℕ, Bool, ◌≡◌, ◌≢◌, sym, ◌∙◌, ap, inl, inr, List, [], ◌∷◌, ◌++◌, Option, some, some_injective, All,
}
use rtz_server.GoText.{Str}
use rtz_server.Models.Rows.{Device, Database, Time}
use rtz_server.Models.Gorm.{Gorm, query_failed}
use rtz_server.Models.Writes.{Writes}
use rtz_server.Models.Writes.Tables.{Memᴰ-snoc}
use rtz_server.Models.Writes.Devices.{AreDongleIdsUnique}
use rtz_server.Models.Queries.{find_device_by_dongle_id}
use rtz_server.Models.DongleId.{Generated, generated, random_failed, pending, generate_dongle_id}
use rtz_server.Models.DongleId.Fresh.{IsRead, IsFree, generate_dongle_id-IsFree}
use rtz_server.Jwt.{Parser, Keys}
use rtz_server.Controllers.Pilot.{
  RegisterJwtClaims, PilotAuthQuery, new_device, dongle_id_or_empty, post_pilot_auth,
}
use rtz_server.Controllers.Pilot.Stops.{registered}
use rtz_server.Controllers.Pilot.Registration.{post_pilot_auth-IsCreated}

dongle_id_or_empty-generated :
    (g : Generated) (id : Str) → id ≢ [] → dongle_id_or_empty g ≡ some id → g ≡ generated id
dongle_id_or_empty-generated (generated s) id h e = ap (λ t. generated t) (some_injective e)
dongle_id_or_empty-generated random_failed id h e = absurd (h (sym (some_injective e)))
dongle_id_or_empty-generated pending id h e = cc

All-Memᴰ : {A : Type 0} (P : A → Type 0) (rows : List A) (a : A) → All P rows → Memᴰ a rows → P a
All-Memᴰ P [] a h m = elim m [ ]
All-Memᴰ P (b ∷ rows) a (p, h) (Memᴰ.head e) = subst P (sym e) p
All-Memᴰ P (b ∷ rows) a (p, h) (Memᴰ.tail m) = All-Memᴰ P rows a h m

-- A row with a dongle id that no other has keeps the dongle ids unique.
added-AreDongleIdsUnique :
    (db db' : Database) (new : Device)
    → AreDongleIdsUnique db
    → All (λ d. d.dongle_id ≢ new.dongle_id) db.devices
    → db'.devices ≡ db.devices ++ (new ∷ [])
    → AreDongleIdsUnique db'
added-AreDongleIdsUnique db db' new unique free grown d e m n same =
    elim ((Memᴰ-snoc db.devices new d).0 (subst (λ t. Memᴰ d t) grown m)) [
      | inl old ↦ elim ((Memᴰ-snoc db.devices new e).0 (subst (λ t. Memᴰ e t) grown n)) [
        | inl old1 ↦ unique d e old old1 same
        | inr new1 ↦ absurd (All-Memᴰ _ db.devices d free old (same ∙ ap (λ x. x.dongle_id) new1))
      ]
      | inr new0 ↦ elim ((Memᴰ-snoc db.devices new e).0 (subst (λ t. Memᴰ e t) grown n)) [
        | inl old1 ↦
            absurd (All-Memᴰ _ db.devices e free old1 (sym same ∙ ap (λ x. x.dongle_id) new0))
        | inr new1 ↦ new0 ∙ sym new1
      ]
    ]

module _ (gorm : Gorm) (writes : Writes) (keys : Keys) where
  -- A registration by `POSTPilotAuth` keeps the dongle ids of the devices unique, if every read gives
  -- bytes, the dongle id of the answer is not empty, and the query for it has not failed.
  pub post_pilot_auth-AreDongleIdsUnique :
      (p : Parser RegisterJwtClaims keys.Key) (enabled : Bool) (db db' : Database)
      (q : PilotAuthQuery) (now : Time) (reads : List (Option (List ℕ))) (id : Str)
      → AreDongleIdsUnique db
      → All IsRead reads
      → id ≢ []
      → find_device_by_dongle_id gorm db id ≢ query_failed
      → registered (post_pilot_auth gorm writes keys p enabled (some db) q now reads)
        ≡ some (id, some db')
      → AreDongleIdsUnique db'
  post_pilot_auth-AreDongleIdsUnique p enabled db db' q now reads id unique bytes set asked e =
      let (_, db0, serial, signing_key, token, stored, _, _, _, _, _, _, created) =
        post_pilot_auth-IsCreated gorm writes keys p enabled (some db) q now reads id db' e in
      let same : db0 ≡ db = sym (some_injective stored) in
      let made : generate_dongle_id gorm db reads ≡ generated id =
        dongle_id_or_empty-generated (generate_dongle_id gorm db reads) id set (
          ap (λ d. dongle_id_or_empty (generate_dongle_id gorm d reads)) (sym same)
          ∙ created.new_id) in
      let (key, _, _, grown) = created.added in
      let free : IsFree gorm db id =
        elim (generate_dongle_id-IsFree gorm db reads id bytes made).1 [
          | inl none_has ↦ none_has
          | inr failed ↦ absurd (asked failed)
        ] in
      added-AreDongleIdsUnique db db' (new_device id serial signing_key now key) unique free
        (grown ∙ ap (λ d. d.devices ++ (new_device id serial signing_key now key ∷ [])) same)
