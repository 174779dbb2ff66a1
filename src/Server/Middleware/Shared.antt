-- ===== src/Server/Middleware/Shared.antt =====
-- Whom `requireDeviceOwnerOrShared` of internal/server/middleware.go lets through.
use mathlib.Core.List.{Memᴰ}
use rtz_server.Base.{
  true, ◌≡◌, ◌≢◌, ◌↔◌, List, some, arith, ◌⊎◌, inl, inr, Bool-cases, ◌==◌, ==_iff, any, any_sound,
  any_complete,
}
use rtz_server.Models.Rows.{User, Device, DeviceShare, Database}
use rtz_server.Models.Gorm.{fetched}
use rtz_server.Models.Queries.{
  list_shared_to_by_user_id, list_shared_to_by_user_id_sound, list_shared_to_by_user_id_complete,
}
use rtz_server.Server.Http.{Subject, of_user, of_device, of_other, Context, next, try_again}
use rtz_server.Server.Middleware.{Env, check_owner_or_shared, require_device_owner_or_shared}
use rtz_server.Server.Http.Returns.{past_found}
use rtz_server.Server.Middleware.Owner.{IsPresent, present, present_back}

-- The device has been shared with the user.
abbrev pub IsSharedWith : Database → User → Device → Type 0
IsSharedWith db u device =
    (s : DeviceShare) × Memᴰ s db.device_shares
    × (s.device_id ≡ device.id)
    × (s.shared_to_user_id ≡ u.id)

-- The user has a primary key that gorm has set.
abbrev pub IsStored : Subject → Type 0
IsStored (of_user u) = u.id ≢ 0
IsStored (of_device d) = Unit
IsStored of_other = Unit

abbrev pub OwnsOrShares : Database → Subject → Device → Type 0
OwnsOrShares db (of_user u) device = (u.id ≡ device.owner_id) ⊎ IsSharedWith db u device
OwnsOrShares db (of_device d) device = d.owner_id ≡ device.owner_id
OwnsOrShares db of_other device = ⊥

module _ (env : Env) where
  open env use {gorm}

  -- The query for the user's shares does not fail.
  abbrev pub AreSharesRead : Database → Subject → Type 0
  AreSharesRead db (of_user u) =
      (found : List DeviceShare) × (list_shared_to_by_user_id gorm db u.id ≡ fetched found)
  AreSharesRead db (of_device d) = Unit
  AreSharesRead db of_other = Unit

  any-IsSharedWith :
      (db : Database) (u : User) (device : Device) (found : List DeviceShare)
      → u.id ≢ 0
      → list_shared_to_by_user_id gorm db u.id ≡ fetched found
      → (any (λ s. s.device_id == device.id) found ≡ true) ↔ IsSharedWith db u device
  any-IsSharedWith db u device found key read = (
    λ h.
        let (s, m, hit) = any_sound (λ s. s.device_id == device.id) found h in
        let (to, listed) = list_shared_to_by_user_id_sound gorm db u.id found s key read m in
        (s, listed, (==_iff s.device_id device.id).0 hit, to),
    λ (s, listed, hit, to).
        any_complete (λ s. s.device_id == device.id)
          (list_shared_to_by_user_id_complete gorm db u.id found s key read listed to)
          ((==_iff s.device_id device.id).1 hit),
  )

  check-OwnsOrShares :
      (c c' : Context) (db : Database) (device : Device) (s : Subject)
      → IsStored s
      → check_owner_or_shared env c db device s ≡ next c'
      → (c ≡ c') × AreSharesRead db s × OwnsOrShares db s device
  unfolding check_owner_or_shared
  check-OwnsOrShares c c' db device (of_user u) key e =
      let (found, read, e') =
        past_found (list_shared_to_by_user_id gorm db u.id) try_again _ (next c') (λ h. cc) e in
      elim (Bool-cases (u.id == device.owner_id)) [
        | inl own ↦ (ground arith, (found, read), inl ((==_iff u.id device.owner_id).0 own))
        | inr other ↦ elim (Bool-cases (any (λ s. s.device_id == device.id) found)) [
          | inl shared ↦ (
            ground arith,
            (found, read),
            inr ((any-IsSharedWith db u device found key read).0 shared),
          )
          | inr unshared ↦ ground arith
        ]
      ]
  check-OwnsOrShares c c' db device (of_device d) key e = ground arith
  check-OwnsOrShares c c' db device of_other key e = cc

  check-next :
      (c : Context) (db : Database) (device : Device) (s : Subject)
      → IsStored s
      → AreSharesRead db s
      → OwnsOrShares db s device
      → check_owner_or_shared env c db device s ≡ next c
  unfolding check_owner_or_shared
  check-next c db device (of_user u) key (found, read) (inl own) =
      let own' = (==_iff u.id device.owner_id).1 own in rw (read, own')
  check-next c db device (of_user u) key (found, read) (inr shared) =
      let hit = (any-IsSharedWith db u device found key read).1 shared in
      elim (Bool-cases (u.id == device.owner_id)) [
        | inl own ↦ rw (read, own)
        | inr other ↦ rw (read, other, hit)
      ]
  check-next c db device (of_device d) key read own = ground arith
  check-next c db device of_other key read own = absurd own

  -- If the user in the context, if any, has a primary key other than 0, `requireDeviceOwnerOrShared`
  -- lets a request through exactly in demo mode, or if the path names a device that the database holds
  -- and that the subject owns or that has been shared with the user; for a user, the query for the
  -- shares has to succeed too. It changes nothing of the context.
  pub require_device_owner_or_shared_iff :
      (c c' : Context)
      → ((s : Subject) → (c.user ≡ some s) ⊎ (c.device ≡ some s) → IsStored s)
      → (require_device_owner_or_shared env c ≡ next c') ↔ (
          (c ≡ c')
          × ((c.demo ≡ true)
              ⊎ ((db : Database) × (device : Device) × (s : Subject) × IsPresent env c db device s
                  × AreSharesRead db s
                  × OwnsOrShares db s device)))
  unfolding require_device_owner_or_shared
  require_device_owner_or_shared_iff c c' keyed = elim (Bool-cases c.demo) [
    | inl demo ↦ (λ e. (ground arith, inl demo), λ (same, _). ground arith)
    | inr live ↦ (
      λ e.
          let (db, device, s, p, e') =
            present env c c' (check_owner_or_shared env c) (ground arith) in
          let (same, read, own) = check-OwnsOrShares c c' db device s (keyed s (ground arith)) e' in
          (same, inr (db, device, s, p, read, own)),
      λ (same, h). elim h [
        | inl demo ↦ ground arith
        | inr (db, device, s, p, read, own) ↦
            let reached = present_back env c (check_owner_or_shared env c) db device s p in
            let passed = check-next c db device s (keyed s (ground arith)) read own in
            cc (live, reached, passed, same)
      ],
    )
  ]
