-- ===== src/Server/Middleware/Owner.antt =====
-- Whom `requireDeviceOwner` of internal/server/middleware.go lets through.
use rtz_server.Base.{true, ◌≡◌, ◌≢◌, ◌↔◌, some, arith, ◌⊎◌, inl, inr, Bool-cases}
use rtz_server.GoText.{Str}
use rtz_server.Models.Rows.{Device, Database}
use rtz_server.Models.Gorm.{fetched}
use rtz_server.Models.Queries.{find_device_by_dongle_id}
use rtz_server.Server.Http.{
  Subject, of_user, of_device, of_other, Context, Step, next, returned, ◌>>=◌, require,
  require_found, try_again, no_dongle_id,
}
use rtz_server.Server.Middleware.{Env, subject_of, check_owner, require_device_owner}
use rtz_server.Server.Http.Returns.{require_past, past_found}

-- The subject owns the device: it is the user, or a device of the same owner.
abbrev pub Owns : Subject → Device → Type 0
Owns (of_user u) device = u.id ≡ device.owner_id
Owns (of_device d) device = d.owner_id ≡ device.owner_id
Owns of_other device = ⊥

module _ (env : Env) where
  open env use {gorm}

  -- The device that the path names, and the subject that `requireAuth` has set.
  pub record IsPresent (c : Context) (db : Database) (device : Device) (s : Subject) : Type 0 where
    pub id : Str
    pub named : c.dongle_id ≡ some id
    pub stored : c.db ≡ some db
    pub found : find_device_by_dongle_id gorm db id ≡ fetched device
    pub subject : subject_of c ≡ some s

  check_owner-Owns :
      (c c' : Context) (device : Device) (s : Subject)
      → check_owner env c device s ≡ next c'
      → (c ≡ c') × Owns s device
  unfolding check_owner
  check_owner-Owns c c' device (of_user u) e = ground arith
  check_owner-Owns c c' device (of_device d) e = ground arith
  check_owner-Owns c c' device of_other e = cc

  check_owner-next :
      (c : Context) (device : Device) (s : Subject)
      → Owns s device
      → check_owner env c device s ≡ next c
  unfolding check_owner
  check_owner-next c device (of_user u) own = ground arith
  check_owner-next c device (of_device d) own = ground arith
  check_owner-next c device of_other own = absurd own

  -- Past the early returns, `requireDeviceOwner` and `requireDeviceOwnerOrShared` are the check that they end with.
  pub present :
      (c c' : Context) (check : Database → Device → Subject → Step)
      → (require c.dongle_id no_dongle_id >>= λ id. require c.db try_again >>= λ db.
          require_found (find_device_by_dongle_id gorm db id) try_again >>= λ device.
          require (subject_of c) try_again >>= λ s. check db device s)
        ≡ next c'
      → (db : Database) × (device : Device) × (s : Subject) × IsPresent c db device s
        × (check db device s ≡ next c')
  present c c' check e =
      let (id, named, e1) = require_past c.dongle_id no_dongle_id _ (next c') (λ h. cc) e in
      let (db, stored, e2) = require_past c.db try_again _ (next c') (λ h. cc) e1 in
      let (device, found, e3) =
        past_found (find_device_by_dongle_id gorm db id) try_again _ (next c') (λ h. cc) e2 in
      let (s, subject, e4) = require_past (subject_of c) try_again _ (next c') (λ h. cc) e3 in
      (
        db,
        device,
        s,
        record { id = id; named = named; stored = stored; found = found; subject = subject },
        e4,
      )

  pub present_back :
      (c : Context) (check : Database → Device → Subject → Step) (db : Database) (device : Device)
      (s : Subject)
      → IsPresent c db device s
      → (require c.dongle_id no_dongle_id >>= λ id. require c.db try_again >>= λ db.
          require_found (find_device_by_dongle_id gorm db id) try_again >>= λ device.
          require (subject_of c) try_again >>= λ s. check db device s)
        ≡ check db device s
  present_back c check db device s p = rw (p.named, p.stored, p.found, p.subject)

  -- `requireDeviceOwner` lets a request through exactly in demo mode, or if the path names a device
  -- that the database holds and that the subject owns. It changes nothing of the context.
  pub require_device_owner_iff :
      (c c' : Context)
      → (require_device_owner env c ≡ next c') ↔ (
          (c ≡ c')
          × ((c.demo ≡ true)
              ⊎ ((db : Database) × (device : Device) × (s : Subject) × IsPresent c db device s
                  × Owns s device)))
  unfolding require_device_owner
  require_device_owner_iff c c' = elim (Bool-cases c.demo) [
    | inl demo ↦ (λ e. (ground arith, inl demo), λ (same, _). ground arith)
    | inr live ↦ (
      λ e.
          let (db, device, s, p, e') =
            present c c' (λ _ device s. check_owner env c device s) (ground arith) in
          let (same, own) = check_owner-Owns c c' device s e' in
          (same, inr (db, device, s, p, own)),
      λ (same, h). elim h [
        | inl demo ↦ ground arith
        | inr (db, device, s, p, own) ↦
            let reached = present_back c (λ _ device s. check_owner env c device s) db device s p in
            let passed = check_owner-next c device s own in cc (live, reached, passed, same)
      ],
    )
  ]

  check_owner-ne-returned :
      (c c' : Context) (device : Device) (s : Subject) → check_owner env c device s ≢ returned c'
  unfolding check_owner
  check_owner-ne-returned c c' device (of_user u) e = ground arith
  check_owner-ne-returned c c' device (of_device d) e = ground arith
  check_owner-ne-returned c c' device of_other e = cc

  -- `requireDeviceOwner` aborts or calls c.Next.
  pub require_device_owner-ne-returned : (c c' : Context) → require_device_owner env c ≢ returned c'
  unfolding require_device_owner
  require_device_owner-ne-returned c c' e = elim (Bool-cases c.demo) [
    | inl demo ↦ ground arith
    | inr live ↦
        let e0 : (require c.dongle_id no_dongle_id >>= λ id. require c.db try_again >>= λ db.
        require_found (find_device_by_dongle_id gorm db id) try_again >>= λ device.
        require (subject_of c) try_again >>= λ s. check_owner env c device s)
            ≡ returned c' =
          ground arith in
        let (id, _, e1) = require_past c.dongle_id no_dongle_id _ (returned c') (λ h. cc) e0 in
        let (db, _, e2) = require_past c.db try_again _ (returned c') (λ h. cc) e1 in
        let (device, _, e3) =
          past_found (find_device_by_dongle_id gorm db id) try_again _ (returned c') (λ h. cc) e2 in
        let (s, _, e4) = require_past (subject_of c) try_again _ (returned c') (λ h. cc) e3 in
        check_owner-ne-returned c c' device s e4
  ]
