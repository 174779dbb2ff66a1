-- ===== src/Server/Middleware/Attempts.antt =====
-- The ways in which `requireAuth` of internal/server/middleware.go tries a token as a user's and as a
-- device's.
use mathlib.Core.List.{Memᴰ}
use rtz_server.Base.{
  ℕ, true, false, ◌≡◌, ◌≢◌, refl, sym, ◌∙◌, ap, [], ◌∷◌, some, arith, ◌⊎◌, inl, inr, Option-cases,
  Bool-cases,
}
use rtz_server.GoText.{Str, is_empty}
use rtz_server.Models.Rows.{User, Device, Database}
use rtz_server.Models.Gorm.{Fetched-cases, fetched}
use rtz_server.Models.Queries.{
  find_user_by_id, find_device_by_dongle_id, find_user_by_id_sound, find_device_by_dongle_id_sound,
}
use rtz_server.Jwt.{Verified, accepted, refused, panicked, verify_jwt, verify_device_jwt}
use rtz_server.Jwt.Laws.{UserProof, DeviceProof, verify_jwt_iff, verify_device_jwt_iff}
use rtz_server.Server.Http.{of_user, of_device, Context}
use rtz_server.Server.Middleware.{
  Env, Tried, allows, auth_type_user, auth_type_device, try_user, try_named_device,
  try_unnamed_device, try_device, announced_identity,
}

pub Verified-cases :
    {A : Type 0} (r : Verified A) → ((a : A) × (r ≡ accepted a)) ⊎ ((r ≡ refused) ⊎ (r ≡ panicked))
Verified-cases (accepted a) = inl (a, refl)
Verified-cases refused = inr (inl refl)
Verified-cases panicked = inr (inr refl)

pub ne_of_is_empty : (s : Str) → is_empty s ≡ false → s ≢ []
unfolding is_empty
ne_of_is_empty [] h e = cc
ne_of_is_empty (c ∷ s) h e = cc

pub is_empty_of_ne : (s : Str) → s ≢ [] → is_empty s ≡ false
unfolding is_empty
is_empty_of_ne [] h = absurd (h refl)
is_empty_of_ne (c ∷ s) h = refl

pub eq_of_is_empty : (s : Str) → is_empty s ≡ true → s ≡ []
unfolding is_empty
eq_of_is_empty [] h = refl
eq_of_is_empty (c ∷ s) h = cc

module _ (env : Env) where
  open env use {gorm, keys, user_tokens, device_tokens, secret}

  -- The database holds the user, and the token was issued to it.
  pub record IsUser (db : Database) (jwt : Str) (user : User) : Type 0 where
    pub listed : Memᴰ user db.users
    pub proof : UserProof keys user_tokens secret jwt user.id

  -- The database holds the device, the path names it, and it has signed the token.
  pub record IsDevice (db : Database) (jwt : Str) (c : Context) (device : Device) : Type 0 where
    pub named : c.dongle_id ≡ some device.dongle_id
    pub listed : Memᴰ device db.devices
    pub proof : DeviceProof keys device_tokens device.dongle_id device.public_key jwt

  abbrev pub with_user : Tried → User → Tried
  with_user t u = record t { ctx = record t.ctx { user = some (of_user u) }; user_auth_pass = true }

  abbrev pub with_device : Tried → Device → Tried
  with_device t d = record t {
    ctx = record t.ctx { device = some (of_device d) };
    device_auth_pass = true;
  }

  -- The three ways in which trying the user ends without a panic.
  pub data UserTried (types : ℕ) (jwt : Str) (db : Database) (t t' : Tried) : Type 0 where
    user_skipped : allows types auth_type_user ≡ false → t' ≡ t → UserTried types jwt db t t'
    user_failed :
        allows types auth_type_user ≡ true
        → t' ≡ record t { user_auth_err = true }
        → UserTried types jwt db t t'
    user_passed :
        (u : User)
        → allows types auth_type_user ≡ true
        → Memᴰ u db.users
        → UserProof keys user_tokens secret jwt u.id
        → t' ≡ with_user t u
        → UserTried types jwt db t t'

  verified_user :
      (jwt : Str) (db : Database) (uid : ℕ) (u : User)
      → verify_jwt keys user_tokens secret jwt ≡ accepted uid
      → find_user_by_id gorm db uid ≡ fetched u
      → Memᴰ u db.users × UserProof keys user_tokens secret jwt u.id
  verified_user jwt db uid u verified found =
      let (same, listed) = find_user_by_id_sound gorm db uid u found in
      (listed, rw same ((verify_jwt_iff keys user_tokens secret jwt uid).0 verified))

  pub try_user-UserTried :
      (types : ℕ) (jwt : Str) (db : Database) (t t' : Tried)
      → try_user env types jwt db t ≡ some t'
      → UserTried types jwt db t t'
  unfolding try_user
  try_user-UserTried types jwt db t t' e = elim (Bool-cases (allows types auth_type_user)) [
    | inr off ↦ user_skipped off (ground arith)
    | inl on ↦ elim (Verified-cases (verify_jwt keys user_tokens secret jwt)) [
      | inl (uid, verified) ↦ elim (Fetched-cases (find_user_by_id gorm db uid)) [
        | inl (u, found) ↦
            let (listed, proof) = verified_user jwt db uid u verified found in
            user_passed u on listed proof (ground arith)
        | inr missing ↦ user_failed on (ground arith)
      ]
      | inr (inl no_token) ↦ user_failed on (ground arith)
      | inr (inr panic) ↦ ground arith
    ]
  ]

  -- The ways in which trying the device ends without a panic.
  pub data DeviceTried (types : ℕ) (jwt : Str) (db : Database) (t t' : Tried) : Type 0 where
    device_skipped : allows types auth_type_device ≡ false → t' ≡ t → DeviceTried types jwt db t t'
    device_failed :
        allows types auth_type_device ≡ true
        → t' ≡ record t { device_auth_err = true }
        → DeviceTried types jwt db t t'
    device_passed :
        (d : Device)
        → allows types auth_type_device ≡ true
        → t.ctx.dongle_id ≡ some d.dongle_id
        → Memᴰ d db.devices
        → DeviceProof keys device_tokens d.dongle_id d.public_key jwt
        → t' ≡ with_device t d
        → DeviceTried types jwt db t t'
    device_announced :
        allows types auth_type_device ≡ true
        → ((id : Str) → t.ctx.dongle_id ≡ some id → id ≡ [])
        → announced_identity env jwt ≢ []
        → t' ≡ t
        → DeviceTried types jwt db t t'

  try_named_device-DeviceTried :
      (types : ℕ) (jwt id : Str) (db : Database) (t t' : Tried)
      → allows types auth_type_device ≡ true
      → t.ctx.dongle_id ≡ some id
      → id ≢ []
      → try_named_device env jwt id db t ≡ some t'
      → DeviceTried types jwt db t t'
  unfolding try_named_device
  try_named_device-DeviceTried types jwt id db t t' on named nonempty e =
      elim (Fetched-cases (find_device_by_dongle_id gorm db id)) [
        | inl (d, found) ↦
            let (same, listed) = find_device_by_dongle_id_sound gorm db id d nonempty found in
            elim (Verified-cases
              (verify_device_jwt keys device_tokens d.dongle_id d.public_key jwt)) [
                | inl (_, verified) ↦
                    device_passed d on (named ∙ ap some (sym same)) listed
                      ((verify_device_jwt_iff keys device_tokens d.dongle_id d.public_key jwt).0
                        verified)
                      (ground arith)
                | inr (inl no_token) ↦ device_failed on (ground arith)
                | inr (inr panic) ↦ ground arith
              ]
        | inr missing ↦ device_failed on (ground arith)
      ]

  try_unnamed_device-DeviceTried :
      (types : ℕ) (jwt : Str) (db : Database) (t t' : Tried)
      → allows types auth_type_device ≡ true
      → ((id : Str) → t.ctx.dongle_id ≡ some id → id ≡ [])
      → some (try_unnamed_device env jwt t) ≡ some t'
      → DeviceTried types jwt db t t'
  unfolding try_unnamed_device
  try_unnamed_device-DeviceTried types jwt db t t' on unnamed e =
      elim (Bool-cases (is_empty (announced_identity env jwt))) [
        | inl nobody ↦ device_failed on (ground arith)
        | inr somebody ↦ device_announced on unnamed (ne_of_is_empty _ somebody) (ground arith)
      ]

  pub try_device-DeviceTried :
      (types : ℕ) (jwt : Str) (db : Database) (t t' : Tried)
      → try_device env types jwt db t ≡ some t'
      → DeviceTried types jwt db t t'
  unfolding try_device
  try_device-DeviceTried types jwt db t t' e = elim (Bool-cases (allows types auth_type_device)) [
    | inr off ↦ device_skipped off (ground arith)
    | inl on ↦ elim (Option-cases t.ctx.dongle_id) [
      | inl unnamed ↦
          try_unnamed_device-DeviceTried types jwt db t t' on (λ id named. cc) (ground arith)
      | inr (id, named) ↦ elim (Bool-cases (is_empty id)) [
        | inl blank ↦
            try_unnamed_device-DeviceTried types jwt db t t' on
              (λ id' named'. eq_of_is_empty id' (ground arith)) (ground arith)
        | inr set ↦
            try_named_device-DeviceTried types jwt id db t t' on named (ne_of_is_empty id set)
              (ground arith)
      ]
    ]
  ]
