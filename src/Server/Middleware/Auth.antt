-- ===== src/Server/Middleware/Auth.antt =====
-- What `requireAuth` of internal/server/middleware.go has established when it lets a request through.
use mathlib.Core.Bool.{and-eq-true_iff}
use mathlib.Core.Path.{subst}
use rtz_server.Base.{
  ℕ, true, false, ◌&&◌, ◌≡◌, ◌≢◌, sym, ◌∙◌, ap, [], none, some, arith, ◌⊎◌, inl, inr, Bool-cases,
}
use rtz_server.GoText.{Str, str_eq, is_empty}
use rtz_server.GoText.Laws.{str_eq_iff}
use rtz_server.Models.Rows.{User, Device, Database}
use rtz_server.Server.Http.{
  of_user, of_device, Context, next, returned, panics, unauthorized, try_again,
}
use rtz_server.Server.Http.Returns.{require_past}
use rtz_server.Server.Middleware.Attempts.{
  is_empty_of_ne, IsUser, IsDevice, UserTried, user_skipped, user_failed, user_passed, DeviceTried,
  device_skipped, device_failed, device_passed, device_announced, try_user-UserTried,
  try_device-DeviceTried,
}
use rtz_server.Server.Middleware.{
  Env, Tried, untried, allows, auth_type_user, auth_type_device, auth_type_demo, demo_token, bearer,
  try_user, try_unnamed_device, try_device, announced_identity, conclude, verify_either,
  require_auth,
}

abbrev shown_device : Device → Context → Context
shown_device d c = record c { device = some (of_device d) }

module _ (env : Env) where
  open env use {gorm, keys, user_tokens, device_tokens, secret}

  -- Why `requireAuth` called c.Next, and the whole context that it passed on: the demo token, a token
  -- that was issued to a user, one that the device of the path has signed, or one that is both.
  pub data Granted (types : ℕ) (c c' : Context) : Type 0 where
    by_demo :
        allows types auth_type_demo ≡ true
        → bearer c ≡ some demo_token
        → c' ≡ record c { demo = true }
        → Granted types c c'
    by_user :
        (jwt : Str) (db : Database) (u : User)
        → allows types auth_type_user ≡ true
        → bearer c ≡ some jwt
        → c.db ≡ some db
        → IsUser env db jwt u
        → c' ≡ record c { user = some (of_user u) }
        → Granted types c c'
    by_device :
        (jwt : Str) (db : Database) (d : Device)
        → allows types auth_type_device ≡ true
        → bearer c ≡ some jwt
        → c.db ≡ some db
        → IsDevice env db jwt c d
        → c' ≡ record c { device = some (of_device d) }
        → Granted types c c'
    by_both :
        (jwt : Str) (db : Database) (u : User) (d : Device)
        → allows types auth_type_user ≡ true
        → allows types auth_type_device ≡ true
        → bearer c ≡ some jwt
        → c.db ≡ some db
        → IsUser env db jwt u
        → IsDevice env db jwt c d
        → c' ≡ record c { user = some (of_user u); device = some (of_device d) }
        → Granted types c c'

  -- What trying the user has left: the context as it was, or with a verified user.
  abbrev UserLeft : ℕ → Str → Database → Context → Tried → Type 0
  UserLeft types jwt db c t =
      ((t.ctx ≡ c) × (t.user_auth_pass ≡ false) × (t.device_auth_pass ≡ false))
      ⊎ ((u : User) × (allows types auth_type_user ≡ true)
          × IsUser env db jwt u
          × (t.ctx ≡ record c { user = some (of_user u) })
          × (t.device_auth_pass ≡ false))

  UserTried-UserLeft :
      {types : ℕ} {jwt : Str} {db : Database} (c : Context) {t : Tried}
      → UserTried env types jwt db (untried c) t
      → UserLeft types jwt db c t
  UserTried-UserLeft c (user_skipped off e) =
      inl (ap (λ x. x.ctx) e, ap (λ x. x.user_auth_pass) e, ap (λ x. x.device_auth_pass) e)
  UserTried-UserLeft c (user_failed on e) =
      inl (ap (λ x. x.ctx) e, ap (λ x. x.user_auth_pass) e, ap (λ x. x.device_auth_pass) e)
  UserTried-UserLeft c (user_passed u on listed proof e) = inr (
    u,
    on,
    record { listed = listed; proof = proof },
    ap (λ x. x.ctx) e,
    ap (λ x. x.device_auth_pass) e,
  )

  -- What trying the device has left: the context as it was, or with the device that the path names.
  abbrev DeviceLeft : ℕ → Str → Database → Tried → Tried → Type 0
  DeviceLeft types jwt db t t' =
      ((t'.ctx ≡ t.ctx)
        × (t'.user_auth_pass ≡ t.user_auth_pass)
        × (t'.device_auth_pass ≡ t.device_auth_pass))
      ⊎ ((d : Device) × (allows types auth_type_device ≡ true)
          × IsDevice env db jwt t.ctx d
          × (t'.ctx ≡ record t.ctx { device = some (of_device d) }))

  DeviceTried-DeviceLeft :
      {types : ℕ} {jwt : Str} {db : Database} {t t' : Tried}
      → DeviceTried env types jwt db t t'
      → DeviceLeft types jwt db t t'
  DeviceTried-DeviceLeft (device_skipped off e) =
      inl (ap (λ x. x.ctx) e, ap (λ x. x.user_auth_pass) e, ap (λ x. x.device_auth_pass) e)
  DeviceTried-DeviceLeft (device_failed on e) =
      inl (ap (λ x. x.ctx) e, ap (λ x. x.user_auth_pass) e, ap (λ x. x.device_auth_pass) e)
  DeviceTried-DeviceLeft (device_announced on unnamed somebody e) =
      inl (ap (λ x. x.ctx) e, ap (λ x. x.user_auth_pass) e, ap (λ x. x.device_auth_pass) e)
  DeviceTried-DeviceLeft (device_passed d on named listed proof e) =
      inr (d, on, record { named = named; listed = listed; proof = proof }, ap (λ x. x.ctx) e)

  conclude-next :
      (types : ℕ) (t : Tried) (c' : Context)
      → conclude types t ≡ next c'
      → (t.ctx ≡ c') × ((t.user_auth_pass ≡ true) ⊎ (t.device_auth_pass ≡ true))
  unfolding conclude
  conclude-next types t c' e = ground arith

  module _ {types : ℕ} {jwt : Str} {db : Database} (c : Context) (t t' : Tried)
      (got : bearer c ≡ some jwt) (stored : c.db ≡ some db) where
    left-Granted :
        UserLeft types jwt db c t
        → DeviceLeft types jwt db t t'
        → (t'.user_auth_pass ≡ true) ⊎ (t'.device_auth_pass ≡ true)
        → Granted types c t'.ctx
    left-Granted (inl (same, no_user, no_device)) (inl (same', user, device)) (inl p) =
        cc (no_user, user, p)
    left-Granted (inl (same, no_user, no_device)) (inl (same', user, device)) (inr p) =
        cc (no_device, device, p)
    left-Granted (inl (same, no_user, no_device)) (inr (d, on, is_device, same')) passed =
        by_device jwt db d on got stored (subst (λ x. IsDevice env db jwt x d) same is_device)
          (same' ∙ ap (shown_device d) same)
    left-Granted (inr (u, on, is_user, same, no_device)) (inl (same', user, device)) passed =
        by_user jwt db u on got stored is_user (same' ∙ same)
    left-Granted (inr (u, on, is_user, same, no_device)) (inr (d, on', is_device, same')) passed =
        by_both jwt db u d on on' got stored is_user
          (record {
            named = ap (λ x. x.dongle_id) (sym same) ∙ is_device.named;
            listed = is_device.listed;
            proof = is_device.proof;
          })
          (same' ∙ ap (shown_device d) same)

  module _ {types : ℕ} {jwt : Str} {db : Database} {c c' : Context} (got : bearer c ≡ some jwt)
      (stored : c.db ≡ some db) where
    conclude-Granted :
        {t t' : Tried}
        → UserTried env types jwt db (untried c) t
        → DeviceTried env types jwt db t t'
        → conclude types t' ≡ next c'
        → Granted types c c'
    conclude-Granted {t} {t'} u d e =
        let (same, passed) = conclude-next types t' c' e in
        subst (λ c''. Granted types c c'') same
          (left-Granted c t t' got stored (UserTried-UserLeft c u) (DeviceTried-DeviceLeft d)
            passed)

    verify_either-Granted : verify_either env types jwt db c ≡ next c' → Granted types c c'
    unfolding verify_either
    verify_either-Granted e =
        let (t, tried, e') =
          require_past (try_user env types jwt db (untried c)) panics _ (next c') (λ h. cc) e in
        let (t', tried', e'') =
          require_past (try_device env types jwt db t) panics _ (next c') (λ h. cc) e' in
        conclude-Granted (try_user-UserTried env types jwt db (untried c) t tried)
          (try_device-DeviceTried env types jwt db t t' tried') e''

  -- `requireAuth` lets a request through only for the demo token, where the route allows it, or for
  -- a token that has been verified: a user's, whom the database knows, or one signed by the device
  -- that the path names and the database knows. What it passes on is the context that it was given with
  -- no other change than this: the demo mode in the first case, and the verified user under "user",
  -- the verified device under "device", or both, in the others.
  pub require_auth-Granted :
      (types : ℕ) (c c' : Context) → require_auth env types c ≡ next c' → Granted types c c'
  unfolding require_auth
  require_auth-Granted types c c' e =
      let (jwt, got, e1) = require_past (bearer c) unauthorized _ (next c') (λ h. cc) e in
      let (db, stored, e2) = require_past c.db try_again _ (next c') (λ h. cc) e1 in
      elim (Bool-cases (allows types auth_type_demo && str_eq jwt demo_token)) [
        | inl demo ↦
            let (on, same) = (and-eq-true_iff _ _).0 demo in
            by_demo on (got ∙ ap some ((str_eq_iff jwt demo_token).0 same)) (ground arith)
        | inr other ↦ verify_either-Granted got stored (ground arith)
      ]

  device_keeps_error :
      {types : ℕ} {jwt : Str} {db : Database} {t t' : Tried}
      → DeviceTried env types jwt db t t'
      → (t'.user_auth_err ≡ t.user_auth_err) × (t'.user_auth_pass ≡ t.user_auth_pass)
  device_keeps_error (device_skipped off e) = ground arith
  device_keeps_error (device_failed on e) = ground arith
  device_keeps_error (device_passed d on named listed proof e) = ground arith
  device_keeps_error (device_announced on unnamed somebody e) = ground arith

  user_concludes :
      {types : ℕ} {jwt : Str} {db : Database} {c c' : Context} {t t' : Tried}
      → allows types auth_type_user ≡ true
      → UserTried env types jwt db (untried c) t
      → DeviceTried env types jwt db t t'
      → conclude types t' ≢ returned c'
  unfolding conclude
  user_concludes on (user_skipped off e) d = cc
  user_concludes on (user_failed _ e) d = let kept = device_keeps_error d in λ h. ground arith
  user_concludes on (user_passed u _ listed proof e) d =
      let kept = device_keeps_error d in λ h. ground arith

  verify_either-ne-returned :
      (types : ℕ) (jwt : Str) (db : Database) (c c' : Context)
      → allows types auth_type_user ≡ true
      → verify_either env types jwt db c ≢ returned c'
  unfolding verify_either
  verify_either-ne-returned types jwt db c c' on e =
      let (t, tried, e') =
        require_past (try_user env types jwt db (untried c)) panics _ (returned c') (λ h. cc) e in
      let (t', tried', e'') =
        require_past (try_device env types jwt db t) panics _ (returned c') (λ h. cc) e' in
      user_concludes on (try_user-UserTried env types jwt db (untried c) t tried)
        (try_device-DeviceTried env types jwt db t t' tried') e''

  -- On a route that admits users `requireAuth` never returns with the request neither admitted nor
  -- refused.
  pub require_auth-ne-returned :
      (types : ℕ) (c c' : Context)
      → allows types auth_type_user ≡ true
      → require_auth env types c ≢ returned c'
  unfolding require_auth
  require_auth-ne-returned types c c' on e =
      let (jwt, got, e1) = require_past (bearer c) unauthorized _ (returned c') (λ h. cc) e in
      let (db, stored, e2) = require_past c.db try_again _ (returned c') (λ h. cc) e1 in
      elim (Bool-cases (allows types auth_type_demo && str_eq jwt demo_token)) [
        | inl demo ↦ ground arith
        | inr other ↦ verify_either-ne-returned types jwt db c c' on (ground arith)
      ]

  -- On a route that admits devices, but neither users nor the demo, for a request whose path names no
  -- device, whose token carries an identity that is not empty, and which has the database in its
  -- context, `requireAuth` returns without an abort, and without a call of c.Next; nothing is asked of
  -- the token's signature.
  pub require_auth_unnamed_device :
      (types : ℕ) (jwt : Str) (db : Database) (c : Context)
      → allows types auth_type_user ≡ false
      → allows types auth_type_demo ≡ false
      → allows types auth_type_device ≡ true
      → bearer c ≡ some jwt
      → c.db ≡ some db
      → c.dongle_id ≡ none
      → announced_identity env jwt ≢ []
      → require_auth env types c ≡ returned c
  unfolding require_auth verify_either try_user try_device try_unnamed_device conclude
  require_auth_unnamed_device types jwt db c no_user no_demo device got stored unnamed somebody =
      let announced : is_empty (announced_identity env jwt) ≡ false = is_empty_of_ne _ somebody in
      ground arith
