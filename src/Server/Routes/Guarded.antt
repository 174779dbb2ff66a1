-- ===== src/Server/Routes/Guarded.antt =====
-- Who reaches the handlers behind the guards of internal/server/routes.go.
use Prim.Native.String.{String}
use mathlib.Core.Path.{subst}
use rtz_server.Base.{
  some_injective, ℕ, true, false, ◌≡◌, refl, ◌∙◌, ap, ◌⊎◌, inl, inr, [], ◌∷◌, some, arith,
  Option-cases,
}
use rtz_server.Models.Rows.{Device, Database}
use rtz_server.Server.Http.{Subject, Context, Step, aborted, next, returned, panics}
use rtz_server.Server.Middleware.{
  Env, allows, auth_type_user, auth_type_demo, require_auth, require_device_owner,
}
use rtz_server.Server.Middleware.Auth.{
  Granted, by_demo, by_user, by_device, by_both, require_auth-Granted, require_auth-ne-returned,
}
use rtz_server.Server.Middleware.Owner.{
  Owns, IsPresent, require_device_owner_iff, require_device_owner-ne-returned,
}
use rtz_server.Server.Routes.{Guard, auth, owner, Gin, run_guard, reaches}

Step-cases :
    (s : Step)
    → ((status : ℕ) × (message : String) × (s ≡ aborted status message))
      ⊎ (((c : Context) × (s ≡ next c)) ⊎ (((c : Context) × (s ≡ returned c)) ⊎ (s ≡ panics)))
Step-cases (aborted status message) = inl (status, message, refl)
Step-cases (next c) = inr (inl (c, refl))
Step-cases (returned c) = inr (inr (inl (c, refl)))
Step-cases panics = inr (inr (inr refl))

module _ (gin : Gin) (env : Env) where
  goes_on-inversion :
      (s : Step) (c : Context) → gin.goes_on s ≡ some c → (s ≡ next c) ⊎ (s ≡ returned c)
  goes_on-inversion s c e = elim (Step-cases s) [
    | inl (status, message, same) ↦ cc (e, same, gin.stops_aborted status message)
    | inr (inl (c1, same)) ↦
        let on = gin.goes_on_next c1 in
        let one : c1 ≡ c = some_injective (cc (e, same, on)) in inl (same ∙ ap next one)
    | inr (inr (inl (c1, same))) ↦
        let on = gin.goes_on_returned c1 in
        let one : c1 ≡ c = some_injective (cc (e, same, on)) in inr (same ∙ ap returned one)
    | inr (inr (inr same)) ↦ cc (e, same, gin.stops_panics)
  ]

  reaches-two :
      (g h : Guard) (c c' : Context)
      → reaches gin env (g ∷ h ∷ []) c ≡ some c'
      → (c1 : Context) × (gin.goes_on (run_guard gin env g c) ≡ some c1)
        × (gin.goes_on (run_guard gin env h c1) ≡ some c')
  unfolding reaches
  reaches-two g h c c' e = elim (Option-cases (gin.goes_on (run_guard gin env g c))) [
    | inl stopped ↦ ground arith
    | inr (c1, on) ↦ elim (Option-cases (gin.goes_on (run_guard gin env h c1))) [
      | inl stopped ↦ ground arith
      | inr (c2, on') ↦ (c1, on, ground arith)
    ]
  ]

  pub reaches_both :
      (g h : Guard) (c c1 c' : Context)
      → gin.goes_on (run_guard gin env g c) ≡ some c1
      → gin.goes_on (run_guard gin env h c1) ≡ some c'
      → reaches gin env (g ∷ h ∷ []) c ≡ some c'
  unfolding reaches
  reaches_both g h c c1 c' e e' = ground arith

  auth-Granted :
      (types : ℕ) (c c1 : Context)
      → allows types auth_type_user ≡ true
      → gin.goes_on (require_auth env types c) ≡ some c1
      → Granted env types c c1
  auth-Granted types c c1 on e = elim (goes_on-inversion (require_auth env types c) c1 e) [
    | inl passed ↦ require_auth-Granted env types c c1 passed
    | inr undecided ↦ absurd (require_auth-ne-returned env types c c1 on undecided)
  ]

  demo_kept :
      (types : ℕ) (c c1 : Context)
      → allows types auth_type_demo ≡ false
      → Granted env types c c1
      → c1.demo ≡ c.demo
  demo_kept types c c1 off (by_demo on got same) = cc (off, on)
  demo_kept types c c1 off (by_user jwt db u on got stored p same) = ap (λ x. x.demo) same
  demo_kept types c c1 off (by_device jwt db d on got stored p same) = ap (λ x. x.demo) same
  demo_kept types c c1 off (by_both jwt db u d on on' got stored p p' same) = ap (λ x. x.demo) same

  -- On a route for users, but not for the demo, with `requireDeviceOwner` behind `requireAuth`, a
  -- request that is not in demo mode reaches the handler only with a verified token whose subject
  -- owns the stored device that the path names.
  pub owner_route_lem :
      (types : ℕ) (c c' : Context)
      → allows types auth_type_user ≡ true
      → allows types auth_type_demo ≡ false
      → c.demo ≡ false
      → reaches gin env (auth types ∷ owner ∷ []) c ≡ some c'
      → Granted env types c c'
        × ((db : Database) × (device : Device) × (s : Subject) × IsPresent env c' db device s
            × Owns s device)
  unfolding run_guard
  owner_route_lem types c c' on off live e =
      let (c1, passed, passed') = reaches-two (auth types) owner c c' e in
      let granted = auth-Granted types c c1 on passed in
      let still : c1.demo ≡ false = demo_kept types c c1 off granted ∙ live in
      elim (goes_on-inversion (require_device_owner env c1) c' passed') [
        | inr undecided ↦ absurd (require_device_owner-ne-returned env c1 c' undecided)
        | inl let_through ↦
            let (same, why) = (require_device_owner_iff env c1 c').0 let_through in
            elim why [
              | inl demo ↦ cc (demo, still)
              | inr (db, device, s, present, own) ↦ (
                subst (Granted env types c) same granted,
                (db, device, s, subst (λ x. IsPresent env x db device s) same present, own),
              )
            ]
      ]
