-- ===== src/Controllers/Pilot/Granted.antt =====
-- Who may call a route for the owner after POSTPilotPair of internal/server/controllers/v2/pilot.go.
use rtz_server.Base.{
  false, ◌≡◌, ◌≢◌, refl, sym, ◌∙◌, ap, inl, inr, some, ◌==◌, ==_iff, some_injective, Bool-cases,
}
use rtz_server.GoText.{Str}
use rtz_server.Models.Rows.{User, Device, Database}
use rtz_server.Models.Gorm.{fetched}
use rtz_server.Models.Writes.{Writes}
use mathlib.Core.Path.{subst}
use rtz_server.Server.Http.{next}
use rtz_server.Server.Middleware.{Env, require_device_owner}
use rtz_server.Server.Middleware.Owner.{require_device_owner_iff}
use rtz_server.Models.Writes.Devices.{AreDongleIdsUnique, found-updated}
use rtz_server.Models.Queries.{find_device_by_dongle_id, find_device_by_dongle_id_sound}
use rtz_server.Jwt.{Parser}
use rtz_server.Server.Http.{of_user, Context}
use rtz_server.Controllers.Handler.{answered}
use rtz_server.Controllers.Pilot.{PilotPairJwtClaims, Paired, post_pilot_pair}
use rtz_server.Controllers.Pilot.Pairing.{taken_by, with_owner_of, post_pilot_pair-PairProof}

pub of_user_injective : {a b : User} → of_user a ≡ of_user b → a ≡ b
of_user_injective e = cc

user_key_set : (u user : User) → u ≡ user → u.id ≢ 0 → (user.id == 0) ≡ false
user_key_set u user same key = elim (Bool-cases (user.id == 0)) [
  | inl bad ↦ absurd (key (ap (λ x. x.id) same ∙ (==_iff user.id 0).0 bad))
  | inr set ↦ set
]

-- Where dongle ids are unique, a user with a primary key other than 0 who has paired a device by
-- `POSTPilotPair` is let through by `requireDeviceOwner` on a path with the dongle id of the answer, on
-- the database that the handler has left, if the device is found there.
pub post_pilot_pair-next :
    (env : Env) (writes : Writes) (p : Parser PilotPairJwtClaims env.keys.Key) (c c1 : Context)
    (s : Str) (r : Paired) (db db' : Database) (u : User) (d1 : Device)
    → c.db ≡ some db
    → AreDongleIdsUnique db
    → c.user ≡ some (of_user u)
    → u.id ≢ 0
    → post_pilot_pair env.gorm writes env.keys p c s ≡ (answered r, some db')
    → c1.dongle_id ≡ some r.dongle_id
    → c1.db ≡ some db'
    → find_device_by_dongle_id env.gorm db' r.dongle_id ≡ fetched d1
    → c1.user ≡ some (of_user u)
    → require_device_owner env c1 ≡ next c1
post_pilot_pair-next env writes p c c1 s r db db' u d1 stored unique by key e path stored1 found1
      by1 =
    let (db0, device, user, stored0, by0, proof, said, left) =
      post_pilot_pair-PairProof env.gorm writes env.keys p c s r db' e in
    let same_db : db ≡ db0 = some_injective (sym stored ∙ stored0) in
    let same_user : u ≡ user = of_user_injective (some_injective (sym by ∙ by0)) in
    let (called, _) =
      find_device_by_dongle_id_sound env.gorm db0 proof.token.claims.identity device proof.named
        proof.found in
    let said_id : r.dongle_id ≡ proof.token.claims.identity = ap (λ x. x.dongle_id) said ∙ called in
    let found2 : find_device_by_dongle_id env.gorm (with_owner_of device user db0)
          proof.token.claims.identity
        ≡ fetched d1 =
      ap (λ x. find_device_by_dongle_id env.gorm x proof.token.claims.identity) (sym left)
      ∙ ap (λ x. find_device_by_dongle_id env.gorm db' x) (sym said_id)
      ∙ found1 in
    let taken : d1 ≡ taken_by user device =
      found-updated env.gorm db0 device d1 proof.token.claims.identity (taken_by user) _
        (subst AreDongleIdsUnique same_db unique) proof.named (λ d. refl) proof.found refl found2 in
    let own : u.id ≡ d1.owner_id =
      ap (λ x. x.id) same_user
      ∙ (let key0 : (user.id == 0) ≡ false = user_key_set u user same_user key in
          let kept : user.id ≡ (taken_by user device).owner_id = rw key0 in
          kept ∙ ap (λ d. d.owner_id) (sym taken)) in
    (require_device_owner_iff env c1 c1).1 (
      refl,
      inr (
        db',
        d1,
        of_user u,
        record {
          id = r.dongle_id;
          named = path;
          stored = stored1;
          found = found1;
          subject = rw by1;
        },
        own,
      ),
    )
