-- ===== src/Controllers/Devices/Sharing.antt =====
-- What POSTDeviceAddUser of internal/server/controllers/v1/devices.go has after when it succeeds.
use mathlib.Core.List.{Memᴰ}
use mathlib.Core.Path.{subst}
use rtz_server.Base.{
  ◌≡◌, ◌≢◌, refl, sym, ◌∙◌, ap, some_injective, ◌⊎◌, inl, inr, List, [], ◌∷◌, ◌++◌, Option, none,
  some, arith, Option-cases, if_cases, any_sound, ==_iff,
}
use rtz_server.Base.Int.{ℤ}
use rtz_server.GoText.{Str, codes, has_prefix}
use rtz_server.GoText.Numbers.{parse_int}
use rtz_server.Models.Rows.{User, Device, DeviceShare, Database}
use rtz_server.Models.Gorm.{Gorm, Fetched, fetched, not_found, query_failed}
use rtz_server.Models.Writes.{Writes}
use rtz_server.Models.Queries.{find_device_by_dongle_id}
use rtz_server.Server.Http.{Subject, of_user, Context, next, value, answer}
use rtz_server.Server.Http.Returns.{answer_injective, value_injective, require_past, past_value}
use rtz_server.Server.Middleware.{Env, require_device_owner_or_shared}
use rtz_server.Server.Middleware.Owner.{IsPresent}
use rtz_server.Server.Middleware.Shared.{
  IsSharedWith, AreSharesRead, IsStored, require_device_owner_or_shared_iff,
}
use rtz_server.Controllers.Handler.{
  current_user-IsRefused, failed_answered, answered, Outcome, current_user, IsNamed,
  with_device-IsNamed,
}
use rtz_server.Controllers.Devices.{
  invited, number, find_invited, is_share, new_share, share_with, post_device_add_user,
}

Memᴰ-last : {A : Type 0} (xs : List A) (a : A) → Memᴰ a (xs ++ (a ∷ []))
Memᴰ-last [] a = Memᴰ.head refl
Memᴰ-last (x ∷ xs) a = Memᴰ.tail (Memᴰ-last xs a)

module _ (gorm : Gorm) (writes : Writes) where
  -- A share of the device with the invited user.
  pub record IsShared (c : Context) (body : Option Str) (user : User) (db' : Database)
      : Type 0 where
    pub db : Database
    pub device : Device
    pub email : Str
    pub device_named : IsNamed gorm c db device
    pub sent : body ≡ some email
    pub invited : find_invited gorm c.db db email ≡ value user
    pub same_devices : db'.devices ≡ db.devices
    pub shared : IsSharedWith db' user device

  added-IsSharedWith :
      (db : Database) (device : Device) (owner user : User) (shares : List DeviceShare)
      → writes.first_or_create DeviceShare
          (λ s. s.id)
          (is_share device user)
          (new_share device owner user)
          db.device_shares
        ≡ some shares
      → IsSharedWith (record db { device_shares = shares }) user device
  added-IsSharedWith db device owner user shares e =
      elim (writes.first_or_create_done DeviceShare (λ s. s.id) (is_share device user)
        (new_share device owner user) db.device_shares shares e) [
          | inl (there, same) ↦
              let (s, m, hit) = any_sound (is_share device user) db.device_shares there in
              (
                s,
                subst (λ rows. Memᴰ s rows) (sym same) m,
                (==_iff s.device_id device.id).0 (ground arith),
                (==_iff s.shared_to_user_id user.id).0 (ground arith),
              )
          | inr (_, (id, _, _, grown)) ↦ (
            new_share device owner user id,
            subst (λ rows. Memᴰ (new_share device owner user id) rows) (sym grown)
                (Memᴰ-last db.device_shares _),
            refl,
            refl,
          )
        ]

  module _ (s : Option Database) (b : Outcome (Unit {0})) (after : Option Database) where
    invited-IsRefused : (r : Fetched User) → invited gorm s r ≡ answer b → b ≢ (answered tt, after)
    invited-IsRefused (fetched u) e = cc
    invited-IsRefused not_found e = λ h. failed_answered (answer_injective e ∙ h)
    invited-IsRefused query_failed e = λ h. failed_answered (answer_injective e ∙ h)

    by_number-IsRefused :
        (text : Str) (find : ℤ → Fetched User)
        → elim (number gorm s text) [ answer r ↦ answer r | value id ↦ invited gorm s (find id) ]
          ≡ answer b
        → b ≢ (answered tt, after)
    by_number-IsRefused text find e = elim (Option-cases (parse_int text).1) [
      | inl fine ↦ invited-IsRefused (find (parse_int text).0) (cc (e, fine))
      | inr (err, bad) ↦ λ h. ground arith
    ]

    find_invited-IsRefused :
        (db : Database) (email : Str)
        → find_invited gorm s db email ≡ answer b
        → b ≢ (answered tt, after)
    unfolding find_invited
    find_invited-IsRefused db email =
        if_cases (has_prefix email (codes "google_")) (invited-IsRefused _) (
          if_cases (has_prefix email (codes "github_")) (by_number-IsRefused _ _) (
            if_cases (has_prefix email (codes "custom_")) (by_number-IsRefused _ _)
              (λ e h. failed_answered (answer_injective e ∙ h))))

  share_with-IsSharedWith :
      (c : Context) (body : Option Str) (db db' : Database) (device : Device)
      → share_with gorm writes c body db device ≡ (answered tt, some db')
      → (email : Str) × (user : User) × (body ≡ some email)
        × (find_invited gorm c.db db email ≡ value user)
        × (db'.devices ≡ db.devices)
        × IsSharedWith db' user device
  unfolding share_with
  share_with-IsSharedWith c body db db' device e =
      let (email, sent, e1) = require_past body _ _ _ failed_answered e in
      let (owner, _, e2) =
        past_value (current_user c) _ _ (λ r bad. current_user-IsRefused c r tt (some db') bad)
          e1 in
      let (user, invited, e3) =
        past_value (find_invited gorm c.db db email) _ _
          (λ r. find_invited-IsRefused c.db r (some db') db email) e2 in
      let (shares, written, e4) =
        require_past
          (writes.first_or_create DeviceShare (λ s. s.id) (is_share device user)
            (new_share device owner user) db.device_shares)
          _ _ _ failed_answered e3 in
      let after : record db { device_shares = shares } ≡ db' = cc e4 in
      let shared = added-IsSharedWith db device owner user shares written in
      (
        email,
        user,
        sent,
        invited,
        ap (λ d. d.devices) (sym after),
        subst (λ d. IsSharedWith d user device) after shared,
      )

  -- When `POSTDeviceAddUser` succeeds, the text of the request named a user that was found, the path a
  -- device, and in the database that it leaves the device is shared with that user; the devices are
  -- the same.
  pub post_device_add_user-IsShared :
      (c : Context) (body : Option Str) (db' : Database)
      → post_device_add_user gorm writes c body ≡ (answered tt, some db')
      → (user : User) × IsShared c body user db'
  unfolding post_device_add_user
  post_device_add_user-IsShared c body db' e =
      let (db, device, named, e1) =
        with_device-IsNamed gorm c (share_with gorm writes c body) tt (some db') e in
      let (email, user, sent, invited, same, shared) =
        share_with-IsSharedWith c body db db' device e1 in
      (
        user,
        record {
          db = db;
          device = device;
          email = email;
          device_named = named;
          sent = sent;
          invited = invited;
          same_devices = same;
          shared = shared;
        },
      )

keyed :
    (c1 : Context) (u : User)
    → u.id ≢ 0
    → c1.user ≡ some (of_user u)
    → c1.device ≡ none
    → (s : Subject) → (c1.user ≡ some s) ⊎ (c1.device ≡ some s)
    → IsStored s
keyed c1 u key by no_device s (inl h) = subst (λ t. IsStored t) (some_injective (sym by ∙ h)) key
keyed c1 u key by no_device s (inr h) = absurd (let bad : some s ≡ none = sym h ∙ no_device in cc)

-- When `POSTDeviceAddUser` has succeeded for the user `u`, whom the text of the request names and
-- whose primary key is not 0, `requireDeviceOwnerOrShared` lets a request of that user for the same
-- path through, on the database that the handler has left, if its context holds no device and the
-- query for the user's shares does not fail.
pub post_device_add_user-next :
    (env : Env) (writes : Writes) (c c1 : Context) (email : Str) (db db' : Database) (u : User)
    → c.db ≡ some db
    → find_invited env.gorm c.db db email ≡ value u
    → u.id ≢ 0
    → post_device_add_user env.gorm writes c (some email) ≡ (answered tt, some db')
    → c1.dongle_id ≡ c.dongle_id
    → c1.db ≡ some db'
    → c1.user ≡ some (of_user u)
    → c1.device ≡ none
    → AreSharesRead env db' (of_user u)
    → require_device_owner_or_shared env c1 ≡ next c1
unfolding find_device_by_dongle_id
post_device_add_user-next env writes c c1 email db db' u stored names key e path db1 by no_device
      read =
    let (user, given) = post_device_add_user-IsShared env.gorm writes c (some email) db' e in
    let same_text : email ≡ given.email = some_injective given.sent in
    let same_db : db ≡ given.db = some_injective (sym stored ∙ given.device_named.stored) in
    let same_user : user ≡ u = value_injective (
      sym given.invited
      ∙ ap (λ d. find_invited env.gorm c.db d given.email) (sym same_db)
      ∙ ap (λ t. find_invited env.gorm c.db db t) (sym same_text)
      ∙ names) in
    let found : find_device_by_dongle_id env.gorm db' given.device_named.id ≡ fetched given.device =
      ap
        (λ rows.
          env.gorm.first Device (λ d. env.gorm.str_cond given.device_named.id d.dongle_id) rows)
        given.same_devices
      ∙ given.device_named.found in
    let present : IsPresent env c1 db' given.device (of_user u) = record {
      id = given.device_named.id;
      named = path ∙ given.device_named.named;
      stored = db1;
      found = found;
      subject = rw by;
    } in
    (require_device_owner_or_shared_iff env c1 c1 (keyed c1 u key by no_device)).1 (
      refl,
      inr (
        db',
        given.device,
        of_user u,
        present,
        read,
        inr (subst (λ v. IsSharedWith db' v given.device) same_user given.shared),
      ),
    )
