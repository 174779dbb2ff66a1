-- ===== src/Controllers/Navigation/Calls.antt =====
-- Where POSTSetDestination of internal/server/controllers/v1/navigation.go has put a destination.
use rtz_server.Base.{
  true, false, ◌≡◌, ◌≢◌, sym, ◌∙◌, ap, refl, ◌⊎◌, inl, inr, List, [], ◌∷◌, Option, none, some, ◌==◌,
  ==_iff, Bool-cases, Option-cases, if◌then◌else◌, if_cases, if_true, if_false, arith,
}
use rtz_server.GoText.{Str, is_empty}
use rtz_server.Models.Rows.{Device, Database}
use rtz_server.Models.Gorm.{Gorm}
use rtz_server.Models.Writes.{Writes, changed_rows}
use rtz_server.Server.Http.{Context, value, answer}
use rtz_server.Server.Rpc.{
  RpcError, not_connected, marshal_failed, nats_timeout, nats_no_responders, nats_failed,
  unmarshal_failed, call_timeout,
}
use rtz_server.Server.Http.Returns.{answer_injective, value_injective, require_past, past_value}
use rtz_server.Controllers.Handler.{
  answered, Outcome, failed_answered, server_error, IsNamed, with_device-found,
}
use rtz_server.Controllers.Navigation.{
  Destination, SetDestination, Outside, is_online, tell_device, with_destination, not_set,
  save_destination, clear, RpcResult, RpcResponse, one_float, no_response, response_or_zero,
  call_failed, no_object, no_success, no_number, success, read_result, read_call, set_destination,
  post_set_destination,
}

-- The device has taken the destination: it is online, and its answer to the call that carries the
-- destination is no error and an object whose "success" is 1.
pub record IsTaken (outside : Outside) (t : Destination) (device : Device) : Type 0 where
  pub uuid : Str
  pub result : RpcResponse
  pub online : is_online device.last_athena_ping outside.now ≡ true
  pub new : outside.new_uuid ≡ some uuid
  pub called : outside.call device.dongle_id uuid t ≡ (some result, none)
  pub no_error : result.error ≡ []
  pub succeeds : result.result ≡ success one_float

read_result-success :
    (s : Option Database) (x : RpcResult) → read_result s x ≡ value true → x ≡ success one_float
read_result-success s no_object e = cc
read_result-success s no_success e = cc
read_result-success s no_number e = cc
read_result-success s (success x) e = ap success ((==_iff x one_float).0 (value_injective e))

empty_of : (s : Str) → is_empty s ≡ true → s ≡ []
unfolding is_empty
empty_of [] e = refl
empty_of (c ∷ s) e = cc

read_call-success :
    (s : Option Database) (called : Option RpcResponse × Option RpcError)
    → read_call s called ≡ value true
    → (resp : RpcResponse) × (called ≡ (some resp, none))
      × (resp.error ≡ [])
      × (resp.result ≡ success one_float)
read_call-success s (resp, some err) e = cc
read_call-success s (none, none) e = if_cases (is_empty no_response.error) (λ bad. cc) (λ bad. cc) e
read_call-success s (some resp, none) e = elim (Bool-cases (is_empty resp.error)) [
  | inl empty ↦ (
    resp,
    refl,
    empty_of resp.error empty,
    read_result-success s resp.result (sym (if_true (is_empty resp.error) _ _ empty) ∙ e),
  )
  | inr set ↦
      let bad : answer (server_error s) ≡ value true =
        sym (if_false (is_empty resp.error) _ _ set) ∙ e in
      cc
]

tell_device-IsTaken :
    (s : Option Database) (outside : Outside) (t : Destination) (device : Device)
    → is_online device.last_athena_ping outside.now ≡ true
    → tell_device s outside device.dongle_id t ≡ value true
    → IsTaken outside t device
tell_device-IsTaken s outside t device online e = elim (Option-cases outside.new_uuid) [
  | inl missing ↦ ground arith
  | inr (uuid, new) ↦
      let (resp, called, empty, one) =
        read_call-success s (outside.call device.dongle_id uuid t) (ground arith) in
      record {
        uuid = uuid;
        result = resp;
        online = online;
        new = new;
        called = called;
        no_error = empty;
        succeeds = one;
      }
]

IsTaken-tell_device :
    (s : Option Database) (outside : Outside) (t : Destination) (device : Device)
    → IsTaken outside t device
    → tell_device s outside device.dongle_id t ≡ value true
unfolding is_empty
IsTaken-tell_device s outside t device taken =
    rw (taken.new, taken.called, taken.no_error, taken.succeeds) refl

module _ (gorm : Gorm) (writes : Writes) where
  read_result-IsRefused :
      (s : Option Database) (x : RpcResult) (b : Outcome SetDestination) (r : SetDestination)
      (after : Option Database)
      → read_result s x ≡ answer b
      → b ≢ (answered r, after)
  read_result-IsRefused s no_object b r after e = λ h. failed_answered (answer_injective e ∙ h)
  read_result-IsRefused s no_success b r after e = λ h. failed_answered (answer_injective e ∙ h)
  read_result-IsRefused s no_number b r after e = λ h. failed_answered (answer_injective e ∙ h)
  read_result-IsRefused s (success x) b r after e = cc

  call_failed-IsRefused :
      (s : Option Database) (err : RpcError) (r : SetDestination) (after : Option Database)
      → call_failed s err ≢ (answered r, after)
  call_failed-IsRefused s not_connected r after = failed_answered
  call_failed-IsRefused s marshal_failed r after = failed_answered
  call_failed-IsRefused s nats_timeout r after = failed_answered
  call_failed-IsRefused s nats_no_responders r after = failed_answered
  call_failed-IsRefused s (nats_failed n) r after = failed_answered
  call_failed-IsRefused s unmarshal_failed r after = failed_answered
  call_failed-IsRefused s call_timeout r after = failed_answered

  read_call-IsRefused :
      (s : Option Database) (called : Option RpcResponse × Option RpcError)
      (b : Outcome SetDestination) (r : SetDestination) (after : Option Database)
      → read_call s called ≡ answer b
      → b ≢ (answered r, after)
  read_call-IsRefused s (resp, some err) b r after e =
      λ h. call_failed-IsRefused s err r after (answer_injective e ∙ h)
  read_call-IsRefused s (resp, none) b r after e =
      if_cases (is_empty (response_or_zero resp).error)
        (read_result-IsRefused s (response_or_zero resp).result b r after)
        (λ e1 h. failed_answered (answer_injective e1 ∙ h)) e

  tell_device-IsRefused :
      (s : Option Database) (outside : Outside) (id : Str) (t : Destination)
      (b : Outcome SetDestination) (r : SetDestination) (after : Option Database)
      → tell_device s outside id t ≡ answer b
      → b ≢ (answered r, after)
  tell_device-IsRefused s outside id t b r after e = elim (Option-cases outside.new_uuid) [
    | inl missing ↦
        λ h. let early : server_error s ≡ b = ground arith in failed_answered (early ∙ h)
    | inr (uuid, new) ↦ read_call-IsRefused s (outside.call id uuid t) b r after (ground arith)
  ]

  pub clear-rows :
      (c : Context) (db db' : Database) (device : Device) (r : SetDestination)
      → clear gorm writes c db device ≡ (answered r, some db')
      → (r.saved_next ≡ false)
        × (db' ≡ record db { devices = changed_rows (λ d. d.id == device.id) not_set db.devices })
  unfolding clear
  clear-rows c db db' device r e =
      let (rows, written, e1) =
        require_past (writes.update Device (λ d. d.id == device.id) not_set db.devices) _ _ _
          failed_answered e in
      let left : record db { devices = rows } ≡ db' = cc e1 in
      (
        cc e1,
        sym left
            ∙ ap (λ t. record db { devices = t })
                (writes.update_done Device (λ d. d.id == device.id) not_set db.devices rows
                  written),
      )

  -- A success, by where the destination went.
  pub set_destination-cases :
      (c : Context) (outside : Outside) (t : Destination) (db db' : Database) (device : Device)
      (r : SetDestination)
      → set_destination gorm writes c outside t db device ≡ (answered r, some db')
      → (IsTaken outside t device × (clear gorm writes c db device ≡ (answered r, some db')))
        ⊎ (save_destination gorm writes c t db device ≡ (answered r, some db'))
  unfolding set_destination
  set_destination-cases c outside t db db' device r e =
      elim (Bool-cases (is_online device.last_athena_ping outside.now)) [
        | inl online ↦
            let (taken, told, e1) =
              past_value (tell_device c.db outside device.dongle_id t)
                (λ taken.
                  if taken
                  then clear gorm writes c db device
                  else save_destination gorm writes c t db device)
                (answered r, some db')
                (λ b. tell_device-IsRefused c.db outside device.dongle_id t b r (some db'))
                (ground arith) in
            elim (Bool-cases taken) [
              | inl took ↦ inl (
                tell_device-IsTaken c.db outside t device online (told ∙ ap (λ x. value x) took),
                ground arith,
              )
              | inr left ↦ inr (ground arith)
            ]
        | inr offline ↦ inr (ground arith)
      ]

  set_destination-clear :
      (c : Context) (outside : Outside) (t : Destination) (db : Database) (device : Device)
      → IsTaken outside t device
      → set_destination gorm writes c outside t db device ≡ clear gorm writes c db device
  unfolding set_destination
  set_destination-clear c outside t db device taken =
      let told = IsTaken-tell_device c.db outside t device taken in rw (taken.online, told)

  pub save_destination-rows :
      (c : Context) (t : Destination) (db db' : Database) (device : Device) (r : SetDestination)
      → save_destination gorm writes c t db device ≡ (answered r, some db')
      → (r.saved_next ≡ true)
        × (rows : List Device) × (writes.update Device
              (λ d. d.id == device.id)
              (with_destination writes t)
              db.devices
            ≡ some rows)
        × (db' ≡ record db { devices = rows })
  unfolding save_destination
  save_destination-rows c t db db' device r e =
      let (rows, written, e1) =
        require_past
          (writes.update Device (λ d. d.id == device.id) (with_destination writes t) db.devices) _ _
          _ failed_answered e in
      (cc e1, rows, written, cc e1)

  pub post_set_destination-named :
      (c : Context) (outside : Outside) (t : Destination) (db db' : Database) (device : Device)
      (r : SetDestination)
      → IsNamed gorm c db device
      → post_set_destination gorm writes c outside (some t) ≡ (answered r, some db')
      → set_destination gorm writes c outside t db device ≡ (answered r, some db')
  unfolding post_set_destination
  post_set_destination-named c outside t db db' device r named e =
      let (id, path, e1) = require_past c.dongle_id _ _ _ failed_answered e in
      if_cases outside.has_nats
        (λ e2. sym (with_device-found gorm c (set_destination gorm writes c outside t) named) ∙ e2)
        (λ bad. absurd (failed_answered bad)) e1

  pub save_destination-changed :
      (c : Context) (t : Destination) (db db' : Database) (device : Device) (r : SetDestination)
      → save_destination gorm writes c t db device ≡ (answered r, some db')
      → (r.saved_next ≡ true)
        × (db' ≡ record db {
          devices = changed_rows (λ d. d.id == device.id) (with_destination writes t) db.devices;
        })
  save_destination-changed c t db db' device r e =
      let (saved, rows, written, left) = save_destination-rows c t db db' device r e in
      (
        saved,
        left
            ∙ ap (λ u. record db { devices = u })
                (writes.update_done Device (λ d. d.id == device.id) (with_destination writes t)
                  db.devices rows written),
      )

  -- A success of `POSTSetDestination` for the device that the path names is one of two. Either the
  -- device has taken the destination: then the answer says that it has not been saved, and in the
  -- database the rows with the device's primary key are those from before, not marked as having a
  -- destination. Or it has not: then the answer says that it has been saved, and those rows have it.
  -- Nothing else in the database has changed.
  pub post_set_destination-saved_next :
      (c : Context) (outside : Outside) (t : Destination) (db db' : Database) (device : Device)
      (r : SetDestination)
      → IsNamed gorm c db device
      → post_set_destination gorm writes c outside (some t) ≡ (answered r, some db')
      → (IsTaken outside t device
          × (r.saved_next ≡ false)
          × (db'
              ≡ record db { devices = changed_rows (λ d. d.id == device.id) not_set db.devices }))
        ⊎ ((¬ IsTaken outside t device)
            × (r.saved_next ≡ true)
            × (db' ≡ record db {
              devices =
                  changed_rows (λ d. d.id == device.id) (with_destination writes t) db.devices;
            }))
  post_set_destination-saved_next c outside t db db' device r named e =
      let e0 = post_set_destination-named c outside t db db' device r named e in
      elim (set_destination-cases c outside t db db' device r e0) [
        | inl (taken, e1) ↦
            let (elsewhere, left) = clear-rows c db db' device r e1 in inl (taken, elsewhere, left)
        | inr kept ↦
            let (saved, left) = save_destination-changed c t db db' device r kept in
            inr (
              λ taken.
                  let (not_saved, _) =
                    clear-rows c db db' device r
                      (sym (set_destination-clear c outside t db device taken) ∙ e0) in
                  cc (saved, not_saved),
              saved,
              left,
            )
      ]
