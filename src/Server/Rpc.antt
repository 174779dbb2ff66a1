-- ===== src/Server/Rpc.antt =====
-- internal/server/websocket/rpc.go: `Call`, by which a handler calls a method on a device, here or
-- through NATS. JSON and NATS are libraries: the replies to the successive requests are an argument.
pub mod Retries
mod Tests
use rtz_server.Base.{ℕ, suc, ◌-◌, Bool, not, List, [], ◌∷◌, Option, none, some, ltb, if◌then◌else◌}
use rtz_server.GoText.{Str, is_empty}

-- What nc.Request gives: nats.ErrTimeout, nats.ErrNoResponders, another error, or the data.
pub data Reply : Type 0 where
  timed_out : Reply
  no_responders : Reply
  request_failed : ℕ → Reply
  received : Str → Reply

pub data RpcError : Type 0 where
  not_connected marshal_failed nats_timeout nats_no_responders : RpcError
  nats_failed : ℕ → RpcError
  unmarshal_failed call_timeout : RpcError

-- What `Call` returns, a response and an error; `none` is the zero response and the nil error. It is
-- `pending` where it waits for a reply that is not in the list, and `stuck` where it waits for ever on
-- a channel; it panics on a send on a closed one.
pub data Called (R : Type 0) : Type 0 where
  returns : Option R → Option RpcError → Called R
  pending stuck panics : Called R

-- What `Call` finds of a device that is connected to this server.
pub record Dongle : Type 0 where
  pub is_open : Bool

-- What becomes of the send on the channel of a connected device, which has no buffer and no time limit:
-- its goroutine takes the call, or never does, or closes the channel.
pub data Sent : Type 0 where
  taken never_taken closed : Sent

-- What the outside does during a call: whether there is a connection to NATS, the call as JSON, the
-- replies to the requests, and for a device that is connected here what becomes of the send and the
-- response, if it comes in time.
pub record Network (R : Type 0) : Type 0 where
  pub nats : Bool
  pub marshalled : Option Str
  pub replies : List Reply
  pub sent : Sent
  pub response : Option R

module _ {R : Type 0} (unmarshal : Str → Option R) where
  pub accept_data : Str → Called R
  accept_data body = elim (unmarshal body) [
    | none ↦ returns none (some unmarshal_failed)
    | some resp ↦ returns (some resp) none
  ]

  -- The loop on `retry` and `err`: empty data is a NAK, which takes the increment back.
  pub request_loop : ℕ → Option RpcError → List Reply → Called R
  unfolding accept_data
  request_loop retry err [] = if ltb 3 retry then returns none err else pending
  request_loop retry err (timed_out ∷ rs) =
      let rest = request_loop (suc retry) (some nats_timeout) rs in
      if ltb 3 retry then returns none err else rest
  request_loop retry err (no_responders ∷ rs) =
      let rest = request_loop (suc retry) (some nats_no_responders) rs in
      if ltb 3 retry then returns none err else rest
  request_loop retry err (request_failed e ∷ rs) =
      if ltb 3 retry then returns none err else returns none (some (nats_failed e))
  request_loop retry err (received body ∷ rs) =
      let rest = request_loop (suc retry - 1) none rs in
      if ltb 3 retry then returns none err else if is_empty body then rest else accept_data body

  -- The end of `Call`, for a device that is connected here: the send, then the wait of 120 seconds.
  pub send_call : Sent → Option R → Called R
  send_call taken none = returns none (some call_timeout)
  send_call taken (some resp) = returns (some resp) none
  send_call never_taken response = stuck
  send_call closed response = panics

  pub call : (Str → Option Dongle) → Str → Network R → Called R
  unfolding send_call
  call dongles dongle_id net = elim (dongles dongle_id) [
    | none ↦
        if net.nats
        then elim net.marshalled [
          | none ↦ returns none (some marshal_failed)
          | some msg ↦ request_loop 0 none net.replies
        ]
        else returns none (some not_connected)
    | some dongle ↦
        if not dongle.is_open
        then returns none (some not_connected)
        else send_call net.sent net.response
  ]
