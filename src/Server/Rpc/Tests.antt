-- ===== src/Server/Rpc/Tests.antt =====
-- Calls through NATS, as in internal/server/websocket/rpc.go.
use rtz_server.Base.{true, ◌≡◌, ◌↔◌, refl, List, [], ◌∷◌, Option, none, some, arith}
use rtz_server.GoText.{Str, codes, is_empty}
use rtz_server.Server.Rpc.{
  Reply, timed_out, no_responders, received, nats_timeout, returns, Dongle, Network, accept_data,
  request_loop, taken, call,
}
use rtz_server.Server.Rpc.Retries.{
  counted, attempts, request_loop_lem, IsDefinite, call-IsDefinite_iff,
}

-- A reply reads as its text.
abbrev as_text : Str → Option Str
as_text s = some s

-- Two NAKs among four timeouts.
abbrev unlucky : List Reply
unlucky = timed_out ∷ received [] ∷ timed_out ∷ timed_out ∷ received [] ∷ timed_out ∷ []

abbrev network : Network Str
network = record {
  nats = true;
  marshalled = some (codes "{}");
  replies = unlucky;
  sent = taken;
  response = none;
}

gives_up : request_loop as_text 0 none unlucky ≡ returns none (some nats_timeout)
unfolding request_loop is_empty
gives_up = refl

answered_late :
    request_loop as_text 0 none
      (timed_out ∷ received [] ∷ no_responders ∷ timed_out ∷ received (codes "ok") ∷ [])
    ≡ returns (some (codes "ok")) none
unfolding request_loop accept_data is_empty
answered_late = refl

request_loop_lem_example :
    request_loop as_text 0 none unlucky ≡ attempts as_text 4 nats_timeout (counted unlucky)
request_loop_lem_example = request_loop_lem as_text unlucky nats_timeout

abbrev connected : Str → Option Dongle
connected id = some (record { is_open = true })

call-IsDefinite_iff_example : IsDefinite as_text (call as_text connected (codes "d1") network) ↔ (
    (dongle : Dongle)
    → connected (codes "d1") ≡ some dongle
    → dongle.is_open ≡ true
    → network.sent ≡ taken)
unfolding counted is_empty
call-IsDefinite_iff_example =
    call-IsDefinite_iff as_text connected (codes "d1") network (omega arith)
