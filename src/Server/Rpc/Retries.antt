-- ===== src/Server/Rpc/Retries.antt =====
-- How often `Call` of internal/server/websocket/rpc.go asks, and what it returns.
use mathlib.Core.Path.{subst}
use rtz_server.Base.{
  ℕ, zero, suc, ◌+◌, ◌-◌, ◌≤◌, true, false, ◌≡◌, ◌≢◌, ◌↔◌, refl, sym, ◌∙◌, ap, List, [], ◌∷◌,
  Option, none, some, ltb, if◌then◌else◌, ◌⊎◌, inl, inr, arith, length, Bool-cases, Option-cases,
}
use rtz_server.GoText.{Str, is_empty}
use rtz_server.Server.Rpc.{
  Reply, timed_out, no_responders, request_failed, received, RpcError, nats_timeout,
  nats_no_responders, nats_failed, unmarshal_failed, not_connected, marshal_failed, call_timeout,
  Called, returns, pending, Dongle, Sent, taken, never_taken, closed, send_call, Network,
  accept_data, request_loop, call,
}

-- The replies that are no NAK.
unfoldable pub counted : List Reply → List Reply
counted [] = []
counted (timed_out ∷ rs) = timed_out ∷ counted rs
counted (no_responders ∷ rs) = no_responders ∷ counted rs
counted (request_failed e ∷ rs) = request_failed e ∷ counted rs
counted (received body ∷ rs) =
    let rest = counted rs in if is_empty body then rest else received body ∷ rest

module _ {R : Type 0} (unmarshal : Str → Option R) where
  -- Up to `left` more requests, the last of which failed with `last`: the first reply that is not a
  -- timeout and not a lack of responders decides.
  pub attempts : ℕ → RpcError → List Reply → Called R
  attempts zero last rs = returns none (some last)
  attempts (suc left) last [] = pending
  attempts (suc left) last (timed_out ∷ rs) = attempts left nats_timeout rs
  attempts (suc left) last (no_responders ∷ rs) = attempts left nats_no_responders rs
  attempts (suc left) last (request_failed e ∷ rs) = returns none (some (nats_failed e))
  attempts (suc left) last (received body ∷ rs) = accept_data unmarshal body

  spent_lem :
      (rs : List Reply) (retry : ℕ) (err : Option RpcError)
      → ltb 3 retry ≡ true
      → request_loop unmarshal retry err rs ≡ returns none err
  unfolding request_loop
  spent_lem [] retry err h = rw h
  spent_lem (timed_out ∷ rs) retry err h = rw h
  spent_lem (no_responders ∷ rs) retry err h = rw h
  spent_lem (request_failed e ∷ rs) retry err h = rw h
  spent_lem (received body ∷ rs) retry err h = rw h

  -- The error variable is nil only where there is a request left.
  request_loop-attempts :
      (rs : List Reply) (retry left : ℕ) (err : Option RpcError) (last : RpcError)
      → retry + left ≡ 4
      → (err ≡ some last) ⊎ (left ≢ 0)
      → request_loop unmarshal retry err rs ≡ attempts left last (counted rs)
  unfolding request_loop attempts counted
  request_loop-attempts rs retry zero err last sum (inl set) =
      spent_lem rs retry err (ground arith) ∙ ap (λ e. returns none e) set
  request_loop-attempts rs retry zero err last sum (inr more) = absurd (more refl)
  request_loop-attempts [] retry (suc left) err last sum ready = ground arith
  request_loop-attempts (timed_out ∷ rs) retry (suc left) err last sum ready =
      let again =
        request_loop-attempts rs (suc retry) left (some nats_timeout) nats_timeout (omega arith)
          (inl refl) in
      ground arith
  request_loop-attempts (no_responders ∷ rs) retry (suc left) err last sum ready =
      let again =
        request_loop-attempts rs (suc retry) left (some nats_no_responders) nats_no_responders
          (omega arith) (inl refl) in
      ground arith
  request_loop-attempts (request_failed e ∷ rs) retry (suc left) err last sum ready = ground arith
  request_loop-attempts (received body ∷ rs) retry (suc left) err last sum ready =
      let again =
        request_loop-attempts rs retry (suc left) none last sum (inr (λ e. omega arith)) in
      let more : ltb 3 retry ≡ false = ground arith in
      let back : suc retry - 1 ≡ retry = omega arith in
      elim (Bool-cases (is_empty body)) [
        | inl nak ↦ rw (more, nak, back) again
        | inr set ↦ rw (more, set) refl
      ]

  -- The loop of `Call` over NATS, from its start, gives what up to four attempts give on the replies
  -- without the NAKs.
  pub request_loop_lem :
      (rs : List Reply) (last : RpcError)
      → request_loop unmarshal 0 none rs ≡ attempts 4 last (counted rs)
  request_loop_lem rs last = request_loop-attempts rs 0 4 none last refl (inr (λ e. omega arith))

  accept_data-ne-pending : (body : Str) → accept_data unmarshal body ≢ pending
  unfolding accept_data
  accept_data-ne-pending body e = elim (Option-cases (unmarshal body)) [
    | inl bad ↦ ground arith
    | inr (resp, good) ↦ ground arith
  ]

  attempts-ne-pending :
      (rs : List Reply) (left : ℕ) (last : RpcError)
      → left ≤ length rs
      → attempts left last rs ≢ pending
  unfolding attempts accept_data
  attempts-ne-pending rs zero last h e = cc
  attempts-ne-pending [] (suc left) last h e = omega arith
  attempts-ne-pending (timed_out ∷ rs) (suc left) last h e =
      attempts-ne-pending rs left nats_timeout (omega arith) e
  attempts-ne-pending (no_responders ∷ rs) (suc left) last h e =
      attempts-ne-pending rs left nats_no_responders (omega arith) e
  attempts-ne-pending (request_failed x ∷ rs) (suc left) last h e = cc
  attempts-ne-pending (received body ∷ rs) (suc left) last h e = accept_data-ne-pending body e

  -- A response with a nil error, or an error with the zero response.
  abbrev pub IsDefinite : Called R → Type 0
  IsDefinite r =
      ((resp : R) × (r ≡ returns (some resp) none))
      ⊎ ((err : RpcError) × (r ≡ returns none (some err)))

  accept_data-IsDefinite : (body : Str) → IsDefinite (accept_data unmarshal body)
  unfolding accept_data
  accept_data-IsDefinite body = elim (Option-cases (unmarshal body)) [
    | inl bad ↦ inr (unmarshal_failed, rw (bad, accept_data))
    | inr (resp, good) ↦ inl (resp, rw (good, accept_data))
  ]

  attempts-IsDefinite :
      (rs : List Reply) (left : ℕ) (last : RpcError)
      → (attempts left last rs ≡ pending) ⊎ IsDefinite (attempts left last rs)
  unfolding attempts
  attempts-IsDefinite rs zero last = inr (inr (last, refl))
  attempts-IsDefinite [] (suc left) last = inl refl
  attempts-IsDefinite (timed_out ∷ rs) (suc left) last = attempts-IsDefinite rs left nats_timeout
  attempts-IsDefinite (no_responders ∷ rs) (suc left) last =
      attempts-IsDefinite rs left nats_no_responders
  attempts-IsDefinite (request_failed e ∷ rs) (suc left) last = inr (inr (nats_failed e, refl))
  attempts-IsDefinite (received body ∷ rs) (suc left) last = inr (accept_data-IsDefinite body)

  request_loop-IsDefinite :
      (rs : List Reply) → 4 ≤ length (counted rs) → IsDefinite (request_loop unmarshal 0 none rs)
  request_loop-IsDefinite rs enough =
      rw (request_loop_lem rs nats_timeout)
        (elim (attempts-IsDefinite (counted rs) 4 nats_timeout) [
          | inl waiting ↦ absurd (attempts-ne-pending (counted rs) 4 nats_timeout enough waiting)
          | inr definite ↦ definite
        ])

  -- The send on the channel of a device that is connected here is received.
  abbrev pub IsReceived : (Str → Option Dongle) → Str → Sent → Type 0
  IsReceived dongles dongle_id sent =
      (dongle : Dongle) → dongles dongle_id ≡ some dongle → dongle.is_open ≡ true → sent ≡ taken

  send_call-IsDefinite :
      (sent : Sent) (response : Option R)
      → sent ≡ taken
      → IsDefinite (send_call unmarshal sent response)
  unfolding send_call
  send_call-IsDefinite taken none e = inr (call_timeout, refl)
  send_call-IsDefinite taken (some resp) e = inl (resp, refl)
  send_call-IsDefinite never_taken response e = cc
  send_call-IsDefinite closed response e = cc

  send_call-taken :
      (sent : Sent) (response : Option R)
      → IsDefinite (send_call unmarshal sent response)
      → sent ≡ taken
  unfolding send_call
  send_call-taken taken response definite = refl
  send_call-taken never_taken response (inl (resp, e)) = cc
  send_call-taken never_taken response (inr (err, e)) = cc
  send_call-taken closed response (inl (resp, e)) = cc
  send_call-taken closed response (inr (err, e)) = cc

  call_away-IsDefinite :
      (dongles : Str → Option Dongle) (dongle_id : Str) (net : Network R)
      → 4 ≤ length (counted net.replies)
      → dongles dongle_id ≡ none
      → IsDefinite (call unmarshal dongles dongle_id net)
  unfolding call
  call_away-IsDefinite dongles dongle_id net enough away = elim (Bool-cases net.nats) [
    | inr off ↦ inr (not_connected, rw (away, off, call))
    | inl on ↦ elim (Option-cases net.marshalled) [
      | inl bad ↦ inr (marshal_failed, rw (away, on, bad, call))
      | inr (msg, good) ↦ rw (away, on, good, call) (request_loop-IsDefinite net.replies enough)
    ]
  ]

  call-send_call :
      (dongles : Str → Option Dongle) (dongle_id : Str) (net : Network R) (dongle : Dongle)
      → dongles dongle_id ≡ some dongle
      → dongle.is_open ≡ true
      → call unmarshal dongles dongle_id net ≡ send_call unmarshal net.sent net.response
  unfolding call
  call-send_call dongles dongle_id net dongle here on = rw (here, on, call)

  call_shut_lem :
      (dongles : Str → Option Dongle) (dongle_id : Str) (net : Network R) (dongle : Dongle)
      → dongles dongle_id ≡ some dongle
      → dongle.is_open ≡ false
      → call unmarshal dongles dongle_id net ≡ returns none (some not_connected)
  unfolding call
  call_shut_lem dongles dongle_id net dongle here shut = rw (here, shut, call)

  -- Where four requests would be answered by something else than a NAK, `Call` returns, with a
  -- response and a nil error or with an error and no response, exactly if the send on the channel of
  -- the device is received, should the device be connected here with an open channel.
  pub call-IsDefinite_iff :
      (dongles : Str → Option Dongle) (dongle_id : Str) (net : Network R)
      → 4 ≤ length (counted net.replies)
      → IsDefinite (call unmarshal dongles dongle_id net) ↔ IsReceived dongles dongle_id net.sent
  call-IsDefinite_iff dongles dongle_id net enough = (
    λ definite dongle here on.
        send_call-taken net.sent net.response
          (subst IsDefinite (call-send_call dongles dongle_id net dongle here on) definite),
    λ received. elim (Option-cases (dongles dongle_id)) [
      | inl away ↦ call_away-IsDefinite dongles dongle_id net enough away
      | inr (dongle, here) ↦ elim (Bool-cases dongle.is_open) [
        | inr shut ↦ inr (not_connected, call_shut_lem dongles dongle_id net dongle here shut)
        | inl on ↦
            subst IsDefinite (sym (call-send_call dongles dongle_id net dongle here on))
              (send_call-IsDefinite net.sent net.response (received dongle here on))
      ]
    ],
  )
