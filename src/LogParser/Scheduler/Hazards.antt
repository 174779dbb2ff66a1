-- ===== src/LogParser/Scheduler/Hazards.antt =====
-- What the queue of internal/logparser/queue.go does not rule out.
use mathlib.Core.Path.{subst}
use rtz_server.Base.{
  ℕ, zero, suc, ◌≤◌, true, false, ◌≡◌, ◌≢◌, refl, sym, ◌∙◌, List, [], ◌∷◌, ◌++◌, length,
  length-append, arith,
}
use rtz_server.GoText.Laws.{str_eq_refl}
use rtz_server.LogParser.Scheduler.Jobs.{jobs}
use rtz_server.LogParser.Scheduler.{
  LogQueue, Work, requeueing, Step, Reachable, new_log_queue, queue_depth, is_active, delete,
  add_log, receive_active, receive_busy, receive_start, requeue, requeue_closed, store, processed,
  dec, stop, finish, at_start, then_step,
}

-- The consumer wants to put a log back into a full channel, and no job is left.
pub record IsStuck (q : LogQueue) : Type 0 where
  pub held : Work
  pub sends : q.consumer ≡ requeueing held
  pub opened : q.closed ≡ false
  pub full : length q.queue ≡ queue_depth
  pub no_spawned : q.spawned ≡ []
  pub no_running : q.running ≡ []
  pub no_deleted : q.deleted ≡ []

nothing_there : (before behind : List Work) (w : Work) → [] ≢ before ++ (w ∷ behind)
nothing_there [] behind w e = cc
nothing_there (x ∷ before) behind w e = cc

stuck_step :
    (parallel : ℕ) (q q' : LogQueue)
    → IsStuck q
    → Step parallel q q'
    → q' ≡ record q { closed = true }
stuck_step parallel _ _ s (add_log q w opened room) = absurd (omega (arith, s.full))
stuck_step parallel _ _ s (receive_active q w rest at head busy) = cc (s.sends, at)
stuck_step parallel _ _ s (receive_busy q w rest at head idle full) = cc (s.sends, at)
stuck_step parallel _ _ s (receive_start q w rest at head idle free) = cc (s.sends, at)
stuck_step parallel _ _ s (requeue q w at opened room) = absurd (omega (arith, s.full))
stuck_step parallel _ _ s (requeue_closed q w at shut) = cc (s.opened, shut)
stuck_step parallel _ _ s (store q before behind w e) =
    absurd (nothing_there before behind w (sym s.no_spawned ∙ e))
stuck_step parallel _ _ s (processed q before behind w e) =
    absurd (nothing_there before behind w (sym s.no_running ∙ e))
stuck_step parallel _ _ s (dec q before behind w e) =
    absurd (nothing_there before behind w (sym s.no_deleted ∙ e))
stuck_step parallel _ _ s (stop q opened) = refl
stuck_step parallel _ _ s (finish q at empty shut) = cc

copies : ℕ → Work → List Work
copies zero w = []
copies (suc n) w = copies n w ++ (w ∷ [])

length-copies : (n : ℕ) (w : Work) → length (copies n w) ≡ n
unfolding copies
length-copies zero w = refl
length-copies (suc n) w =
    let longer = length-append (copies n w) (w ∷ []) in omega (arith, longer, length-copies n w)

-- The channel can be filled while nobody receives.
fill :
    (parallel n : ℕ) (q : LogQueue) (w : Work)
    → n ≤ queue_depth
    → q.closed ≡ false
    → q.queue ≡ []
    → Reachable parallel q
    → Reachable parallel (record q { queue = copies n w })
unfolding copies
fill parallel zero q w h opened empty r =
    subst (λ ws. Reachable parallel (record q { queue = ws })) empty r
fill parallel (suc n) q w h opened empty r =
    then_step (fill parallel n q w (omega arith) opened empty r)
      (add_log (record q { queue = copies n w }) w opened (omega (arith, length-copies n w)))

-- Two logs of one device have been received, and neither job has come to its Store.
two_spawned : Work → Work → LogQueue
two_spawned v w = record new_log_queue { active_jobs_count = 2; spawned = w ∷ v ∷ [] }

-- A job runs for `w`, and the consumer has received another log of the same device.
one_held : Work → Work → LogQueue
one_held v w = record new_log_queue {
  consumer = requeueing w;
  active = v.dongle_id ∷ [];
  active_jobs_count = 1;
  running = v ∷ [];
}

module _ (parallel : ℕ) (v w : Work) where
  both_queued : Reachable parallel (record new_log_queue { queue = v ∷ w ∷ [] })
  both_queued =
      then_step (then_step at_start (add_log _ v refl (omega arith)))
        (add_log _ w refl (omega arith))

  two_spawned-Reachable : 2 ≤ parallel → Reachable parallel (two_spawned v w)
  unfolding two_spawned
  two_spawned-Reachable h =
      then_step (then_step both_queued (receive_start _ v (w ∷ []) refl refl refl (omega arith)))
        (receive_start _ w [] refl refl refl (omega arith))

  -- With two log parsers or more, the queue can reach a state in which two jobs for logs of one device
  -- run.
  pub same_device_race :
      2 ≤ parallel
      → v.dongle_id ≡ w.dongle_id
      → (q : LogQueue) × Reachable parallel q × (q.running ≡ v ∷ w ∷ [])
  unfolding two_spawned
  same_device_race h same =
      let r = two_spawned-Reachable h in
      (_, then_step (then_step r (store _ [] (v ∷ []) w refl)) (store _ [] [] v refl), refl)

  one_held-Reachable : 1 ≤ parallel → v.dongle_id ≡ w.dongle_id → Reachable parallel (one_held v w)
  unfolding one_held delete
  one_held-Reachable h same =
      let first : is_active (one_held v w) w.dongle_id ≡ true =
        rw (same, str_eq_refl w.dongle_id) refl in
      then_step
        (then_step (then_step both_queued (receive_start _ v (w ∷ []) refl refl refl (omega arith)))
          (store _ [] [] v refl))
        (receive_active _ w [] refl refl first)

  -- With at least one log parser and two logs of one device, the queue can reach a state that is
  -- not closed and in which no job is left, and from which the only step is `Stop`.
  pub queue_deadlock :
      1 ≤ parallel
      → v.dongle_id ≡ w.dongle_id
      → (q : LogQueue) × Reachable parallel q
        × (q.closed ≡ false)
        × (jobs q ≡ 0)
        × ((q' : LogQueue) → Step parallel q q' → q' ≡ record q { closed = true })
  unfolding one_held delete
  queue_deadlock h same =
      let filled =
        fill parallel queue_depth (one_held v w) w (omega arith) refl refl
          (one_held-Reachable h same) in
      let left = then_step (then_step filled (processed _ [] [] v refl)) (dec _ [] [] v refl) in
      (
        _,
        left,
        refl,
        refl,
        λ q' s.
            stuck_step parallel _ q'
              (record {
                held = w;
                sends = refl;
                opened = refl;
                full = length-copies queue_depth w;
                no_spawned = refl;
                no_running = refl;
                no_deleted = refl;
              })
              s,
      )
