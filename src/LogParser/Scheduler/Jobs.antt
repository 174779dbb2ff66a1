-- ===== src/LogParser/Scheduler/Jobs.antt =====
-- How many jobs the queue of internal/logparser/queue.go runs.
use rtz_server.Base.{ℕ, suc, ◌+◌, ◌≤◌, ◌≡◌, ap, List, [], ◌∷◌, ◌++◌, length, length-append, arith}
use rtz_server.LogParser.Scheduler.{
  LogQueue, Work, Step, Reachable, queue_depth, add_log, receive_active, receive_busy,
  receive_start, requeue, requeue_closed, store, processed, dec, stop, finish, at_start, then_step,
}

-- The goroutines that have not counted themselves out.
abbrev pub jobs : LogQueue → ℕ
jobs q = length q.spawned + length q.running + length q.deleted

-- activeJobsCount is the number of jobs, there are no more jobs than log parsers, and the channel
-- holds no more than its depth.
abbrev pub IsBounded : ℕ → LogQueue → Type 0
IsBounded parallel q =
    (q.active_jobs_count ≡ jobs q)
    × (q.active_jobs_count ≤ parallel)
    × (length q.queue ≤ queue_depth)

length-middle :
    (xs before after : List Work) (w : Work)
    → xs ≡ before ++ (w ∷ after)
    → length xs ≡ suc (length (before ++ after))
length-middle xs before after w e =
    let l1 = length-append before (w ∷ after) in
    let l2 = length-append before after in let l0 = ap length e in omega (arith, l0, l1, l2)

Step-IsBounded :
    (parallel : ℕ) (q q' : LogQueue)
    → Step parallel q q'
    → IsBounded parallel q
    → IsBounded parallel q'
Step-IsBounded parallel _ _ (add_log q w opened room) (count, few, depth) =
    let longer = length-append q.queue (w ∷ []) in (count, few, omega (arith, longer))
Step-IsBounded parallel _ _ (receive_active q w rest at head busy) (count, few, depth) =
    let shorter = ap length head in (count, few, omega (arith, shorter))
Step-IsBounded parallel _ _ (receive_busy q w rest at head idle full) (count, few, depth) =
    let shorter = ap length head in (count, few, omega (arith, shorter))
Step-IsBounded parallel _ _ (receive_start q w rest at head idle free) (count, few, depth) =
    let shorter = ap length head in (omega arith, omega arith, omega (arith, shorter))
Step-IsBounded parallel _ _ (requeue q w at opened room) (count, few, depth) =
    let longer = length-append q.queue (w ∷ []) in (count, few, omega (arith, longer))
Step-IsBounded parallel _ _ (requeue_closed q w at shut) (count, few, depth) = (count, few, depth)
Step-IsBounded parallel _ _ (store q before after w e) (count, few, depth) =
    let moved = length-middle q.spawned before after w e in (omega (arith, moved), few, depth)
Step-IsBounded parallel _ _ (processed q before after w e) (count, few, depth) =
    let moved = length-middle q.running before after w e in (omega (arith, moved), few, depth)
Step-IsBounded parallel _ _ (dec q before after w e) (count, few, depth) =
    let gone = length-middle q.deleted before after w e in
    (omega (arith, gone), omega (arith, gone), depth)
Step-IsBounded parallel _ _ (stop q opened) (count, few, depth) = (count, few, depth)
Step-IsBounded parallel _ _ (finish q at empty shut) (count, few, depth) = (count, few, depth)

-- Whatever the order of the steps, the counter of the jobs is exact, no more logs are processed at
-- once than the configuration allows, and the channel is never overfull.
pub Reachable-IsBounded :
    (parallel : ℕ) (q : LogQueue) → Reachable parallel q → IsBounded parallel q
Reachable-IsBounded parallel _ at_start = (omega arith, omega arith, omega arith)
Reachable-IsBounded parallel _ (then_step r s) =
    Step-IsBounded parallel _ _ s (Reachable-IsBounded parallel _ r)
