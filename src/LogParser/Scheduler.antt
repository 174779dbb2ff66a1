-- ===== src/LogParser/Scheduler.antt =====
-- internal/logparser/queue.go: `Start`, `Stop` and `AddLog` as the steps that the goroutines of the
-- server can take. A step is one operation on what they share.
pub mod Jobs
pub mod Hazards
use rtz_server.Base.{
  ℕ, suc, ◌-◌, ◌<◌, ◌≤◌, Bool, true, false, if◌then◌else◌, List, [], ◌∷◌, ◌++◌, ◌≡◌, length, any,
}
use rtz_server.GoText.{Str, str_eq}

abbrev pub queue_depth : ℕ
queue_depth = 100

pub record RouteInfo : Type 0 where
  pub motonic : Str
  pub route : Str
  pub segment : Str

-- A log to be processed.
pub record Work : Type 0 where
  pub path : Str
  pub dongle_id : Str
  pub route_info : RouteInfo

-- Where `Start` stands: at the head of its loop, at a send of the work that it has just received, or
-- at its end; or it has panicked.
pub data Consumer : Type 0 where
  waiting : Consumer
  requeueing : Work → Consumer
  ended : Consumer
  crashed : Consumer

-- A job is a goroutine: `spawned` before its Store, `running` until its Delete, `deleted` until its
-- Dec. `active` holds the keys of activeJobs.
pub record LogQueue : Type 0 where
  pub queue : List Work
  pub closed : Bool
  pub consumer : Consumer
  pub active : List Str
  pub active_jobs_count : ℕ
  pub spawned : List Work
  pub running : List Work
  pub deleted : List Work

abbrev pub new_log_queue : LogQueue
new_log_queue = record {
  queue = [];
  closed = false;
  consumer = waiting;
  active = [];
  active_jobs_count = 0;
  spawned = [];
  running = [];
  deleted = [];
}

-- q.activeJobs.Load
abbrev pub is_active : LogQueue → Str → Bool
is_active q id = any (λ key. str_eq key id) q.active

-- q.activeJobs.Delete: a map holds a key once.
unfoldable pub delete : Str → List Str → List Str
delete id [] = []
delete id (key ∷ keys) = let rest = delete id keys in if str_eq key id then rest else key ∷ rest

-- `parallel` is config.ParallelLogParsers.
pub data Step (parallel : ℕ) : LogQueue → LogQueue → Type 0 where
  add_log :
      (q : LogQueue) (w : Work)
      → q.closed ≡ false
      → length q.queue < queue_depth
      → Step parallel q (record q { queue = q.queue ++ (w ∷ []) })
  receive_active :
      (q : LogQueue) (w : Work) (rest : List Work)
      → q.consumer ≡ waiting
      → q.queue ≡ w ∷ rest
      → is_active q w.dongle_id ≡ true
      → Step parallel q (record q { queue = rest; consumer = requeueing w })
  receive_busy :
      (q : LogQueue) (w : Work) (rest : List Work)
      → q.consumer ≡ waiting
      → q.queue ≡ w ∷ rest
      → is_active q w.dongle_id ≡ false
      → parallel ≤ q.active_jobs_count
      → Step parallel q (record q { queue = rest; consumer = requeueing w })
  receive_start :
      (q : LogQueue) (w : Work) (rest : List Work)
      → q.consumer ≡ waiting
      → q.queue ≡ w ∷ rest
      → is_active q w.dongle_id ≡ false
      → q.active_jobs_count < parallel
      → Step parallel q (record q {
        queue = rest;
        active_jobs_count = suc q.active_jobs_count;
        spawned = w ∷ q.spawned;
      })
  requeue :
      (q : LogQueue) (w : Work)
      → q.consumer ≡ requeueing w
      → q.closed ≡ false
      → length q.queue < queue_depth
      → Step parallel q (record q { queue = q.queue ++ (w ∷ []); consumer = waiting })
  requeue_closed :
      (q : LogQueue) (w : Work)
      → q.consumer ≡ requeueing w
      → q.closed ≡ true
      → Step parallel q (record q { consumer = crashed })
  store :
      (q : LogQueue) (before after : List Work) (w : Work)
      → q.spawned ≡ before ++ (w ∷ after)
      → Step parallel q (record q {
        spawned = before ++ after;
        active = w.dongle_id ∷ delete w.dongle_id q.active;
        running = w ∷ q.running;
      })
  processed :
      (q : LogQueue) (before after : List Work) (w : Work)
      → q.running ≡ before ++ (w ∷ after)
      → Step parallel q (record q {
        running = before ++ after;
        active = delete w.dongle_id q.active;
        deleted = w ∷ q.deleted;
      })
  dec :
      (q : LogQueue) (before after : List Work) (w : Work)
      → q.deleted ≡ before ++ (w ∷ after)
      → Step parallel q
          (record q { deleted = before ++ after; active_jobs_count = q.active_jobs_count - 1 })
  stop : (q : LogQueue) → q.closed ≡ false → Step parallel q (record q { closed = true })
  finish :
      (q : LogQueue)
      → q.consumer ≡ waiting
      → q.queue ≡ []
      → q.closed ≡ true
      → Step parallel q (record q { consumer = ended })

pub data Reachable (parallel : ℕ) : LogQueue → Type 0 where
  at_start : Reachable parallel new_log_queue
  then_step : {q q' : LogQueue} → Reachable parallel q → Step parallel q q' → Reachable parallel q'
