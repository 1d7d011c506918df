-- ===== src/Pool.antt =====
-- executor/worker_manager/manager.py: `WorkerPoolManager`, and when a worker of
-- executor/workers/engine.py counts as idle. Times are seconds.
pub mod Bounds
use integrated_work_tll.Prelude.{
  ℕ, zero, suc, ◌+◌, ◌-◌, String, ◌&◌, Bool, true, false, ◌&&◌, List, [], ◌∷◌, ◌++◌, length, leb,
  ltb, min, if◌then◌else◌,
}
use integrated_work_tll.Redis.{Redis}

-- What the manager sees of a `WorkerEngine`.
pub record Worker : Type 0 where
  pub worker_id : String
  pub active_tasks : ℕ
  pub last_active_time : ℕ

-- `is_idle`: its answer, and the worker after the call.
unfoldable pub is_idle : (threshold now : ℕ) → Worker → Bool × Worker
is_idle threshold now e =
    if ltb 0 e.active_tasks
    then (false, record e { last_active_time = now })
    else (ltb threshold (now - e.last_active_time), e)

pub record Pool : Type 0 where
  pub queue_base_name : String
  pub min_workers : ℕ
  pub max_workers : ℕ
  pub idle_timeout : ℕ
  pub active_engines : List Worker

-- The list of `_cleanup_idle_workers`: each worker with its answer.
unfoldable pub polled : (threshold now : ℕ) → List Worker → List (Bool × Worker)
polled threshold now [] = []
polled threshold now (e ∷ engines) = is_idle threshold now e ∷ polled threshold now engines

-- The loop over the idle workers: `remaining` is the number of active workers, and once it is at the
-- floor the loop ends, so that all others stay.
unfoldable pub retire : (floor remaining : ℕ) → List (Bool × Worker) → List Worker
retire floor remaining [] = []
retire floor remaining ((idle, e) ∷ engines) =
    let gone = retire floor (remaining - 1) engines in
    let rest = retire floor remaining engines in
    if idle && ltb floor remaining then gone else e ∷ rest

unfoldable pub cleanup_idle_workers : (now : ℕ) → Pool → Pool
cleanup_idle_workers now p = record p {
  active_engines =
      retire p.min_workers (length p.active_engines) (polled p.idle_timeout now p.active_engines);
}

-- `_scale_up`; `spawn k` is the new worker of a pool of `k` workers.
unfoldable pub scale_up : (spawn : ℕ → Worker) → (count : ℕ) → Pool → Pool
scale_up spawn zero p = p
scale_up spawn (suc count) p =
    let larger = record p {
      active_engines = p.active_engines ++ spawn (length p.active_engines) ∷ [];
    } in
    let rest = scale_up spawn count larger in
    if leb p.max_workers (length p.active_engines) then p else rest

-- `_calculate_desired_workers`.
unfoldable pub calculate_desired_workers : (min_workers queue_depth : ℕ) → ℕ
calculate_desired_workers min_workers queue_depth =
    if leb 10000 queue_depth
    then 100
    else if leb 1000 queue_depth
    then 50
    else if leb 100 queue_depth
    then 10
    else if leb 10 queue_depth
    then 5
    else min_workers

-- A round of `_monitor_loop`; `to_add` is not positive where the pool is full.
unfoldable pub monitor_round : (spawn : ℕ → Worker) → (queue_depth now : ℕ) → Pool → Pool
monitor_round spawn queue_depth now p =
    let cleaned = cleanup_idle_workers now p in
    let current = length cleaned.active_engines in
    let desired = calculate_desired_workers p.min_workers queue_depth in
    if ltb current desired
    then scale_up spawn (min (desired - current) (p.max_workers - current)) cleaned
    else cleaned

-- `start`, without the loop that it begins.
unfoldable pub start : (spawn : ℕ → Worker) → Pool → Pool
unfolding scale_up
start spawn p = scale_up spawn p.min_workers p

-- `stop`, after its workers have stopped.
unfoldable pub stop : Pool → Pool
stop p = record p { active_engines = [] }

module _ (redis : Redis) where
  -- `_get_total_queue_depth`.
  unfoldable pub total_queue_depth : Pool → redis.Store → ℕ
  total_queue_depth p s =
      length (redis.list s (p.queue_base_name & ":critical"))
      + length (redis.list s (p.queue_base_name & ":high"))
      + length (redis.list s (p.queue_base_name & ":medium"))
      + length (redis.list s (p.queue_base_name & ":low"))
