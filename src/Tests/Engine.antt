-- ===== src/Tests/Engine.antt =====
-- Runs of the worker, the pool of workers and the discovery.
use integrated_work_tll.Prelude.{
  ℕ, ◌+◌, ◌*◌, ◌^◌, get, String, ◌≡◌, refl, true, [], ◌∷◌, none, some, arith,
}
use integrated_work_tll.Redis.Memory.{MemoryStore, memory}
use integrated_work_tll.Database.{TaskRow, ScanRow, queued, ScanStatus, running}
use integrated_work_tll.Database.Memory.{MemoryDb, memory_db}
use integrated_work_tll.Engine.{
  Run, granted, raised, World, outcome_of, is_failed, evaluate_scan_completion, handle_retry,
  process_payload,
}
use integrated_work_tll.Engine.Status.{expected, task-process_payload}
use integrated_work_tll.Engine.Completion.{IsJudged, evaluate_scan_completion-IsJudged}
use integrated_work_tll.Engine.Premature.{OthersDone, scan-process_payload}
use integrated_work_tll.Pool.{Worker, Pool, monitor_round, start}
use integrated_work_tll.Pool.Bounds.{InBounds, started, round, Monitored-InBounds}
use integrated_work_tll.Engine.Retry.{handle_retry_scheduled}
use integrated_work_tll.Queue.{QueuePayload}
use integrated_work_tll.Tests.Queue.{task, codec, empty}

abbrev task_row : TaskRow
task_row = record { scan_id = "s-1"; status = queued; attempts = 0 }

abbrev scan_row : ScanRow
scan_row = record { status = running; finished_at = none }

abbrev rows : MemoryDb
rows = record {
  tasks = ("t-1", task_row) ∷ [];
  distinct = (refl, tt);
  scans = ("s-1", scan_row) ∷ [];
  responses = [];
}

abbrev world : World memory_db memory codec "tasks" 2000
world = record { rows = rows; store = empty; events = []; slowed = [] }

-- A run in which the server cannot be reached.
abbrev unreachable : Run
unreachable = record {
  commits_mark = true;
  commits_save = true;
  commits_scan = true;
  commits_update = true;
  heard = true;
  permit = granted;
  http = raised "connection refused";
  now = 9;
}

task-process_payload_example :
    memory_db.task
      (process_payload memory_db memory codec "tasks" 2000 unreachable task world).rows
      "t-1"
    ≡ some (record task_row {
      status = expected memory_db memory codec "tasks" 2000 granted unreachable task;
      attempts = 0 + 1;
    })
task-process_payload_example =
    task-process_payload memory_db memory codec "tasks" 2000 "t-1" unreachable task refl refl refl
      world task_row refl

evaluate_scan_completion-IsJudged_example :
    IsJudged memory_db memory codec "tasks" 2000 "s-1" 9 scan_row world
      (evaluate_scan_completion memory_db memory codec "tasks" 2000 true true 9 "s-1" world)
evaluate_scan_completion-IsJudged_example =
    evaluate_scan_completion-IsJudged memory_db memory codec "tasks" 2000 "s-1" refl true 9 world
      scan_row refl

others_done : OthersDone memory_db memory codec "tasks" 2000 "t-1" "t-1" refl rows "s-1"
others_done j u far e f = ground (arith, far, e)

is_bad : is_failed (outcome_of (raised "connection refused")).status ≡ true
unfolding outcome_of
is_bad = refl

scan-process_payload_example :
    memory_db.scan
      (process_payload memory_db memory codec "tasks" 2000 unreachable task world).rows
      "s-1"
    ≡ some (record { status = ScanStatus.failed; finished_at = some 9 })
scan-process_payload_example =
    scan-process_payload memory_db memory codec "tasks" 2000 "t-1" unreachable task task_row
      scan_row refl refl refl refl is_bad world refl refl refl others_done

-- The store after the retry.
abbrev waiting : MemoryStore
waiting = elim (memory.zadd "tasks:delayed" "t-1" (9 + 2000 * 2 ^ 0) empty) [
  | none ↦ empty
  | some t ↦ t
]

abbrev exhausted : QueuePayload
exhausted = record task { attempt = 3 }

handle_retry_scheduled_example :
    (get
        (memory.sorted_set
          (handle_retry memory_db memory codec "tasks" 2000 unreachable task "timeout" world).store
          "tasks:delayed")
        "t-1"
      ≡ some (9 + 2000 * 2 ^ 0))
    × ((q : String)
        → memory.list
            (handle_retry memory_db memory codec "tasks" 2000 unreachable task "timeout"
              world).store
            q
          ≡ memory.list empty q)
handle_retry_scheduled_example =
    handle_retry_scheduled memory_db memory codec "tasks" 2000 unreachable task "timeout" world
      waiting refl refl

abbrev spawn : ℕ → Worker
spawn k = record { worker_id = "worker"; active_tasks = 0; last_active_time = 0 }

abbrev pool : Pool
pool = record {
  queue_base_name = "tasks:default";
  min_workers = 2;
  max_workers = 8;
  idle_timeout = 60;
  active_engines = [];
}

abbrev two : Pool
two = record pool { active_engines = spawn 0 ∷ spawn 1 ∷ [] }

Monitored-InBounds_example : InBounds (monitor_round spawn 120 100 (start spawn pool))
Monitored-InBounds_example =
    Monitored-InBounds pool spawn (monitor_round spawn 120 100 (start spawn pool)) refl
      (omega arith) (round (start spawn pool) 120 100 started)
