-- ===== src/Engine/Slots.antt =====
-- executor/workers/engine.py: the loop of `WorkerEngine.start` and its places for tasks, as steps.
-- The loop, the tasks and `stop` take turns at each `await`.
pub mod Bounds
use integrated_work_tll.Prelude.{ℕ, zero, suc, ◌+◌, Bool, true, false, List, [], ◌∷◌, ◌++◌, length}
use integrated_work_tll.Queue.{QueuePayload}

-- Where the loop stands: before the test of `_running`, waiting for a place, with a place and
-- waiting for a task, or behind its end.
pub data Phase : Type 0 where
  at_top waiting fetching ended : Phase

-- `late` counts the tasks that were started after `stop`.
pub record Worker : Type 0 where
  pub running : Bool
  pub permits : ℕ
  pub phase : Phase
  pub tasks : List QueuePayload
  pub late : ℕ

abbrev pub late_one : Bool → ℕ
late_one true = 0
late_one false = 1

abbrev pub started : ℕ → Worker
started concurrency = record {
  running = true;
  permits = concurrency;
  phase = at_top;
  tasks = [];
  late = 0;
}

pub data Step : Worker → Worker → Type 0 where
  -- `while self._running`.
  enter :
      (w : Worker)
      → Step
          (record w { running = true; phase = at_top })
          (record w { running = true; phase = waiting })
  leave :
      (w : Worker)
      → Step
          (record w { running = false; phase = at_top })
          (record w { running = false; phase = ended })
  -- `await self.semaphore.acquire()`, and the test behind it.
  take :
      (w : Worker) (n : ℕ)
      → Step
          (record w { running = true; permits = suc n; phase = waiting })
          (record w { running = true; permits = n; phase = fetching })
  give_up :
      (w : Worker) (n : ℕ)
      → Step
          (record w { running = false; permits = suc n; phase = waiting })
          (record w { running = false; permits = suc n; phase = ended })
  -- `await self.consumer.consume()`, without and with a task.
  nothing :
      (w : Worker)
      → Step (record w { phase = fetching }) (record w { permits = suc w.permits; phase = at_top })
  spawn :
      (w : Worker) (p : QueuePayload)
      → Step
          (record w { phase = fetching })
          (record w {
            phase = at_top;
            tasks = w.tasks ++ p ∷ [];
            late = w.late + late_one w.running;
          })
  -- The end of `_process_payload`, for any of the tasks.
  finish :
      (w : Worker) (before after : List QueuePayload) (p : QueuePayload)
      → Step
          (record w { tasks = before ++ p ∷ after })
          (record w { permits = suc w.permits; tasks = before ++ after })
  -- `stop`.
  halt : (w : Worker) → Step w (record w { running = false })

-- What the steps make of a worker.
pub data Reached (concurrency : ℕ) : Worker → Type 0 where
  fresh : Reached concurrency (started concurrency)
  step : (v w : Worker) → Reached concurrency v → Step v w → Reached concurrency w
