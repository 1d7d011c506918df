-- ===== src/Tests/Slots.antt =====
-- A run of the worker's loop.
use integrated_work_tll.Prelude.{false, [], ◌∷◌}
use integrated_work_tll.Engine.Slots.{
  Worker, at_top, fetching, Reached, fresh, step, enter, take, halt, spawn, started,
}
use integrated_work_tll.Engine.Slots.Bounds.{InOrder, Reached-InOrder}
use integrated_work_tll.Tests.Queue.{task}

abbrev busy : Worker
busy = record { running = false; permits = 2; phase = at_top; tasks = task ∷ []; late = 1 }

-- A stop while the loop waits for a task, which then comes.
busy_reached : Reached 3 busy
busy_reached =
    step _ busy
      (step _ _ (step _ _ (step (started 3) _ fresh (enter (started 3))) (take (started 3) 2))
        (halt (record (started 3) { permits = 2; phase = fetching })))
      (spawn (record (started 3) { running = false; permits = 2 }) task)

Reached-InOrder_example : InOrder 3 busy
Reached-InOrder_example = Reached-InOrder 3 busy busy_reached
