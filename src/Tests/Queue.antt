-- ===== src/Tests/Queue.antt =====
-- Runs of the task queues, on a store in memory.
use integrated_work_tll.Prelude.{
  ℕ, ◌+◌, ◌-◌, String, ◌==◌, ◌≡◌, ◌≢◌, refl, Bool, true, false, List, [], ◌∷◌, ◌++◌, Option, none,
  some, All, elem, length, arith, if◌then◌else◌,
}
use integrated_work_tll.Json.{null}
use integrated_work_tll.Redis.{popped}
use integrated_work_tll.Redis.Memory.{MemoryStore, memory, if_IsRising}
use integrated_work_tll.Queue.{QueuePayload, Codec, priority_queue, publish, publish_batch}
use integrated_work_tll.Queue.Roundtrip.{consume-publish}
use integrated_work_tll.Queue.Consumer.{poll_queues, batch_size, move_due, group_due, consume}
use integrated_work_tll.Queue.Consumer.Delayed.{due_tasks, HasMoved, move_due-HasMoved}
use integrated_work_tll.Queue.Consumer.Conservation.{held, held-move_due}

abbrev pub task : QueuePayload
task = record {
  task_id = "t-1";
  scan_id = "s-1";
  method = "GET";
  url = "https://shop.example/orders/42";
  headers = none;
  payload = null;
  attempt = 0;
  max_retries = 3;
  enqueued_at = "2024-01-01T00:00:00";
  priority_level = "p1";
}

-- A codec that knows the task by its id.
abbrev pub codec : Codec
codec = record {
  dump = λ p. p.task_id;
  validate = λ x. if x == "t-1" then some task else none;
  dump_dead = λ p reason. reason;
}

abbrev pub empty : MemoryStore
empty = record { lists = λ q. []; sets = λ q. []; ordered = λ q. tt }

abbrev sent : MemoryStore
sent = (publish memory codec "tasks" task empty).1

abbrev batch_sent : MemoryStore
batch_sent = (publish_batch memory codec "tasks" (task ∷ task ∷ []) empty).1

-- The store after the poll that takes the task.
abbrev polled : MemoryStore
polled = record sent { lists = λ q. popped (some ("tasks:critical", "t-1")) q (sent.lists q) }

abbrev delayed : MemoryStore
delayed = record {
  lists = λ q. [];
  sets = λ q. if q == "tasks:delayed" then ("t-1", 5) ∷ [] else [];
  ordered = λ q. if_IsRising (q == "tasks:delayed") (("t-1", 5) ∷ []) [] (tt, tt) tt;
}

is_sent : publish memory codec "tasks" task empty ≡ (true, sent)
unfolding publish
is_sent = refl

is_batch_sent : publish_batch memory codec "tasks" (task ∷ task ∷ []) empty ≡ (2, batch_sent)
unfolding publish_batch
is_batch_sent = refl

all_empty : All (λ q. empty.lists q ≡ []) (poll_queues "tasks" 0)
unfolding poll_queues
all_empty = (refl, (refl, (refl, (refl, tt))))

is_popped :
    memory.blpop (poll_queues "tasks" 0) sent ≡ some (some ("tasks:critical", "t-1"), polled)
unfolding publish priority_queue poll_queues integrated_work_tll.Prelude.upper
is_popped = refl

consume-publish_example : consume memory codec "tasks" 9 0 sent ≡ (some task, polled)
consume-publish_example =
    consume-publish memory codec "tasks" task 9 0 empty sent polled (some ("tasks:critical", "t-1"))
      refl all_empty refl is_sent is_popped

after_move : MemoryStore
after_move = elim (move_due memory codec "tasks" 9 delayed) [ none ↦ delayed | some t ↦ t ]

one_due : due_tasks memory codec "tasks" 9 delayed ≢ []
one_due e = cc

is_moved : move_due memory codec "tasks" 9 delayed ≡ some after_move
unfolding after_move move_due group_due
is_moved = refl

move_due-HasMoved_example : HasMoved memory codec "tasks" 9 delayed after_move
move_due-HasMoved_example =
    move_due-HasMoved memory codec "tasks" 9 delayed after_move one_due is_moved

held-move_due_example :
    held memory codec "tasks" after_move
      + (length (due_tasks memory codec "tasks" 9 delayed) - batch_size)
    ≡ held memory codec "tasks" delayed
held-move_due_example = held-move_due memory codec "tasks" 9 delayed after_move one_due is_moved
