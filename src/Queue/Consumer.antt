-- ===== src/Queue/Consumer.antt =====
-- executor/task_queue/consumer.py: `QueueConsumer`.
pub mod Delayed
pub mod Conservation
use integrated_work_tll.Prelude.{
  ℕ, ◌+◌, String, ◌==◌, ◌&◌, Bool, true, false, List, [], ◌∷◌, ◌++◌, Option, none, some, Dict, ltb,
  if◌then◌else◌,
}
use integrated_work_tll.Redis.{Command, rpush, zremrangebyscore, Redis}
use integrated_work_tll.Queue.{
  QueuePayload, Codec, priority_queue, delayed_queue, group_add, pushes, or_raised,
}

-- `random.random()` is `r / 2 ^ 53`, and the bounds are the doubles 0.60, 0.85 and 0.95.
unfoldable pub poll_queues : (queue_name : String) (r : ℕ) → List String
poll_queues queue_name r =
    let critical = queue_name & ":critical" in
    let high = queue_name & ":high" in
    let medium = queue_name & ":medium" in
    let low = queue_name & ":low" in
    if ltb r 5404319552844595
    then critical ∷ high ∷ medium ∷ low ∷ []
    else if ltb r 7656119366529843
    then high ∷ critical ∷ medium ∷ low ∷ []
    else if ltb r 8556839292003942
    then medium ∷ critical ∷ high ∷ low ∷ []
    else low ∷ critical ∷ high ∷ medium ∷ []

abbrev pub batch_size : ℕ
batch_size = 50

module _ (redis : Redis) (codec : Codec) (queue_name : String) where
  open redis use {Store, push, zrangebyscore, blpop, transaction}
  open codec use {validate, dump_dead}

  -- The loop over the due tasks: a text that does not validate raises.
  unfoldable pub group_due : List String → Dict (List String) → Option (Dict (List String))
  group_due [] grouped = some grouped
  group_due (x ∷ xs) grouped = elim (validate x) [
    | none ↦ none
    | some p ↦ group_due xs (group_add (priority_queue queue_name p.priority_level) x grouped)
  ]

  abbrev pub moves : (now : ℕ) → Dict (List String) → List Command
  moves now grouped = pushes grouped ++ zremrangebyscore (delayed_queue queue_name) now ∷ []

  -- The body of the `try` of `_process_delayed_tasks`; `none` where it raises.
  unfoldable pub move_due : (now : ℕ) → Store → Option Store
  move_due now s = elim (zrangebyscore (delayed_queue queue_name) now batch_size s) [
    | none ↦ none
    | some [] ↦ some s
    | some (x ∷ xs) ↦ elim (group_due (x ∷ xs) []) [
      | none ↦ none
      | some grouped ↦ transaction (moves now grouped) s
    ]
  ]

  unfoldable pub process_delayed_tasks : (now : ℕ) → Store → Store
  process_delayed_tasks now s = elim (move_due now s) [ none ↦ s | some t ↦ t ]

  -- A text that does not validate is gone from its queue, and nothing is returned.
  unfoldable pub consume : (now r : ℕ) → Store → Option QueuePayload × Store
  consume now r s =
      let ready = process_delayed_tasks now s in
      elim (blpop (poll_queues queue_name r) ready) [
        | none ↦ (none, ready)
        | some (none, t) ↦ (none, t)
        | some (some (q, x), t) ↦ (validate x, t)
      ]

  unfoldable pub send_to_dlq : QueuePayload → (reason : String) → Store → Bool × Store
  send_to_dlq p reason s =
      or_raised true false s (push (queue_name & ":dlq") (dump_dead p reason ∷ []) s)
