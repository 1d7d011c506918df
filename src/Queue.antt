-- ===== src/Queue.antt =====
-- executor/task_queue/models.py and publisher.py: the payload of a task, and its way into a queue.
-- Times are milliseconds. What is caught and logged as an exception is `false` or 0.
pub mod Consumer
pub mod Routing
pub mod Roundtrip
use integrated_work_tll.Prelude.{
  ℕ, ◌+◌, String, ◌==◌, ◌≡◌, ◌&◌, Bool, true, false, List, [], ◌∷◌, ◌++◌, Option, none, some, Dict,
  get, put, upper, length, if◌then◌else◌,
}
use integrated_work_tll.Json.{Json}
use integrated_work_tll.Redis.{Command, rpush, Redis}

pub record QueuePayload : Type 0 where
  pub task_id : String
  pub scan_id : String
  pub method : String
  pub url : String
  pub headers : Option (Dict String)
  pub payload : Json
  pub attempt : ℕ
  pub max_retries : ℕ
  pub enqueued_at : String
  pub priority_level : String

-- pydantic: `model_dump_json`, `model_validate_json` with `none` for a validation error, and the
-- text of a dead letter.
pub record Codec : Type 0 where
  pub dump : QueuePayload → String
  pub validate : String → Option QueuePayload
  pub dump_dead : QueuePayload → (reason : String) → String

-- `_get_priority_queue`, of the publisher and of the consumer.
unfoldable pub priority_queue : (queue_name priority_level : String) → String
priority_queue queue_name priority_level =
    let level = upper priority_level in
    if level == "P1"
    then queue_name & ":critical"
    else if level == "P2"
    then queue_name & ":high"
    else if level == "P4"
    then queue_name & ":low"
    else queue_name & ":medium"

abbrev pub delayed_queue : String → String
delayed_queue queue_name = queue_name & ":delayed"

abbrev pub or_nil : Option (List String) → List String
or_nil none = []
or_nil (some xs) = xs

-- `grouped[q].append(x)`.
abbrev pub group_add : String → String → Dict (List String) → Dict (List String)
group_add q x grouped = put grouped q (or_nil (get grouped q) ++ x ∷ [])

-- `pipe.rpush(q, *xs)` for each group.
abbrev pub pushes : Dict (List String) → List Command
pushes [] = []
pushes ((q, xs) ∷ grouped) = rpush q xs ∷ pushes grouped

-- A pair of a result and the store, from a command that may raise.
abbrev pub or_raised : {S A : Type 0} → A → A → S → Option S → A × S
or_raised good bad s none = (bad, s)
or_raised good bad s (some t) = (good, t)

module _ (redis : Redis) (codec : Codec) (queue_name : String) where
  open redis use {Store, push, zadd, transaction}
  open codec use {dump}

  unfoldable pub publish : QueuePayload → Store → Bool × Store
  publish p s =
      or_raised true false s (push (priority_queue queue_name p.priority_level) (dump p ∷ []) s)

  unfoldable pub group_payloads : List QueuePayload → Dict (List String) → Dict (List String)
  group_payloads [] grouped = grouped
  group_payloads (p ∷ payloads) grouped =
      group_payloads payloads
        (group_add (priority_queue queue_name p.priority_level) (dump p) grouped)

  unfoldable pub publish_batch : List QueuePayload → Store → ℕ × Store
  publish_batch [] s = (0, s)
  publish_batch (p ∷ payloads) s =
      or_raised (length (p ∷ payloads)) 0 s
        (transaction (pushes (group_payloads (p ∷ payloads) [])) s)

  unfoldable pub schedule_delayed : (now delay : ℕ) → QueuePayload → Store → Bool × Store
  schedule_delayed now delay p s =
      or_raised true false s (zadd (delayed_queue queue_name) (dump p) (now + delay) s)
