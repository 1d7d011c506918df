-- ===== src/Engine.antt =====
-- executor/workers/engine.py: `WorkerEngine`, what it does with one task. Whether the database takes
-- a transaction and whether a message is heard are given for each; metrics are left out.
pub mod Status
pub mod Completion
pub mod Premature
pub mod Retry
pub mod Filed
pub mod Slots
use integrated_work_tll.Prelude.{
  ℕ, suc, ◌+◌, ◌-◌, ◌*◌, ◌^◌, String, ◌&◌, Bool, true, false, List, [], ◌∷◌, ◌++◌, Option, none,
  some, Dict, any, all, contains, eqb, ltb, is_empty, if◌then◌else◌,
}
use integrated_work_tll.Redis.{Redis}
use integrated_work_tll.Queue.{QueuePayload, Codec, schedule_delayed}
use integrated_work_tll.Queue.Consumer.{send_to_dlq}
use integrated_work_tll.Database.{
  Database, TaskStatus, processing, retrying, success, failed, ScanStatus, completed, TaskRow,
  ScanRow, ResponseRow, is_active, is_success,
}

-- The messages on `scan:{scan_id}:events`, without their times and the id of the worker.
pub data Event : Type 0 where
  task_status_updated : (task_id scan_id : String) → TaskStatus → Event
  task_completed :
      (task_id scan_id : String) → TaskStatus → (status_code latency_ms : Option ℕ) → Event
  scan_completed : (scan_id : String) → ScanStatus → Event

-- The result of `rate_limiter.acquire`, which may raise.
pub data Permit : Type 0 where
  granted timed_out : Permit
  broke : (message : String) → Permit

-- The result of `http_executor.execute`.
pub data Http : Type 0 where
  reply : (status_code : ℕ) → (latency_ms : Option ℕ) → Dict String → (body : String) → Http
  raised : (message : String) → Http

-- What the surroundings do in one run: the answers of the database, of the channel of messages, of
-- the rate limiter and of the server, and the time.
pub record Run : Type 0 where
  pub commits_mark : Bool
  pub commits_save : Bool
  pub commits_scan : Bool
  pub commits_update : Bool
  pub heard : Bool
  pub permit : Permit
  pub http : Http
  pub now : ℕ

-- The state that the response leaves behind.
pub record Outcome : Type 0 where
  pub status : TaskStatus
  pub row : ResponseRow

-- `str(e)`, or nothing.
abbrev pub message_of : Option String → String
message_of none = "None"
message_of (some m) = m

abbrev pub failure : (status_code : Option ℕ) → (message : String) → Outcome
failure status_code message = record {
  status = failed;
  row = record {
    status_code = status_code;
    latency_ms = none;
    response_headers = none;
    response_body = none;
    error_message = some message;
  };
}

-- The inner `try` of `_process_payload`, on what the server answers.
unfoldable pub outcome_of : Http → Outcome
outcome_of (raised message) = failure (if contains "429" message then some 429 else none) message
outcome_of (reply status_code latency_ms headers body) =
    if eqb status_code 429 then failure (some 429) "HTTP 429 Too Many Requests" else record {
      status = success;
      row = record {
        status_code = some status_code;
        latency_ms = latency_ms;
        response_headers = some headers;
        response_body = some body;
        error_message = none;
      };
    }

-- Whether the limiter is told to slow down for the URL.
abbrev pub is_429 : Http → Bool
is_429 (raised message) = false
is_429 (reply status_code latency_ms headers body) = eqb status_code 429

abbrev pub is_failed : TaskStatus → Bool
is_failed failed = true
is_failed _ = false

module _ (db : Database) (redis : Redis) (codec : Codec) (queue_name : String) (backoff : ℕ) where
  -- `slowed` holds the URLs that were reported to the limiter.
  pub record World : Type 0 where
    pub rows : db.Db
    pub store : redis.Store
    pub events : List Event
    pub slowed : List String

  abbrev pub announce : Bool → Event → World → World
  announce heard e w = if heard then record w { events = w.events ++ e ∷ [] } else w

  -- `_update_task_status`, and `_mark_task_processing` with its status.
  unfoldable pub update_task_status : (commits heard : Bool) → String → TaskStatus → World → World
  update_task_status commits heard task_id status w = elim (db.as_uuid task_id) [
    | none ↦ w
    | some i ↦ elim (db.task w.rows i) [
      | none ↦ w
      | some t ↦
          if commits
          then announce heard (task_status_updated task_id t.scan_id status)
              (record w { rows = db.store_task i (record t { status = status }) w.rows })
          else w
    ]
  ]

  unfoldable pub mark_task_processing : (commits heard : Bool) → String → World → World
  unfolding update_task_status
  mark_task_processing commits heard task_id w =
      update_task_status commits heard task_id processing w

  abbrev pub final_status : List TaskStatus → ScanStatus
  final_status statuses = if all is_success statuses then completed else ScanStatus.failed

  unfoldable pub evaluate_scan_completion :
      (commits heard : Bool) (now : ℕ) → String → World → World
  evaluate_scan_completion commits heard now scan_id w = elim (db.as_uuid scan_id) [
    | none ↦ w
    | some i ↦ elim (db.scan w.rows i) [
      | none ↦ w
      | some s ↦
          let statuses = db.statuses w.rows i in
          if is_empty statuses
          then w
          else if any is_active statuses
          then w
          else if commits
          then announce heard (scan_completed scan_id (final_status statuses)) (record w {
            rows =
                db.store_scan i
                  (record s { status = final_status statuses; finished_at = some now }) w.rows;
          })
          else w
    ]
  ]

  -- `_save_response`; the row of a response is new or replaced in all its fields.
  unfoldable pub save_response : Run → String → Outcome → World → World
  unfolding evaluate_scan_completion
  save_response run task_id o w = elim (db.as_uuid task_id) [
    | none ↦ w
    | some i ↦
        if run.commits_save
        then elim (db.task w.rows i) [
          | none ↦ record w { rows = db.store_response i o.row w.rows }
          | some t ↦
              let saved = db.store_response i o.row (
                db.store_task i (record t { status = o.status; attempts = t.attempts + 1 })
                  w.rows) in
              evaluate_scan_completion run.commits_scan run.heard run.now t.scan_id (
                announce run.heard
                  (task_completed task_id t.scan_id o.status o.row.status_code o.row.latency_ms)
                  (record w { rows = saved }))
        ]
        else w
  ]

  -- The delay in milliseconds before the attempt `attempt`.
  abbrev pub delay_of : ℕ → ℕ
  delay_of attempt = backoff * 2 ^ (attempt - 1)

  unfoldable pub handle_retry : Run → QueuePayload → (error_message : String) → World → World
  unfolding update_task_status
  handle_retry run p error_message w =
      let next = record p { attempt = p.attempt + 1 } in
      let waiting = update_task_status run.commits_update run.heard p.task_id retrying w in
      let given_up = update_task_status run.commits_update run.heard p.task_id failed w in
      if ltb p.attempt p.max_retries
      then record waiting {
        store =
            (schedule_delayed redis codec queue_name run.now (delay_of next.attempt) next
              waiting.store).1;
      }
      else record given_up {
        store =
            (send_to_dlq redis codec queue_name p
              ("Max retries exceeded. Last error: " & error_message) given_up.store).1;
      }

  -- The outer `except` of `_process_payload`.
  unfoldable pub abort : Run → QueuePayload → (message : String) → World → World
  unfolding save_response
  abort run p message w =
      let saved = save_response run p.task_id (failure none ("Worker error: " & message)) w in
      record saved { store = (send_to_dlq redis codec queue_name p message saved.store).1 }

  -- The inner `try` of `_process_payload` and what follows it.
  unfoldable pub execute : Run → QueuePayload → World → World
  unfolding save_response handle_retry
  execute run p w =
      let o = outcome_of run.http in
      let told = if is_429 run.http then record w { slowed = w.slowed ++ p.url ∷ [] } else w in
      let saved = save_response run p.task_id o told in
      if is_failed o.status
      then handle_retry run p (message_of o.row.error_message) saved
      else saved

  -- `_process_payload` after the limiter has answered.
  unfoldable pub after_permit : Permit → Run → QueuePayload → World → World
  unfolding abort execute
  after_permit (broke message) run p w = abort run p message w
  after_permit timed_out run p w = abort run p "Rate limit timeout exceeded" w
  after_permit granted run p w = execute run p w

  -- `_process_payload`, without the release of its place among the tasks of the worker.
  unfoldable pub process_payload : Run → QueuePayload → World → World
  unfolding mark_task_processing after_permit
  process_payload run p w =
      after_permit run.permit run p (mark_task_processing run.commits_mark run.heard p.task_id w)
