-- ===== src/Api/Submit.antt =====
-- executor/api/routes.py: `create_scan` and `submit_tasks`, with the schemas that they read. A
-- commit that fails ends a request with an error of the server, and is left out.
pub mod Rows
use integrated_work_tll.Prelude.{
  ℕ, zero, suc, String, ◌&◌, Bool, true, false, List, [], ◌∷◌, Option, none, some, Dict, put,
  is_given, or_empty, show_ℕ, if◌then◌else◌,
}
use integrated_work_tll.Json.{Json}
use integrated_work_tll.Database.{ScanStatus, pending, running, paused, queued}
use integrated_work_tll.Redis.{Redis}
use integrated_work_tll.Queue.{QueuePayload, Codec, publish_batch}
use integrated_work_tll.Api.{Reply, reply, http_error}
use integrated_work_tll.Api.Tables.{Scan, Task, Tables}

pub record ScanCreate : Type 0 where
  pub name : String
  pub target : String
  pub config : Option Json

pub record TaskSubmit : Type 0 where
  pub method : String
  pub url : String
  pub headers : Option (Dict String)
  pub payload : Json
  pub auth_token : Option String
  pub retry_count : ℕ
  pub priority_level : String
  pub mutation_strategy : Option String
  pub mutation_reason : Option String

-- `status in (PENDING, PAUSED)`.
abbrev pub is_waiting : ScanStatus → Bool
is_waiting pending = true
is_waiting paused = true
is_waiting _ = false

abbrev pub or_now : Option ℕ → ℕ → Option ℕ
or_now none now = some now
or_now (some t) now = some t

abbrev pub started_scan : ℕ → Scan → Scan
started_scan now scan =
    if is_waiting scan.status
    then record scan { status = running; started_at = or_now scan.started_at now }
    else scan

-- `t_data.headers or {}`, with the token.
abbrev pub or_no_headers : Option (Dict String) → Dict String
or_no_headers none = []
or_no_headers (some headers) = headers

unfoldable pub task_headers : TaskSubmit → Dict String
task_headers t_data =
    let headers = or_no_headers t_data.headers in
    if is_given t_data.auth_token
    then put headers "Authorization" ("Bearer " & or_empty t_data.auth_token)
    else headers

-- What a request draws: `uuid.uuid4()` of its k-th row, the time, and `utcnow_iso()`.
pub record Draws : Type 0 where
  pub id : ℕ → String
  pub now : ℕ
  pub now_iso : String

module _ (draws : Draws) (scan_id : String) where
  -- The row of the k-th task, and its payload.
  unfoldable pub new_task : ℕ → TaskSubmit → Task
  unfolding task_headers
  new_task k t_data = record {
    id = draws.id k;
    scan_id = scan_id;
    method = t_data.method;
    url = t_data.url;
    headers = some (task_headers t_data);
    payload = t_data.payload;
    mutation_strategy = t_data.mutation_strategy;
    mutation_reason = t_data.mutation_reason;
    status = queued;
    attempts = 0;
    max_retries = t_data.retry_count;
    created_at = some draws.now;
  }

  unfoldable pub new_payload : Task → String → QueuePayload
  new_payload db_task priority_level = record {
    task_id = db_task.id;
    scan_id = scan_id;
    method = db_task.method;
    url = db_task.url;
    headers = db_task.headers;
    payload = db_task.payload;
    attempt = 0;
    max_retries = db_task.max_retries;
    enqueued_at = draws.now_iso;
    priority_level = priority_level;
  }

  abbrev pub new_payloads : ℕ → List TaskSubmit → List QueuePayload
  new_payloads k [] = []
  new_payloads k (t_data ∷ tasks) =
      new_payload (new_task k t_data) t_data.priority_level ∷ new_payloads (suc k) tasks

  module _ (tables : Tables) where
    abbrev pub add_tasks : ℕ → List TaskSubmit → tables.Db → tables.Db
    add_tasks k [] d = d
    add_tasks k (t_data ∷ tasks) d = add_tasks (suc k) tasks (tables.add_task (new_task k t_data) d)

module _ (tables : Tables) (draws : Draws) where
  unfoldable pub create_scan : ScanCreate → tables.Db → Reply Scan × tables.Db
  create_scan scan_data d =
      let new_scan : Scan = record {
        id = draws.id 0;
        name = scan_data.name;
        target = scan_data.target;
        config = scan_data.config;
        status = pending;
        created_at = some draws.now;
        started_at = none;
        finished_at = none;
      } in
      (reply new_scan, tables.store_scan new_scan d)

  module _ (redis : Redis) (codec : Codec) where
    abbrev pub submitted : ℕ → String
    submitted published_count = "Submitted " & show_ℕ published_count & " tasks successfully"

    -- The tables and the queues after the rows are committed and the payloads are sent.
    abbrev pub submit_to :
        Scan
        → (scan_id : String) → List TaskSubmit
        → tables.Db × redis.Store
        → Reply String × (tables.Db × redis.Store)
    submit_to scan scan_id tasks (d, s) =
        let (published_count, s') =
          publish_batch redis codec "tasks:default" (new_payloads draws scan_id 0 tasks) s in
        let d' = add_tasks draws scan_id tables 0 tasks (
          if is_waiting scan.status
          then tables.store_scan (started_scan draws.now scan) d
          else d) in
        (reply (submitted published_count), (d', s'))

    unfoldable pub submit_tasks :
        (scan_id : String)
        → List TaskSubmit
        → tables.Db × redis.Store
        → Reply String × (tables.Db × redis.Store)
    unfolding new_task new_payload publish_batch
    submit_tasks scan_id tasks (d, s) = elim (tables.scan d scan_id) [
      | none ↦ (http_error 404 "Scan not found", (d, s))
      | some scan ↦ submit_to scan scan_id tasks (d, s)
    ]
