-- ===== src/Api/Views.antt =====
-- executor/api/routes.py: `get_scans`, `get_scan_tasks`, `get_task_details` and `delete_scan`.
pub mod Deleted
use integrated_work_tll.Prelude.{
  ℕ, String, Bool, true, false, List, [], ◌∷◌, Option, none, some, Dict, map,
}
use integrated_work_tll.Json.{Json}
use integrated_work_tll.Database.{TaskStatus, ScanStatus}
use integrated_work_tll.Api.{Reply, reply, http_error}
use integrated_work_tll.Api.Tables.{Scan, Task, Response, Tables}

-- The dicts of the answers; the times are texts.
pub record ScanView : Type 0 where
  pub id : String
  pub name : String
  pub target : String
  pub status : ScanStatus
  pub config : Option Json
  pub created_at : Option String
  pub started_at : Option String
  pub finished_at : Option String

-- `created_at` is `none` in the answer of `get_task_details`, which leaves it out.
pub record ResponseView : Type 0 where
  pub id : String
  pub status_code : Option ℕ
  pub latency_ms : Option ℕ
  pub response_headers : Option (Dict String)
  pub response_body : Option String
  pub error_message : Option String
  pub created_at : Option String

pub record TaskView : Type 0 where
  pub id : String
  pub scan_id : String
  pub method : String
  pub url : String
  pub headers : Option (Dict String)
  pub payload : Json
  pub mutation_strategy : Option String
  pub mutation_reason : Option String
  pub status : TaskStatus
  pub attempts : ℕ
  pub max_retries : ℕ
  pub created_at : Option String
  pub response : Option ResponseView

-- `t.isoformat() if t else None`.
abbrev pub iso : (ℕ → String) → Option ℕ → Option String
iso isoformat none = none
iso isoformat (some t) = some (isoformat t)

module _ (isoformat : ℕ → String) where
  abbrev pub view_scan : Scan → ScanView
  view_scan scan = record {
    id = scan.id;
    name = scan.name;
    target = scan.target;
    status = scan.status;
    config = scan.config;
    created_at = iso isoformat scan.created_at;
    started_at = iso isoformat scan.started_at;
    finished_at = iso isoformat scan.finished_at;
  }

  abbrev pub view_response : (Response → Option String) → Option Response → Option ResponseView
  view_response created none = none
  view_response created (some db_resp) = some (record {
    id = db_resp.id;
    status_code = db_resp.status_code;
    latency_ms = db_resp.latency_ms;
    response_headers = db_resp.response_headers;
    response_body = db_resp.response_body;
    error_message = db_resp.error_message;
    created_at = created db_resp;
  })

  abbrev pub view_task : Task → Option ResponseView → TaskView
  view_task task response = record {
    id = task.id;
    scan_id = task.scan_id;
    method = task.method;
    url = task.url;
    headers = task.headers;
    payload = task.payload;
    mutation_strategy = task.mutation_strategy;
    mutation_reason = task.mutation_reason;
    status = task.status;
    attempts = task.attempts;
    max_retries = task.max_retries;
    created_at = iso isoformat task.created_at;
    response = response;
  }

  module _ (tables : Tables) where
    unfoldable pub get_scans : tables.Db → List ScanView
    get_scans d = map view_scan (tables.scans d)

    abbrev pub view_tasks : tables.Db → List Task → List TaskView
    view_tasks d [] = []
    view_tasks d (task ∷ tasks) =
        view_task task (view_response (λ r. iso isoformat r.created_at) (tables.response d task.id))
        ∷ view_tasks d tasks

    unfoldable pub get_scan_tasks : String → tables.Db → List TaskView
    get_scan_tasks scan_id d = view_tasks d (tables.tasks d scan_id)

    unfoldable pub get_task_details : String → tables.Db → Reply TaskView
    get_task_details task_id d = elim (tables.task d task_id) [
      | none ↦ http_error 404 "Task not found"
      | some task ↦ reply (view_task task (view_response (λ r. none) (tables.response d task.id)))
    ]

-- The status 204 has no body.
unfoldable pub delete_scan : (tables : Tables) → String → tables.Db → Reply {0} Unit × tables.Db
delete_scan tables scan_id d = elim (tables.scan d scan_id) [
  | none ↦ (http_error 404 "Scan not found", d)
  | some scan ↦ (reply tt, tables.delete_scan scan_id d)
]
