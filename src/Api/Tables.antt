-- ===== src/Api/Tables.antt =====
-- executor/persistence/models.py: the rows as the routes see them, and what they ask of the
-- database, which is not part of the repository. Ids are texts in the form of `str(uuid)`.
pub mod Memory
use integrated_work_tll.Prelude.{
  ℕ, suc, ◌+◌, String, ◌==◌, ◌≡◌, Bool, true, false, List, [], ◌∷◌, Option, none, some, Dict, get,
  put, count_if, if◌then◌else◌,
}
use integrated_work_tll.Json.{Json}
use integrated_work_tll.Database.{
  TaskStatus, queued, processing, retrying, success, failed, ScanStatus,
}

pub record Scan : Type 0 where
  pub id : String
  pub name : String
  pub target : String
  pub status : ScanStatus
  pub config : Option Json
  pub created_at : Option ℕ
  pub started_at : Option ℕ
  pub finished_at : Option ℕ

-- `payload` is `null` where the source has `None`.
pub record Task : Type 0 where
  pub id : String
  pub scan_id : String
  pub method : String
  pub url : String
  pub headers : Option (Dict String)
  pub payload : Json
  pub mutation_strategy : Option String
  pub mutation_reason : Option String
  pub status : TaskStatus
  pub attempts : ℕ
  pub max_retries : ℕ
  pub created_at : Option ℕ

-- A latency is in hundredths of a millisecond, as the executor rounds it.
pub record Response : Type 0 where
  pub id : String
  pub status_code : Option ℕ
  pub latency_ms : Option ℕ
  pub response_headers : Option (Dict String)
  pub response_body : Option String
  pub error_message : Option String
  pub created_at : Option ℕ

-- `TaskStatus.value`.
abbrev pub status_value : TaskStatus → String
status_value queued = "QUEUED"
status_value processing = "PROCESSING"
status_value retrying = "RETRYING"
status_value success = "SUCCESS"
status_value failed = "FAILED"

abbrev pub or_zero : Option ℕ → ℕ
or_zero none = 0
or_zero (some n) = n

-- `select(Task.status, func.count(Task.id)).group_by(Task.status)` of the rows.
unfoldable pub group_status : List Task → Dict ℕ
group_status [] = []
group_status (t ∷ ts) =
    let groups = group_status ts in
    put groups (status_value t.status) (suc (or_zero (get groups (status_value t.status))))

-- Committed changes. The tasks of a scan come in the order of their creation; a task that is added
-- is one more of its scan; a deleted scan takes its tasks and their responses with it.
pub record Tables : Type 1 where
  pub Db : Type 0
  pub scan : Db → String → Option Scan
  pub scans : Db → List Scan
  pub tasks : Db → String → List Task
  pub task : Db → String → Option Task
  pub response : Db → String → Option Response
  pub store_scan : Scan → Db → Db
  pub add_task : Task → Db → Db
  pub delete_scan : String → Db → Db
  pub scan-store_scan :
      (s : Scan) (d : Db) (j : String)
      → scan (store_scan s d) j ≡ (if s.id == j then some s else scan d j)
  pub tasks-store_scan : (s : Scan) (d : Db) (j : String) → tasks (store_scan s d) j ≡ tasks d j
  pub task-store_scan : (s : Scan) (d : Db) (j : String) → task (store_scan s d) j ≡ task d j
  pub scan-add_task : (t : Task) (d : Db) (j : String) → scan (add_task t d) j ≡ scan d j
  pub task-add_task :
      (t : Task) (d : Db) (j : String)
      → task (add_task t d) j ≡ (if t.id == j then some t else task d j)
  pub tasks-add_task :
      (p : Task → Bool) (t : Task) (d : Db) (j : String)
      → count_if p (tasks (add_task t d) j)
        ≡ count_if p (if t.scan_id == j then t ∷ [] else []) + count_if p (tasks d j)
  pub scan-delete_scan :
      (s : String) (d : Db) (j : String)
      → scan (delete_scan s d) j ≡ (if s == j then none else scan d j)
  pub tasks-delete_scan :
      (s : String) (d : Db) (j : String)
      → tasks (delete_scan s d) j ≡ (if s == j then [] else tasks d j)
  pub task-delete_scan :
      (s : String) (d : Db) (i : String) (t : Task)
      → task d i ≡ some t
      → task (delete_scan s d) i ≡ (if s == t.scan_id then none else some t)
  pub response-delete_scan :
      (s : String) (d : Db) (i : String) (t : Task)
      → task d i ≡ some t
      → response (delete_scan s d) i ≡ (if s == t.scan_id then none else response d i)

module _ (tables : Tables) where
  -- `select(Task, ScanResponse).outerjoin(...)`: each task with its response, which is unique.
  abbrev pub joined : tables.Db → List Task → List (Task × Option Response)
  joined d [] = []
  joined d (t ∷ ts) = (t, tables.response d t.id) ∷ joined d ts
