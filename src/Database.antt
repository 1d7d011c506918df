-- ===== src/Database.antt =====
-- executor/persistence/models.py: the rows that the worker reads and writes, and what it asks of the
-- database, which is not part of the repository. Ids are texts in the form of `str(uuid)`.
pub mod Memory
use integrated_work_tll.Prelude.{
  ℕ, String, ◌==◌, ◌≡◌, Bool, true, false, ◌||◌, List, [], ◌∷◌, Option, none, some, Dict, any,
  if◌then◌else◌,
}

pub data TaskStatus : Type 0 where
  queued processing retrying success failed : TaskStatus

pub data ScanStatus : Type 0 where
  pending running paused completed failed cancelled : ScanStatus

pub record TaskRow : Type 0 where
  pub scan_id : String
  pub status : TaskStatus
  pub attempts : ℕ

pub record ScanRow : Type 0 where
  pub status : ScanStatus
  pub finished_at : Option ℕ

pub record ResponseRow : Type 0 where
  pub status_code : Option ℕ
  pub latency_ms : Option ℕ
  pub response_headers : Option (Dict String)
  pub response_body : Option String
  pub error_message : Option String

-- `s == TaskStatus.SUCCESS.value`.
abbrev pub is_success : TaskStatus → Bool
is_success success = true
is_success _ = false

-- `s in (QUEUED, PROCESSING, RETRYING)`.
abbrev pub is_active : TaskStatus → Bool
is_active queued = true
is_active processing = true
is_active retrying = true
is_active _ = false

-- A committed transaction stores a row under its id. The query of the statuses of a scan lists the
-- status of each of its tasks and of no other.
pub record Database : Type 1 where
  pub Db : Type 0
  pub as_uuid : String → Option String
  pub task : Db → String → Option TaskRow
  pub scan : Db → String → Option ScanRow
  pub response : Db → String → Option ResponseRow
  pub statuses : Db → String → List TaskStatus
  pub store_task : String → TaskRow → Db → Db
  pub store_scan : String → ScanRow → Db → Db
  pub store_response : String → ResponseRow → Db → Db
  pub task-store_task :
      (i : String) (t : TaskRow) (d : Db) (j : String)
      → task (store_task i t d) j ≡ (if i == j then some t else task d j)
  pub task-store_scan :
      (i : String) (s : ScanRow) (d : Db) (j : String) → task (store_scan i s d) j ≡ task d j
  pub task-store_response :
      (i : String) (r : ResponseRow) (d : Db) (j : String)
      → task (store_response i r d) j ≡ task d j
  pub scan-store_task :
      (i : String) (t : TaskRow) (d : Db) (j : String) → scan (store_task i t d) j ≡ scan d j
  pub scan-store_scan :
      (i : String) (s : ScanRow) (d : Db) (j : String)
      → scan (store_scan i s d) j ≡ (if i == j then some s else scan d j)
  pub scan-store_response :
      (i : String) (r : ResponseRow) (d : Db) (j : String)
      → scan (store_response i r d) j ≡ scan d j
  pub statuses_listed :
      (p : TaskStatus → Bool) (d : Db) (s i : String) (t : TaskRow)
      → task d i ≡ some t
      → t.scan_id ≡ s
      → p t.status ≡ true
      → any p (statuses d s) ≡ true
  pub statuses_only :
      (p : TaskStatus → Bool) (d : Db) (s : String)
      → any p (statuses d s) ≡ true
      → (i : String) × (t : TaskRow) × (task d i ≡ some t) × (t.scan_id ≡ s) × (p t.status ≡ true)
