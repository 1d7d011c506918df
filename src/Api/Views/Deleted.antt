-- ===== src/Api/Views/Deleted.antt =====
-- What is left of a scan after `delete_scan`.
use text.Mathlib.TextPositions.{eq_refl}
use integrated_work_tll.Prelude.{ℕ, String, ◌==◌, ◌≡◌, ◌∙◌, [], none, some, if◌then◌else◌}
use integrated_work_tll.Api.{http_error}
use integrated_work_tll.Api.Tables.{Scan, Task, Tables}
use integrated_work_tll.Api.Progress.{get_scan_progress}
use integrated_work_tll.Api.Views.{get_scan_tasks, get_task_details, delete_scan}

module _ (isoformat : ℕ → String) (tables : Tables) (scan_id : String) (d : tables.Db) (i : String)
    (t : Task) where
  -- Of the tables after it, and of a task `i` that the scan had.
  pub record IsDeleted (d' : tables.Db) : Type 0 where
    pub progress : get_scan_progress tables scan_id d' ≡ http_error 404 "Scan not found"
    pub no_tasks : get_scan_tasks isoformat tables scan_id d' ≡ []
    pub no_details : get_task_details isoformat tables i d' ≡ http_error 404 "Task not found"
    pub no_response : tables.response d' i ≡ none
    pub again : delete_scan tables scan_id d' ≡ (http_error 404 "Scan not found", d')
    pub scans : (j : String) → tables.scan d' j ≡ (if scan_id == j then none else tables.scan d j)
    pub tasks : (j : String) → tables.tasks d' j ≡ (if scan_id == j then [] else tables.tasks d j)

  module _ (found : tables.task d i ≡ some t) (same : t.scan_id ≡ scan_id) where
    task_gone : tables.task (tables.delete_scan scan_id d) i ≡ none
    task_gone = tables.task-delete_scan scan_id d i t found ∙ rw (same, eq_refl scan_id)

    scan_gone : tables.scan (tables.delete_scan scan_id d) scan_id ≡ none
    scan_gone = tables.scan-delete_scan scan_id d scan_id ∙ rw (eq_refl scan_id)

    IsDeleted-delete_scan : IsDeleted (tables.delete_scan scan_id d)
    unfolding get_scan_progress get_scan_tasks get_task_details delete_scan
    IsDeleted-delete_scan = record {
      progress = rw (get_scan_progress, scan_gone);
      no_tasks = rw (get_scan_tasks, tables.tasks-delete_scan scan_id d scan_id, eq_refl scan_id);
      no_details = rw (get_task_details, task_gone);
      no_response = tables.response-delete_scan scan_id d i t found ∙ rw (same, eq_refl scan_id);
      again = rw (delete_scan, scan_gone);
      scans = tables.scan-delete_scan scan_id d;
      tasks = tables.tasks-delete_scan scan_id d;
    }

    -- After a scan that exists is deleted, its progress, the details of any task that it had and
    -- another deletion answer 404, the responses are gone, the list of its tasks is empty and not an
    -- error, and other scans and their tasks are as before.
    pub delete_scan-IsDeleted :
        (scan : Scan)
        → tables.scan d scan_id ≡ some scan
        → IsDeleted (delete_scan tables scan_id d).1
    unfolding delete_scan
    delete_scan-IsDeleted scan e = rw (delete_scan, e) IsDeleted-delete_scan
