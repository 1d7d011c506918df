-- ===== src/Api/Progress.antt =====
-- executor/api/routes.py: `get_scan_progress`.
pub mod Counts
use integrated_work_tll.Prelude.{
  ℕ, ◌+◌, String, Bool, true, false, List, [], ◌∷◌, Option, none, some, Dict, get, put,
}
use integrated_work_tll.Database.{ScanStatus}
use integrated_work_tll.Api.{Reply, reply, http_error}
use integrated_work_tll.Api.Tables.{Scan, Task, Tables, group_status, or_zero}

pub record Progress : Type 0 where
  pub scan_id : String
  pub status : ScanStatus
  pub total_tasks : ℕ
  pub completed_tasks : ℕ
  pub failed_tasks : ℕ
  pub pending_tasks : ℕ
  pub detailed_stats : Dict ℕ

abbrev pub no_stats : Dict ℕ
no_stats = ("QUEUED", 0) ∷ ("PROCESSING", 0) ∷ ("RETRYING", 0) ∷ ("SUCCESS", 0) ∷ ("FAILED", 0) ∷ []

-- The loop over the rows of the query: `stats` and `total`.
unfoldable pub read_groups : Dict ℕ → Dict ℕ → ℕ → Dict ℕ × ℕ
read_groups [] stats total = (stats, total)
read_groups ((status, count) ∷ groups) stats total =
    read_groups groups (put stats status count) (total + count)

-- `stats[status]`, of a status that is there.
abbrev pub at : Dict ℕ → String → ℕ
at stats status = or_zero (get stats status)

unfoldable pub progress_of : Scan → List Task → Progress
unfolding group_status read_groups
progress_of scan tasks =
    let (stats, total) = read_groups (group_status tasks) no_stats 0 in
    record {
      scan_id = scan.id;
      status = scan.status;
      total_tasks = total;
      completed_tasks = at stats "SUCCESS";
      failed_tasks = at stats "FAILED";
      pending_tasks = at stats "QUEUED" + at stats "PROCESSING" + at stats "RETRYING";
      detailed_stats = stats;
    }

module _ (tables : Tables) where
  unfoldable pub get_scan_progress : String → tables.Db → Reply Progress
  unfolding progress_of
  get_scan_progress scan_id d = elim (tables.scan d scan_id) [
    | none ↦ http_error 404 "Scan not found"
    | some scan ↦ reply (progress_of scan (tables.tasks d scan_id))
  ]
