-- ===== src/Api/Progress/Counts.antt =====
-- The numbers of `get_scan_progress` count the tasks of the scan.
use integrated_work_tll.Prelude.{
  ℕ, suc, ◌+◌, String, ◌==◌, ◌≡◌, refl, ◌∙◌, Bool, false, List, [], ◌∷◌, some, Dict, get, put, keys,
  get-put, put-IsDict, IsDict, elem, length, count_if, eq_iff, arith, if◌then◌else◌,
}
use integrated_work_tll.Database.{TaskStatus, queued, processing, retrying, success, failed}
use integrated_work_tll.Api.{reply}
use integrated_work_tll.Api.Tables.{Scan, Task, Tables, group_status, or_zero, status_value}
use integrated_work_tll.Api.Progress.{
  Progress, no_stats, read_groups, at, progress_of, get_scan_progress,
}

abbrev sum : Dict ℕ → ℕ
sum [] = 0
sum ((k, n) ∷ d) = n + sum d

abbrev has_value : String → Task → Bool
has_value v t = status_value t.status == v

sum-put : (d : Dict ℕ) (k : String) (n : ℕ) → sum (put d k n) + or_zero (get d k) ≡ sum d + n
sum-put [] k n = omega arith
sum-put ((j, m) ∷ d) k n = ground (arith, sum-put d k n)

group_status-IsDict : (ts : List Task) → IsDict (group_status ts)
unfolding group_status
group_status-IsDict [] = tt
group_status-IsDict (t ∷ ts) =
    put-IsDict (group_status ts) (status_value t.status)
      (suc (or_zero (get (group_status ts) (status_value t.status)))) (group_status-IsDict ts)

get-group_status :
    (ts : List Task) (v : String) → or_zero (get (group_status ts) v) ≡ count_if (has_value v) ts
unfolding group_status
get-group_status [] v = refl
get-group_status (t ∷ ts) v =
    let k = status_value t.status in
    ground (
      arith,
      eq_iff k v,
      get-put (group_status ts) k v (suc (or_zero (get (group_status ts) k))),
      get-group_status ts v,
    )

sum-group_status : (ts : List Task) → sum (group_status ts) ≡ length ts
unfolding group_status
sum-group_status [] = refl
sum-group_status (t ∷ ts) =
    let k = status_value t.status in
    omega (
      arith,
      sum-put (group_status ts) k (suc (or_zero (get (group_status ts) k))),
      sum-group_status ts,
    )

read_groups_total : (g s : Dict ℕ) (n : ℕ) → (read_groups g s n).1 ≡ n + sum g
unfolding read_groups
read_groups_total [] s n = omega arith
read_groups_total ((k, m) ∷ g) s n = omega (arith, read_groups_total g (put s k m) (n + m))

read_groups_missing :
    (g s : Dict ℕ) (n : ℕ) (v : String)
    → elem v (keys g) ≡ false
    → get (read_groups g s n).0 v ≡ get s v
unfolding read_groups
read_groups_missing [] s n v h = refl
read_groups_missing ((k, m) ∷ g) s n v h =
    ground (arith, eq_iff k v, get-put s k v m, read_groups_missing g (put s k m) (n + m) v)

-- A status that the query does not list keeps its number, which is 0.
read_groups_stats :
    (g s : Dict ℕ) (n : ℕ) (v : String)
    → IsDict g
    → or_zero (get s v) ≡ 0
    → at (read_groups g s n).0 v ≡ or_zero (get g v)
unfolding read_groups
read_groups_stats [] s n v h e = e
read_groups_stats ((k, m) ∷ g) s n v h e = ground (
  arith,
  eq_iff k v,
  get-put s k v m,
  read_groups_missing g (put s k m) (n + m) v,
  read_groups_stats g (put s k m) (n + m) v,
)

stats_counted :
    (ts : List Task) (v : String)
    → or_zero (get no_stats v) ≡ 0
    → at (read_groups (group_status ts) no_stats 0).0 v ≡ count_if (has_value v) ts
stats_counted ts v e =
    read_groups_stats (group_status ts) no_stats 0 v (group_status-IsDict ts) e
    ∙ get-group_status ts v

one_status :
    (s : TaskStatus) (a b c d e n : ℕ)
    → a + b + (c + d + e) ≡ n
    → (if status_value s == "SUCCESS" then suc a else a)
        + (if status_value s == "FAILED" then suc b else b)
        + ((if status_value s == "QUEUED" then suc c else c)
            + (if status_value s == "PROCESSING" then suc d else d)
            + (if status_value s == "RETRYING" then suc e else e))
      ≡ suc n
one_status queued a b c d e n h = omega arith
one_status processing a b c d e n h = omega arith
one_status retrying a b c d e n h = omega arith
one_status success a b c d e n h = omega arith
one_status failed a b c d e n h = omega arith

all_statuses :
    (ts : List Task)
    → count_if (has_value "SUCCESS") ts
        + count_if (has_value "FAILED") ts
        + (count_if (has_value "QUEUED") ts
            + count_if (has_value "PROCESSING") ts
            + count_if (has_value "RETRYING") ts)
      ≡ length ts
all_statuses [] = refl
all_statuses (t ∷ ts) =
    one_status t.status (count_if (has_value "SUCCESS") ts) (count_if (has_value "FAILED") ts)
      (count_if (has_value "QUEUED") ts) (count_if (has_value "PROCESSING") ts)
      (count_if (has_value "RETRYING") ts) (length ts) (all_statuses ts)

-- How a progress report counts the tasks of its scan.
pub record IsCounted (scan : Scan) (tasks : List Task) (p : Progress) : Type 0 where
  pub status : p.status ≡ scan.status
  pub total_tasks : p.total_tasks ≡ length tasks
  pub completed_tasks : p.completed_tasks ≡ count_if (has_value "SUCCESS") tasks
  pub failed_tasks : p.failed_tasks ≡ count_if (has_value "FAILED") tasks
  pub partition : p.completed_tasks + p.failed_tasks + p.pending_tasks ≡ p.total_tasks

total_counted : (ts : List Task) → (read_groups (group_status ts) no_stats 0).1 ≡ length ts
total_counted ts =
    omega (arith, read_groups_total (group_status ts) no_stats 0, sum-group_status ts)

progress_of-IsCounted :
    (scan : Scan) (tasks : List Task) → IsCounted scan tasks (progress_of scan tasks)
unfolding progress_of
progress_of-IsCounted scan tasks = record {
  status = refl;
  total_tasks = total_counted tasks;
  completed_tasks = stats_counted tasks "SUCCESS" refl;
  failed_tasks = stats_counted tasks "FAILED" refl;
  partition = omega (
    arith,
    total_counted tasks,
    stats_counted tasks "SUCCESS" refl,
    stats_counted tasks "FAILED" refl,
    stats_counted tasks "QUEUED" refl,
    stats_counted tasks "PROCESSING" refl,
    stats_counted tasks "RETRYING" refl,
    all_statuses tasks,
  );
}

-- The progress of a scan that exists has its status, counts all its tasks, those that succeeded and
-- those that failed, and the pending ones are all others.
pub get_scan_progress-IsCounted :
    (tables : Tables) (d : tables.Db) (scan_id : String) (scan : Scan)
    → tables.scan d scan_id ≡ some scan
    → (p : Progress) × (get_scan_progress tables scan_id d ≡ reply p)
      × IsCounted scan (tables.tasks d scan_id) p
unfolding get_scan_progress
get_scan_progress-IsCounted tables d scan_id scan found = (
  progress_of scan (tables.tasks d scan_id),
  rw (get_scan_progress, found),
  progress_of-IsCounted scan (tables.tasks d scan_id),
)
