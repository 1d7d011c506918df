-- ===== src/Api/Tables/Memory.antt =====
-- Tables in memory that meet the assumptions, as what each query answers; a new task stands first.
use integrated_work_tll.Prelude.{
  ◌+◌, String, ◌==◌, ◌≡◌, refl, Bool, true, false, List, [], ◌∷◌, Option, none, some, select, not,
  count_if, arith, if◌then◌else◌,
}
use integrated_work_tll.Api.Tables.{Scan, Task, Response, Tables}

pub record MemoryTables : Type 0 where
  pub scan_list : List Scan
  pub scan_of : String → Option Scan
  pub task_of : String → Option Task
  pub tasks_of : String → List Task
  pub response_of : String → Option Response

abbrev store_scan : Scan → MemoryTables → MemoryTables
store_scan s d = record d {
  scan_list = s ∷ d.scan_list;
  scan_of = λ j. if s.id == j then some s else d.scan_of j;
}

abbrev add_task : Task → MemoryTables → MemoryTables
add_task t d = record d {
  task_of = λ j. if t.id == j then some t else d.task_of j;
  tasks_of = λ j. if t.scan_id == j then t ∷ d.tasks_of j else d.tasks_of j;
}

-- What is left of a row that belongs to a task.
abbrev unless_of : {A : Type 0} → String → Option Task → Option A → Option A
unless_of s none x = x
unless_of s (some t) x = if s == t.scan_id then none else x

abbrev delete_scan : String → MemoryTables → MemoryTables
delete_scan s d = record {
  scan_list = select (λ x. not (x.id == s)) d.scan_list;
  scan_of = λ j. if s == j then none else d.scan_of j;
  task_of = λ i. unless_of s (d.task_of i) (d.task_of i);
  tasks_of = λ j. if s == j then [] else d.tasks_of j;
  response_of = λ i. unless_of s (d.task_of i) (d.response_of i);
}

pub count-added :
    (p : Task → Bool) (t : Task) (ts : List Task) (b : Bool)
    → count_if p (if b then t ∷ ts else ts) ≡ count_if p (if b then t ∷ [] else []) + count_if p ts
count-added p t ts true = ground arith
count-added p t ts false = ground arith

pub task-deleted :
    (s : String) (t : Task) (o : Option Task)
    → o ≡ some t
    → unless_of s o o ≡ (if s == t.scan_id then none else some t)
task-deleted s t none e = ground arith
task-deleted s t (some u) e = ground arith

pub response-deleted :
    (s : String) (t : Task) (o : Option Task) (r : Option Response)
    → o ≡ some t
    → unless_of s o r ≡ (if s == t.scan_id then none else r)
response-deleted s t none r e = ground arith
response-deleted s t (some u) r e = ground arith

abbrev pub memory_tables : Tables
memory_tables = record {
  Db = MemoryTables;
  scan = λ d. d.scan_of;
  scans = λ d. d.scan_list;
  tasks = λ d. d.tasks_of;
  task = λ d. d.task_of;
  response = λ d. d.response_of;
  store_scan = store_scan;
  add_task = add_task;
  delete_scan = delete_scan;
  scan-store_scan = λ s d j. refl;
  tasks-store_scan = λ s d j. refl;
  task-store_scan = λ s d j. refl;
  scan-add_task = λ t d j. refl;
  task-add_task = λ t d j. refl;
  tasks-add_task = λ p t d j. count-added p t (d.tasks_of j) (t.scan_id == j);
  scan-delete_scan = λ s d j. refl;
  tasks-delete_scan = λ s d j. refl;
  task-delete_scan = λ s d i t e. task-deleted s t (d.task_of i) e;
  response-delete_scan = λ s d i t e. response-deleted s t (d.task_of i) (d.response_of i) e;
}
