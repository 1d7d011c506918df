-- ===== src/Database/Memory.antt =====
-- A database in memory that meets the assumptions: every text is the form of its own id.
use text.Mathlib.TextPositions.{eq_refl}
use integrated_work_tll.Prelude.{
  String, ◌==◌, ◌≡◌, inl, inr, refl, Bool, true, false, List, [], ◌∷◌, some, Dict, get, put, keys,
  get-put, get_missing, IsDict, put-IsDict, any, elem, Bool-cases, arith, eq_iff, if◌then◌else◌,
}
use integrated_work_tll.Database.{TaskStatus, TaskRow, ScanRow, ResponseRow, Database}

pub record MemoryDb : Type 0 where
  pub tasks : Dict TaskRow
  pub distinct : IsDict tasks
  pub scans : Dict ScanRow
  pub responses : Dict ResponseRow

abbrev pub statuses_of : Dict TaskRow → String → List TaskStatus
statuses_of [] s = []
statuses_of ((i, t) ∷ d) s = if t.scan_id == s then t.status ∷ statuses_of d s else statuses_of d s

pub listed :
    (p : TaskStatus → Bool) (d : Dict TaskRow) (s i : String) (t : TaskRow)
    → get d i ≡ some t
    → t.scan_id ≡ s
    → p t.status ≡ true
    → any p (statuses_of d s) ≡ true
listed p [] s i t e f g = ground arith
listed p ((j, u) ∷ d) s i t e f g = ground (arith, eq_iff j i, eq_iff u.scan_id s, listed p d s i t)

abbrev pub Found : (TaskStatus → Bool) → Dict TaskRow → String → Type 0
Found p d s =
    (i : String) × (t : TaskRow) × (get d i ≡ some t) × (t.scan_id ≡ s) × (p t.status ≡ true)

Found-later :
    (p : TaskStatus → Bool) (j : String) (u : TaskRow) (d : Dict TaskRow) (s : String)
    → elem j (keys d) ≡ false
    → Found p d s
    → Found p ((j, u) ∷ d) s
Found-later p j u d s h (i, t, e, f, g) =
    (i, t, ground (arith, eq_iff j i, get_missing d j h), f, g)

Found-here :
    (p : TaskStatus → Bool) (j : String) (u : TaskRow) (d : Dict TaskRow) (s : String)
    → (u.scan_id == s) ≡ true
    → p u.status ≡ true
    → Found p ((j, u) ∷ d) s
Found-here p j u d s e g = (j, u, rw (eq_refl j), (eq_iff u.scan_id s).0 e, g)

pub only :
    (p : TaskStatus → Bool) (d : Dict TaskRow) (s : String)
    → IsDict d
    → any p (statuses_of d s) ≡ true
    → Found p d s
only p [] s h e = ground arith
only p ((j, u) ∷ d) s h e = elim (Bool-cases (u.scan_id == s)) [
  | inl here ↦ elim (Bool-cases (p u.status)) [
    | inl g ↦ Found-here p j u d s here g
    | inr g ↦ Found-later p j u d s h.0 (only p d s h.1 (ground arith))
  ]
  | inr away ↦ Found-later p j u d s h.0 (only p d s h.1 (ground arith))
]

abbrev pub memory_db : Database
memory_db = record {
  Db = MemoryDb;
  as_uuid = λ s. some s;
  task = λ d i. get d.tasks i;
  scan = λ d i. get d.scans i;
  response = λ d i. get d.responses i;
  statuses = λ d s. statuses_of d.tasks s;
  store_task =
      λ i t d. record d { tasks = put d.tasks i t; distinct = put-IsDict d.tasks i t d.distinct };
  store_scan = λ i s d. record d { scans = put d.scans i s };
  store_response = λ i r d. record d { responses = put d.responses i r };
  task-store_task = λ i t d j. get-put d.tasks i j t;
  task-store_scan = λ i s d j. refl;
  task-store_response = λ i r d j. refl;
  scan-store_task = λ i t d j. refl;
  scan-store_scan = λ i s d j. get-put d.scans i j s;
  scan-store_response = λ i r d j. refl;
  statuses_listed = λ p d s i t e f g. listed p d.tasks s i t e f g;
  statuses_only = λ p d s e. only p d.tasks s d.distinct e;
}
