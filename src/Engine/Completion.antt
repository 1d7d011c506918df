-- ===== src/Engine/Completion.antt =====
-- When a scan is marked as completed or failed.
use text.Mathlib.TextPositions.{eq_refl}
use integrated_work_tll.Prelude.{
  ℕ, String, ◌≡◌, ◌≢◌, inl, inr, refl, ap, ◌∙◌, Bool, true, false, not, List, [], ◌∷◌, some,
  Bool-cases, any, all, is_empty, arith, if◌then◌else◌,
}
use integrated_work_tll.Redis.{Redis}
use integrated_work_tll.Queue.{Codec}
use integrated_work_tll.Database.{
  Database, TaskStatus, success, retrying, failed, ScanStatus, completed, TaskRow, ScanRow,
  is_active, is_success,
}
use integrated_work_tll.Engine.{World, evaluate_scan_completion}
use integrated_work_tll.Engine.Status.{rows-announce}

all-not : (ss : List TaskStatus) → all is_success ss ≡ not (any (λ s. not (is_success s)) ss)
all-not [] = refl
all-not (s ∷ ss) = ground (arith, all-not ss)

is_empty-any :
    (p : TaskStatus → Bool) (ss : List TaskStatus) → any p ss ≡ true → is_empty ss ≡ false
is_empty-any p [] e = ground arith
is_empty-any p (s ∷ ss) e = refl

some_true : (ss : List TaskStatus) → any (λ s. true) ss ≡ false → is_empty ss ≡ true
some_true [] e = refl
some_true (s ∷ ss) e = ground arith

success-not_active : (x : TaskStatus) → is_success x ≡ true → not (is_active x) ≡ true
success-not_active success e = refl
success-not_active TaskStatus.queued e = ground arith
success-not_active TaskStatus.processing e = ground arith
success-not_active retrying e = ground arith
success-not_active failed e = refl

module _ (db : Database) (redis : Redis) (codec : Codec) (queue_name : String) (backoff : ℕ) where
  abbrev W : Type 0
  W = World db redis codec queue_name backoff

  -- Some task of the scan, or every one, has a status.
  abbrev pub Some : (TaskStatus → Bool) → db.Db → String → Type 0
  Some p d scan =
      (i : String) × (t : TaskRow) × (db.task d i ≡ some t)
      × (t.scan_id ≡ scan)
      × (p t.status ≡ true)

  abbrev pub Every : (TaskStatus → Bool) → db.Db → String → Type 0
  Every p d scan =
      (i : String) (t : TaskRow) → db.task d i ≡ some t → t.scan_id ≡ scan → p t.status ≡ true

  any-statuses :
      (p : TaskStatus → Bool) (d : db.Db) (scan : String)
      → Some p d scan
      → any p (db.statuses d scan) ≡ true
  any-statuses p d scan (i, t, e, f, g) = db.statuses_listed p d scan i t e f g

  none-statuses :
      (p : TaskStatus → Bool) (d : db.Db) (scan : String)
      → Every (λ s. not (p s)) d scan
      → any p (db.statuses d scan) ≡ false
  none-statuses p d scan h = elim (Bool-cases (any p (db.statuses d scan))) [
    | inl e ↦
        let (i, t, there, of, g) = db.statuses_only p d scan e in ground (arith, h i t there of)
    | inr e ↦ e
  ]

  -- What an evaluation makes of the row `s` of a scan.
  pub record IsJudged (scan : String) (now : ℕ) (s : ScanRow) (before after : W) : Type 0 where
    pub empty :
        ((i : String) (t : TaskRow) → db.task before.rows i ≡ some t → t.scan_id ≢ scan)
        → after.rows ≡ before.rows
    pub unfinished : Some is_active before.rows scan → after.rows ≡ before.rows
    pub succeeded :
        Some is_success before.rows scan
        → Every is_success before.rows scan
        → db.scan after.rows scan ≡ some (record { status = completed; finished_at = some now })
    pub unsuccessful :
        Every (λ x. not (is_active x)) before.rows scan
        → Some (λ x. not (is_success x)) before.rows scan
        → db.scan after.rows scan
          ≡ some (record { status = ScanStatus.failed; finished_at = some now })

  module _ (scan : String) (known : db.as_uuid scan ≡ some scan) (h : Bool) (now : ℕ) (w : W)
      (s : ScanRow) (there : db.scan w.rows scan ≡ some s) where
    abbrev judged : W
    judged = evaluate_scan_completion db redis codec queue_name backoff true h now scan w

    scan-judged :
        (status : ScanStatus)
        → is_empty (db.statuses w.rows scan) ≡ false
        → any is_active (db.statuses w.rows scan) ≡ false
        → (if all is_success (db.statuses w.rows scan) then completed else ScanStatus.failed)
          ≡ status
        → db.scan judged.rows scan ≡ some (record { status = status; finished_at = some now })
    unfolding evaluate_scan_completion
    scan-judged status a b c =
        rw (evaluate_scan_completion, known, there, a, b)
          (ap (λ (r : db.Db). db.scan r scan)
              (rows-announce db redis codec queue_name backoff h _ _)
            ∙ db.scan-store_scan scan _ w.rows scan
            ∙ rw (eq_refl scan, c) refl)

    unchanged : any is_active (db.statuses w.rows scan) ≡ true → judged.rows ≡ w.rows
    unfolding evaluate_scan_completion
    unchanged b = rw (evaluate_scan_completion, known, there, is_empty-any is_active _ b, b) refl

    no_statuses :
        ((i : String) (t : TaskRow) → db.task w.rows i ≡ some t → t.scan_id ≢ scan)
        → is_empty (db.statuses w.rows scan) ≡ true
    no_statuses h =
        some_true (db.statuses w.rows scan)
          (none-statuses (λ x. true) w.rows scan (λ i t e f. absurd (h i t e f)))

    no_tasks :
        ((i : String) (t : TaskRow) → db.task w.rows i ≡ some t → t.scan_id ≢ scan)
        → judged.rows ≡ w.rows
    unfolding evaluate_scan_completion
    no_tasks h = rw (evaluate_scan_completion, known, there, no_statuses h) refl

    -- Where the database takes the change, an evaluation of a scan leaves it if it has no task and
    -- while one of its tasks is waiting, running or to be retried; a scan with tasks is completed when
    -- all of them have succeeded, and fails when all are done and one has not succeeded.
    pub evaluate_scan_completion-IsJudged : IsJudged scan now s w judged
    evaluate_scan_completion-IsJudged = record {
      empty = no_tasks;
      unfinished = λ x. unchanged (any-statuses is_active w.rows scan x);
      succeeded = λ one every.
          scan-judged completed
            (is_empty-any is_success _ (any-statuses is_success w.rows scan one))
            (none-statuses is_active w.rows scan
              (λ i t e f. success-not_active t.status (every i t e f)))
            (rw
              (
                all-not (db.statuses w.rows scan),
                none-statuses (λ x. not (is_success x)) w.rows scan
                    (λ i t e f. ground (arith, every i t e f)),
              )
              refl);
      unsuccessful = λ done one.
          scan-judged ScanStatus.failed
            (is_empty-any (λ x. not (is_success x)) _
              (any-statuses (λ x. not (is_success x)) w.rows scan one))
            (none-statuses is_active w.rows scan done)
            (rw
              (
                all-not (db.statuses w.rows scan),
                any-statuses (λ x. not (is_success x)) w.rows scan one,
              )
              refl);
    }
