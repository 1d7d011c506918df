-- ===== src/Engine/Premature.antt =====
-- A scan whose last open task fails with attempts left.
use text.Mathlib.TextPositions.{eq_refl}
use integrated_work_tll.Prelude.{
  ℕ, ◌+◌, String, ◌==◌, ◌≡◌, inl, inr, refl, sym, ap, ◌∙◌, Bool, true, false, not, some, Bool-cases,
  Option-cases, ltb, arith, if◌then◌else◌,
}
use integrated_work_tll.Redis.{Redis}
use integrated_work_tll.Queue.{QueuePayload, Codec}
use integrated_work_tll.Database.{
  Database, TaskStatus, processing, retrying, failed, ScanStatus, TaskRow, ScanRow, is_active,
  is_success,
}
use integrated_work_tll.Engine.{
  announce, task_completed, granted, Run, Outcome, World, is_failed, is_429, outcome_of,
  update_task_status, mark_task_processing, save_response, handle_retry, execute, after_permit,
  process_payload,
}
use integrated_work_tll.Engine.Status.{rows-announce, task-mark_task_processing}
use mathlib.Core.Option.{some-injective}
use integrated_work_tll.Engine.Completion.{Every, evaluate_scan_completion-IsJudged}

module _ (db : Database) (redis : Redis) (codec : Codec) (queue_name : String) (backoff : ℕ) where
  abbrev W : Type 0
  W = World db redis codec queue_name backoff

  scan-update_task_status :
      (commits h : Bool) (id : String) (status : TaskStatus) (w : W) (j : String)
      → db.scan (update_task_status db redis codec queue_name backoff commits h id status w).rows j
        ≡ db.scan w.rows j
  unfolding update_task_status
  scan-update_task_status commits h id status w j = elim (Option-cases (db.as_uuid id)) [
    | inl n ↦ rw (update_task_status, n) refl
    | inr (i, e) ↦ elim (Option-cases (db.task w.rows i)) [
      | inl n ↦ rw (update_task_status, e, n) refl
      | inr (t, f) ↦ elim (Bool-cases commits) [
        | inl c ↦
            rw (update_task_status, e, f, c)
              (ap (λ (r : db.Db). db.scan r j)
                  (rows-announce db redis codec queue_name backoff h _ _)
                ∙ db.scan-store_task i _ w.rows j)
        | inr c ↦ rw (update_task_status, e, f, c) refl
      ]
    ]
  ]

  scan-handle_retry :
      (run : Run) (p : QueuePayload) (m : String) (w : W) (j : String)
      → db.scan (handle_retry db redis codec queue_name backoff run p m w).rows j ≡ db.scan w.rows j
  unfolding handle_retry
  scan-handle_retry run p m w j = elim (Bool-cases (ltb p.attempt p.max_retries)) [
    | inl b ↦
        rw (handle_retry, b)
          (scan-update_task_status run.commits_update run.heard p.task_id retrying w j)
    | inr b ↦
        rw (handle_retry, b)
          (scan-update_task_status run.commits_update run.heard p.task_id failed w j)
  ]

  module _ (id i : String) (known : db.as_uuid id ≡ some i) where
    -- A change of one status leaves the other tasks alone.
    task_other-update_task_status :
        (commits h : Bool) (status : TaskStatus) (w : W) (j : String)
        → (i == j) ≡ false
        → db.task
            (update_task_status db redis codec queue_name backoff commits h id status w).rows
            j
          ≡ db.task w.rows j
    unfolding update_task_status
    task_other-update_task_status commits h status w j far =
        elim (Option-cases (db.task w.rows i)) [
          | inl n ↦ rw (update_task_status, known, n) refl
          | inr (t, f) ↦ elim (Bool-cases commits) [
            | inl c ↦
                rw (update_task_status, known, f, c)
                  (ap (λ (r : db.Db). db.task r j)
                      (rows-announce db redis codec queue_name backoff h _ _)
                    ∙ db.task-store_task i _ w.rows j
                    ∙ rw far refl)
            | inr c ↦ rw (update_task_status, known, f, c) refl
          ]
        ]

    -- The other tasks of a scan are done.
    abbrev pub OthersDone : db.Db → String → Type 0
    OthersDone d scan =
        (j : String) (u : TaskRow)
        → (i == j) ≡ false
        → db.task d j ≡ some u
        → u.scan_id ≡ scan
        → not (is_active u.status) ≡ true

    -- The world between the saved response and the evaluation of the scan.
    abbrev saved : Run → Outcome → W → TaskRow → W
    saved run o w t =
        announce db redis codec queue_name backoff run.heard
          (task_completed id t.scan_id o.status o.row.status_code o.row.latency_ms)
          (record w {
            rows = db.store_response i o.row (
                db.store_task i (record t { status = o.status; attempts = t.attempts + 1 }) w.rows);
          })

    task-saved :
        (run : Run) (o : Outcome) (w : W) (t : TaskRow) (j : String)
        → db.task (saved run o w t).rows j ≡ (
            if i == j
            then some (record t { status = o.status; attempts = t.attempts + 1 })
            else db.task w.rows j)
    task-saved run o w t j =
        ap (λ (r : db.Db). db.task r j)
          (rows-announce db redis codec queue_name backoff run.heard _ _)
        ∙ db.task-store_response i _ _ j
        ∙ db.task-store_task i _ w.rows j

    scan-saved :
        (run : Run) (o : Outcome) (w : W) (t : TaskRow) (j : String)
        → db.scan (saved run o w t).rows j ≡ db.scan w.rows j
    scan-saved run o w t j =
        ap (λ (r : db.Db). db.scan r j)
          (rows-announce db redis codec queue_name backoff run.heard _ _)
        ∙ db.scan-store_response i _ _ j
        ∙ db.scan-store_task i _ w.rows j

    failed-done :
        (x : TaskStatus)
        → is_failed x ≡ true
        → (not (is_active x) ≡ true) × (not (is_success x) ≡ true)
    failed-done failed e = (refl, refl)
    failed-done processing e = ground arith
    failed-done retrying e = ground arith
    failed-done TaskStatus.queued e = ground arith
    failed-done TaskStatus.success e = ground arith

    all_done :
        (run : Run) (o : Outcome) (w : W) (t : TaskRow)
        → is_failed o.status ≡ true
        → OthersDone w.rows t.scan_id
        → Every db redis codec queue_name backoff
            (λ x. not (is_active x))
            (saved run o w t).rows
            t.scan_id
    all_done run o w t bad others j u e f = elim (Bool-cases (i == j)) [
      | inl here ↦
          let same : some (record t { status = o.status; attempts = t.attempts + 1 }) ≡ some u =
            sym (task-saved run o w t j ∙ rw here refl) ∙ e in
          let st : o.status ≡ u.status = ap (λ (x : TaskRow). x.status) (some-injective _ _ same) in
          ap (λ (x : TaskStatus). not (is_active x)) (sym st) ∙ (failed-done o.status bad).0
      | inr far ↦ others j u far (sym (task-saved run o w t j ∙ rw far refl) ∙ e) f
    ]

    scan-save_response :
        (run : Run) (o : Outcome) (w : W) (t : TaskRow) (s : ScanRow)
        → run.commits_save ≡ true
        → run.commits_scan ≡ true
        → db.as_uuid t.scan_id ≡ some t.scan_id
        → db.task w.rows i ≡ some t
        → db.scan w.rows t.scan_id ≡ some s
        → is_failed o.status ≡ true
        → OthersDone w.rows t.scan_id
        → db.scan (save_response db redis codec queue_name backoff run id o w).rows t.scan_id
          ≡ some (record { status = ScanStatus.failed; finished_at = some run.now })
    unfolding save_response
    scan-save_response run o w t s saves closes known_scan there scan_there bad others =
        let judged =
          evaluate_scan_completion-IsJudged db redis codec queue_name backoff t.scan_id known_scan
            run.heard run.now (saved run o w t) s (scan-saved run o w t t.scan_id ∙ scan_there) in
        rw (save_response, known)
          (simp (saves, there, closes)
            (judged.unsuccessful (all_done run o w t bad others) (
              i,
              record t { status = o.status; attempts = t.attempts + 1 },
              task-saved run o w t i ∙ rw (eq_refl i) refl,
              refl,
              (failed-done o.status bad).1,
            )))

  module _ (i : String) (run : Run) (p : QueuePayload) (t : TaskRow) (s : ScanRow)
      (known : db.as_uuid p.task_id ≡ some i) (known_scan : db.as_uuid t.scan_id ≡ some t.scan_id)
      (saves : run.commits_save ≡ true) (closes : run.commits_scan ≡ true)
      (bad : is_failed (outcome_of run.http).status ≡ true) where
    scan-execute :
        (status : TaskStatus) (w : W)
        → db.task w.rows i ≡ some (record t { status = status })
        → db.scan w.rows t.scan_id ≡ some s
        → OthersDone p.task_id i known w.rows t.scan_id
        → db.scan (execute db redis codec queue_name backoff run p w).rows t.scan_id
          ≡ some (record { status = ScanStatus.failed; finished_at = some run.now })
    unfolding execute
    scan-execute status w there scan_there others = elim (Bool-cases (is_429 run.http)) [
      | inl slow ↦
          simp (slow, bad)
            (scan-handle_retry run p _ _ t.scan_id
              ∙ scan-save_response p.task_id i known run (outcome_of run.http) _
                  (record t { status = status }) s saves closes known_scan there scan_there bad
                  others)
      | inr free ↦
          simp (free, bad)
            (scan-handle_retry run p _ _ t.scan_id
              ∙ scan-save_response p.task_id i known run (outcome_of run.http) _
                  (record t { status = status }) s saves closes known_scan there scan_there bad
                  others)
    ]

    -- Where the last open task of a scan fails, the scan is marked as failed and finished, whether or
    -- not the task has attempts left: the limiter lets the task go, the database takes the response
    -- and the change of the scan, and no other task of the scan is open.
    pub scan-process_payload :
        (w : W)
        → run.permit ≡ granted
        → db.task w.rows i ≡ some t
        → db.scan w.rows t.scan_id ≡ some s
        → OthersDone p.task_id i known w.rows t.scan_id
        → db.scan (process_payload db redis codec queue_name backoff run p w).rows t.scan_id
          ≡ some (record { status = ScanStatus.failed; finished_at = some run.now })
    unfolding process_payload after_permit mark_task_processing
    scan-process_payload w may_go there scan_there others =
        let (status, marked) =
          task-mark_task_processing db redis codec queue_name backoff p.task_id i known
            run.commits_mark run.heard w t there in
        simp may_go (
          scan-execute status _ marked
            (scan-update_task_status run.commits_mark run.heard p.task_id processing w t.scan_id
              ∙ scan_there)
            (λ j u far e. others j u far (
              sym (
                task_other-update_task_status p.task_id i known run.commits_mark run.heard
                  processing w j far)
              ∙ e)))
