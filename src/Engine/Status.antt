-- ===== src/Engine/Status.antt =====
-- The status of a task after the worker has processed it.
use text.Mathlib.TextPositions.{eq_refl}
use integrated_work_tll.Prelude.{
  ℕ, ◌+◌, String, ◌≡◌, inl, inr, refl, ap, ◌∙◌, Bool, true, false, [], ◌∷◌, ◌++◌, some, Bool-cases,
  Option-cases, any, is_empty, ltb, arith, if◌then◌else◌,
}
use integrated_work_tll.Redis.{Redis}
use integrated_work_tll.Queue.{QueuePayload, Codec}
use integrated_work_tll.Database.{
  Database, TaskStatus, processing, retrying, success, failed, TaskRow, is_active,
}
use integrated_work_tll.Engine.{
  Event, Permit, granted, timed_out, broke, Http, reply, raised, Run, Outcome, World, is_failed,
  outcome_of, announce, update_task_status, mark_task_processing, evaluate_scan_completion,
  save_response, handle_retry, abort, execute, after_permit, is_429, process_payload,
}

module _ (db : Database) (redis : Redis) (codec : Codec) (queue_name : String) (backoff : ℕ) where
  abbrev W : Type 0
  W = World db redis codec queue_name backoff

  pub rows-announce :
      (h : Bool) (e : Event) (w : W)
      → (announce db redis codec queue_name backoff h e w).rows ≡ w.rows
  rows-announce true e w = refl
  rows-announce false e w = refl

  module _ (id i : String) (known : db.as_uuid id ≡ some i) where
    pub task-update_task_status :
        (h : Bool) (status : TaskStatus) (w : W) (t : TaskRow)
        → db.task w.rows i ≡ some t
        → db.task (update_task_status db redis codec queue_name backoff true h id status w).rows i
          ≡ some (record t { status = status })
    unfolding update_task_status
    task-update_task_status h status w t e =
        rw (update_task_status, known, e)
          (ap (λ (r : db.Db). db.task r i) (rows-announce h _ _)
            ∙ db.task-store_task i _ w.rows i
            ∙ rw (eq_refl i))

  -- An evaluation of a scan leaves the tasks alone.
  pub task-evaluate_scan_completion :
      (commits h : Bool) (now : ℕ) (scan_id : String) (w : W) (j : String)
      → db.task
          (evaluate_scan_completion db redis codec queue_name backoff commits h now scan_id w).rows
          j
        ≡ db.task w.rows j
  unfolding evaluate_scan_completion
  task-evaluate_scan_completion commits h now scan_id w j =
      elim (Option-cases (db.as_uuid scan_id)) [
        | inl n ↦ rw (evaluate_scan_completion, n) refl
        | inr (i, e) ↦ elim (Option-cases (db.scan w.rows i)) [
          | inl n ↦ rw (evaluate_scan_completion, e, n) refl
          | inr (s, f) ↦ elim (Bool-cases (is_empty (db.statuses w.rows i))) [
            | inl a ↦ rw (evaluate_scan_completion, e, f, a) refl
            | inr a ↦ elim (Bool-cases (any is_active (db.statuses w.rows i))) [
              | inl b ↦ rw (evaluate_scan_completion, e, f, a, b) refl
              | inr b ↦ elim (Bool-cases commits) [
                | inl c ↦
                    rw (evaluate_scan_completion, e, f, a, b, c)
                      (ap (λ (r : db.Db). db.task r j) (rows-announce h _ _)
                        ∙ db.task-store_scan i _ w.rows j)
                | inr c ↦ rw (evaluate_scan_completion, e, f, a, b, c) refl
              ]
            ]
          ]
        ]
      ]

  module _ (id i : String) (known : db.as_uuid id ≡ some i) where
    -- What a saved response makes of its task.
    pub task-save_response :
        (run : Run) (o : Outcome) (w : W) (t : TaskRow)
        → run.commits_save ≡ true
        → db.task w.rows i ≡ some t
        → db.task (save_response db redis codec queue_name backoff run id o w).rows i
          ≡ some (record t { status = o.status; attempts = t.attempts + 1 })
    unfolding save_response
    task-save_response run o w t c e =
        rw (save_response, known, c, e)
          (task-evaluate_scan_completion run.commits_scan run.heard run.now t.scan_id _ i
            ∙ ap (λ (r : db.Db). db.task r i) (rows-announce run.heard _ _)
            ∙ db.task-store_response i _ _ i
            ∙ db.task-store_task i _ w.rows i
            ∙ rw (eq_refl i))

    task-handle_retry :
        (run : Run) (p : QueuePayload) (m : String) (w : W) (t : TaskRow)
        → p.task_id ≡ id
        → run.commits_update ≡ true
        → db.task w.rows i ≡ some t
        → db.task (handle_retry db redis codec queue_name backoff run p m w).rows i
          ≡ some (record t { status = if ltb p.attempt p.max_retries then retrying else failed })
    unfolding handle_retry update_task_status
    task-handle_retry run p m w t same c e = elim (Bool-cases (ltb p.attempt p.max_retries)) [
      | inl b ↦
          rw (handle_retry, b, same, c)
            (task-update_task_status id i known run.heard retrying w t e)
      | inr b ↦
          rw (handle_retry, b, same, c) (task-update_task_status id i known run.heard failed w t e)
    ]

    pub task-mark_task_processing :
        (commits h : Bool) (w : W) (t : TaskRow)
        → db.task w.rows i ≡ some t
        → (s : TaskStatus) × (db.task
              (mark_task_processing db redis codec queue_name backoff commits h id w).rows
              i
            ≡ some (record t { status = s }))
    unfolding mark_task_processing update_task_status
    task-mark_task_processing true h w t e =
        (_, task-update_task_status id i known h processing w t e)
    task-mark_task_processing false h w t e = (t.status, rw (update_task_status, known, e) e)

  -- The status that a run ends with: a success is final, a failure with attempts left is retried,
  -- and all else has failed.
  abbrev pub expected : Permit → Run → QueuePayload → TaskStatus
  expected (broke m) run p = failed
  expected timed_out run p = failed
  expected granted run p =
      if is_failed (outcome_of run.http).status
      then (if ltb p.attempt p.max_retries then retrying else failed)
      else success

  outcome_of-status :
      (x : Http)
      → (outcome_of x).status ≡ (if is_failed (outcome_of x).status then failed else success)
  unfolding outcome_of
  outcome_of-status (raised m) = refl
  outcome_of-status (reply code latency headers body) = ground arith

  module _ (i : String) (run : Run) (p : QueuePayload) (known : db.as_uuid p.task_id ≡ some i)
      (saves : run.commits_save ≡ true) (updates : run.commits_update ≡ true) where
    task-execute :
        (w : W) (t : TaskRow)
        → db.task w.rows i ≡ some t
        → db.task (execute db redis codec queue_name backoff run p w).rows i
          ≡ some (record t { status = expected granted run p; attempts = t.attempts + 1 })
    unfolding execute
    task-execute w t e =
        let o = outcome_of run.http in
        let told : W =
          if is_429 run.http then record w { slowed = w.slowed ++ p.url ∷ [] } else w in
        let same : told.rows ≡ w.rows = ground arith in
        let saved =
          task-save_response p.task_id i known run o told t saves
            (ap (λ (r : db.Db). db.task r i) same ∙ e) in
        elim (Bool-cases (is_failed o.status)) [
          | inl f ↦ simp f (task-handle_retry p.task_id i known run p _ _ _ refl updates saved)
          | inr f ↦
              let g : o.status ≡ success = outcome_of-status run.http ∙ rw f refl in
              simp f (
                saved
                ∙ ap (λ (x : TaskStatus). some (record t { status = x; attempts = t.attempts + 1 }))
                    g)
        ]

    task-after_permit :
        (permit : Permit) (w : W) (t : TaskRow)
        → db.task w.rows i ≡ some t
        → db.task (after_permit db redis codec queue_name backoff permit run p w).rows i
          ≡ some (record t { status = expected permit run p; attempts = t.attempts + 1 })
    unfolding after_permit abort
    task-after_permit (broke m) w t e = task-save_response p.task_id i known run _ w t saves e
    task-after_permit timed_out w t e = task-save_response p.task_id i known run _ w t saves e
    task-after_permit granted w t e = task-execute w t e

    -- A task that the database knows is never left in processing: where the database takes the saved
    -- response and the last update, the task ends as a success, to be retried or as failed, according
    -- to the limiter, the answer of the server and the attempts left, with one attempt more.
    pub task-process_payload :
        (w : W) (t : TaskRow)
        → db.task w.rows i ≡ some t
        → db.task (process_payload db redis codec queue_name backoff run p w).rows i
          ≡ some (record t { status = expected run.permit run p; attempts = t.attempts + 1 })
    unfolding process_payload
    task-process_payload w t there =
        let (s, marked) =
          task-mark_task_processing p.task_id i known run.commits_mark run.heard w t there in
        task-after_permit run.permit _ _ marked
