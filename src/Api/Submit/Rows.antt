-- ===== src/Api/Submit/Rows.antt =====
-- What `submit_tasks` leaves in the tables and in the queues.
use text.Mathlib.TextPositions.{eq_refl}
use integrated_work_tll.Prelude.{
  ℕ, suc, ◌+◌, ◌<◌, String, ◌≡◌, refl, ap, ◌∙◌, ◌⊎◌, inl, inr, Bool, List, [], ◌∷◌, ◌++◌, none,
  some, count_if, length, Option-cases, Bool-cases, All, eq_iff, arith, if◌then◌else◌,
}
use integrated_work_tll.Database.{queued}
use integrated_work_tll.Redis.{Redis}
use integrated_work_tll.Queue.{QueuePayload, Codec, publish_batch, pushes, group_payloads}
use integrated_work_tll.Queue.Routing.{texts_for, list-publish_batch}
use integrated_work_tll.Api.{Reply, reply}
use integrated_work_tll.Api.Tables.{Scan, Task, Tables}
use integrated_work_tll.Api.Submit.{
  TaskSubmit, Draws, is_waiting, started_scan, new_task, new_payload, new_payloads, add_tasks,
  submitted, submit_to, submit_tasks,
}

-- The row that a payload names: queued, and with the data that the worker is to send.
pub record IsRowOf (t : Task) (p : QueuePayload) : Type 0 where
  pub status : t.status ≡ queued
  pub scan_id : t.scan_id ≡ p.scan_id
  pub method : t.method ≡ p.method
  pub url : t.url ≡ p.url
  pub headers : t.headers ≡ p.headers
  pub payload : t.payload ≡ p.payload
  pub max_retries : t.max_retries ≡ p.max_retries

module _ (tables : Tables) (draws : Draws) (scan_id : String) where
  abbrev pub new_tasks : ℕ → List TaskSubmit → List Task
  new_tasks k [] = []
  new_tasks k (t_data ∷ tasks) = new_task draws scan_id k t_data ∷ new_tasks (suc k) tasks

  abbrev pub IsStored : tables.Db → QueuePayload → Type 0
  IsStored d p = (t : Task) × (tables.task d p.task_id ≡ some t) × IsRowOf t p

  scan-add_tasks :
      (k : ℕ) (tasks : List TaskSubmit) (d : tables.Db) (j : String)
      → tables.scan (add_tasks draws scan_id tables k tasks d) j ≡ tables.scan d j
  scan-add_tasks k [] d j = refl
  scan-add_tasks k (t_data ∷ tasks) d j =
      scan-add_tasks (suc k) tasks (tables.add_task (new_task draws scan_id k t_data) d) j
      ∙ tables.scan-add_task (new_task draws scan_id k t_data) d j

  count-add_tasks :
      (p : Task → Bool) (k : ℕ) (tasks : List TaskSubmit) (d : tables.Db)
      → count_if p (tables.tasks (add_tasks draws scan_id tables k tasks d) scan_id)
        ≡ count_if p (new_tasks k tasks) + count_if p (tables.tasks d scan_id)
  unfolding new_task
  count-add_tasks p k [] d = omega arith
  count-add_tasks p k (t_data ∷ tasks) d =
      let t = new_task draws scan_id k t_data in
      ground (
        arith,
        eq_refl scan_id,
        count-add_tasks p (suc k) tasks (tables.add_task t d),
        tables.tasks-add_task p t d scan_id,
      )

  module _ (distinct : (i j : ℕ) → draws.id i ≡ draws.id j → i ≡ j) where
    -- Later rows have other ids.
    task-add_tasks :
        (i k : ℕ) (tasks : List TaskSubmit) (d : tables.Db)
        → i < k
        → tables.task (add_tasks draws scan_id tables k tasks d) (draws.id i)
          ≡ tables.task d (draws.id i)
    unfolding new_task
    task-add_tasks i k [] d h = refl
    task-add_tasks i k (t_data ∷ tasks) d h =
        let t = new_task draws scan_id k t_data in
        ground (
          arith,
          eq_iff (draws.id k) (draws.id i),
          distinct k i,
          task-add_tasks i (suc k) tasks (tables.add_task t d),
          tables.task-add_task t d (draws.id i),
        )

    All-add_tasks :
        (k : ℕ) (tasks : List TaskSubmit) (d : tables.Db)
        → All
            (IsStored (add_tasks draws scan_id tables k tasks d))
            (new_payloads draws scan_id k tasks)
    unfolding new_task new_payload
    All-add_tasks k [] d = tt
    All-add_tasks k (t_data ∷ tasks) d =
        let t = new_task draws scan_id k t_data in
        (
          (
            t,
            task-add_tasks k (suc k) tasks (tables.add_task t d) (omega arith)
                ∙ tables.task-add_task t d (draws.id k)
                ∙ rw (eq_refl (draws.id k)),
            record {
              status = refl;
              scan_id = refl;
              method = refl;
              url = refl;
              headers = refl;
              payload = refl;
              max_retries = refl;
            },
          ),
          All-add_tasks (suc k) tasks (tables.add_task t d),
        )

    module _ (redis : Redis) (codec : Codec) (t_data : TaskSubmit) (tasks : List TaskSubmit)
        (scan : Scan) (d : tables.Db) (s : redis.Store) where
      abbrev pub payloads : List QueuePayload
      payloads = new_payloads draws scan_id 0 (t_data ∷ tasks)

      -- Redis took every payload, or refused the transaction and nothing was sent.
      abbrev pub IsSent : Reply String → redis.Store → Type 0
      IsSent r s' =
          ((r ≡ reply (submitted tables draws redis codec (length (t_data ∷ tasks))))
            × ((q : String)
                → redis.list s' q
                  ≡ redis.list s q ++ texts_for redis codec "tasks:default" q payloads))
          ⊎ ((r ≡ reply (submitted tables draws redis codec 0))
              × (s' ≡ s)
              × (redis.transaction (pushes (group_payloads redis codec "tasks:default" payloads []))
                    s
                  ≡ none))

      pub record IsSubmitted (r : Reply String) (d' : tables.Db) (s' : redis.Store) : Type 0 where
        pub scan_row : tables.scan d' scan_id ≡ some (started_scan draws.now scan)
        pub stored : All (IsStored d') payloads
        pub counted :
            (p : Task → Bool)
            → count_if p (tables.tasks d' scan_id)
              ≡ count_if p (new_tasks 0 (t_data ∷ tasks)) + count_if p (tables.tasks d scan_id)
        pub sent : IsSent r s'

      length-new_payloads :
          (k : ℕ) (xs : List TaskSubmit) → length (new_payloads draws scan_id k xs) ≡ length xs
      length-new_payloads k [] = refl
      length-new_payloads k (x ∷ xs) = omega (arith, length-new_payloads (suc k) xs)

      at_lists :
          (t : redis.Store)
          → redis.transaction (pushes (group_payloads redis codec "tasks:default" payloads [])) s
            ≡ some t
          → (q : String)
          → redis.list t q ≡ redis.list s q ++ texts_for redis codec "tasks:default" q payloads
      unfolding publish_batch
      at_lists t e q =
          let first =
            new_payload draws scan_id (new_task draws scan_id 0 t_data) t_data.priority_level in
          let rest = new_payloads draws scan_id 1 tasks in
          (list-publish_batch redis codec "tasks:default" first rest s t (length rest) (rw e)).1 q

      abbrev started_rows : tables.Db
      started_rows =
          if is_waiting scan.status then tables.store_scan (started_scan draws.now scan) d else d

      scan-stored :
          (new : Scan) → new.id ≡ scan_id → tables.scan (tables.store_scan new d) scan_id ≡ some new
      scan-stored new e = tables.scan-store_scan new d scan_id ∙ rw (e, eq_refl scan_id)

      id-started_scan : (started_scan draws.now scan).id ≡ scan.id
      id-started_scan = ground arith

      scan-started_rows :
          tables.scan d scan_id ≡ some scan
          → scan.id ≡ scan_id
          → tables.scan started_rows scan_id ≡ some (started_scan draws.now scan)
      scan-started_rows found same = elim (Bool-cases (is_waiting scan.status)) [
        | inl e ↦
            ap
              (λ (b : Bool).
                tables.scan (if b then tables.store_scan (started_scan draws.now scan) d else d)
                  scan_id)
              e
            ∙ scan-stored (started_scan draws.now scan) (id-started_scan ∙ same)
        | inr e ↦ simp (e, found)
      ]

      tasks-started_rows : tables.tasks started_rows scan_id ≡ tables.tasks d scan_id
      tasks-started_rows =
          ground (arith, tables.tasks-store_scan (started_scan draws.now scan) d scan_id)

      IsSent-publish_batch :
          IsSent
            (reply (
              submitted tables draws redis codec
                (publish_batch redis codec "tasks:default" payloads s).0))
            (publish_batch redis codec "tasks:default" payloads s).1
      unfolding publish_batch
      IsSent-publish_batch =
          elim (Option-cases (
            redis.transaction (pushes (group_payloads redis codec "tasks:default" payloads []))
              s)) [
                | inl e ↦ inr (rw e, rw e, e)
                | inr (t, e) ↦ inl (rw (e, length-new_payloads 1 tasks), rw e (at_lists t e))
              ]

      IsSubmitted-submit_to :
          tables.scan d scan_id ≡ some scan
          → scan.id ≡ scan_id
          → IsSubmitted
              (submit_to tables draws redis codec scan scan_id (t_data ∷ tasks) (d, s)).0
              (submit_to tables draws redis codec scan scan_id (t_data ∷ tasks) (d, s)).1.0
              (submit_to tables draws redis codec scan scan_id (t_data ∷ tasks) (d, s)).1.1
      IsSubmitted-submit_to found same = record {
        scan_row =
            scan-add_tasks 0 (t_data ∷ tasks) started_rows scan_id ∙ scan-started_rows found same;
        stored = All-add_tasks 0 (t_data ∷ tasks) started_rows;
        counted = λ p.
            count-add_tasks p 0 (t_data ∷ tasks) started_rows
            ∙ ap (λ (ts : List Task). count_if p (new_tasks 0 (t_data ∷ tasks)) + count_if p ts)
                tasks-started_rows;
        sent = IsSent-publish_batch;
      }

      -- With fresh ids, a request for a scan that exists sets a waiting scan to running, adds one
      -- queued row for each of its tasks and no other row, and every payload that it sends names
      -- such a row with the same data. Its answer counts all of them where Redis took them, each at
      -- the end of the list of its priority; and none where Redis refused, though the rows stay.
      pub submit_tasks-IsSubmitted :
          tables.scan d scan_id ≡ some scan
          → scan.id ≡ scan_id
          → IsSubmitted
              (submit_tasks tables draws redis codec scan_id (t_data ∷ tasks) (d, s)).0
              (submit_tasks tables draws redis codec scan_id (t_data ∷ tasks) (d, s)).1.0
              (submit_tasks tables draws redis codec scan_id (t_data ∷ tasks) (d, s)).1.1
      unfolding submit_tasks new_task new_payload
      submit_tasks-IsSubmitted found same =
          rw (submit_tasks, found) (IsSubmitted-submit_to found same)
