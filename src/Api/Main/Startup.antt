-- ===== src/Api/Main/Startup.antt =====
-- What a start of the application leaves of the tables and of the workers.
use integrated_work_tll.Prelude.{
  ℕ, String, ◌&◌, ◌≡◌, refl, ◌∙◌, Bool, true, false, length, Option, none, some, ◌⊎◌, inl, inr,
  Bool-cases,
}
use integrated_work_tll.Pool.{Pool, Worker, start, scale_up}
use integrated_work_tll.Analysis.{Run, generate_report}
use integrated_work_tll.Api.{http_error}
use integrated_work_tll.Api.Tables.{Tables}
use integrated_work_tll.Api.Progress.{get_scan_progress}
use integrated_work_tll.Api.Views.{get_task_details}
use integrated_work_tll.Api.Reports.{get_scan_report}
use integrated_work_tll.Api.Main.{Schema, App, is_alive, dev_pool, startup_event}

module _ (tables : Tables) (schema : Schema tables) where
  -- Nothing is stored, and the pool of the process runs exactly where Redis does not.
  pub record IsFresh (redis : Option Bool) (before after : App tables) : Type 0 where
    pub no_progress :
        (i : String) → get_scan_progress tables i after.db ≡ http_error 404 "Scan not found"
    pub no_report :
        (run : Run) (i : String)
        → get_scan_report run tables i after.db ≡ http_error 404 ("Scan " & i & " not found")
    pub no_task :
        (isoformat : ℕ → String) (i : String)
        → get_task_details isoformat tables i after.db ≡ http_error 404 "Task not found"
    pub workers :
        ((is_alive redis ≡ true) × (after.worker_manager ≡ before.worker_manager))
        ⊎ ((is_alive redis ≡ false)
            × ((p : Pool) × (after.worker_manager ≡ some p) × (length p.active_engines ≡ 2)))

  scan_gone :
      (d : tables.Db) (i : String) → tables.scan (schema.create_all (schema.drop_all d)) i ≡ none
  scan_gone d i = schema.scan-create_all (schema.drop_all d) i ∙ schema.scan-drop_all d i

  task_gone :
      (d : tables.Db) (i : String) → tables.task (schema.create_all (schema.drop_all d)) i ≡ none
  task_gone d i = schema.task-create_all (schema.drop_all d) i ∙ schema.task-drop_all d i

  two_workers : (spawn : ℕ → Worker) → length (start spawn dev_pool).active_engines ≡ 2
  unfolding start scale_up
  two_workers spawn = refl

  -- Every start that reaches the database loses all that was stored before it: the progress and the
  -- report of any scan and the details of any task answer 404. Where Redis is alive the workers are left
  -- as they are, and otherwise a pool of two is started.
  pub startup_event-IsFresh :
      (spawn : ℕ → Worker) (redis : Option Bool) (app : App tables)
      → IsFresh redis app (startup_event tables schema spawn true redis app)
  unfolding startup_event get_scan_progress get_task_details get_scan_report generate_report
  startup_event-IsFresh spawn redis app = record {
    no_progress = λ i. rw (get_scan_progress, scan_gone app.db i) refl;
    no_report = λ run i. rw (get_scan_report, generate_report, scan_gone app.db i) refl;
    no_task = λ isoformat i. rw (get_task_details, task_gone app.db i) refl;
    workers = elim (Bool-cases (is_alive redis)) [
      | inl e ↦ inl (e, rw e refl)
      | inr e ↦ inr (e, (start spawn dev_pool, rw e refl, two_workers spawn))
    ];
  }
