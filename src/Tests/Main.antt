-- ===== src/Tests/Main.antt =====
-- Runs of the start of the application and of the crawler.
use integrated_work_tll.Prelude.{
  ℕ, String, ◌≡◌, refl, true, [], none, some, starts_with, if◌then◌else◌,
}
use integrated_work_tll.Json.{obj, Fields, end, field, lookup_field}
use integrated_work_tll.Pool.{Worker}
use integrated_work_tll.Api.Tables.Memory.{MemoryTables, memory_tables}
use integrated_work_tll.Api.Main.{Schema, App, startup_event}
use integrated_work_tll.Api.Main.Startup.{IsFresh, startup_event-IsFresh}
use integrated_work_tll.Crawler.{Answer, response, request_exception, main}
use integrated_work_tll.Crawler.Runs.{main_nothing}
use integrated_work_tll.Tests.Api.{rows}

abbrev empty : MemoryTables
empty = record {
  scan_list = [];
  scan_of = λ j. none;
  task_of = λ j. none;
  tasks_of = λ j. [];
  response_of = λ j. none;
}

abbrev schema : Schema memory_tables
schema = record {
  drop_all = λ d. empty;
  create_all = λ d. d;
  scan-drop_all = λ d j. refl;
  task-drop_all = λ d j. refl;
  scan-create_all = λ d j. refl;
  task-create_all = λ d j. refl;
}

abbrev app : App memory_tables
app = record { db = rows; worker_manager = none }

abbrev spawn : ℕ → Worker
spawn k = record { worker_id = "w"; active_tasks = 0; last_active_time = k }

startup_event-IsFresh_example :
    IsFresh memory_tables schema none app (startup_event memory_tables schema spawn true none app)
startup_event-IsFresh_example = startup_event-IsFresh memory_tables schema spawn none app

-- A library that raises for a path, and a specification with one.
abbrev request : (method url : String) → Answer
request method url =
    if starts_with url "/" then request_exception "No scheme supplied" else response 200 "ok"

no_scheme :
    (method url : String)
    → starts_with url "/" ≡ true
    → (error : String) × (request method url ≡ request_exception error)
no_scheme method url h = ("No scheme supplied", rw h refl)

abbrev pets : Fields
pets = field "/pets" (obj (field "get" (obj end) end)) end

there : lookup_field (field "paths" (obj pets) end) "paths" ≡ some (obj pets)
unfolding lookup_field
there = refl

main_nothing_example : main request (obj (field "paths" (obj pets) end)) ≡ some []
main_nothing_example =
    main_nothing request no_scheme (field "paths" (obj pets) end) pets there (refl, tt)
