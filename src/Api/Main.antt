-- ===== src/Api/Main.antt =====
-- executor/api/main.py: the start and the stop of the application, its exception handlers and the health
-- routes.
pub mod Startup
use integrated_work_tll.Prelude.{
  ℕ, String, ◌==◌, ◌≡◌, Bool, true, false, [], Option, none, some, if◌then◌else◌,
}
use integrated_work_tll.Pool.{Pool, Worker, start, stop}
use integrated_work_tll.Api.Tables.{Scan, Task, Tables}

-- `Base.metadata`: `drop_all` drops the tables with their rows, and `create_all` makes those that are
-- missing and leaves the others as they are.
pub record Schema (tables : Tables) : Type 0 where
  pub drop_all : tables.Db → tables.Db
  pub create_all : tables.Db → tables.Db
  pub scan-drop_all : (d : tables.Db) (j : String) → tables.scan (drop_all d) j ≡ none
  pub task-drop_all : (d : tables.Db) (j : String) → tables.task (drop_all d) j ≡ none
  pub scan-create_all :
      (d : tables.Db) (j : String) → tables.scan (create_all d) j ≡ tables.scan d j
  pub task-create_all :
      (d : tables.Db) (j : String) → tables.task (create_all d) j ≡ tables.task d j

-- The database, and `app.state.worker_manager`.
pub record App (tables : Tables) : Type 0 where
  pub db : tables.Db
  pub worker_manager : Option Pool

-- `check_redis_alive()`, where an exception is `none`.
abbrev pub is_alive : Option Bool → Bool
is_alive none = false
is_alive (some b) = b

abbrev pub dev_pool : Pool
dev_pool = record {
  queue_base_name = "tasks:default";
  min_workers = 2;
  max_workers = 5;
  idle_timeout = 30;
  active_engines = [];
}

module _ (tables : Tables) (schema : Schema tables) where
  -- `reachable`: the transaction on the database succeeds; otherwise it leaves no trace. `spawn` makes
  -- the workers of the pool.
  unfoldable pub startup_event :
      (spawn : ℕ → Worker) → (reachable : Bool) → (redis : Option Bool) → App tables → App tables
  unfolding start
  startup_event spawn reachable redis app = record {
    db = if reachable then schema.create_all (schema.drop_all app.db) else app.db;
    worker_manager = if is_alive redis then app.worker_manager else some (start spawn dev_pool);
  }

abbrev pub stopped : Option Pool → Option Pool
stopped none = none
stopped (some manager) = some (stop manager)

abbrev pub shutdown_event : {tables : Tables} → App tables → App tables
shutdown_event app = record app { worker_manager = stopped app.worker_manager }

-- A body of `JSONResponse` with its status; `detail` is `none` where the handler gives none.
pub record ErrorResponse : Type 0 where
  pub status_code : ℕ
  pub success : Bool
  pub message : String
  pub detail : Option String

abbrev pub http_exception_handler : (status_code : ℕ) → (detail : String) → ErrorResponse
http_exception_handler status_code detail = record {
  status_code = status_code;
  success = false;
  message = detail;
  detail = some detail;
}

abbrev pub global_exception_handler : (exc : String) → ErrorResponse
global_exception_handler exc = record {
  status_code = 500;
  success = false;
  message = if exc == "" then "Internal server error" else exc;
  detail = none;
}

pub record Health : Type 0 where
  pub status : String
  pub mode : String
  pub redis_connected : Bool

abbrev pub mode_of : Bool → String
mode_of redis_alive = if redis_alive then "distributed" else "standalone_in_memory"

abbrev pub health_check : (redis : Option Bool) → Health
health_check redis = record {
  status = "ok";
  mode = mode_of (is_alive redis);
  redis_connected = is_alive redis;
}

abbrev pub health_redis : (redis : Option Bool) → Health
health_redis redis = record {
  status = if is_alive redis then "ok" else "degraded";
  mode = mode_of (is_alive redis);
  redis_connected = is_alive redis;
}
