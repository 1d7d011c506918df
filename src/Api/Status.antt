-- ===== src/Api/Status.antt =====
-- executor/api/routes.py: `get_workers_status`, `get_queue_status` and `get_execution_stats`.
use integrated_work_tll.Prelude.{
  ℕ, ◌+◌, String, ◌&◌, List, Option, none, some, length, ltb, ◌>>=◌, if◌then◌else◌,
}
use integrated_work_tll.Api.{Reply, reply, http_error}

-- What the routes read from Redis; `none` is an exception, whose text is `reason`. The names of the
-- heartbeats come without their prefix.
pub record Inspection : Type 0 where
  pub reason : String
  pub heartbeats : Option (List String)
  pub llen : String → Option ℕ
  pub zcard : String → Option ℕ

pub record WorkersStatus : Type 0 where
  pub active_workers : ℕ
  pub status : String
  pub workers : List String

pub record QueueStatus : Type 0 where
  pub critical_p1 : ℕ
  pub high_p2 : ℕ
  pub medium_p3 : ℕ
  pub low_p4 : ℕ
  pub delayed_retries : ℕ
  pub dead_letters : ℕ
  pub total_pending : ℕ

unfoldable pub get_workers_status : Inspection → Reply WorkersStatus
get_workers_status redis = elim redis.heartbeats [
  | none ↦ http_error 503 ("Worker heartbeat store unavailable: " & redis.reason)
  | some worker_ids ↦ reply (record {
    active_workers = length worker_ids;
    status = if ltb 0 (length worker_ids) then "scaling" else "idle";
    workers = worker_ids;
  })
]

-- The six commands of `get_queue_status` in their order.
unfoldable pub queue_depths : Inspection → Option QueueStatus
queue_depths redis = do
  critical ← redis.llen "tasks:default:critical"
  high ← redis.llen "tasks:default:high"
  medium ← redis.llen "tasks:default:medium"
  low ← redis.llen "tasks:default:low"
  delayed ← redis.zcard "tasks:default:delayed"
  dlq ← redis.llen "tasks:default:dlq"
  some (record {
    critical_p1 = critical;
    high_p2 = high;
    medium_p3 = medium;
    low_p4 = low;
    delayed_retries = delayed;
    dead_letters = dlq;
    total_pending = critical + high + medium + low;
  })

unfoldable pub get_queue_status : Inspection → Reply QueueStatus
unfolding queue_depths
get_queue_status redis = elim (queue_depths redis) [
  | none ↦ http_error 503 ("Execution queue unavailable: " & redis.reason)
  | some depths ↦ reply depths
]

-- Counters of Prometheus are whole numbers; `pct` is `round(n / total * 100, 2)` in hundredths.
pub record ExecutionStats : Type 0 where
  pub total_processed : ℕ
  pub success : ℕ
  pub failure : ℕ
  pub rate_limited_429 : ℕ
  pub success_rate_pct : ℕ
  pub failure_rate_pct : ℕ
  pub rate_limit_pct : ℕ
  pub retries_total : ℕ

-- A sample that is missing, or whose query raises, counts as 0.
abbrev pub get_metric : (String → Option String → Option ℕ) → String → Option String → ℕ
get_metric registry name label = elim (registry name label) [ none ↦ 0 | some n ↦ n ]

unfoldable pub get_execution_stats :
    (pct : ℕ → ℕ → ℕ) → (registry : String → (status : Option String) → Option ℕ) → ExecutionStats
get_execution_stats pct registry =
    let success = get_metric registry "executor_requests_total_total" (some "success") in
    let failure = get_metric registry "executor_requests_total_total" (some "failure") in
    let rate_limited = get_metric registry "executor_requests_total_total" (some "429") in
    let total = success + failure + rate_limited in
    record {
      total_processed = total;
      success = success;
      failure = failure;
      rate_limited_429 = rate_limited;
      success_rate_pct = if ltb 0 total then pct success total else 0;
      failure_rate_pct = if ltb 0 total then pct failure total else 0;
      rate_limit_pct = if ltb 0 total then pct rate_limited total else 0;
      retries_total = get_metric registry "executor_retries_total_total" none;
    }
