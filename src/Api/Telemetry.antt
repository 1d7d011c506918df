-- ===== src/Api/Telemetry.antt =====
-- executor/api/routes.py: `get_scan_telemetry` and `get_scan_timeline`. Times are microseconds, and
-- latencies hundredths of a millisecond.
pub mod Counts
use integrated_work_tll.Prelude.{
  ℕ, suc, ◌+◌, ◌-◌, ◌*◌, ◌/◌, ◌%◌, String, ◌&◌, Bool, true, false, ◌||◌, List, [], ◌∷◌, Option,
  none, some, Dict, get, put, is_given, leb, ltb, show_ℕ, ◌>>=◌, if◌then◌else◌,
}
use integrated_work_tll.Api.{Reply, reply, http_error}
use integrated_work_tll.Api.Tables.{Task, Response, Tables, joined}
use integrated_work_tll.Api.Status.{Inspection}

pub record Bucket : Type 0 where
  pub requests : ℕ
  pub latency_total : ℕ
  pub latency_count : ℕ
  pub failures : ℕ

abbrev pub new_bucket : Bucket
new_bucket = record { requests = 0; latency_total = 0; latency_count = 0; failures = 0 }

abbrev pub or_new : Option Bucket → Bucket
or_new none = new_bucket
or_new (some b) = b

-- `response.status_code is not None and response.status_code >= 400`.
abbrev is_error_code : Option ℕ → Bool
is_error_code none = false
is_error_code (some c) = leb 400 c

abbrev pub is_failure : Response → Bool
is_failure response = is_given response.error_message || is_error_code response.status_code

abbrev pub add_latency : Option ℕ → Bucket → Bucket
add_latency none b = b
add_latency (some ms) b = record b {
  latency_total = b.latency_total + ms;
  latency_count = suc b.latency_count;
}

-- The body of the loop, on the bucket of the row.
unfoldable pub add_response : Option Response → Bucket → Bucket
add_response none b = b
add_response (some response) b =
    let c = add_latency response.latency_ms (record b { requests = suc b.requests }) in
    if is_failure response then record c { failures = suc c.failures } else c

abbrev pub or_else : Option ℕ → ℕ → ℕ
or_else none now = now
or_else (some t) now = t

-- `(response.created_at if response else task.created_at) or now`.
abbrev pub timestamp : ℕ → Task → Option Response → ℕ
timestamp now task none = or_else task.created_at now
timestamp now task (some response) = or_else response.created_at now

-- `timestamp.replace(second=0, microsecond=0)`.
abbrev pub minute : ℕ → ℕ
minute t = t - t % 60000000

unfoldable pub fill :
    (label : ℕ → String) → (now : ℕ) → List (Task × Option Response) → Dict Bucket → Dict Bucket
unfolding add_response
fill label now [] buckets = buckets
fill label now ((task, response) ∷ rows) buckets =
    let name = label (minute (timestamp now task response)) in
    fill label now rows (put buckets name (add_response response (or_new (get buckets name))))

abbrev two_digits : ℕ → String
two_digits n = if ltb n 10 then "0" & show_ℕ n else show_ℕ n

-- `t.strftime("%H:%M")`.
unfoldable pub clock_label : ℕ → String
clock_label t = two_digits (t / 3600000000 % 24) & ":" & two_digits (t / 60000000 % 60)

-- `mean total count` is `round(total / count, 2)`.
abbrev pub latency_of : (mean : ℕ → ℕ → ℕ) → Bucket → ℕ
latency_of mean b = if ltb 0 b.latency_count then mean b.latency_total b.latency_count else 0

pub record Point : Type 0 where
  pub name : String
  pub requests : ℕ
  pub latency : ℕ
  pub failures : ℕ

abbrev pub points : (mean : ℕ → ℕ → ℕ) → Dict Bucket → List Point
points mean [] = []
points mean ((name, b) ∷ buckets) =
    record {
      name = name;
      requests = b.requests;
      latency = latency_of mean b;
      failures = b.failures;
    }
    ∷ points mean buckets

-- A point of the timeline: its `timestamp` is the name, and all have the same depth of the queues.
pub record Sample : Type 0 where
  pub point : Point
  pub queue_depth : ℕ

abbrev pub samples : ℕ → List Point → List Sample
samples queue_depth [] = []
samples queue_depth (p ∷ ps) =
    record { point = p; queue_depth = queue_depth } ∷ samples queue_depth ps

-- The four commands in their order.
unfoldable pub queue_depth_of : Inspection → Option ℕ
queue_depth_of redis = do
  critical ← redis.llen "tasks:default:critical"
  high ← redis.llen "tasks:default:high"
  medium ← redis.llen "tasks:default:medium"
  low ← redis.llen "tasks:default:low"
  some (critical + high + medium + low)

module _ (tables : Tables) (mean : ℕ → ℕ → ℕ) (now : ℕ) (scan_id : String) (d : tables.Db) where
  unfoldable pub get_scan_telemetry : Reply (List Point)
  unfolding fill clock_label
  get_scan_telemetry = elim (tables.scan d scan_id) [
    | none ↦ http_error 404 "Scan not found"
    | some scan ↦
        reply (points mean (fill clock_label now (joined tables d (tables.tasks d scan_id)) []))
  ]

  unfoldable pub get_scan_timeline : (isoformat : ℕ → String) → Inspection → Reply (List Sample)
  unfolding fill queue_depth_of
  get_scan_timeline isoformat redis = elim (tables.scan d scan_id) [
    | none ↦ http_error 404 "Scan not found"
    | some scan ↦ reply (
        samples (or_else (queue_depth_of redis) 0)
          (points mean (fill isoformat now (joined tables d (tables.tasks d scan_id)) [])))
  ]
