-- ===== src/Api/Dashboard.antt =====
-- executor/api/routes.py: `get_dashboard_stats`. The score may fall below 0 before its bounds.
pub mod Scores
use integrated_work_tll.Prelude.{
  ℕ, suc, ◌+◌, ◌-◌, ◌*◌, String, ◌==◌, ◌&◌, Bool, true, false, List, [], ◌∷◌, Option, none, some,
  elem, length, count_if, take, ltb, map, if◌then◌else◌,
}
use integrated_work_tll.Models.{SeverityLevel, critical, high, medium, low, info}
use integrated_work_tll.Database.{TaskStatus, ScanStatus, running, completed, failed}
use integrated_work_tll.Report.{Counts, no_counts}
use integrated_work_tll.Analysis.{
  ApiIssue, ApiReport, Generated, generated, value_error, raised, Run, generate_report,
}
use integrated_work_tll.Api.Tables.{Scan, Task, Response, Tables, joined}
use integrated_work_tll.Api.Views.{iso}

abbrev pub is_running : ScanStatus → Bool
is_running running = true
is_running _ = false

abbrev pub is_completed : ScanStatus → Bool
is_completed completed = true
is_completed _ = false

-- `s.status in ("FAILED", "ERROR")`; no status is `ERROR`.
abbrev pub is_failed : ScanStatus → Bool
is_failed failed = true
is_failed _ = false

-- Adding to a set of texts.
abbrev pub add_once : String → List String → List String
add_once x xs = if elem x xs then xs else x ∷ xs

-- `url_path` is the path that `urlparse` finds, or `none` where it raises.
abbrev pub endpoint_name : (url_path : String → Option String) → Task → String
endpoint_name url_path t = elim (url_path t.url) [
  | none ↦ t.method & " " & t.url
  | some path ↦ t.method & " " & path
]

unfoldable pub unique_endpoints : (url_path : String → Option String) → List Task → List String
unique_endpoints url_path [] = []
unique_endpoints url_path (t ∷ ts) =
    add_once (endpoint_name url_path t) (unique_endpoints url_path ts)

-- One more of a severity; `INFO` is not counted.
abbrev pub count_severity : SeverityLevel → Counts → Counts
count_severity critical c = record c { critical = suc c.critical }
count_severity high c = record c { high = suc c.high }
count_severity medium c = record c { medium = suc c.medium }
count_severity low c = record c { low = suc c.low }
count_severity info c = c

unfoldable pub count_vulnerabilities : List ApiIssue → Counts → Counts
count_vulnerabilities [] c = c
count_vulnerabilities (v ∷ vulns) c = count_vulnerabilities vulns (count_severity v.severity c)

-- A report that raises counts for nothing.
abbrev pub count_report : Generated → Counts → Counts
count_report (generated report) c = count_vulnerabilities report.vulnerabilities c
count_report (value_error e) c = c
count_report (raised e) c = c

-- `max(0, min(100, 100 - (...)))`.
unfoldable pub security_score : Counts → ℕ
security_score c = 100 - (c.critical * 15 + c.high * 10 + c.medium * 5 + c.low * 1)

unfoldable pub risk_score : Counts → ℕ
risk_score c =
    if ltb 0 c.critical
    then 95
    else if ltb 0 c.high
    then 75
    else if ltb 0 c.medium
    then 45
    else if ltb 0 c.low
    then 15
    else 0

pub record Activity : Type 0 where
  pub task_id : String
  pub method : String
  pub url : String
  pub status : TaskStatus
  pub status_code : Option ℕ
  pub timestamp : String

pub record DashboardStats : Type 0 where
  pub total_scans : ℕ
  pub running_scans : ℕ
  pub completed_scans : ℕ
  pub failed_scans : ℕ
  pub total_endpoints : ℕ
  pub total_vulnerabilities : ℕ
  pub critical_count : ℕ
  pub high_count : ℕ
  pub medium_count : ℕ
  pub low_count : ℕ
  pub security_score : ℕ
  pub risk_score : ℕ
  pub recent_activity : List Activity

abbrev pub status_code_of : Option Response → Option ℕ
status_code_of none = none
status_code_of (some r) = r.status_code

-- `(r or t).created_at`, or the time of the request.
abbrev pub time_of : (now : ℕ) → Task → Option Response → ℕ
time_of now t none = elim t.created_at [ none ↦ now | some n ↦ n ]
time_of now t (some r) = elim r.created_at [ none ↦ now | some n ↦ n ]

module _ (run : Run) (url_path : String → Option String) (now : ℕ) (tables : Tables) where
  unfoldable pub count_scans : tables.Db → List Scan → Counts → Counts
  unfolding count_vulnerabilities generate_report
  count_scans d [] c = c
  count_scans d (scan ∷ scans) c =
      count_scans d scans (count_report (generate_report run tables scan.id d) c)

  abbrev pub activity_of : Task × Option Response → Activity
  activity_of (t, r) = record {
    task_id = t.id;
    method = t.method;
    url = t.url;
    status = t.status;
    status_code = status_code_of r;
    timestamp = run.isoformat (time_of now t r);
  }

  -- `tasks` are those of the table, and `recent` the same in falling order of creation.
  unfoldable pub get_dashboard_stats : (tasks recent : List Task) → tables.Db → DashboardStats
  unfolding count_scans unique_endpoints security_score risk_score
  get_dashboard_stats tasks recent d =
      let scans = tables.scans d in
      let c = count_scans d scans no_counts in
      record {
        total_scans = length scans;
        running_scans = count_if (λ s. is_running s.status) scans;
        completed_scans = count_if (λ s. is_completed s.status) scans;
        failed_scans = count_if (λ s. is_failed s.status) scans;
        total_endpoints = length (unique_endpoints url_path tasks);
        total_vulnerabilities = c.critical + c.high + c.medium + c.low;
        critical_count = c.critical;
        high_count = c.high;
        medium_count = c.medium;
        low_count = c.low;
        security_score = security_score c;
        risk_score = risk_score c;
        recent_activity = map activity_of (take 10 (joined tables d recent));
      }
