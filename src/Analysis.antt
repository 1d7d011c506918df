-- ===== src/Analysis.antt =====
-- executor/analysis/report_service.py: `ReportService`. The claims of a token are texts.
pub mod Responses
pub mod Findings
pub mod Unknown
use integrated_work_tll.Prelude.{
  ℕ, String, ◌==◌, ◌&◌, Bool, true, false, List, [], ◌∷◌, Option, none, some, ℤ, Dict, take,
  if◌then◌else◌,
}
use integrated_work_tll.Models.{
  Floats, Stamp, SeverityLevel, critical, high, medium, low, info, IssueType, ScanResponse,
  DiffResult, Issue, ScanSummary, ScanReport,
}
use integrated_work_tll.Collector.{Collector, new_collector, on_result, flush}
use integrated_work_tll.Api.Tables.{Scan, Task, Response, Tables}
use Responses.{Tokens, feed}

pub record UserView : Type 0 where
  pub user_id : Option String
  pub role : Option String
  pub status : ℕ

pub record Evidence : Type 0 where
  pub body_similarity : ℕ
  pub status_delta : ℤ
  pub leaked_fields : List String
  pub added_fields : List String
  pub removed_fields : List String
  pub foreign_ids_found : List String
  pub anomaly_reason : String
  pub user_a : UserView
  pub user_b : UserView

-- An entry of `vulnerabilities`; `cvss` is in tenths.
pub record ApiIssue : Type 0 where
  pub id : String
  pub kind : IssueType
  pub severity : SeverityLevel
  pub title : String
  pub description : String
  pub path : String
  pub method : String
  pub remediation : String
  pub recommendation : String
  pub cwe : String
  pub owasp : String
  pub cvss : ℕ
  pub impact : String
  pub evidence : Evidence
  pub discovered_at : String

abbrev pub view_user : ScanResponse → UserView
view_user r = record { user_id = r.user_id; role = r.role; status = r.status_code }

unfoldable pub cvss_of : SeverityLevel → ℕ
cvss_of critical = 95
cvss_of high = 80
cvss_of medium = 55
cvss_of low = 30
cvss_of info = 0

abbrev pub evidence_of : DiffResult → Evidence
evidence_of diff = record {
  body_similarity = diff.body_similarity;
  status_delta = diff.status_delta;
  leaked_fields = take 20 diff.leaked_fields;
  added_fields = take 20 diff.added_fields;
  removed_fields = take 20 diff.removed_fields;
  foreign_ids_found = take 10 diff.foreign_ids_found;
  anomaly_reason = diff.anomaly_reason;
  user_a = view_user diff.response_a;
  user_b = view_user diff.response_b;
}

unfoldable pub issue_to_api_dict : (isoformat : ℕ → String) → Issue → ApiIssue
unfolding cvss_of
issue_to_api_dict isoformat issue = record {
  id = issue.issue_id;
  kind = issue.issue_type;
  severity = issue.severity;
  title = issue.title;
  description = issue.description;
  path = issue.endpoint;
  method = issue.method;
  remediation = issue.recommendation;
  recommendation = issue.recommendation;
  cwe = issue.cwe;
  owasp = issue.owasp;
  cvss = cvss_of issue.severity;
  impact = if issue.diff.anomaly_reason == "" then issue.description else issue.diff.anomaly_reason;
  evidence = evidence_of issue.diff;
  discovered_at = isoformat issue.discovered_at;
}

-- The dict that is returned; its `summary` keeps the fields and times of the report.
pub record ApiReport : Type 0 where
  pub report_id : String
  pub scan_id : String
  pub scan_name : String
  pub target_url : String
  pub generated_at : String
  pub issues_found : ℕ
  pub summary : ScanSummary
  pub vulnerabilities : List ApiIssue
  pub paths : Dict String

-- A report, a `ValueError`, or another exception.
pub data Generated : Type 0 where
  generated : ApiReport → Generated
  value_error : String → Generated
  raised : String → Generated

-- What a run draws and uses beside the rows: `start` is the time of the collector, `end` that of its
-- flush, and `save` writes the files of a report, or raises.
pub record Run : Type 0 where
  pub floats : Floats
  pub draw : ℕ → ℕ → Stamp
  pub start : ℕ
  pub end : ℕ
  pub stamp : Stamp
  pub isoformat : ℕ → String
  pub tokens : Tokens
  pub save : ScanReport → Option (Dict String)
  pub save_error : String

abbrev pub api_issues : (ℕ → String) → List Issue → List ApiIssue
api_issues isoformat [] = []
api_issues isoformat (issue ∷ issues) =
    issue_to_api_dict isoformat issue ∷ api_issues isoformat issues

module _ (run : Run) (tables : Tables) where
  abbrev pub collected : Scan → tables.Db → Collector
  collected scan d =
      feed run.tokens tables run.start d (tables.tasks d scan.id)
        (new_collector scan.target scan.name 6500 "admin" false run.start)

  abbrev pub report_of : String → ScanReport → Dict String → ApiReport
  report_of scan_id report paths = record {
    report_id = report.report_id;
    scan_id = scan_id;
    scan_name = report.scan_name;
    target_url = report.target_url;
    generated_at = run.isoformat report.created_at;
    issues_found = report.summary.total_issues;
    summary = report.summary;
    vulnerabilities = api_issues run.isoformat report.issues;
    paths = paths;
  }

  unfoldable pub generate_report : (scan_id : String) → tables.Db → Generated
  unfolding issue_to_api_dict
  generate_report scan_id d = elim (tables.scan d scan_id) [
    | none ↦ value_error ("Scan " & scan_id & " not found")
    | some scan ↦
        let report = (flush run.floats run.draw run.end run.stamp (collected scan d)).1 in
        elim (run.save report) [
          | none ↦ raised run.save_error
          | some paths ↦ generated (report_of scan_id report paths)
        ]
  ]
