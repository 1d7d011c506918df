-- ===== src/Report/Data.antt =====
-- report_generator.py: `_issue_to_dict` and the dict of `generate_json`, with the fields of the source.
use integrated_work_tll.Prelude.{ℕ, String, List, Option, none, some, ℤ, take, map}
use integrated_work_tll.Models.{
  ScanResponse, ReproductionSteps, Issue, ScanSummary, Metadata, ScanReport,
}
use integrated_work_tll.Report.Texts.{Formats, type_value, severity_value}

pub record Reproduction : Type 0 where
  pub description : String
  pub method : String
  pub url : String
  pub user_a_token : Option String
  pub user_b_token : Option String
  pub expected_status : ℕ
  pub actual_status : ℕ
  pub curl : String

pub record User : Type 0 where
  pub user_id : Option String
  pub role : Option String
  pub status : ℕ

pub record Evidence : Type 0 where
  pub body_similarity : ℕ
  pub status_delta : ℤ
  pub leaked_fields : List String
  pub foreign_ids_found : List String
  pub anomaly_reason : String
  pub user_a : User
  pub user_b : User

-- `type` is `kind`.
pub record IssueDict : Type 0 where
  pub issue_id : String
  pub kind : String
  pub severity : String
  pub title : String
  pub description : String
  pub endpoint : String
  pub method : String
  pub cwe : String
  pub owasp : String
  pub recommendation : String
  pub discovered_at : String
  pub evidence : Evidence
  pub reproduction : Option Reproduction

pub record SummaryDict : Type 0 where
  pub total_endpoints : ℕ
  pub total_requests : ℕ
  pub total_issues : ℕ
  pub critical : ℕ
  pub high : ℕ
  pub medium : ℕ
  pub low : ℕ
  pub info : ℕ
  pub duration_seconds : ℤ
  pub scan_start : Option String
  pub scan_end : Option String

pub record ReportDict : Type 0 where
  pub report_id : String
  pub scan_name : String
  pub target_url : String
  pub created_at : String
  pub metadata : Option Metadata
  pub summary : SummaryDict
  pub issues : List IssueDict

abbrev pub reproduction_of : Option ReproductionSteps → Option Reproduction
reproduction_of none = none
reproduction_of (some repro) = some (record {
  description = repro.description;
  method = repro.request_method;
  url = repro.request_url;
  user_a_token = repro.user_a_token;
  user_b_token = repro.user_b_token;
  expected_status = repro.expected_status;
  actual_status = repro.actual_status;
  curl = repro.curl_command;
})

abbrev pub user_of : ScanResponse → User
user_of r = record { user_id = r.user_id; role = r.role; status = r.status_code }

abbrev pub iso_time : (ℕ → String) → Option ℕ → Option String
iso_time isoformat none = none
iso_time isoformat (some t) = some (isoformat t)

module _ (fmt : Formats) where
  unfoldable pub issue_to_dict : Issue → IssueDict
  issue_to_dict issue = record {
    issue_id = issue.issue_id;
    kind = type_value issue.issue_type;
    severity = severity_value issue.severity;
    title = issue.title;
    description = issue.description;
    endpoint = issue.endpoint;
    method = issue.method;
    cwe = issue.cwe;
    owasp = issue.owasp;
    recommendation = issue.recommendation;
    discovered_at = fmt.isoformat issue.discovered_at;
    evidence = record {
      body_similarity = issue.diff.body_similarity;
      status_delta = issue.diff.status_delta;
      leaked_fields = take 20 issue.diff.leaked_fields;
      foreign_ids_found = take 10 issue.diff.foreign_ids_found;
      anomaly_reason = issue.diff.anomaly_reason;
      user_a = user_of issue.diff.response_a;
      user_b = user_of issue.diff.response_b;
    };
    reproduction = reproduction_of issue.repro;
  }

  abbrev pub summary_of : ScanSummary → SummaryDict
  summary_of s = record {
    total_endpoints = s.total_endpoints;
    total_requests = s.total_requests;
    total_issues = s.total_issues;
    critical = s.critical_count;
    high = s.high_count;
    medium = s.medium_count;
    low = s.low_count;
    info = s.info_count;
    duration_seconds = s.duration_seconds;
    scan_start = iso_time fmt.isoformat s.scan_start;
    scan_end = iso_time fmt.isoformat s.scan_end;
  }

  unfoldable pub report_dict : ScanReport → ReportDict
  unfolding issue_to_dict
  report_dict report = record {
    report_id = report.report_id;
    scan_name = report.scan_name;
    target_url = report.target_url;
    created_at = fmt.isoformat report.created_at;
    metadata = report.metadata;
    summary = summary_of report.summary;
    issues = map issue_to_dict report.issues;
  }

  -- `dumps` is `json.dumps(data, indent=2)`.
  unfoldable pub generate_json : (dumps : ReportDict → String) → ScanReport → String
  unfolding report_dict
  generate_json dumps report = dumps (report_dict report)
