-- ===== src/Models.antt =====
-- models.py: the data that the diff engine, the classifier, the collector and the report share.
-- A time is a number of microseconds. A similarity of a `DiffResult` is kept in ten-thousandths,
-- since the program rounds it to four decimals.
use integrated_work_tll.Prelude.{ℕ, String, Bool, Option, List, ℤ, Dict}
use integrated_work_tll.Json.{Json}

-- What the program draws when it makes an object: `uuid.uuid4()` and `datetime.utcnow()`.
pub record Stamp : Type 0 where
  pub uuid : String
  pub now : ℕ

-- What the model asks of floating-point numbers: the text `f"{n/d:.0%}"`, whether `round(x, 4)`
-- goes up from the double nearest to the midpoint (2k + 1)/20000, and `round(x, 2)` of a number of
-- microseconds as seconds, in hundredths.
pub record Floats : Type 0 where
  pub percent : (n d : ℕ) → String
  pub tie_up : (k : ℕ) → Bool
  pub round2 : ℤ → ℤ

-- The constructors stand for the texts of `.value`.
pub data IssueType : Type 0 where
  bola bfla tenant_leak jwt_bypass priv_escalation info_disclosure : IssueType

pub data SeverityLevel : Type 0 where
  critical high medium low info : SeverityLevel

-- `SEVERITY_SCORE`.
unfoldable pub severity_score : SeverityLevel → ℕ
severity_score critical = 9
severity_score high = 7
severity_score medium = 5
severity_score low = 3
severity_score info = 1

-- `body_json` is `null` where the source has `None`.
pub record ScanResponse : Type 0 where
  pub endpoint : String
  pub method : String
  pub url : String
  pub status_code : ℕ
  pub headers : Dict String
  pub body : Option String
  pub body_json : Json
  pub user_id : Option String
  pub role : Option String
  pub tenant_id : Option String
  pub token : Option String
  pub request_headers : Dict String
  pub request_body : Option String
  pub latency_ms : Option ℕ
  pub timestamp : ℕ

-- `{"a": ..., "b": ...}`, an entry of `value_changes`.
pub record Change : Type 0 where
  pub a : Json
  pub b : Json

pub record DiffResult : Type 0 where
  pub endpoint : String
  pub method : String
  pub response_a : ScanResponse
  pub response_b : ScanResponse
  pub status_delta : ℤ
  pub body_similarity : ℕ
  pub leaked_fields : List String
  pub added_fields : List String
  pub removed_fields : List String
  pub value_changes : Dict Change
  pub is_anomaly : Bool
  pub anomaly_reason : String
  pub foreign_ids_found : List String

pub record ReproductionSteps : Type 0 where
  pub description : String
  pub request_method : String
  pub request_url : String
  pub request_headers : Dict String
  pub request_body : Option String
  pub user_a_token : Option String
  pub user_b_token : Option String
  pub expected_status : ℕ
  pub actual_status : ℕ
  pub curl_command : String

pub record Issue : Type 0 where
  pub issue_id : String
  pub issue_type : IssueType
  pub severity : SeverityLevel
  pub title : String
  pub description : String
  pub endpoint : String
  pub method : String
  pub diff : DiffResult
  pub repro : Option ReproductionSteps
  pub recommendation : String
  pub cwe : String
  pub owasp : String
  pub false_positive_likelihood : ℕ
  pub discovered_at : ℕ

-- `duration_seconds` is in hundredths of a second.
pub record ScanSummary : Type 0 where
  pub total_endpoints : ℕ
  pub total_requests : ℕ
  pub total_issues : ℕ
  pub critical_count : ℕ
  pub high_count : ℕ
  pub medium_count : ℕ
  pub low_count : ℕ
  pub info_count : ℕ
  pub duration_seconds : ℤ
  pub scan_start : Option ℕ
  pub scan_end : Option ℕ

-- The entries that the collector puts into `metadata`; the threshold is in ten-thousandths.
pub record Metadata : Type 0 where
  pub similarity_threshold : ℕ
  pub reference_role : String
  pub total_diffs : ℕ
  pub anomaly_diffs : ℕ

-- `metadata` is `none` where the source has an empty dict.
pub record ScanReport : Type 0 where
  pub report_id : String
  pub target_url : String
  pub scan_name : String
  pub summary : ScanSummary
  pub issues : List Issue
  pub metadata : Option Metadata
  pub created_at : ℕ
