-- ===== src/Api/Copilot.antt =====
-- executor/api/routes.py: `copilot_query`, the answers to questions about a scan.
pub mod Branches
pub mod Sorted
pub mod Answers
use integrated_work_tll.Prelude.{
  ℕ, suc, ◌+◌, String, ◌==◌, ◌&◌, Bool, true, false, not, ◌&&◌, ◌||◌, List, [], ◌∷◌, Option, none,
  some, Dict, get, put, map, take, length, select, is_empty, is_given, or_empty, show_ℕ, lower,
  contains, mentions, strip_text, leb, if◌then◌else◌,
}
use integrated_work_tll.Database.{TaskStatus, failed, success}
use integrated_work_tll.Models.{SeverityLevel, ScanSummary}
use integrated_work_tll.Report.Texts.{type_value, severity_value}
use integrated_work_tll.Analysis.{
  ApiIssue, ApiReport, Generated, generated, value_error, raised, Run, generate_report,
}
use integrated_work_tll.Api.{Reply, reply, http_error}
use integrated_work_tll.Api.Tables.{Scan, Tables, status_value, or_zero}
use integrated_work_tll.Api.Views.{TaskView, ResponseView, get_scan_tasks}
use integrated_work_tll.Api.Progress.{Progress, get_scan_progress}
use integrated_work_tll.Api.RoleSwaps.{path_of}
use Branches.{Evidence, Answer, why_failed, about_authorization, most_critical, executive, overview}

-- The questions for which the report is made.
abbrev pub report_terms : List String
report_terms =
    "critical" ∷ "risk" ∷ "authorization" ∷ "vulnerability" ∷ "executive" ∷ "summary" ∷ "finding"
    ∷ "bola" ∷ "idor" ∷ []

abbrev pub asks_why : String → Bool
asks_why lower_question =
    contains lower_question "why"
    && (contains lower_question "fail" || contains lower_question "error")

-- An exception of the report leaves none.
abbrev pub report_or_none : Generated → Option ApiReport
report_or_none (generated report) = some report
report_or_none (value_error e) = none
report_or_none (raised e) = none

-- The answers that need a report, in their order; `none` where the question asks for none of them.
abbrev pub from_report : Scan → String → ApiReport → Option Answer
from_report scan lower_question report =
    if mentions ("authorization" ∷ "bola" ∷ "idor" ∷ "privilege" ∷ "tenant" ∷ []) lower_question
    then some (about_authorization report)
    else if mentions ("critical" ∷ "most critical" ∷ "risk" ∷ []) lower_question
    then some (most_critical report.vulnerabilities)
    else if contains lower_question "executive"
    then some (executive scan report.summary)
    else none

pub record Query : Type 0 where
  pub question : Option String
  pub scan_id : Option String

module _ (run : Run) (url_path : String → String) (tables : Tables) (d : tables.Db) where
  abbrev pub report_for : (scan_id lower_question : String) → Option ApiReport
  report_for scan_id lower_question =
      if mentions report_terms lower_question
      then report_or_none (generate_report run tables scan_id d)
      else none

  abbrev pub or_overview : Scan → List TaskView → Progress → Option Answer → Answer
  or_overview scan tasks progress none = overview url_path scan tasks progress
  or_overview scan tasks progress (some a) = a

  abbrev pub with_report : Scan → String → Option ApiReport → Option Answer
  with_report scan lower_question none = none
  with_report scan lower_question (some report) = from_report scan lower_question report

  -- The branches after the rows are read.
  unfoldable pub answer_of : (scan_id : String) → Scan → List TaskView → Progress → String → Answer
  unfolding overview why_failed about_authorization generate_report
  answer_of scan_id scan tasks progress lower_question =
      if asks_why lower_question
      then why_failed scan tasks progress
      else or_overview scan tasks progress
          (with_report scan lower_question (report_for scan_id lower_question))

  -- `uuid.UUID(str(scan_id_raw))` is `as_uuid`, `none` for a `ValueError`.
  unfoldable pub copilot_query : (as_uuid : String → Option String) → Query → Reply Answer
  unfolding answer_of get_scan_tasks get_scan_progress
  copilot_query as_uuid payload =
      let question = strip_text (or_empty payload.question) in
      if question == ""
      then http_error 400 "Question is required"
      else if not (is_given payload.scan_id)
      then reply (record {
        answer =
            "No active scan is selected. Import an API or select a scan before asking for scan-specific analysis.";
        evidence = [];
      })
      else elim (as_uuid (or_empty payload.scan_id)) [
        | none ↦ http_error 400 "Invalid scan_id"
        | some scan_id ↦ elim (tables.scan d scan_id) [
          | none ↦ http_error 404 "Scan not found"
          | some scan ↦ elim (get_scan_progress tables scan_id d) [
            | http_error code detail ↦ http_error code detail
            | reply progress ↦ reply (
                answer_of scan_id scan (get_scan_tasks run.isoformat tables scan_id d) progress
                  (lower question))
          ]
        ]
      ]
