-- ===== src/Api/Copilot/Branches.antt =====
-- executor/api/routes.py: the branches of `copilot_query`.
use integrated_work_tll.Prelude.{
  ℕ, ◌+◌, String, ◌&◌, Bool, true, false, ◌||◌, List, [], ◌∷◌, Option, none, some, Dict, get, put,
  map, take, length, select, is_empty, is_given, show_ℕ, lower, mentions, leb, if◌then◌else◌,
}
use integrated_work_tll.Database.{TaskStatus, failed, success}
use integrated_work_tll.Models.{ScanSummary}
use integrated_work_tll.Report.Texts.{type_value, severity_value}
use integrated_work_tll.Analysis.{ApiIssue, ApiReport}
use integrated_work_tll.Api.Tables.{Scan, status_value, or_zero}
use integrated_work_tll.Api.Views.{TaskView, ResponseView}
use integrated_work_tll.Api.Progress.{Progress}
use integrated_work_tll.Api.RoleSwaps.{path_of}

-- An entry of `evidence`: the dicts of the different answers.
pub data Evidence : Type 0 where
  failed_task :
      (method url status : String) → (status_code : Option ℕ) → (error : Option String) → Evidence
  finding : ApiIssue → Evidence
  summary : ScanSummary → Evidence
  requests : (endpoint : String) → (count : ℕ) → Evidence

pub record Answer : Type 0 where
  pub answer : String
  pub evidence : List Evidence

-- `t.get("response") and t["response"].get("error_message")`, as a truth value.
abbrev pub has_error : Option ResponseView → Bool
has_error none = false
has_error (some r) = is_given r.error_message

abbrev pub is_failed : TaskStatus → Bool
is_failed failed = true
is_failed _ = false

abbrev pub is_completed : TaskStatus → Bool
is_completed success = true
is_completed _ = false

abbrev pub failed_tasks : List TaskView → List TaskView
failed_tasks tasks = select (λ t. is_failed t.status || has_error t.response) tasks

abbrev pub completed_tasks : List TaskView → List TaskView
completed_tasks tasks = select (λ t. is_completed t.status) tasks

abbrev pub status_code_of : Option ResponseView → Option ℕ
status_code_of none = none
status_code_of (some r) = r.status_code

abbrev pub error_of : Option ResponseView → Option String
error_of none = none
error_of (some r) = r.error_message

abbrev pub task_evidence : TaskView → Evidence
task_evidence t =
    failed_task t.method t.url (status_value t.status) (status_code_of t.response)
      (error_of t.response)

unfoldable pub why_failed : Scan → List TaskView → Progress → Answer
why_failed scan tasks progress =
    if is_empty (failed_tasks tasks)
    then record {
      answer =
          "No failed tasks are recorded for "
          & scan.name
          & ". Completed tasks: "
          & show_ℕ (length (completed_tasks tasks))
          & "; pending tasks: "
          & show_ℕ progress.pending_tasks
          & ".";
      evidence = [];
    }
    else record {
      answer =
          show_ℕ (length (failed_tasks tasks))
          & " task(s) failed in "
          & scan.name
          & ". The most recent evidence shows HTTP errors or executor errors on the listed requests.";
      evidence = map task_evidence (take 5 (failed_tasks tasks));
    }

abbrev pub authorization_terms : List String
authorization_terms = "bola" ∷ "idor" ∷ "authorization" ∷ "privilege" ∷ "tenant" ∷ []

-- A finding whose type, title or description names one of the terms.
abbrev pub is_authorization : ApiIssue → Bool
is_authorization v =
    mentions authorization_terms (lower (type_value v.kind & " " & v.title & " " & v.description))

unfoldable pub about_authorization : ApiReport → Answer
about_authorization report =
    let vulns = select is_authorization report.vulnerabilities in
    record {
      answer =
          if is_empty vulns
          then "No authorization findings were detected from the persisted response comparisons for this scan."
          else show_ℕ (length vulns)
            & " authorization-related finding(s) are present in the current scan.";
      evidence = map finding (take 5 vulns);
    }

abbrev pub most_critical : List ApiIssue → Answer
most_critical [] = record {
  answer =
      "No vulnerabilities are currently detected from this scan's persisted response comparisons.";
  evidence = [];
}
most_critical (top ∷ _) = record {
  answer =
      "The most critical endpoint is "
      & top.method
      & " "
      & top.path
      & " with "
      & severity_value top.severity
      & " severity: "
      & top.title
      & ".";
  evidence = finding top ∷ [];
}

abbrev pub executive : Scan → ScanSummary → Answer
executive scan s = record {
  answer =
      scan.name
      & " executed "
      & show_ℕ s.total_requests
      & " request(s) across "
      & show_ℕ s.total_endpoints
      & " endpoint(s). Findings: "
      & show_ℕ s.critical_count
      & " critical, "
      & show_ℕ s.high_count
      & " high, "
      & show_ℕ s.medium_count
      & " medium, "
      & show_ℕ s.low_count
      & " low.";
  evidence = summary s ∷ [];
}

-- `sorted(counts.items(), key=lambda item: item[1], reverse=True)`, which is stable.
unfoldable pub insert_count : (String × ℕ) → Dict ℕ → Dict ℕ
insert_count item [] = item ∷ []
insert_count item (other ∷ items) =
    let rest = insert_count item items in
    if leb other.1 item.1 then item ∷ other ∷ items else other ∷ rest

unfoldable pub sort_counts : Dict ℕ → Dict ℕ
unfolding insert_count
sort_counts [] = []
sort_counts (item ∷ items) = insert_count item (sort_counts items)

-- `url_path` is the path that `urlparse` finds.
unfoldable pub endpoint_counts : (url_path : String → String) → List TaskView → Dict ℕ → Dict ℕ
endpoint_counts url_path [] counts = counts
endpoint_counts url_path (t ∷ tasks) counts =
    let endpoint = path_of url_path t.url in
    endpoint_counts url_path tasks (put counts endpoint (or_zero (get counts endpoint) + 1))

abbrev pub request_evidence : Dict ℕ → List Evidence
request_evidence [] = []
request_evidence ((endpoint, count) ∷ items) = requests endpoint count ∷ request_evidence items

unfoldable pub overview : (url_path : String → String) → Scan → List TaskView → Progress → Answer
unfolding sort_counts endpoint_counts
overview url_path scan tasks progress = record {
  answer =
      scan.name
      & " currently has "
      & show_ℕ progress.total_tasks
      & " task(s): "
      & show_ℕ progress.completed_tasks
      & " completed, "
      & show_ℕ progress.failed_tasks
      & " failed, and "
      & show_ℕ progress.pending_tasks
      & " pending. Ask about failures, authorization issues, critical endpoints, or an executive summary for deeper analysis.";
  evidence = request_evidence (take 5 (sort_counts (endpoint_counts url_path tasks [])));
}
