-- ===== src/Analysis/Findings.antt =====
-- The vulnerabilities of a report that the API gives.
use integrated_work_tll.Prelude.{
  ℕ, ◌≤◌, String, ◌≡◌, refl, ◌∙◌, false, List, [], ◌∷◌, some, Dict, length, take, All, leb,
  Option-cases, inl, inr, arith, if◌then◌else◌,
}
use integrated_work_tll.Models.{
  SeverityLevel, critical, high, medium, low, info, severity_score, Issue, ScanReport,
}
use mathlib.Core.List.{Perm}
use integrated_work_tll.Report.{sort_issues}
use integrated_work_tll.Report.Order.{
  sort_issues-perm, IsSorted, score, length-sort_issues, sort_issues-IsSorted,
}
use integrated_work_tll.Collector.{Collector, new_collector, on_result, flush}
use integrated_work_tll.Collector.Runs.{buffer_issues}
use integrated_work_tll.Collector.Flush.{flush-IsScanReport, IsScanReport}
use integrated_work_tll.Api.Tables.{Scan, Task, Tables}
use integrated_work_tll.Analysis.{
  ApiIssue, cvss_of, issue_to_api_dict, api_issues, ApiReport, Run, generated, collected, report_of,
  generate_report,
}
use integrated_work_tll.Analysis.Responses.{feed, feed_one, response_of}

-- The score of CVSS, from the score of the severity.
abbrev pub cvss_at : ℕ → ℕ
cvss_at n =
    if leb 9 n
    then 95
    else if leb 7 n
    then 80
    else if leb 5 n
    then 55
    else if leb 3 n
    then 30
    else 0

cvss_of-eq : (s : SeverityLevel) → cvss_of s ≡ cvss_at (severity_score s)
unfolding cvss_of severity_score
cvss_of-eq critical = refl
cvss_of-eq high = refl
cvss_of-eq medium = refl
cvss_of-eq low = refl
cvss_of-eq info = refl

cvss_of_mono : (a b : SeverityLevel) → severity_score a ≤ severity_score b → cvss_of a ≤ cvss_of b
cvss_of_mono a b h = ground (arith, cvss_of-eq a, cvss_of-eq b)

-- No entry stands behind one of a lower score.
abbrev pub IsFalling : List ApiIssue → Type 0
IsFalling [] = Unit
IsFalling (v ∷ vs) = All (λ w. w.cvss ≤ v.cvss) vs × IsFalling vs

module _ (iso : ℕ → String) where
  below-api_issues :
      (i : Issue) (xs : List Issue)
      → All (λ j. score j ≤ score i) xs
      → All (λ w. w.cvss ≤ cvss_of i.severity) (api_issues iso xs)
  unfolding issue_to_api_dict
  below-api_issues i [] h = tt
  below-api_issues i (j ∷ xs) h =
      (cvss_of_mono j.severity i.severity h.0, below-api_issues i xs h.1)

  api_issues-IsFalling : (xs : List Issue) → IsSorted xs → IsFalling (api_issues iso xs)
  unfolding issue_to_api_dict
  api_issues-IsFalling [] h = tt
  api_issues-IsFalling (i ∷ xs) h = (below-api_issues i xs h.0, api_issues-IsFalling xs h.1)

issues-feed :
    (run : Run) (tables : Tables) (d : tables.Db) (tasks : List Task) (c : Collector)
    → (feed run.tokens tables run.start d tasks c).issues ≡ c.issues
unfolding feed on_result
issues-feed run tables d [] c = refl
issues-feed run tables d (t ∷ ts) c =
    issues-feed run tables d ts
      (feed_one run.tokens (response_of run.tokens run.start t (tables.response d t.id)) c)
    ∙ elim (Option-cases (response_of run.tokens run.start t (tables.response d t.id))) [
      | inl e ↦ rw e
      | inr (r, e) ↦ rw e
    ]

-- An entry that tells of an issue; the evidence names the two senders and what was shared.
pub record Tells (iso : ℕ → String) (v : ApiIssue) (i : Issue) : Type 0 where
  pub id : v.id ≡ i.issue_id
  pub kind : v.kind ≡ i.issue_type
  pub severity : v.severity ≡ i.severity
  pub title : v.title ≡ i.title
  pub description : v.description ≡ i.description
  pub path : v.path ≡ i.endpoint
  pub method : v.method ≡ i.method
  pub remediation : v.remediation ≡ i.recommendation
  pub cwe : v.cwe ≡ i.cwe
  pub owasp : v.owasp ≡ i.owasp
  pub cvss : v.cvss ≡ cvss_at (severity_score i.severity)
  pub sender_a : v.evidence.user_a.user_id ≡ i.diff.response_a.user_id
  pub sender_b : v.evidence.user_b.user_id ≡ i.diff.response_b.user_id
  pub shared : v.evidence.foreign_ids_found ≡ take 10 i.diff.foreign_ids_found
  pub discovered_at : v.discovered_at ≡ iso i.discovered_at

abbrev pub AllTell : (ℕ → String) → List ApiIssue → List Issue → Type 0
AllTell iso [] [] = Unit
AllTell iso (v ∷ vs) (i ∷ issues) = Tells iso v i × AllTell iso vs issues
AllTell iso [] (i ∷ issues) = ⊥
AllTell iso (v ∷ vs) [] = ⊥

api_issues-AllTell :
    (iso : ℕ → String) (issues : List Issue) → AllTell iso (api_issues iso issues) issues
unfolding issue_to_api_dict
api_issues-AllTell iso [] = tt
api_issues-AllTell iso (i ∷ issues) = (
  record {
    id = refl;
    kind = refl;
    severity = refl;
    title = refl;
    description = refl;
    path = refl;
    method = refl;
    remediation = refl;
    cwe = refl;
    owasp = refl;
    cvss = cvss_of-eq i.severity;
    sender_a = refl;
    sender_b = refl;
    shared = refl;
    discovered_at = refl;
  },
  api_issues-AllTell iso issues,
)

-- What a report of the API says of the issues that were found, `sorted` being those issues by falling
-- severity.
pub record IsReport (iso : ℕ → String) (issues : List Issue) (r : ApiReport) : Type 0 where
  pub sorted : List Issue
  pub same_issues : Perm sorted issues
  pub as_many : length sorted ≡ length issues
  pub falling_severity : IsSorted sorted
  pub tells : AllTell iso r.vulnerabilities sorted
  pub issues_found : r.issues_found ≡ length issues
  pub falling : IsFalling r.vulnerabilities

module _ (run : Run) (tables : Tables) (scan_id : String) (scan : Scan) (d : tables.Db) where
  abbrev collector : Collector
  collector = collected run tables scan d

  abbrev scan_report : ScanReport
  scan_report = (flush run.floats run.draw run.end run.stamp collector).1

  abbrev pub found_issues : List Issue
  found_issues = buffer_issues run.floats run.draw collector

  is_scan_report : IsScanReport run.floats run.draw collector scan_report
  is_scan_report = flush-IsScanReport run.floats run.draw run.end run.stamp collector (
      issues-feed run tables d (tables.tasks d scan.id)
        (new_collector scan.target scan.name 6500 "admin" false run.start))

  scan_report-IsFalling : IsFalling (api_issues run.isoformat scan_report.issues)
  scan_report-IsFalling =
      api_issues-IsFalling run.isoformat scan_report.issues
        (rw is_scan_report.issues (sort_issues-IsSorted found_issues))

  generated_report :
      (paths : Dict String)
      → tables.scan d scan_id ≡ some scan
      → run.save scan_report ≡ some paths
      → generate_report run tables scan_id d
        ≡ generated (report_of run tables scan_id scan_report paths)
  unfolding generate_report
  generated_report paths e f = rw (generate_report, e, f)

  -- Where the scan exists and its files are written, the entries of the report are the issues that
  -- the comparisons of its responses give, each once, by falling severity: an entry has the id, type,
  -- severity, texts, endpoint, references, senders and shared ids of its issue, and the score of CVSS
  -- that its severity calls for. The report says how many issues there are, and the scores fall.
  pub generate_report-IsReport :
      (paths : Dict String)
      → tables.scan d scan_id ≡ some scan
      → run.save (flush run.floats run.draw run.end run.stamp (collected run tables scan d)).1
        ≡ some paths
      → (r : ApiReport) × (generate_report run tables scan_id d ≡ generated r)
        × IsReport run.isoformat found_issues r
  generate_report-IsReport paths e f = (
    report_of run tables scan_id scan_report paths,
    generated_report paths e f,
    record {
      sorted = sort_issues found_issues;
      same_issues = sort_issues-perm found_issues;
      as_many = length-sort_issues found_issues;
      falling_severity = sort_issues-IsSorted found_issues;
      tells =
          rw is_scan_report.issues (api_issues-AllTell run.isoformat (sort_issues found_issues));
      issues_found = is_scan_report.total_issues;
      falling = scan_report-IsFalling;
    },
  )
