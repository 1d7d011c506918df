-- ===== src/Report/Markdown.antt =====
-- report_generator.py: `generate_markdown`.
use integrated_work_tll.Prelude.{
  ℕ, suc, String, ◌==◌, ◌&◌, List, [], ◌∷◌, ◌++◌, Option, none, some, show_ℕ, join, take, is_empty,
  if◌then◌else◌,
}
use integrated_work_tll.Models.{
  SeverityLevel, critical, high, medium, low, info, ReproductionSteps, Issue, ScanReport,
}
use integrated_work_tll.Report.Texts.{Formats, type_value, severity_value}

-- `_SEVERITY_EMOJI`.
abbrev pub severity_emoji : SeverityLevel → String
severity_emoji critical = "🔴"
severity_emoji high = "🟠"
severity_emoji medium = "🟡"
severity_emoji low = "🔵"
severity_emoji info = "⚪"

module _ (fmt : Formats) where
  abbrev pub summary_lines : ScanReport → List String
  summary_lines report =
      ("# " & report.scan_name)
      ∷ ""
      ∷ ("**Target:** `" & report.target_url & "`  ")
      ∷ ("**Report ID:** `" & report.report_id & "`  ")
      ∷ ("**Generated:** " & fmt.strftime "%Y-%m-%d %H:%M:%S UTC" report.created_at & "  ")
      ∷ ("**Duration:** " & fmt.show_seconds report.summary.duration_seconds & "s  ")
      ∷ ""
      ∷ "---"
      ∷ ""
      ∷ "## Summary"
      ∷ ""
      ∷ "| Metric | Value |"
      ∷ "|--------|-------|"
      ∷ ("| Endpoints Scanned | " & show_ℕ report.summary.total_endpoints & " |")
      ∷ ("| Requests Made | " & show_ℕ report.summary.total_requests & " |")
      ∷ ("| Total Issues | " & show_ℕ report.summary.total_issues & " |")
      ∷ ("| 🔴 Critical | " & show_ℕ report.summary.critical_count & " |")
      ∷ ("| 🟠 High | " & show_ℕ report.summary.high_count & " |")
      ∷ ("| 🟡 Medium | " & show_ℕ report.summary.medium_count & " |")
      ∷ ("| 🔵 Low | " & show_ℕ report.summary.low_count & " |")
      ∷ ""
      ∷ "---"
      ∷ ""
      ∷ "## Findings"
      ∷ ""
      ∷ []

  abbrev pub issue_lines : ℕ → Issue → List String
  issue_lines idx issue =
      ("### " & show_ℕ idx & ". " & severity_emoji issue.severity & " " & issue.title)
      ∷ ""
      ∷ "| Field | Value |"
      ∷ "|-------|-------|"
      ∷ ("| **Type** | `" & type_value issue.issue_type & "` |")
      ∷ ("| **Severity** | `" & severity_value issue.severity & "` |")
      ∷ ("| **Endpoint** | `" & issue.method & " " & issue.endpoint & "` |")
      ∷ ("| **CWE** | " & issue.cwe & " |")
      ∷ ("| **OWASP** | " & issue.owasp & " |")
      ∷ ""
      ∷ "**Description:**  "
      ∷ issue.description
      ∷ ""
      ∷ "**Evidence:**"
      ∷ ("- Body similarity: `" & fmt.percent issue.diff.body_similarity 10000 & "`")
      ∷ ("- Status: User A `"
          & show_ℕ issue.diff.response_a.status_code
          & "` → User B `"
          & show_ℕ issue.diff.response_b.status_code
          & "`")
      ∷ []

  abbrev pub repro_lines : Option ReproductionSteps → List String
  repro_lines none = []
  repro_lines (some repro) = "" ∷ "**Reproduction:**" ∷ "```bash" ∷ repro.curl_command ∷ "```" ∷ []

  abbrev pub closing_lines : Issue → List String
  closing_lines issue = "" ∷ "**Recommendation:**  " ∷ issue.recommendation ∷ "" ∷ "---" ∷ "" ∷ []

  abbrev pub foreign_line : List String → List String
  foreign_line ids =
      if is_empty ids then [] else ("- Foreign IDs found: `" & join ", " (take 5 ids) & "`") ∷ []

  abbrev pub anomaly_line : String → List String
  anomaly_line reason = if reason == "" then [] else ("- Anomaly: " & reason) ∷ []

  abbrev pub findings_lines : ℕ → List Issue → List String
  findings_lines idx [] = []
  findings_lines idx (issue ∷ issues) =
      issue_lines idx issue
      ++ foreign_line issue.diff.foreign_ids_found
      ++ anomaly_line issue.diff.anomaly_reason
      ++ repro_lines issue.repro
      ++ closing_lines issue
      ++ findings_lines (suc idx) issues

  -- `lines`, before they are joined.
  unfoldable pub markdown_lines : ScanReport → List String
  markdown_lines report =
      summary_lines report
      ++ (if is_empty report.issues
          then "_No issues found._" ∷ []
          else findings_lines 1 report.issues)

  unfoldable pub generate_markdown : ScanReport → String
  unfolding markdown_lines join
  generate_markdown report = join "\n" (markdown_lines report)
