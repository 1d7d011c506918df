-- ===== src/Report/Html.antt =====
-- report_generator.py: `generate_html`. The page is kept as its lines, each with its line feed.
mod Style
pub mod Verbatim
use integrated_work_tll.Prelude.{
  ℕ, suc, String, ◌==◌, ◌&◌, Bool, List, [], ◌∷◌, ◌++◌, Option, none, some, show_ℕ, show_option,
  join, map, take, is_empty, if◌then◌else◌,
}
use integrated_work_tll.Models.{
  SeverityLevel, critical, high, medium, low, info, ReproductionSteps, Issue, ScanReport,
}
use integrated_work_tll.Report.Texts.{Formats, type_value, severity_value, short_id, concat}
use Style.{style_lines}

-- `_SEVERITY_COLOR` and `_SEVERITY_BG`.
abbrev pub severity_color : SeverityLevel → String
severity_color critical = "#dc2626"
severity_color high = "#ea580c"
severity_color medium = "#d97706"
severity_color low = "#2563eb"
severity_color info = "#6b7280"

abbrev pub severity_bg : SeverityLevel → String
severity_bg critical = "#fef2f2"
severity_bg high = "#fff7ed"
severity_bg medium = "#fffbeb"
severity_bg low = "#eff6ff"
severity_bg info = "#f9fafb"

abbrev pub badge : SeverityLevel → String
badge severity =
    "<span style=\"background:"
    & severity_bg severity
    & ";color:"
    & severity_color severity
    & ";border:1px solid "
    & severity_color severity
    & ";padding:2px 10px;border-radius:20px;font-size:12px;font-weight:600;\">"
    & severity_value severity
    & "</span>"

abbrev pub curl_of : Option ReproductionSteps → String
curl_of none = "N/A"
curl_of (some repro) = repro.curl_command

-- `text or "—"`.
abbrev pub or_dash : String → String
or_dash text = if text == "" then "—" else text

unfoldable pub codes_or_dash : List String → String
unfolding join
codes_or_dash fields = or_dash (join ", " (map (λ f. "<code>" & f & "</code>") fields))

abbrev pub no_issues : List Issue → String
no_issues issues =
    if is_empty issues
    then "<p style=\"color:#6b7280;font-style:italic;\">No issues found.</p>"
    else ""

module _ (fmt : Formats) where
  abbrev pub issue_html : ℕ → Issue → List String
  issue_html idx issue =
      "\n"
      ∷ ("        <div class=\"issue\" id=\"issue-" & show_ℕ idx & "\">\n")
      ∷ "          <div class=\"issue-header\">\n"
      ∷ ("            <span class=\"issue-num\">#" & show_ℕ idx & "</span>\n")
      ∷ ("            " & badge issue.severity & "\n")
      ∷ ("            <span class=\"issue-type\">" & type_value issue.issue_type & "</span>\n")
      ∷ ("            <span class=\"issue-title\">" & issue.title & "</span>\n")
      ∷ "          </div>\n"
      ∷ "          <div class=\"issue-body\">\n"
      ∷ "            <div class=\"grid2\">\n"
      ∷ ("              <div><strong>Endpoint:</strong> <code>" & issue.method & " "
          & issue.endpoint & "</code></div>\n")
      ∷ ("              <div><strong>Discovered:</strong> "
          & fmt.strftime "%Y-%m-%d %H:%M UTC" issue.discovered_at
          & "</div>\n")
      ∷ ("              <div><strong>CWE:</strong> " & issue.cwe & "</div>\n")
      ∷ ("              <div><strong>OWASP:</strong> " & issue.owasp & "</div>\n")
      ∷ "            </div>\n"
      ∷ "            <div class=\"section-label\">Description</div>\n"
      ∷ ("            <p>" & issue.description & "</p>\n")
      ∷ "            <div class=\"section-label\">Evidence</div>\n"
      ∷ "            <table class=\"evidence-table\">\n"
      ∷ ("              <tr><td>Body Similarity</td><td><strong>"
          & fmt.percent issue.diff.body_similarity 10000
          & "</strong></td></tr>\n")
      ∷ ("              <tr><td>Status A → B</td><td><code>"
          & show_ℕ issue.diff.response_a.status_code
          & "</code> → <code>"
          & show_ℕ issue.diff.response_b.status_code
          & "</code></td></tr>\n")
      ∷ ("              <tr><td>User A</td><td>"
          & show_option issue.diff.response_a.user_id
          & " (role: "
          & show_option issue.diff.response_a.role
          & ")</td></tr>\n")
      ∷ ("              <tr><td>User B</td><td>"
          & show_option issue.diff.response_b.user_id
          & " (role: "
          & show_option issue.diff.response_b.role
          & ")</td></tr>\n")
      ∷ ("              <tr><td>Leaked Fields</td><td>"
          & codes_or_dash (take 10 issue.diff.leaked_fields)
          & "</td></tr>\n")
      ∷ ("              <tr><td>Foreign IDs</td><td>"
          & codes_or_dash (take 5 issue.diff.foreign_ids_found)
          & "</td></tr>\n")
      ∷ ("              <tr><td>Anomaly Reason</td><td>"
          & or_dash issue.diff.anomaly_reason
          & "</td></tr>\n")
      ∷ "            </table>\n"
      ∷ "            <div class=\"section-label\">Reproduction</div>\n"
      ∷ ("            <pre class=\"curl\">" & curl_of issue.repro & "</pre>\n")
      ∷ "            <div class=\"section-label\">Recommendation</div>\n"
      ∷ ("            <p class=\"recommendation\">" & issue.recommendation & "</p>\n")
      ∷ "          </div>\n"
      ∷ "        </div>\n"
      ∷ "        "
      ∷ []

  unfoldable pub issues_html : ℕ → List Issue → String
  unfolding concat codes_or_dash
  issues_html idx [] = ""
  issues_html idx (issue ∷ issues) = concat (issue_html idx issue) & issues_html (suc idx) issues

  abbrev pub head_lines : ScanReport → List String
  head_lines report =
      "<!DOCTYPE html>\n"
      ∷ "<html lang=\"en\">\n"
      ∷ "<head>\n"
      ∷ "  <meta charset=\"UTF-8\"/>\n"
      ∷ "  <meta name=\"viewport\" content=\"width=device-width,initial-scale=1\"/>\n"
      ∷ ("  <title>" & report.scan_name & " — Security Report</title>\n")
      ∷ []

  abbrev pub body_lines : ScanReport → List String
  body_lines report =
      "</head>\n"
      ∷ "<body>\n"
      ∷ "<div class=\"container\">\n"
      ∷ ("  <h1>" & report.scan_name & "</h1>\n")
      ∷ "  <div class=\"meta\">\n"
      ∷ ("    <span>🎯 <strong>" & report.target_url & "</strong></span>\n")
      ∷ ("    <span>🕒 " & fmt.strftime "%Y-%m-%d %H:%M UTC" report.created_at & "</span>\n")
      ∷ ("    <span>⏱ " & fmt.show_seconds report.summary.duration_seconds & "s</span>\n")
      ∷ ("    <span>ID: <code>" & short_id report.report_id & "…</code></span>\n")
      ∷ "  </div>\n"
      ∷ "\n"
      ∷ "  <div class=\"summary-grid\">\n"
      ∷ ("    <div class=\"summary-card\"><div class=\"num\">"
          & show_ℕ report.summary.total_endpoints
          & "</div><div class=\"lbl\">Endpoints</div></div>\n")
      ∷ ("    <div class=\"summary-card\"><div class=\"num\">"
          & show_ℕ report.summary.total_requests
          & "</div><div class=\"lbl\">Requests</div></div>\n")
      ∷ ("    <div class=\"summary-card\"><div class=\"num\" style=\"color:#dc2626\">"
          & show_ℕ report.summary.critical_count
          & "</div><div class=\"lbl\">Critical</div></div>\n")
      ∷ ("    <div class=\"summary-card\"><div class=\"num\" style=\"color:#ea580c\">"
          & show_ℕ report.summary.high_count
          & "</div><div class=\"lbl\">High</div></div>\n")
      ∷ ("    <div class=\"summary-card\"><div class=\"num\" style=\"color:#d97706\">"
          & show_ℕ report.summary.medium_count
          & "</div><div class=\"lbl\">Medium</div></div>\n")
      ∷ ("    <div class=\"summary-card\"><div class=\"num\" style=\"color:#2563eb\">"
          & show_ℕ report.summary.low_count
          & "</div><div class=\"lbl\">Low</div></div>\n")
      ∷ "  </div>\n"
      ∷ "\n"
      ∷ "  <hr/>\n"
      ∷ ("  <h2 style=\"font-size:16px;font-weight:600;margin-bottom:1rem;\">Findings ("
          & show_ℕ report.summary.total_issues
          & ")</h2>\n")
      ∷ ("  " & no_issues report.issues & "\n")
      ∷ ("  " & issues_html 1 report.issues & "\n")
      ∷ "\n"
      ∷ "  <div class=\"footer\">Generated by Team Alpha Security Scanner &bull; Task 6 — Response Diff Engine</div>\n"
      ∷ "</div>\n"
      ∷ "</body>\n"
      ∷ "</html>"
      ∷ []

  unfoldable pub generate_html : ScanReport → String
  unfolding concat issues_html
  generate_html report =
      concat (head_lines report) & concat style_lines & concat (body_lines report)
