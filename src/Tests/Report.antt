-- ===== src/Tests/Report.antt =====
-- Runs of the renderers of reports.
use integrated_work_tll.Prelude.{String, ◌&◌, refl, [], ◌∷◌, none, some, show_ℕ, pos, negsuc, ℤ}
use integrated_work_tll.Tests.{pair_diff}
use integrated_work_tll.Models.{Issue, ScanReport, bola, critical}
use integrated_work_tll.Report.Texts.{Formats}
use integrated_work_tll.Report.Data.{ReportDict}
use integrated_work_tll.Report.Html.{generate_html}
use integrated_work_tll.Report.Html.Verbatim.{IsVerbatim, generate_html-IsVerbatim}

abbrev seconds : ℤ → String
seconds (pos n) = show_ℕ n
seconds (negsuc n) = "-" & show_ℕ n

abbrev fmt : Formats
fmt = record {
  strftime = λ format t. show_ℕ t;
  isoformat = show_ℕ;
  percent = λ n d. show_ℕ n;
  show_seconds = seconds;
}

abbrev issue : Issue
issue = record {
  issue_id = "i-1";
  issue_type = bola;
  severity = critical;
  title = "Orders of <b>others</b>";
  description = "bob reads the order of alice";
  endpoint = "/orders/42";
  method = "GET";
  diff = pair_diff;
  repro = none;
  recommendation = "Check the owner.";
  cwe = "CWE-639";
  owasp = "API1:2023";
  false_positive_likelihood = 10;
  discovered_at = 7;
}

abbrev report : ScanReport
report = record {
  report_id = "d2c17a90-1111";
  target_url = "https://shop.example";
  scan_name = "Shop";
  summary = record {
    total_endpoints = 1;
    total_requests = 2;
    total_issues = 1;
    critical_count = 1;
    high_count = 0;
    medium_count = 0;
    low_count = 0;
    info_count = 0;
    duration_seconds = pos 150;
    scan_start = none;
    scan_end = some 9;
  };
  issues = issue ∷ [];
  metadata = none;
  created_at = 8;
}

abbrev dumps : ReportDict → String
dumps d = d.report_id & ": " & d.scan_name

generate_html-IsVerbatim_example : IsVerbatim fmt issue (generate_html fmt report)
generate_html-IsVerbatim_example = generate_html-IsVerbatim fmt report [] issue [] refl
