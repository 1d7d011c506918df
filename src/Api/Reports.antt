-- ===== src/Api/Reports.antt =====
-- executor/api/routes.py: `get_scan_report` and `get_scan_vulnerabilities`.
use integrated_work_tll.Prelude.{String, ◌&◌, List, []}
use integrated_work_tll.Analysis.{
  ApiIssue, ApiReport, Generated, generated, value_error, raised, Run, generate_report,
}
use integrated_work_tll.Api.{Reply, reply, http_error}
use integrated_work_tll.Api.Tables.{Tables}

abbrev pub report_reply : Generated → Reply ApiReport
report_reply (generated report) = reply report
report_reply (value_error e) = http_error 404 e
report_reply (raised e) = http_error 500 ("Report generation failed: " & e)

-- Another exception than a missing scan gives an empty list.
abbrev pub vulnerabilities_reply : Generated → Reply (List ApiIssue)
vulnerabilities_reply (generated report) = reply report.vulnerabilities
vulnerabilities_reply (value_error e) = http_error 404 e
vulnerabilities_reply (raised e) = reply []

module _ (run : Run) (tables : Tables) (scan_id : String) (d : tables.Db) where
  unfoldable pub get_scan_report : Reply ApiReport
  unfolding generate_report
  get_scan_report = report_reply (generate_report run tables scan_id d)

  unfoldable pub get_scan_vulnerabilities : Reply (List ApiIssue)
  unfolding generate_report
  get_scan_vulnerabilities = vulnerabilities_reply (generate_report run tables scan_id d)
