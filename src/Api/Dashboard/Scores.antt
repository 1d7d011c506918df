-- ===== src/Api/Dashboard/Scores.antt =====
-- The counts and the scores of the dashboard.
use integrated_work_tll.Prelude.{
  ℕ, ◌+◌, ◌≤◌, String, ◌≡◌, ◌↔◌, refl, Bool, true, false, List, [], ◌∷◌, Option, count_if, arith,
  if◌then◌else◌,
}
use integrated_work_tll.Models.{SeverityLevel, critical, high, medium, low, info}
use integrated_work_tll.Report.{Counts, no_counts}
use integrated_work_tll.Analysis.{
  ApiIssue, Generated, generated, value_error, raised, Run, generate_report,
}
use integrated_work_tll.Api.Tables.{Scan, Task, Tables}
use integrated_work_tll.Api.Dashboard.{
  count_severity, count_vulnerabilities, count_report, security_score, risk_score, count_scans,
  DashboardStats, get_dashboard_stats,
}

abbrev pub is_critical : SeverityLevel → Bool
is_critical critical = true
is_critical _ = false

abbrev pub is_high : SeverityLevel → Bool
is_high high = true
is_high _ = false

abbrev pub is_medium : SeverityLevel → Bool
is_medium medium = true
is_medium _ = false

abbrev pub is_low : SeverityLevel → Bool
is_low low = true
is_low _ = false

-- The findings of a report, none where there is no report.
abbrev pub findings_of : Generated → List ApiIssue
findings_of (generated report) = report.vulnerabilities
findings_of (value_error e) = []
findings_of (raised e) = []

critical-count_severity :
    (s : SeverityLevel) (c : Counts)
    → (count_severity s c).critical ≡ c.critical + (if is_critical s then 1 else 0)
critical-count_severity critical c = omega arith
critical-count_severity high c = omega arith
critical-count_severity medium c = omega arith
critical-count_severity low c = omega arith
critical-count_severity info c = omega arith

high-count_severity :
    (s : SeverityLevel) (c : Counts)
    → (count_severity s c).high ≡ c.high + (if is_high s then 1 else 0)
high-count_severity critical c = omega arith
high-count_severity high c = omega arith
high-count_severity medium c = omega arith
high-count_severity low c = omega arith
high-count_severity info c = omega arith

medium-count_severity :
    (s : SeverityLevel) (c : Counts)
    → (count_severity s c).medium ≡ c.medium + (if is_medium s then 1 else 0)
medium-count_severity critical c = omega arith
medium-count_severity high c = omega arith
medium-count_severity medium c = omega arith
medium-count_severity low c = omega arith
medium-count_severity info c = omega arith

low-count_severity :
    (s : SeverityLevel) (c : Counts)
    → (count_severity s c).low ≡ c.low + (if is_low s then 1 else 0)
low-count_severity critical c = omega arith
low-count_severity high c = omega arith
low-count_severity medium c = omega arith
low-count_severity low c = omega arith
low-count_severity info c = omega arith

abbrev pub of_kind : (SeverityLevel → Bool) → ApiIssue → Bool
of_kind p v = p v.severity

-- How many findings of the kind the reports of the scans have.
abbrev pub found_in : (SeverityLevel → Bool) → Run → (tables : Tables) → tables.Db → List Scan → ℕ
found_in p run tables d [] = 0
found_in p run tables d (scan ∷ scans) =
    count_if (of_kind p) (findings_of (generate_report run tables scan.id d))
    + found_in p run tables d scans

module _ (f : Counts → ℕ) (p : SeverityLevel → Bool)
    (step : (s : SeverityLevel) (c : Counts)
      → f (count_severity s c) ≡ f c + (if p s then 1 else 0)) where
  count_vulnerabilities_lem :
      (vs : List ApiIssue) (c : Counts)
      → f (count_vulnerabilities vs c) ≡ f c + count_if (of_kind p) vs
  unfolding count_vulnerabilities
  count_vulnerabilities_lem [] c = omega arith
  count_vulnerabilities_lem (v ∷ vs) c =
      ground (arith, step v.severity c, count_vulnerabilities_lem vs (count_severity v.severity c))

  count_report_lem :
      (g : Generated) (c : Counts)
      → f (count_report g c) ≡ f c + count_if (of_kind p) (findings_of g)
  count_report_lem (generated r) c = count_vulnerabilities_lem r.vulnerabilities c
  count_report_lem (value_error e) c = omega arith
  count_report_lem (raised e) c = omega arith

  module _ (run : Run) (tables : Tables) (d : tables.Db) where
    pub count_scans_lem :
        (url_path : String → Option String) (now : ℕ) (scans : List Scan) (c : Counts)
        → f (count_scans run url_path now tables d scans c) ≡ f c + found_in p run tables d scans
    unfolding count_scans
    count_scans_lem url_path now [] c = omega arith
    count_scans_lem url_path now (scan ∷ scans) c =
        let g = generate_report run tables scan.id d in
        omega (arith, count_report_lem g c, count_scans_lem url_path now scans (count_report g c))

security_score_bounded : (c : Counts) → security_score c ≤ 100
unfolding security_score
security_score_bounded c = omega arith

risk_score-zero : (c : Counts) → (risk_score c ≡ 0) ↔ (c.critical + c.high + c.medium + c.low ≡ 0)
unfolding risk_score
risk_score-zero c = ground arith

security_score-full :
    (c : Counts) → (security_score c ≡ 100) ↔ (c.critical + c.high + c.medium + c.low ≡ 0)
unfolding security_score
security_score-full c = ground arith

-- How the statistics rate the findings of the reports of the scans.
pub record IsScored (run : Run) (tables : Tables) (d : tables.Db) (s : DashboardStats)
    : Type 0 where
  pub critical : s.critical_count ≡ found_in is_critical run tables d (tables.scans d)
  pub high : s.high_count ≡ found_in is_high run tables d (tables.scans d)
  pub medium : s.medium_count ≡ found_in is_medium run tables d (tables.scans d)
  pub low : s.low_count ≡ found_in is_low run tables d (tables.scans d)
  pub total :
      s.total_vulnerabilities ≡ s.critical_count + s.high_count + s.medium_count + s.low_count
  pub at_most : s.security_score ≤ 100
  pub full : (s.security_score ≡ 100) ↔ (s.total_vulnerabilities ≡ 0)
  pub no_risk : (s.risk_score ≡ 0) ↔ (s.total_vulnerabilities ≡ 0)

-- The dashboard counts the findings of each severity over the reports of all scans, a report that
-- raises counting for none; its security score is at most 100, and is 100 exactly if there is no
-- finding above the severity info; so it is with the risk score 0.
pub get_dashboard_stats-IsScored :
    (run : Run) (url_path : String → Option String) (now : ℕ) (tables : Tables)
    (tasks recent : List Task) (d : tables.Db)
    → IsScored run tables d (get_dashboard_stats run url_path now tables tasks recent d)
unfolding get_dashboard_stats
get_dashboard_stats-IsScored run url_path now tables tasks recent d =
    let c = count_scans run url_path now tables d (tables.scans d) no_counts in
    record {
      critical = omega (
        arith,
        count_scans_lem (λ x. x.critical) is_critical critical-count_severity run tables d url_path
            now (tables.scans d) no_counts,
      );
      high = omega (
        arith,
        count_scans_lem (λ x. x.high) is_high high-count_severity run tables d url_path now
            (tables.scans d) no_counts,
      );
      medium = omega (
        arith,
        count_scans_lem (λ x. x.medium) is_medium medium-count_severity run tables d url_path now
            (tables.scans d) no_counts,
      );
      low = omega (
        arith,
        count_scans_lem (λ x. x.low) is_low low-count_severity run tables d url_path now
            (tables.scans d) no_counts,
      );
      total = refl;
      at_most = security_score_bounded c;
      full = security_score-full c;
      no_risk = risk_score-zero c;
    }
