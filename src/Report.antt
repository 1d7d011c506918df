-- ===== src/Report.antt =====
-- report_generator.py: `build_report`.
pub mod Order
pub mod Summary
pub mod Texts
pub mod Markdown
pub mod Html
pub mod Data
pub mod Save
use integrated_work_tll.Prelude.{
  ℕ, zero, suc, ◌+◌, String, Bool, List, [], ◌∷◌, Option, none, some, sub_ℕ, length, leb,
  if◌then◌else◌,
}
use integrated_work_tll.Models.{
  Floats, Stamp, SeverityLevel, critical, high, medium, low, info, severity_score, Issue,
  ScanSummary, Metadata, ScanReport,
}

-- The dict `counts`, with one entry for each severity.
pub record Counts : Type 0 where
  pub critical : ℕ
  pub high : ℕ
  pub medium : ℕ
  pub low : ℕ
  pub info : ℕ

-- `counts[severity] += 1`.
abbrev pub bump : SeverityLevel → Counts → Counts
bump SeverityLevel.critical c = record c { critical = suc c.critical }
bump SeverityLevel.high c = record c { high = suc c.high }
bump SeverityLevel.medium c = record c { medium = suc c.medium }
bump SeverityLevel.low c = record c { low = suc c.low }
bump SeverityLevel.info c = record c { info = suc c.info }

unfoldable pub tally : List Issue → Counts → Counts
tally [] c = c
tally (i ∷ issues) c = tally issues (bump i.severity c)

abbrev pub no_counts : Counts
no_counts = record { critical = 0; high = 0; medium = 0; low = 0; info = 0 }

-- `sorted(issues, key=..., reverse=True)`: falling scores, and equal ones in their old order.
insert : Issue → List Issue → List Issue
insert i [] = i ∷ []
insert i (j ∷ issues) =
    if leb (severity_score j.severity) (severity_score i.severity)
    then i ∷ j ∷ issues
    else j ∷ insert i issues

unfoldable pub sort_issues : List Issue → List Issue
unfolding insert
sort_issues [] = []
sort_issues (i ∷ issues) = insert i (sort_issues issues)

abbrev or_else : Option ℕ → ℕ → ℕ
or_else none n = n
or_else (some m) n = m

-- `stamp` holds the id and the time that the report draws, and `now` is read where no end is given.
unfoldable pub build_report :
    Floats
    → (now : ℕ) → Stamp
    → List Issue
    → (target_url scan_name : String) → (total_endpoints total_requests : ℕ)
    → (scan_start scan_end : Option ℕ) → Option Metadata
    → ScanReport
unfolding tally sort_issues
build_report fl now stamp issues target_url scan_name total_endpoints total_requests scan_start
      scan_end metadata =
    let until = or_else scan_end now in
    let since = or_else scan_start until in
    let counts = tally issues no_counts in
    record {
      report_id = stamp.uuid;
      target_url = target_url;
      scan_name = scan_name;
      summary = record {
        total_endpoints = total_endpoints;
        total_requests = total_requests;
        total_issues = length issues;
        critical_count = counts.critical;
        high_count = counts.high;
        medium_count = counts.medium;
        low_count = counts.low;
        info_count = counts.info;
        duration_seconds = fl.round2 (sub_ℕ until since);
        scan_start = some since;
        scan_end = some until;
      };
      issues = sort_issues issues;
      metadata = metadata;
      created_at = stamp.now;
    }
