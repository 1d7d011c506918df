-- ===== src/Report/Summary.antt =====
-- The counts in the summary of a report.
use integrated_work_tll.Prelude.{
  ℕ, ◌+◌, String, ◌≡◌, Bool, true, false, List, [], ◌∷◌, Option, length, count_if, arith,
}
use integrated_work_tll.Models.{
  Floats, Stamp, SeverityLevel, critical, high, medium, low, info, Issue, Metadata, ScanSummary,
}
use integrated_work_tll.Report.{Counts, bump, tally, no_counts, build_report}

abbrev pub same_severity : SeverityLevel → SeverityLevel → Bool
same_severity critical critical = true
same_severity high high = true
same_severity medium medium = true
same_severity low low = true
same_severity info info = true
same_severity _ _ = false

abbrev pub count_of : SeverityLevel → List Issue → ℕ
count_of s = count_if (λ i. same_severity i.severity s)

-- Every count is the number of issues of its severity, and the counts add up.
pub record IsCounted (issues : List Issue) (s : ScanSummary) : Type 0 where
  pub critical : s.critical_count ≡ count_of SeverityLevel.critical issues
  pub high : s.high_count ≡ count_of SeverityLevel.high issues
  pub medium : s.medium_count ≡ count_of SeverityLevel.medium issues
  pub low : s.low_count ≡ count_of SeverityLevel.low issues
  pub info : s.info_count ≡ count_of SeverityLevel.info issues
  pub total :
      s.total_issues ≡ s.critical_count + s.high_count + s.medium_count + s.low_count + s.info_count

record IsTally (issues : List Issue) (c d : Counts) : Type 0 where
  critical : d.critical ≡ c.critical + count_of SeverityLevel.critical issues
  high : d.high ≡ c.high + count_of SeverityLevel.high issues
  medium : d.medium ≡ c.medium + count_of SeverityLevel.medium issues
  low : d.low ≡ c.low + count_of SeverityLevel.low issues
  info : d.info ≡ c.info + count_of SeverityLevel.info issues
  total :
      d.critical + d.high + d.medium + d.low + d.info
      ≡ c.critical + c.high + c.medium + c.low + c.info + length issues

tally-IsTally : (issues : List Issue) (c : Counts) → IsTally issues c (tally issues c)
unfolding tally
tally-IsTally [] c = omega arith
tally-IsTally (i ∷ issues) c = ground (arith, tally-IsTally issues (bump i.severity c))

module _ (fl : Floats) (now : ℕ) (stamp : Stamp) (issues : List Issue) (target name : String)
    (endpoints requests : ℕ) (since until : Option ℕ) (metadata : Option Metadata) where
  -- The summary of a report counts the issues of each severity, and the total is the sum of the
  -- five counts.
  pub build_report-IsCounted :
      IsCounted issues
        (build_report fl now stamp issues target name endpoints requests since until
          metadata).summary
  unfolding build_report
  build_report-IsCounted = let t = tally-IsTally issues no_counts in ground (arith, t)
