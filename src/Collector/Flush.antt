-- ===== src/Collector/Flush.antt =====
-- What `flush` reports.
use integrated_work_tll.Prelude.{
  ℕ, ◌+◌, ◌*◌, ◌≡◌, refl, sym, ap, ◌∙◌, false, List, [], ◌∷◌, Option, none, some, length,
  length-append, is_empty, arith,
}
use integrated_work_tll.Models.{Floats, Stamp, ScanResponse, Metadata, ScanReport}
use integrated_work_tll.Report.{sort_issues, build_report}
use integrated_work_tll.Collector.{Collector, on_result, on_results_batch, process_buffered, flush}
use integrated_work_tll.Collector.Runs.{buffer_diffs, buffer_issues, process_buffered-eq}

abbrev pub total_diffs : Option Metadata → ℕ
total_diffs none = 0
total_diffs (some m) = m.total_diffs

-- What a report of a finished scan says of the collector.
pub record IsScanReport (fl : Floats) (draw : ℕ → ℕ → Stamp) (c : Collector) (r : ScanReport)
    : Type 0 where
  pub issues : r.issues ≡ sort_issues (buffer_issues fl draw c)
  pub total_issues : r.summary.total_issues ≡ length (buffer_issues fl draw c)
  pub total_endpoints : r.summary.total_endpoints ≡ length c.buffer
  pub total_requests : r.summary.total_requests ≡ c.request_count
  pub diffs : total_diffs r.metadata ≡ length c.diffs + length (buffer_diffs fl draw c)

issues-on_results_batch :
    (responses : List ScanResponse) (c : Collector)
    → (on_results_batch responses c).issues ≡ c.issues
unfolding on_results_batch on_result
issues-on_results_batch [] c = refl
issues-on_results_batch (r ∷ responses) c = issues-on_results_batch responses (on_result r c)

module _ (fl : Floats) (draw : ℕ → ℕ → Stamp) (end : ℕ) (stamp : Stamp) where
  -- A flush of a collector that has found no issues yet processes the buffer and reports its
  -- issues in the order of the report, with the numbers of endpoints, requests and comparisons.
  pub flush-IsScanReport :
      (c : Collector) → c.issues ≡ [] → IsScanReport fl draw c (flush fl draw end stamp c).1
  unfolding flush build_report
  flush-IsScanReport c none_yet =
      simp (none_yet, process_buffered-eq fl draw c)
        (record {
          issues = refl;
          total_issues = refl;
          total_endpoints = refl;
          total_requests = refl;
          diffs = length-append c.diffs (buffer_diffs fl draw c);
        })

  -- Where the buffer has no issues, a flush after `process_buffered` compares every pair once more:
  -- the report counts each comparison of the buffer twice.
  pub flush-process_buffered-total_diffs :
      (c : Collector)
      → buffer_issues fl draw c ≡ []
      → total_diffs (flush fl draw end stamp (process_buffered fl draw c)).1.metadata
        ≡ length c.diffs + 2 * length (buffer_diffs fl draw c)
  flush-process_buffered-total_diffs c h =
      let after = process_buffered fl draw c in
      let same = process_buffered-eq fl draw c in
      let report = flush-IsScanReport after (ap (λ (x : Collector). x.issues) same ∙ h) in
      let again : buffer_diffs fl draw after ≡ buffer_diffs fl draw c =
        ap (λ (x : Collector). buffer_diffs fl draw x) same in
      let first : length after.diffs ≡ length c.diffs + length (buffer_diffs fl draw c) =
        ap (λ (x : Collector). length x.diffs) same
        ∙ length-append c.diffs (buffer_diffs fl draw c) in
      let second : length (buffer_diffs fl draw after) ≡ length (buffer_diffs fl draw c) =
        ap length again in
      omega (arith, report.diffs, first, second)

  flush-issues :
      (c : Collector)
      → is_empty c.issues ≡ false
      → (flush fl draw end stamp c).1.issues ≡ sort_issues c.issues
  unfolding flush build_report
  flush-issues c h = simp h

  -- Once issues are stored, results that come later change no issue of the report.
  pub flush_stale :
      (responses : List ScanResponse) (c : Collector)
      → is_empty c.issues ≡ false
      → (flush fl draw end stamp (on_results_batch responses c)).1.issues
        ≡ (flush fl draw end stamp c).1.issues
  flush_stale responses c h =
      let same = issues-on_results_batch responses c in
      flush-issues (on_results_batch responses c) (ap is_empty same ∙ h)
      ∙ ap sort_issues same
      ∙ sym (flush-issues c h)
