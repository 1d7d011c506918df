-- ===== src/Tests/Diff.antt =====
-- Runs of the diff engine, the classifier and the report.
use integrated_work_tll.Prelude.{
  ℕ, ◌≡◌, refl, true, not, ◌&&◌, ◌||◌, List, [], ◌∷◌, ◌++◌, none, some, codes, select, arith,
  if◌then◌else◌,
}
use integrated_work_tll.Json.{null}
use integrated_work_tll.Models.{IssueType, bola}
use integrated_work_tll.Diff.Flatten.{flat, field_diff}
use integrated_work_tll.Diff.Flatten.KeySets.{IsFieldDiff, field_diff-IsFieldDiff}
use integrated_work_tll.Diff.Similarity.{body_similarity}
use integrated_work_tll.Diff.Compare.{same_user, compare_responses}
use integrated_work_tll.Diff.Compare.Anomaly.{
  same_data, shared_ids, refused_first, compare_responses-is_anomaly,
}
use integrated_work_tll.Classify.{classify_diff}
use integrated_work_tll.Classify.Triggers.{all_types, types}
use integrated_work_tll.Classify.Coverage.{
  exposes, types-classify_diff-compare_responses, same_data-classify_diff,
}
use integrated_work_tll.Report.{build_report}
use integrated_work_tll.Report.Order.{IsStableSort, build_report-IsStableSort}
use integrated_work_tll.Tests.{floats, stamp, draw, order, admin, guest, pair_diff}

abbrev bodies : List ℕ × List ℕ
bodies = (codes "id: 42", codes "id: 43")

field_diff-IsFieldDiff_example : IsFieldDiff (flat order) (flat null) (field_diff order null)
field_diff-IsFieldDiff_example = field_diff-IsFieldDiff order null

compare_responses-is_anomaly_example : (compare_responses floats admin guest 6500).is_anomaly ≡ (
    not (same_user admin guest)
    && (same_data 6500 admin guest || shared_ids admin guest || refused_first admin guest))
compare_responses-is_anomaly_example = compare_responses-is_anomaly floats admin guest 6500

types-classify_diff-compare_responses_example :
    types (classify_diff floats draw (compare_responses floats admin guest 6500)) ≡ (
      if not (same_user admin guest)
      then select (exposes floats 6500 admin guest) all_types
      else [])
types-classify_diff-compare_responses_example =
    types-classify_diff-compare_responses floats draw admin guest 6500

same : same_data 6500 admin guest ≡ true
unfolding body_similarity
same = refl

same_data-classify_diff_example :
    (before : List IssueType) × (after : List IssueType) × (types
        (classify_diff floats draw (compare_responses floats admin guest 6500))
      ≡ before ++ bola ∷ after)
same_data-classify_diff_example =
    same_data-classify_diff floats draw admin guest 6500 (omega arith) refl same

build_report-IsStableSort_example :
    IsStableSort
      (classify_diff floats draw pair_diff)
      (build_report floats 9 stamp
        (classify_diff floats draw pair_diff)
        "https://shop.example"
        "Shop"
        1
        2
        none
        (some 8)
        none).issues
build_report-IsStableSort_example =
    build_report-IsStableSort floats 9 stamp (classify_diff floats draw pair_diff)
      "https://shop.example" "Shop" 1 2 none (some 8) none
