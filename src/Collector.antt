-- ===== src/Collector.antt =====
-- result_collector.py: `ScanResultCollector`. Its callback is kept as the list of the issues that it
-- was called with; an exception of the callback is caught by the program and changes nothing else.
pub mod Equality
pub mod Reflexive
pub mod Pairs
pub mod Members
pub mod Buffer
pub mod Runs
pub mod Flush
use integrated_work_tll.Prelude.{
  ℕ, zero, suc, ◌+◌, String, ◌==◌, ◌&◌, Bool, true, false, not, ◌&&◌, ◌||◌, List, [], ◌∷◌, ◌++◌,
  Option, none, some, Dict, get, put, select, any, length, count_if, lower, or_empty, option_eq,
  ltb, is_empty, if◌then◌else◌,
}
use integrated_work_tll.Models.{
  Floats, Stamp, ScanResponse, DiffResult, Issue, Metadata, ScanReport,
}
use integrated_work_tll.Diff.Compare.{compare_responses}
use integrated_work_tll.Classify.{classify_diff}
use integrated_work_tll.Report.{build_report}
use Equality.{response_eq}

pub record Collector : Type 0 where
  pub target_url : String
  pub scan_name : String
  pub similarity_threshold : ℕ
  pub reference_role : String
  pub has_callback : Bool
  pub notified : List Issue
  pub buffer : Dict (List ScanResponse)
  pub diffs : List DiffResult
  pub issues : List Issue
  pub request_count : ℕ
  pub scan_start : ℕ

-- `__init__`, at the time `now`.
abbrev pub new_collector : String → String → ℕ → String → Bool → ℕ → Collector
new_collector target_url scan_name similarity_threshold reference_role has_callback now = record {
  target_url = target_url;
  scan_name = scan_name;
  similarity_threshold = similarity_threshold;
  reference_role = reference_role;
  has_callback = has_callback;
  notified = [];
  buffer = [];
  diffs = [];
  issues = [];
  request_count = 0;
  scan_start = now;
}

abbrev pub endpoint_key : ScanResponse → String
endpoint_key r = r.method & "::" & r.endpoint

-- An entry of the `defaultdict`.
abbrev pub or_nil : Option (List ScanResponse) → List ScanResponse
or_nil none = []
or_nil (some rs) = rs

unfoldable pub on_result : ScanResponse → Collector → Collector
on_result response c =
    let key = endpoint_key response in
    record c {
      buffer = put c.buffer key (or_nil (get c.buffer key) ++ response ∷ []);
      request_count = c.request_count + 1;
    }

unfoldable pub on_results_batch : List ScanResponse → Collector → Collector
on_results_batch [] c = c
on_results_batch (r ∷ responses) c = on_results_batch responses (on_result r c)

-- `(r.role or "").lower() == self.reference_role.lower()`.
abbrev pub has_role : String → ScanResponse → Bool
has_role reference r = lower (or_empty r.role) == lower reference

-- `ref.user_id != other.user_id or ref.role != other.role`.
abbrev pub differs_from : ScanResponse → ScanResponse → Bool
differs_from ref other =
    not (option_eq ref.user_id other.user_id) || not (option_eq ref.role other.role)

pairs_with : ScanResponse → List ScanResponse → List (ScanResponse × ScanResponse)
pairs_with ref [] = []
pairs_with ref (other ∷ others) =
    let rest = pairs_with ref others in if differs_from ref other then (ref, other) ∷ rest else rest

all_pairs : List ScanResponse → List ScanResponse → List (ScanResponse × ScanResponse)
unfolding pairs_with
all_pairs [] others = []
all_pairs (ref ∷ refs) others = pairs_with ref others ++ all_pairs refs others

-- With no reference the first response is the reference, and needs another one beside it.
first_pairs : List ScanResponse → List (ScanResponse × ScanResponse)
unfolding all_pairs
first_pairs [] = []
first_pairs (r ∷ []) = []
first_pairs (r ∷ s ∷ rest) = all_pairs (r ∷ []) (s ∷ rest)

unfoldable pub build_pairs : String → List ScanResponse → List (ScanResponse × ScanResponse)
unfolding first_pairs
build_pairs reference_role responses =
    let refs = select (has_role reference_role) responses in
    let others = select (λ r. not (any (response_eq r) refs)) responses in
    if is_empty refs then first_pairs responses else all_pairs refs others

module _ (fl : Floats) (draw : ℕ → ℕ → Stamp) where
  -- One round of the inner loop; `found` is `all_issues`, and comparison `k` draws from `draw k`.
  process_pair : ScanResponse → ScanResponse → Collector → List Issue → Collector × List Issue
  process_pair ref challenger c found =
      let diff = compare_responses fl ref challenger c.similarity_threshold in
      let new = if diff.is_anomaly then classify_diff fl (draw (length c.diffs)) diff else [] in
      (
        record c {
          diffs = c.diffs ++ diff ∷ [];
          notified = if c.has_callback then c.notified ++ new else c.notified;
        },
        found ++ new,
      )

  process_pairs :
      List (ScanResponse × ScanResponse) → Collector → List Issue → Collector × List Issue
  process_pairs [] c found = (c, found)
  process_pairs ((ref, challenger) ∷ pairs) c found =
      let (c', found') = process_pair ref challenger c found in process_pairs pairs c' found'

  process_entries : Dict (List ScanResponse) → Collector → List Issue → Collector × List Issue
  process_entries [] c found = (c, found)
  process_entries ((key, responses) ∷ entries) c found =
      let pairs = if ltb (length responses) 2 then [] else build_pairs c.reference_role responses in
      let (c', found') = process_pairs pairs c found in process_entries entries c' found'

  -- The issues that it returns are those that it stores.
  pub process_buffered : Collector → Collector
  process_buffered c =
      let (c', found) = process_entries c.buffer c [] in record c' { issues = found }

  -- `end` is the time at the end of the scan, and `stamp` is what the report draws.
  pub flush : (end : ℕ) → Stamp → Collector → Collector × ScanReport
  flush end stamp c =
      let done = if is_empty c.issues then process_buffered c else c in
      (
        done,
        build_report fl end stamp done.issues done.target_url done.scan_name (length done.buffer)
            done.request_count (some done.scan_start) (some end)
            (some (record {
              similarity_threshold = done.similarity_threshold;
              reference_role = done.reference_role;
              total_diffs = length done.diffs;
              anomaly_diffs = count_if (λ d. d.is_anomaly) done.diffs;
            })),
      )

pub record Stats : Type 0 where
  pub endpoints_buffered : ℕ
  pub total_requests : ℕ
  pub diffs_run : ℕ
  pub anomalies_detected : ℕ
  pub issues_found : ℕ

unfoldable pub stats : Collector → Stats
stats c = record {
  endpoints_buffered = length c.buffer;
  total_requests = c.request_count;
  diffs_run = length c.diffs;
  anomalies_detected = count_if (λ d. d.is_anomaly) c.diffs;
  issues_found = length c.issues;
}

unfoldable pub reset : ℕ → Collector → Collector
reset now c = record c { buffer = []; diffs = []; issues = []; request_count = 0; scan_start = now }
