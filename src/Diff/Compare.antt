-- ===== src/Diff/Compare.antt =====
-- diff_engine.py: `compare_responses`, `detect_data_leak` and `batch_compare`.
pub mod Anomaly
use integrated_work_tll.Prelude.{
  ℕ, ◌*◌, String, ◌==◌, ◌&◌, Bool, true, false, not, ◌&&◌, ◌||◌, List, [], ◌∷◌, sub_ℕ, select, elem,
  is_empty, take, join, length, show_ℕ, show_option, option_eq, or_empty, is_given, eqb, leb,
  if◌then◌else◌,
}
use integrated_work_tll.Models.{Floats, ScanResponse, DiffResult}
use integrated_work_tll.Diff.Flatten.{field_diff, extract_ids}
use integrated_work_tll.Diff.Similarity.{Ratio, body_similarity, round4, at_least}

module _ (a b : ScanResponse) where
  abbrev pub different_tenant : Bool
  different_tenant =
      is_given a.tenant_id && is_given b.tenant_id && not (option_eq a.tenant_id b.tenant_id)

  abbrev pub same_user : Bool
  same_user = option_eq a.user_id b.user_id

  -- `ids_a & ids_b`, if the two responses belong to different users or tenants.
  unfoldable pub foreign_ids : List String
  foreign_ids =
      let ids_a = extract_ids a.body_json in
      let ids_b = extract_ids b.body_json in
      if different_tenant || not same_user then select (λ i. elem i ids_b) ids_a else []

abbrev pub is_denied : ℕ → Bool
is_denied status = eqb status 403 || eqb status 401

pub record Verdict : Type 0 where
  pub is_anomaly : Bool
  pub reason : String

-- The ladder of `compare_responses` that sets `is_anomaly` and `anomaly_reason`.
unfoldable pub judge : Floats → ℕ → ScanResponse → ScanResponse → Ratio → List String → Verdict
judge fl threshold a b sim foreign =
    if not (same_user a b)
      && eqb a.status_code 200
      && eqb b.status_code 200
      && at_least threshold sim
    then record {
      is_anomaly = true;
      reason =
          "Both users received HTTP 200 with body similarity "
          & fl.percent sim.num sim.den
          & ". User A ("
          & show_option a.user_id
          & "/"
          & show_option a.role
          & ") and User B ("
          & show_option b.user_id
          & "/"
          & show_option b.role
          & ") appear to receive the same data.";
    }
    else if not (is_empty foreign)
        && not (same_user a b)
        && (eqb a.status_code 200 || eqb b.status_code 200)
    then record {
      is_anomaly = true;
      reason =
          "IDs belonging to User A ("
          & show_option a.user_id
          & ") found in User B's response body: "
          & join ", " (take 5 foreign);
    }
    else if not (same_user a b) && is_denied a.status_code && eqb b.status_code 200
    then record {
      is_anomaly = true;
      reason =
          "User A received "
          & show_ℕ a.status_code
          & " but User B ("
          & show_option b.role
          & ") received 200 on the same endpoint.";
    }
    else record { is_anomaly = false; reason = "" }

unfoldable pub compare_responses : Floats → ScanResponse → ScanResponse → ℕ → DiffResult
compare_responses fl a b threshold =
    let sim = body_similarity a.body b.body in
    let fields = field_diff a.body_json b.body_json in
    let foreign = foreign_ids a b in
    let verdict = judge fl threshold a b sim foreign in
    record {
      endpoint = a.endpoint;
      method = a.method;
      response_a = a;
      response_b = b;
      status_delta = sub_ℕ b.status_code a.status_code;
      body_similarity = round4 fl sim;
      leaked_fields = fields.leaked;
      added_fields = fields.added;
      removed_fields = fields.removed;
      value_changes = fields.value_changes;
      is_anomaly = verdict.is_anomaly;
      anomaly_reason = verdict.reason;
      foreign_ids_found = foreign;
    }

unfoldable pub detect_data_leak : DiffResult → Bool
detect_data_leak diff =
    leb 6500 diff.body_similarity
    || leb 3 (length diff.leaked_fields)
    || not (is_empty diff.foreign_ids_found)

unfoldable pub batch_compare : Floats → List (ScanResponse × ScanResponse) → ℕ → List DiffResult
batch_compare fl [] threshold = []
batch_compare fl ((a, b) ∷ pairs) threshold =
    let diff = compare_responses fl a b threshold in
    let rest = batch_compare fl pairs threshold in if diff.is_anomaly then diff ∷ rest else rest
