-- ===== src/Diff/Compare/Anomaly.antt =====
-- When `compare_responses` flags an anomaly, and which ids it reports.
use integrated_work_tll.Prelude.{
  ℕ, String, ◌≡◌, refl, Bool, false, not, ◌&&◌, ◌||◌, List, [], ◌∷◌, select, elem, is_empty,
  option_eq_iff, elem-select, eqb, map, arith,
}
use integrated_work_tll.Models.{Floats, ScanResponse}
use integrated_work_tll.Diff.Flatten.{extract_ids}
use integrated_work_tll.Diff.Similarity.{body_similarity, at_least}
use integrated_work_tll.Diff.Compare.{
  different_tenant, same_user, foreign_ids, is_denied, judge, compare_responses, batch_compare,
}

-- The three reasons for an anomaly, as the program's documentation names them: the same data for
-- both users, ids of one user in an answer to another, and a refusal for the first user only.
abbrev pub same_data : ℕ → ScanResponse → ScanResponse → Bool
same_data threshold a b =
    eqb a.status_code 200
    && eqb b.status_code 200
    && at_least threshold (body_similarity a.body b.body)

abbrev pub shared_ids : ScanResponse → ScanResponse → Bool
shared_ids a b =
    (eqb a.status_code 200 || eqb b.status_code 200) && not (is_empty (foreign_ids a b))

abbrev pub refused_first : ScanResponse → ScanResponse → Bool
refused_first a b = is_denied a.status_code && eqb b.status_code 200

-- A comparison is an anomaly exactly if the two users differ and one of the three reasons holds.
pub compare_responses-is_anomaly :
    (fl : Floats) (a b : ScanResponse) (threshold : ℕ)
    → (compare_responses fl a b threshold).is_anomaly
      ≡ (not (same_user a b) && (same_data threshold a b || shared_ids a b || refused_first a b))
unfolding compare_responses judge
compare_responses-is_anomaly fl a b threshold = ground arith

-- Two answers to one user are never an anomaly.
pub same_user-no_anomaly :
    (fl : Floats) (a b : ScanResponse) (threshold : ℕ)
    → a.user_id ≡ b.user_id
    → (compare_responses fl a b threshold).is_anomaly ≡ false
same_user-no_anomaly fl a b threshold e =
    ground (arith, compare_responses-is_anomaly fl a b threshold, option_eq_iff a.user_id b.user_id)

-- An id is reported as foreign exactly if both bodies hold it and the users or the tenants differ.
pub elem-foreign_ids :
    (fl : Floats) (a b : ScanResponse) (threshold : ℕ) (x : String)
    → elem x (compare_responses fl a b threshold).foreign_ids_found ≡ (
        (different_tenant a b || not (same_user a b))
        && elem x (extract_ids a.body_json)
        && elem x (extract_ids b.body_json))
unfolding compare_responses foreign_ids
elem-foreign_ids fl a b threshold x =
    ground (arith, elem-select (λ i. elem i (extract_ids b.body_json)) x (extract_ids a.body_json))

-- A batch keeps the anomalies of its pairs, all of them, in the order of the pairs.
pub batch_compare-eq_select :
    (fl : Floats) (pairs : List (ScanResponse × ScanResponse)) (threshold : ℕ)
    → batch_compare fl pairs threshold
      ≡ select (λ d. d.is_anomaly) (map (λ p. compare_responses fl p.0 p.1 threshold) pairs)
unfolding batch_compare
batch_compare-eq_select fl [] threshold = refl
batch_compare-eq_select fl ((a, b) ∷ pairs) threshold =
    rw (batch_compare-eq_select fl pairs threshold)
