-- ===== src/Tests/Collector.antt =====
-- Runs of the result collector.
use integrated_work_tll.Prelude.{
  ℕ, ◌+◌, ◌*◌, String, ◌≡◌, refl, Bool, true, false, not, ◌&&◌, ◌||◌, List, [], ◌∷◌, ◌++◌, Option,
  none, some, All, length, select, is_empty, if◌then◌else◌,
}
use integrated_work_tll.Json.{null, lookup_field, json_eq}
use integrated_work_tll.Models.{bola, high}
use integrated_work_tll.Diff.Compare.{compare_responses, judge, foreign_ids}
use integrated_work_tll.Diff.Flatten.{field_diff, extract_ids}
use integrated_work_tll.Diff.Similarity.{body_similarity}
use integrated_work_tll.Classify.{new_issue, classify_diff}
use integrated_work_tll.Collector.{
  Collector, new_collector, has_role, build_pairs, on_result, on_results_batch, process_buffered,
}
use integrated_work_tll.Collector.Equality.{response_eq}
use integrated_work_tll.Collector.Reflexive.{IsResponse, IsProper}
use integrated_work_tll.Collector.Pairs.{product, build_pairs-eq_product}
use integrated_work_tll.Collector.Runs.{buffer_diffs, buffer_issues, process_buffered-eq}
use integrated_work_tll.Tests.{
  floats, stamp, draws, response, order, pair_diff, admin, guest, refused,
}

abbrev fresh : Collector
fresh = new_collector "https://shop.example" "Shop" 6500 "admin" true 5

abbrev filled : Collector
filled = on_results_batch (admin ∷ guest ∷ refused ∷ []) fresh

-- A collector with two answers that give no issue.
abbrev quiet : Collector
quiet = record fresh {
  buffer =
      (
        "GET::/orders/42",
        record admin { body_json = null }
            ∷ record guest { status_code = 404; body_json = null }
            ∷ [],
      )
      ∷ [];
  request_count = 2;
}

-- A collector that has found an issue.
abbrev found : Collector
found = record filled { issues = new_issue stamp bola high "BOLA" "" "" pair_diff ∷ [] }

process_buffered-eq_example : process_buffered floats draws filled ≡ record filled {
  diffs = filled.diffs ++ buffer_diffs floats draws filled;
  issues = buffer_issues floats draws filled;
  notified =
      if filled.has_callback
      then filled.notified ++ buffer_issues floats draws filled
      else filled.notified;
}
process_buffered-eq_example = process_buffered-eq floats draws filled

order-IsProper : IsProper order
unfolding lookup_field
order-IsProper = (refl, tt, (refl, tt, (refl, (tt, (tt, tt)), tt)))

pub is_response : (user role : String) (status : ℕ) → IsResponse (response user role status)
is_response user role status = record { headers = tt; request_headers = tt; body = order-IsProper }

valid : All IsResponse (admin ∷ guest ∷ refused ∷ [])
valid = (
  is_response "alice" "admin" 200,
  (is_response "bob" "guest" 200, (is_response "carol" "guest" 403, tt)),
)

build_pairs-eq_product_example :
    build_pairs "Admin" (admin ∷ guest ∷ refused ∷ [])
    ≡ product
        (select (has_role "Admin") (admin ∷ guest ∷ refused ∷ []))
        (select (λ r. not (has_role "Admin" r)) (admin ∷ guest ∷ refused ∷ []))
unfolding integrated_work_tll.Prelude.lower
build_pairs-eq_product_example =
    build_pairs-eq_product "Admin" (admin ∷ guest ∷ refused ∷ []) valid refl

no_issues_yet : filled.issues ≡ []
unfolding on_results_batch on_result
no_issues_yet = refl

no_issues : buffer_issues floats draws quiet ≡ []
unfolding build_pairs classify_diff compare_responses judge body_similarity field_diff foreign_ids
    extract_ids integrated_work_tll.Prelude.lower response_eq json_eq
no_issues = refl
