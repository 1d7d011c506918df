-- ===== src/Spec/Plain/Parameters.antt =====
-- The parameters that the two parsers read in specifications without references.
use mathlib.Core.List.{append-nil}
use integrated_work_tll.Prelude.{◌≡◌, refl, [], some}
use integrated_work_tll.Json.{
  Json, null, bool, num, str, arr, obj, Items, nil, cons, Fields, lookup_field,
}
use integrated_work_tll.Discovery.{Parser}
use integrated_work_tll.Discovery.Body as OldBody
use integrated_work_tll.Discovery.Body.{
  lists_json, get_or, schema_of, is_body, with_default, set_default, check_auth,
}
use integrated_work_tll.Spec.{add_errors}
use integrated_work_tll.Spec.Body.{follow, resolve_ref, process_items, process_parameters}
use integrated_work_tll.Spec.Plain.{IsPlain, ArePlain, HasPlain, no_ref, get_or-IsPlain}

process_items-eq :
    (spec : Fields) (xs : Items)
    → ArePlain xs
    → process_items spec xs ≡ some (OldBody.process_items xs, [])
unfolding process_items OldBody.process_items resolve_ref follow IsPlain
process_items-eq spec nil h = refl
process_items-eq spec (cons (obj p) xs) h = rw (no_ref p h.0, process_items-eq spec xs h.1) refl
process_items-eq spec (cons null xs) h = rw (process_items-eq spec xs h.1) refl
process_items-eq spec (cons (bool b) xs) h = rw (process_items-eq spec xs h.1) refl
process_items-eq spec (cons (num n) xs) h = rw (process_items-eq spec xs h.1) refl
process_items-eq spec (cons (str s) xs) h = rw (process_items-eq spec xs h.1) refl
process_items-eq spec (cons (arr ys) xs) h = rw (process_items-eq spec xs h.1) refl

process_parameters-at :
    (spec details : Fields) (v : Json)
    → IsPlain v
    → get_or (arr nil) (lookup_field details "parameters") ≡ v
    → process_parameters spec details ≡ some (OldBody.process_parameters details, [])
unfolding process_parameters OldBody.process_parameters IsPlain
process_parameters-at spec details (arr xs) h e =
    rw (process_parameters, OldBody.process_parameters, e) (process_items-eq spec xs h)
process_parameters-at spec details null h e =
    rw (process_parameters, OldBody.process_parameters, e) refl
process_parameters-at spec details (bool b) h e =
    rw (process_parameters, OldBody.process_parameters, e) refl
process_parameters-at spec details (num n) h e =
    rw (process_parameters, OldBody.process_parameters, e) refl
process_parameters-at spec details (str s) h e =
    rw (process_parameters, OldBody.process_parameters, e) refl
process_parameters-at spec details (obj fs) h e =
    rw (process_parameters, OldBody.process_parameters, e) refl

pub process_parameters-eq :
    (spec details : Fields)
    → HasPlain details
    → process_parameters spec details ≡ some (OldBody.process_parameters details, [])
unfolding IsPlain
process_parameters-eq spec details h =
    process_parameters-at spec details (get_or (arr nil) (lookup_field details "parameters"))
      (get_or-IsPlain (arr nil) details "parameters" tt h) refl

pub add_no_errors : (s : Parser) → add_errors [] s ≡ s
add_no_errors s = λ i. record s { errors_encountered = append-nil s.errors_encountered i }
