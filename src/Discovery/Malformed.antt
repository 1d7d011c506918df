-- ===== src/Discovery/Malformed.antt =====
-- A specification on which `parse` (endpoint_discovery.py) does not end with a result.
use integrated_work_tll.Prelude.{String, ◌≡◌, inl, inr, refl, false, none, some, Bool-cases}
use integrated_work_tll.Json.{str, arr, Items, cons, Fields, lookup_field}
use integrated_work_tll.Discovery.Body.{
  request_body, body_parameters, body_parameter, extract_body_schema,
}
use integrated_work_tll.Discovery.{
  Parser, has_field, is_seen, normalize_path, add_endpoint, parse_details,
}

extract_body_schema_raises :
    (method name : String) (details : Fields) (params : Items)
    → lookup_field details "requestBody" ≡ none
    → lookup_field details "parameters" ≡ some (arr (cons (str name) params))
    → extract_body_schema method details ≡ none
unfolding extract_body_schema request_body body_parameters body_parameter
extract_body_schema_raises method name details params no_body listed =
    rw (extract_body_schema, request_body, no_body, listed, body_parameters, body_parameter) refl

-- An operation without a request body, whose list of parameters begins with a text in place of a
-- dict, makes the parser raise, unless its method and path were seen before.
pub parse_details_raises :
    (path method name : String) (details : Fields) (params : Items) (s : Parser)
    → is_seen method (normalize_path path) s.seen_endpoints ≡ false
    → lookup_field details "requestBody" ≡ none
    → lookup_field details "parameters" ≡ some (arr (cons (str name) params))
    → parse_details path method details s ≡ none
unfolding parse_details add_endpoint
parse_details_raises path method name details params s fresh no_body listed =
    let raises = extract_body_schema_raises method name details params no_body listed in
    elim (Bool-cases (has_field details "responses")) [
      | inl b ↦ rw (parse_details, fresh, b, add_endpoint, raises) refl
      | inr b ↦ rw (parse_details, fresh, b, add_endpoint, raises) refl
    ]
