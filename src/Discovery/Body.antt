-- ===== src/Discovery/Body.antt =====
-- endpoint_discovery.py: `_check_auth`, `_extract_body_schema` and `_process_parameters`. Where a
-- value is not of the kind that the code takes it for, Python raises: `none`.
use integrated_work_tll.Prelude.{
  String, ◌==◌, Bool, true, false, ◌||◌, List, [], ◌∷◌, Option, none, some, contains, elem,
  if◌then◌else◌,
}
use integrated_work_tll.Json.{
  Json, null, bool, str, arr, obj, Items, nil, cons, Fields, end, field, lookup_field, truthy,
}

-- `d.get(k, default)`.
abbrev pub get_or : Json → Option Json → Json
get_or default none = default
get_or default (some v) = v

-- `isinstance(security, list) and len(security) > 0`.
abbrev pub is_required : Json → Bool
is_required (arr (cons x xs)) = true
is_required _ = false

-- `_check_auth`, with the global entry where the endpoint has none.
unfoldable pub check_auth : (spec : Fields) (details : Fields) → Bool
check_auth spec details = elim (lookup_field details "security") [
  | some security ↦ is_required security
  | none ↦ is_required (get_or (arr nil) (lookup_field spec "security"))
]

-- `"application/json" in xs`, for a list.
abbrev pub lists_json : Items → Bool
lists_json nil = false
lists_json (cons (str s) xs) = s == "application/json" || lists_json xs
lists_json (cons x xs) = lists_json xs

-- The schema in the `content` of a request body.
unfoldable pub schema_of : Json → Option Json
schema_of (obj content) = elim (lookup_field content "application/json") [
  | none ↦ some null
  | some (obj media) ↦ some (get_or null (lookup_field media "schema"))
  | some v ↦ none
]
schema_of (str s) = if contains s "application/json" then none else some null
schema_of (arr xs) = if lists_json xs then none else some null
schema_of _ = none

-- The first part: schema and requirement of OpenAPI 3.
unfoldable pub request_body : Fields → Option (Json × Json)
unfolding schema_of
request_body details = elim (lookup_field details "requestBody") [
  | none ↦ some (null, bool false)
  | some (obj rb) ↦
      let required = get_or (bool false) (lookup_field rb "required") in
      elim (schema_of (get_or (obj end) (lookup_field rb "content"))) [
        | none ↦ none
        | some schema ↦ some (schema, required)
      ]
  | some v ↦ none
]

abbrev pub is_body : Option Json → Bool
is_body (some (str s)) = s == "body"
is_body _ = false

-- The loop over the parameters of Swagger 2.
unfoldable pub body_parameter : Items → Json × Json → Option (Json × Json)
body_parameter nil found = some found
body_parameter (cons (obj p) params) found =
    let rest = body_parameter params found in
    if is_body (lookup_field p "in")
    then some
        (get_or null (lookup_field p "schema"), get_or (bool false) (lookup_field p "required"))
    else rest
body_parameter (cons v params) found = none

-- What a value of `parameters` gives the loop: an empty text or dict has nothing to go through.
unfoldable pub body_parameters : Json → Json × Json → Option (Json × Json)
unfolding body_parameter
body_parameters (arr params) found = body_parameter params found
body_parameters (obj end) found = some found
body_parameters (str s) found = if s == "" then some found else none
body_parameters _ found = none

abbrev pub takes_body : String → Bool
takes_body method = elem method ("POST" ∷ "PUT" ∷ "PATCH" ∷ [])

abbrev pub with_default : String → Json × Json → Json × Json
with_default method (null, required) = (if takes_body method then obj end else null, required)
with_default method (schema, required) = (schema, required)

unfoldable pub extract_body_schema : (method : String) → Fields → Option (Json × Json)
unfolding request_body body_parameters
extract_body_schema method details = elim (request_body details) [
  | none ↦ none
  | some (schema, required) ↦
      let params = get_or (arr nil) (lookup_field details "parameters") in
      elim (if truthy schema
        then some (schema, required)
        else body_parameters params (schema, required)) [
          | none ↦ none
          | some found ↦ some (with_default method found)
        ]
]

-- `if k not in p: p[k] = v`.
unfoldable pub set_default : String → Json → Fields → Fields
set_default k v end = field k v end
set_default k v (field j w fs) =
    let rest = set_default k v fs in if j == k then field j w fs else field j w rest

unfoldable pub process_items : Items → List Fields
process_items nil = []
process_items (cons (obj p) params) =
    set_default "required" (bool false)
      (set_default "schema" (obj (field "type" (str "string") end)) p)
    ∷ process_items params
process_items (cons v params) = process_items params

unfoldable pub process_parameters : Fields → List Fields
unfolding process_items set_default
process_parameters details = elim (get_or (arr nil) (lookup_field details "parameters")) [
  | arr params ↦ process_items params
  | v ↦ []
]
