-- ===== src/Spec/Body.antt =====
-- modules_unzipped/endpoint_discovery/endpoint_discovery/parser.py: `_resolve_ref`,
-- `_extract_body_schema` and `_process_parameters`. A result comes with the errors that were
-- recorded; `none` is an exception.
use integrated_work_tll.Prelude.{
  String, ◌==◌, ◌&◌, false, List, [], ◌∷◌, ◌++◌, Option, none, some, ◌>>=◌, starts_with,
  if◌then◌else◌,
}
use Prim.Native.Char.{code}
use integrated_work_tll.Prelude.{eqb}
use integrated_work_tll.Json.{
  Json, null, bool, num, str, arr, obj, Items, nil, cons, Fields, end, field, lookup_field, truthy,
}
use integrated_work_tll.Discovery.Body.{get_or, schema_of, is_body, with_default, set_default}

-- `s.split("/")`.
unfoldable pub split : String → List String
split String.[] = "" ∷ []
split (String.◌∷◌ c s) = elim (split s) [
  | [] ↦ []
  | part ∷ parts ↦ if eqb (code c) 47 then "" ∷ part ∷ parts else String.◌∷◌ c part ∷ parts
]

abbrev pub tail_of : List String → List String
tail_of [] = []
tail_of (x ∷ xs) = xs

-- `current[part]` for each part; an exception of a lookup is `none`.
unfoldable pub walk : Json → List String → Option Json
walk current [] = some current
walk (obj fields) (part ∷ parts) = elim (lookup_field fields part) [
  | none ↦ none
  | some v ↦ walk v parts
]
walk null (part ∷ parts) = none
walk (bool b) (part ∷ parts) = none
walk (num n) (part ∷ parts) = none
walk (str s) (part ∷ parts) = none
walk (arr xs) (part ∷ parts) = none

abbrev pub unresolved : String → String
unresolved ref_path = "Could not resolve reference: " & ref_path

-- A reference that is not a text raises; one that is not internal is left as it is.
unfoldable pub follow :
    (spec : Fields) → (schema : Json) → Option Json → Option (Json × List String)
unfolding walk split
follow spec schema none = some (schema, [])
follow spec schema (some (str ref_path)) =
    if starts_with ref_path "#/"
    then elim (walk (obj spec) (tail_of (split ref_path))) [
      | none ↦ some (schema, unresolved ref_path ∷ [])
      | some v ↦ some (v, [])
    ]
    else some (schema, [])
follow spec schema (some null) = none
follow spec schema (some (bool b)) = none
follow spec schema (some (num n)) = none
follow spec schema (some (arr xs)) = none
follow spec schema (some (obj fs)) = none

unfoldable pub resolve_ref : (spec : Fields) → Json → Option (Json × List String)
unfolding follow lookup_field
resolve_ref spec (obj fields) = follow spec (obj fields) (lookup_field fields "$ref")
resolve_ref spec null = some (null, [])
resolve_ref spec (bool b) = some (bool b, [])
resolve_ref spec (num n) = some (num n, [])
resolve_ref spec (str s) = some (str s, [])
resolve_ref spec (arr xs) = some (arr xs, [])

-- A schema and the requirement, with the errors so far.
abbrev pub Found : Type 0
Found = (Json × Json) × List String

-- The content of a resolved request body.
unfoldable pub read_body : Json × List String → Option Found
unfolding schema_of
read_body (obj rb, errors) = schema_of (get_or (obj end) (lookup_field rb "content")) >>= λ schema.
    some ((schema, get_or (bool false) (lookup_field rb "required")), errors)
read_body (null, errors) = none
read_body (bool b, errors) = none
read_body (num n, errors) = none
read_body (str s, errors) = none
read_body (arr xs, errors) = none

unfoldable pub request_body : (spec details : Fields) → Option Found
unfolding resolve_ref read_body
request_body spec details = elim (lookup_field details "requestBody") [
  | none ↦ some ((null, bool false), [])
  | some rb ↦ resolve_ref spec rb >>= read_body
]

-- The loop over the parameters of Swagger 2, which stops at the first in the body.
unfoldable pub body_parameter : (spec : Fields) → Items → Found → Option Found
unfolding resolve_ref
body_parameter spec nil found = some found
body_parameter spec (cons param params) (found, errors) = resolve_ref spec param >>= λ r. elim r.0 [
  | obj p ↦
      if is_body (lookup_field p "in")
      then some (
        (get_or null (lookup_field p "schema"), get_or (bool false) (lookup_field p "required")),
        errors ++ r.1,
      )
      else body_parameter spec params (found, errors ++ r.1)
  | v ↦ none
]

-- An empty text or dict has nothing to go through; the keys of a dict are no parameters.
unfoldable pub body_parameters : (spec : Fields) → Json → Found → Option Found
unfolding body_parameter
body_parameters spec (arr params) found = body_parameter spec params found
body_parameters spec (obj end) found = some found
body_parameters spec (obj (field k v fs)) found = none
body_parameters spec (str s) found = if s == "" then some found else none
body_parameters spec null found = none
body_parameters spec (bool b) found = none
body_parameters spec (num n) found = none

-- `if schema: schema = self._resolve_ref(schema)`.
abbrev pub resolve_schema : (spec : Fields) → Found → Option Found
resolve_schema spec ((schema, required), errors) =
    if truthy schema
    then (resolve_ref spec schema >>= λ r. some ((r.0, required), errors ++ r.1))
    else some ((schema, required), errors)

unfoldable pub extract_body_schema : (spec : Fields) → (method : String) → Fields → Option Found
unfolding request_body body_parameters resolve_ref
extract_body_schema spec method details = request_body spec details >>= λ found.
    (if truthy found.0.0
      then some found
      else body_parameters spec (get_or (arr nil) (lookup_field details "parameters")) found)
    >>= λ more.
        resolve_schema spec more >>= λ resolved. some (with_default method resolved.0, resolved.1)

-- The processed parameters and the errors.
unfoldable pub process_items : (spec : Fields) → Items → Option (List Fields × List String)
unfolding resolve_ref set_default
process_items spec nil = some ([], [])
process_items spec (cons param params) = resolve_ref spec param >>= λ r.
    process_items spec params >>= λ rest. elim r.0 [
      | obj p ↦ some (
        set_default "required" (bool false)
              (set_default "schema" (obj (field "type" (str "string") end)) p)
            ∷ rest.0,
        r.1 ++ rest.1,
      )
      | v ↦ some (rest.0, r.1 ++ rest.1)
    ]

unfoldable pub process_parameters : (spec details : Fields) → Option (List Fields × List String)
unfolding process_items
process_parameters spec details = elim (get_or (arr nil) (lookup_field details "parameters")) [
  | arr params ↦ process_items spec params
  | v ↦ some ([], [])
]
