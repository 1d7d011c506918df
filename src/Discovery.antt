-- ===== src/Discovery.antt =====
-- endpoint_discovery.py: `OpenAPIParser`, on a specification that is read already. `none` is an
-- exception that `parse` does not catch.
pub mod Body
pub mod Distinct
pub mod Malformed
pub mod Total
pub mod Result
pub mod Paths
use integrated_work_tll.Prelude.{
  ℕ, String, ◌==◌, ◌&◌, Bool, true, false, not, ◌&&◌, ◌||◌, List, [], ◌∷◌, ◌++◌, Option, none, some,
  upper, starts_with, length, elem, if◌then◌else◌,
}
use Prim.Native.Char.{Char, code}
use Prim.Native.String
use integrated_work_tll.Prelude.{leb, ltb, eqb}
use integrated_work_tll.Json.{
  Json, null, bool, num, str, arr, obj, Items, nil, cons, Fields, end, field, lookup_field,
}
use Body.{extract_body_schema, check_auth, process_parameters}

abbrev pub is_slash : Char → Bool
is_slash c = eqb (code c) 47

-- `s.startswith('/')`, the test for an empty text, and `len(s) > 1`.
abbrev pub leads : String → Bool
leads String.[] = false
leads (String.◌∷◌ c s) = is_slash c

abbrev pub is_blank : String → Bool
is_blank String.[] = true
is_blank (String.◌∷◌ c s) = false

abbrev pub is_long : String → Bool
is_long String.[] = false
is_long (String.◌∷◌ c s) = not (is_blank s)

-- `re.sub(r'/+', '/', path)`.
unfoldable pub squeeze : String → String
squeeze String.[] = ""
squeeze (String.◌∷◌ c s) =
    let rest = squeeze s in if is_slash c && leads s then rest else String.◌∷◌ c rest

-- `path.rstrip('/')`.
unfoldable pub strip_slashes : String → String
strip_slashes String.[] = ""
strip_slashes (String.◌∷◌ c s) =
    let rest = strip_slashes s in if is_slash c && is_blank rest then "" else String.◌∷◌ c rest

-- `_normalize_path`: a text that does not end with a slash has nothing to strip.
unfoldable pub normalize_path : String → String
unfolding squeeze strip_slashes
normalize_path path =
    let squeezed = squeeze path in
    let stripped = if is_long squeezed then strip_slashes squeezed else squeezed in
    if is_blank path then "/" else if leads stripped then stripped else String.◌∷◌ "/" stripped

pub record DiscoveredEndpoint : Type 0 where
  pub method : String
  pub path : String
  pub request_body_required : Json
  pub has_auth : Bool
  pub parameters : List Fields
  pub request_body_schema : Json

-- `seen_endpoints` holds pairs of a method and a path.
pub record Parser : Type 0 where
  pub spec : Fields
  pub endpoints : List DiscoveredEndpoint
  pub errors_encountered : List String
  pub seen_endpoints : List (String × String)

-- `__init__`: a specification that is not a dict is an empty one.
abbrev pub fields_of : Json → Fields
fields_of (obj fs) = fs
fields_of _ = end

abbrev pub new_parser : Json → Parser
new_parser spec = record {
  spec = fields_of spec;
  endpoints = [];
  errors_encountered = [];
  seen_endpoints = [];
}

abbrev pub valid_methods : List String
valid_methods = "GET" ∷ "POST" ∷ "PUT" ∷ "DELETE" ∷ "PATCH" ∷ "OPTIONS" ∷ "HEAD" ∷ "TRACE" ∷ []

abbrev pub add_error : String → Parser → Parser
add_error e s = record s { errors_encountered = s.errors_encountered ++ e ∷ [] }

-- `(method, path) in self.seen_endpoints`.
abbrev pub is_seen : String → String → List (String × String) → Bool
is_seen method path [] = false
is_seen method path ((m, p) ∷ seen) = (m == method && p == path) || is_seen method path seen

abbrev pub has_field : Fields → String → Bool
has_field fs k = elim (lookup_field fs k) [ none ↦ false | some v ↦ true ]

abbrev pub with_endpoint : DiscoveredEndpoint → Parser → Parser
with_endpoint e s = record s {
  endpoints = s.endpoints ++ e ∷ [];
  seen_endpoints = (e.method, e.path) ∷ s.seen_endpoints;
}

-- The end of a round: the endpoint is made and stored.
unfoldable pub add_endpoint : (method path : String) → Fields → Parser → Option Parser
add_endpoint method path details s = elim (extract_body_schema method details) [
  | none ↦ none
  | some (schema, required) ↦ some (
      with_endpoint
        (record {
          method = method;
          path = path;
          request_body_required = required;
          has_auth = check_auth s.spec details;
          parameters = process_parameters details;
          request_body_schema = schema;
        })
        s)
]

-- A round of the inner loop, whose details are a dict.
unfoldable pub parse_details : (path method : String) → Fields → Parser → Option Parser
unfolding add_endpoint
parse_details path method details s =
    let normalized = normalize_path path in
    if is_seen method normalized s.seen_endpoints
    then some (
        add_error
          ("Duplicate endpoint detected: " & method & " " & normalized
            & ". Keeping first occurrence.")
          s)
    else if has_field details "responses"
    then add_endpoint method normalized details s
    else add_endpoint method normalized details
        (add_error ("Missing 'responses' field for " & method & " " & path & ".") s)

abbrev pub invalid_details : (path method : String) → Parser → Parser
invalid_details path method =
    add_error ("Missing or invalid details for " & method & " " & path & ".")

-- The details of a valid method, which must be a dict.
unfoldable pub parse_value : (path method : String) → Json → Parser → Option Parser
unfolding parse_details
parse_value path method (obj details) s = parse_details path method details s
parse_value path method _ s = some (invalid_details path method s)

unfoldable pub parse_method : (path method_name : String) → Json → Parser → Option Parser
unfolding parse_value
parse_method path method_name details s =
    let method = upper method_name in
    if not (elem method valid_methods)
    then some (
        add_error ("Invalid HTTP method '" & method_name & "' for path '" & path & "'. Skipping.")
          s)
    else parse_value path method details s

unfoldable pub parse_methods : (path : String) → Fields → Parser → Option Parser
unfolding parse_method
parse_methods path end s = some s
parse_methods path (field method_name details methods) s =
    elim (parse_method path method_name details s) [
      | none ↦ none
      | some t ↦ parse_methods path methods t
    ]

abbrev pub invalid_methods : (path : String) → Parser → Parser
invalid_methods path =
    add_error ("Invalid methods definition for path '" & path & "'. Expected object.")

unfoldable pub parse_path : (path : String) → Json → Parser → Option Parser
unfolding parse_methods
parse_path path (obj methods) s = parse_methods path methods s
parse_path path _ s = some (invalid_methods path s)

unfoldable pub parse_paths : Fields → Parser → Option Parser
unfolding parse_path
parse_paths end s = some s
parse_paths (field path methods paths) s = elim (parse_path path methods s) [
  | none ↦ none
  | some t ↦ parse_paths paths t
]

-- The value of `paths`, which must be a dict.
unfoldable pub parse_section : Option Json → Parser → Option Parser
unfolding parse_paths
parse_section none s = some (add_error "Missing 'paths' section in specification." s)
parse_section (some null) s = some (add_error "Missing 'paths' section in specification." s)
parse_section (some (obj paths)) s = parse_paths paths s
parse_section (some _) s = some (add_error "'paths' section is not a valid object." s)

-- The loops of `parse`, whose result `Result.parse_result` adds.
unfoldable pub parse : Parser → Option Parser
unfolding parse_section
parse s = elim s.spec [
  | end ↦ some s
  | field k v fs ↦ parse_section (lookup_field s.spec "paths") s
]
