-- ===== src/Spec.antt =====
-- modules_unzipped/endpoint_discovery/endpoint_discovery: parser.py, the parser that the executor
-- uses, on a specification that is read already, and models.py. `none` is an exception.
pub mod Body
pub mod Plain
pub mod Equivalence
pub mod Load
use integrated_work_tll.Prelude.{
  ℕ, String, ◌==◌, ◌&◌, Bool, true, false, not, ◌&&◌, List, [], ◌∷◌, ◌++◌, Option, none, some,
  ◌>>=◌, upper, length, elem, map, eqb, if◌then◌else◌,
}
use Prim.Native.Char.{Char, code}
use Prim.Native.String
use integrated_work_tll.Json.{
  Json, null, bool, num, str, arr, obj, Fields, end, field, lookup_field,
}
use integrated_work_tll.Discovery.{
  DiscoveredEndpoint, Parser, new_parser, valid_methods, add_error, is_seen, has_field,
  with_endpoint, invalid_details, invalid_methods, normalize_path,
}
use integrated_work_tll.Discovery.Body.{check_auth}
use Body.{extract_body_schema, process_parameters}

abbrev pub add_errors : List String → Parser → Parser
add_errors es s = record s { errors_encountered = s.errors_encountered ++ es }

-- The end of a round: the endpoint is made and stored.
unfoldable pub add_endpoint : (method path : String) → Fields → Parser → Option Parser
unfolding extract_body_schema process_parameters
add_endpoint method path details s = extract_body_schema s.spec method details >>= λ body.
    process_parameters s.spec details >>= λ params. some (
      with_endpoint
        (record {
          method = method;
          path = path;
          request_body_required = body.0.1;
          has_auth = check_auth s.spec details;
          parameters = params.0;
          request_body_schema = body.0.0;
        })
        (add_errors params.1 (add_errors body.1 s)))

-- A round of the inner loop, whose details are a dict.
unfoldable pub parse_details : (path method : String) → Fields → Parser → Option Parser
unfolding add_endpoint
parse_details path method details s =
    let normalized = normalize_path path in
    if is_seen method normalized s.seen_endpoints
    then some (
        add_error
          ("Duplicate endpoint detected: " & method & " " & normalized
            & ". Keeping first occurrence.")
          s)
    else if has_field details "responses"
    then add_endpoint method normalized details s
    else add_endpoint method normalized details
        (add_error ("Missing 'responses' field for " & method & " " & path & ".") s)

unfoldable pub parse_value : (path method : String) → Json → Parser → Option Parser
unfolding parse_details
parse_value path method (obj details) s = parse_details path method details s
parse_value path method _ s = some (invalid_details path method s)

unfoldable pub parse_method : (path method_name : String) → Json → Parser → Option Parser
unfolding parse_value
parse_method path method_name details s =
    let method = upper method_name in
    if not (elem method valid_methods)
    then some (
        add_error ("Invalid HTTP method '" & method_name & "' for path '" & path & "'. Skipping.")
          s)
    else parse_value path method details s

unfoldable pub parse_methods : (path : String) → Fields → Parser → Option Parser
unfolding parse_method
parse_methods path end s = some s
parse_methods path (field method_name details methods) s =
    parse_method path method_name details s >>= parse_methods path methods

unfoldable pub parse_path : (path : String) → Json → Parser → Option Parser
unfolding parse_methods
parse_path path (obj methods) s = parse_methods path methods s
parse_path path _ s = some (invalid_methods path s)

unfoldable pub parse_paths : Fields → Parser → Option Parser
unfolding parse_path
parse_paths end s = some s
parse_paths (field path methods paths) s = parse_path path methods s >>= parse_paths paths

-- The value of `paths`, which must be a dict.
unfoldable pub parse_section : Option Json → Parser → Option Parser
unfolding parse_paths
parse_section none s = some (add_error "Missing 'paths' section in specification." s)
parse_section (some null) s = some (add_error "Missing 'paths' section in specification." s)
parse_section (some (obj paths)) s = parse_paths paths s
parse_section (some _) s = some (add_error "'paths' section is not a valid object." s)

-- The loops of `parse`; an empty specification is left as it is. `parse_result` adds the result.
unfoldable pub parse : Parser → Option Parser
unfolding parse_section
parse s = elim s.spec [
  | end ↦ some s
  | field k v fs ↦ parse_section (lookup_field s.spec "paths") s
]

-- `re.findall(r'\{([^}]+)\}', path)`; `begun` is the text since a brace that opened.
unfoldable pub names_in : (begun : Option String) → String → List String
names_in begun String.[] = []
names_in none (String.◌∷◌ c s) = if eqb (code c) 123 then names_in (some "") s else names_in none s
names_in (some name) (String.◌∷◌ c s) =
    let rest = names_in none s in
    if eqb (code c) 125
    then (if name == "" then rest else name ∷ rest)
    else names_in (some (name & String.◌∷◌ c "")) s

unfoldable pub dynamic_parameters : DiscoveredEndpoint → List String
unfolding names_in
dynamic_parameters endpoint = names_in none endpoint.path

-- `to_dict`, and the result of `parse`.
pub record EndpointDict : Type 0 where
  pub method : String
  pub path : String
  pub request_body_required : Json
  pub has_auth : Bool
  pub parameters : List Fields
  pub request_body_schema : Json
  pub source : String
  pub dynamic_parameters : List String

unfoldable pub to_dict : DiscoveredEndpoint → EndpointDict
unfolding dynamic_parameters
to_dict e = record {
  method = e.method;
  path = e.path;
  request_body_required = e.request_body_required;
  has_auth = e.has_auth;
  parameters = e.parameters;
  request_body_schema = e.request_body_schema;
  source = "openapi";
  dynamic_parameters = dynamic_parameters e;
}

pub record ParseResult : Type 0 where
  pub endpoints : List EndpointDict
  pub errors_encountered : List String
  pub total_endpoints : ℕ

unfoldable pub build_result : Parser → ParseResult
unfolding to_dict
build_result s = record {
  endpoints = map to_dict s.endpoints;
  errors_encountered = s.errors_encountered;
  total_endpoints = length s.endpoints;
}

-- The whole of `parse`, with the result that it returns.
unfoldable pub parse_result : Parser → Option ParseResult
unfolding parse build_result
parse_result s = elim (parse s) [ none ↦ none | some t ↦ some (build_result t) ]
