-- ===== src/Bridges.antt =====
-- executor/integration: the bridges from the discovery, the tokens of several roles and the mutation
-- engine to tasks, with role_swapper.py of modules_unzipped/Jwt-Role-Testing.
pub mod Described
use integrated_work_tll.Prelude.{
  ℕ, String, ◌==◌, ◌&◌, Bool, true, false, ◌&&◌, ◌||◌, List, [], ◌∷◌, ◌++◌, Option, none, some,
  Dict, codes, strip, starts_with, is_empty, eqb, select, map, flat_map, if◌then◌else◌,
}
use Prim.Native.String
use integrated_work_tll.Json.{Json, null, str, obj, end, field, truthy}
use integrated_work_tll.Discovery.{Parser}
use integrated_work_tll.Spec.{EndpointDict, parse_result}
use integrated_work_tll.Spec.Load.{Loader, from_url, from_content, from_file}
use integrated_work_tll.Api.Submit.{TaskSubmit}

-- `s.lstrip("/")` and `s.rstrip("/")`.
unfoldable pub lstrip : String → String
lstrip String.[] = ""
lstrip (String.◌∷◌ c s) =
    let rest = lstrip s in if String.◌∷◌ c "" == "/" then rest else String.◌∷◌ c s

unfoldable pub rstrip : String → String
rstrip String.[] = ""
rstrip (String.◌∷◌ c s) =
    let rest = rstrip s in if String.◌∷◌ c "" == "/" && rest == "" then "" else String.◌∷◌ c rest

unfoldable pub target_url : (base_url path : String) → String
unfolding lstrip rstrip
target_url base_url path = if base_url == "" then path else rstrip base_url & "/" & lstrip path

-- `s.strip().startswith("{") or s.strip().startswith("openapi")`.
abbrev starts_with_codes : List ℕ → List ℕ → Bool
starts_with_codes cs [] = true
starts_with_codes [] (d ∷ ds) = false
starts_with_codes (c ∷ cs) (d ∷ ds) = eqb c d && starts_with_codes cs ds

-- The parser of an address, of a specification that is given as a text, or of a file.
unfoldable pub parser_of : Loader → String → Parser
unfolding strip from_url from_content from_file
parser_of loader spec_source =
    if starts_with spec_source "http://" || starts_with spec_source "https://"
    then from_url loader spec_source
    else if starts_with_codes (strip (codes spec_source)) (codes "{")
        || starts_with_codes (strip (codes spec_source)) (codes "openapi")
    then from_content loader.loads loader.safe_load spec_source "inline_spec"
    else from_file loader spec_source

abbrev pub json_headers : Dict String
json_headers = ("Content-Type", "application/json") ∷ []

abbrev pub dummy_payload : Json
dummy_payload = obj (field "_comment" (str "Auto-generated dummy payload for crawler") end)

unfoldable pub discovery_task : (base_url : String) → EndpointDict → TaskSubmit
unfolding target_url
discovery_task base_url ep =
    let has_payload = truthy ep.request_body_required && truthy ep.request_body_schema in
    record {
      method = ep.method;
      url = target_url base_url ep.path;
      headers = some (if has_payload then json_headers else []);
      payload = if has_payload then dummy_payload else null;
      auth_token = none;
      retry_count = 3;
      priority_level = "P3";
      mutation_strategy = none;
      mutation_reason = none;
    }

abbrev pub discovery_tasks : String → List EndpointDict → List TaskSubmit
discovery_tasks base_url [] = []
discovery_tasks base_url (ep ∷ endpoints) =
    discovery_task base_url ep ∷ discovery_tasks base_url endpoints

-- `generate_tasks_from_spec` with the endpoints that it returns, and `last_parse_errors`. `none` is
-- an exception of the parser.
unfoldable pub generate_tasks_from_spec :
    Loader
    → (spec_source base_url : String) → Option (List TaskSubmit × (List EndpointDict × List String))
unfolding parser_of parse_result discovery_task
generate_tasks_from_spec loader spec_source base_url =
    elim (parse_result (parser_of loader spec_source)) [
      | none ↦ none
      | some result ↦
          some (
            discovery_tasks base_url result.endpoints,
            (result.endpoints, result.errors_encountered),
          )
    ]

-- A test case of `generate_test_cases`; the expected role is always `admin` here.
pub record TestCase : Type 0 where
  pub test_name : String
  pub url : String
  pub method : String
  pub token_name : String
  pub token : String
  pub expected_role : String

abbrev pub cases_of : String → EndpointDict → Dict String → List TestCase
cases_of base_url endpoint [] = []
cases_of base_url endpoint ((token_name, token_value) ∷ tokens) =
    record {
      test_name = token_name & " testing " & endpoint.path;
      url = base_url & endpoint.path;
      method = endpoint.method;
      token_name = token_name;
      token = token_value;
      expected_role = "admin";
    }
    ∷ cases_of base_url endpoint tokens

unfoldable pub generate_test_cases : String → List EndpointDict → Dict String → List TestCase
generate_test_cases base_url [] tokens = []
generate_test_cases base_url (endpoint ∷ endpoints) tokens =
    cases_of base_url endpoint tokens ++ generate_test_cases base_url endpoints tokens

-- Endpoints that do not require authentication are skipped.
abbrev pub with_auth : List EndpointDict → List EndpointDict
with_auth = select (λ ep. ep.has_auth)

abbrev pub jwt_task : TestCase → TaskSubmit
jwt_task tc = record {
  method = tc.method;
  url = tc.url;
  headers = some json_headers;
  payload = null;
  auth_token = some tc.token;
  retry_count = 3;
  priority_level = "P2";
  mutation_strategy = none;
  mutation_reason = none;
}

unfoldable pub generate_jwt_tasks : List EndpointDict → Dict String → String → List TaskSubmit
unfolding generate_test_cases
generate_jwt_tasks endpoints tokens base_url =
    if is_empty (with_auth endpoints)
    then []
    else map jwt_task (generate_test_cases base_url (with_auth endpoints) tokens)

-- What is sent to the mutation engine, and what comes back; a field is `none` where it is missing.
pub record EngineRequest : Type 0 where
  pub method : String
  pub path : String
  pub headers : Dict String
  pub body : Json

pub record Mutation : Type 0 where
  pub method : Option String
  pub path : Option String
  pub headers : Option (Dict String)
  pub body : Option Json
  pub strategy : Option String
  pub reason : Option String

unfoldable pub engine_request : String → EndpointDict → EngineRequest
unfolding target_url
engine_request base_url ep = record {
  method = ep.method;
  path = target_url base_url ep.path;
  headers = json_headers;
  body = if truthy ep.request_body_required then obj (field "dummy" (str "value") end) else obj end;
}

abbrev pub or_value {ℓ} : {A : Type ℓ} → Option A → A → A
or_value none default = default
or_value (some a) default = a

unfoldable pub mutation_task : Mutation → TaskSubmit
mutation_task m = record {
  method = or_value m.method "GET";
  url = or_value m.path "";
  headers = some (or_value m.headers []);
  payload = or_value m.body (obj end);
  auth_token = none;
  retry_count = 1;
  priority_level = "P4";
  mutation_strategy = some (or_value m.strategy "");
  mutation_reason = some (or_value m.reason "");
}

-- `engine` is the process of Node with its output parsed: one list of mutations for each result,
-- or `none` where it fails.
unfoldable pub generate_mutations :
    (engine : List EngineRequest → Option (List (List Mutation)))
    → List EndpointDict
    → String
    → List TaskSubmit
unfolding engine_request mutation_task
generate_mutations engine [] base_url = []
generate_mutations engine (ep ∷ endpoints) base_url =
    elim (engine (map (engine_request base_url) (ep ∷ endpoints))) [
      | none ↦ []
      | some results ↦ map mutation_task (flat_map (λ r. r) results)
    ]
