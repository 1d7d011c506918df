-- ===== src/Crawler.antt =====
-- api-crawler-module: the parser of swagger_parser.py, the crawler of crawler.py, the responses of
-- response_handler.py, and main.py.
pub mod Runs
use integrated_work_tll.Prelude.{
  ℕ, String, ◌&◌, Bool, true, false, List, [], ◌∷◌, ◌++◌, Option, none, some, ◌>>=◌, Dict, put,
  upper, not, is_given, if◌then◌else◌,
}
use Prim.Native.String
use integrated_work_tll.Json.{
  Json, null, bool, num, str, arr, obj, Fields, end, field, lookup_field, truthy,
}

pub record Endpoint : Type 0 where
  pub url : String
  pub method : String

pub record ScanResponse : Type 0 where
  pub url : String
  pub method : String
  pub status_code : ℕ
  pub response_body : String

abbrev pub method_endpoints : (path : String) → Fields → List Endpoint
method_endpoints path end = []
method_endpoints path (field method v methods) =
    (record { url = path; method = upper method }) ∷ method_endpoints path methods

-- `methods.keys()` raises where the value is no dict.
unfoldable pub path_endpoints : Fields → Option (List Endpoint)
path_endpoints end = some []
path_endpoints (field path (obj methods) paths) = elim (path_endpoints paths) [
  | none ↦ none
  | some endpoints ↦ some (method_endpoints path methods ++ endpoints)
]
path_endpoints (field path null paths) = none
path_endpoints (field path (bool b) paths) = none
path_endpoints (field path (num n) paths) = none
path_endpoints (field path (str s) paths) = none
path_endpoints (field path (arr xs) paths) = none

unfoldable pub endpoints_in : Option Json → Option (List Endpoint)
unfolding path_endpoints
endpoints_in none = some []
endpoints_in (some (obj paths)) = path_endpoints paths
endpoints_in (some null) = none
endpoints_in (some (bool b)) = none
endpoints_in (some (num n)) = none
endpoints_in (some (str s)) = none
endpoints_in (some (arr xs)) = none

abbrev pub data_endpoints : Json → Option (List Endpoint)
data_endpoints (obj data_) = endpoints_in (lookup_field data_ "paths")
data_endpoints null = none
data_endpoints (bool b) = none
data_endpoints (num n) = none
data_endpoints (str s) = none
data_endpoints (arr xs) = none

-- `extract_endpoints`, of what `fetch_swagger_json` returns, `null` for `None`; `none` is an exception.
unfoldable pub extract_endpoints : (fetched : Json) → Option (List Endpoint)
unfolding endpoints_in
extract_endpoints fetched = if not (truthy fetched) then some [] else data_endpoints fetched

-- What `requests.request` gives: a response, or one of its exceptions.
pub data Answer : Type 0 where
  response : (status_code : ℕ) → (text : String) → Answer
  timeout : Answer
  request_exception : (error : String) → Answer

module _ (request : (method url : String) → Answer) where
  abbrev pub result_of : Endpoint → Answer → List ScanResponse
  result_of e (response status_code text) =
      (record {
        url = e.url;
        method = e.method;
        status_code = status_code;
        response_body = String.slice text 0 300;
      })
      ∷ []
  result_of e timeout = []
  result_of e (request_exception error) = []

  unfoldable pub crawl : List Endpoint → List ScanResponse
  crawl [] = []
  crawl (e ∷ endpoints) = result_of e (request e.method e.url) ++ crawl endpoints

  -- `add_response` of every result, in order, to a handler with responses.
  unfoldable pub add_responses : List ScanResponse → List ScanResponse → List ScanResponse
  add_responses responses [] = responses
  add_responses responses (r ∷ results) = add_responses (responses ++ r ∷ []) results

  -- main.py: the responses that it prints.
  unfoldable pub main : (fetched : Json) → Option (List ScanResponse)
  unfolding extract_endpoints crawl add_responses
  main fetched = elim (extract_endpoints fetched) [
    | none ↦ none
    | some endpoints ↦ some (add_responses [] (crawl endpoints))
  ]

-- `AuthHandler`: its token and the headers of its session.
pub record AuthHandler : Type 0 where
  pub token : Option String
  pub headers : Dict String

abbrev pub bearer : Option String → String
bearer none = "Bearer None"
bearer (some token) = "Bearer " & token

-- `__init__`, with the default headers of a session.
unfoldable pub new_auth_handler : (defaults : Dict String) → (token : Option String) → AuthHandler
new_auth_handler defaults token = record {
  token = token;
  headers = if is_given token then put defaults "Authorization" (bearer token) else defaults;
}

unfoldable pub update_token : Option String → AuthHandler → AuthHandler
update_token new_token s = record {
  token = new_token;
  headers = put s.headers "Authorization" (bearer new_token);
}

-- `make_authenticated_request`, with the request of the session as a parameter.
unfoldable pub make_authenticated_request :
    (send : Dict String → (method url : String) → Answer)
    → (method url : String) → AuthHandler
    → Option (ℕ × String)
make_authenticated_request send method url s = elim (send s.headers method url) [
  | response status_code text ↦ some (status_code, text)
  | timeout ↦ none
  | request_exception error ↦ none
]
