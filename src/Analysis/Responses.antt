-- ===== src/Analysis/Responses.antt =====
-- executor/analysis/report_service.py: the responses that `generate_report` feeds to the collector.
use integrated_work_tll.Prelude.{
  ℕ, zero, suc, String, ◌==◌, starts_with, true, false, List, [], ◌∷◌, Option, none, some, Dict,
  get, if◌then◌else◌,
}
use integrated_work_tll.Json.{Json, null, bool, num, str, arr, obj, truthy}
use integrated_work_tll.Models.{ScanResponse}
use integrated_work_tll.Collector.{Collector, on_result}
use integrated_work_tll.Api.Tables.{Task, Response, Tables}

-- The claims of a decoded token, and the outer libraries: `json.loads`, with `none` for an
-- exception, `json.dumps`, and `jwt.decode` without verification.
pub record Claims : Type 0 where
  pub role : Option String
  pub user_id : Option String

pub record Tokens : Type 0 where
  pub loads : String → Option Json
  pub dumps : Json → String
  pub decode : String → Option Claims

-- `s.replace("Bearer ", "")`, with `skip` characters left of an occurrence.
unfoldable pub without_bearer : (skip : ℕ) → String → String
without_bearer skip String.[] = ""
without_bearer (suc skip) (String.◌∷◌ c s) = without_bearer skip s
without_bearer zero (String.◌∷◌ c s) = elim (starts_with (String.◌∷◌ c s) "Bearer ") [
  | true ↦ without_bearer 6 s
  | false ↦ String.◌∷◌ c (without_bearer zero s)
]

abbrev pub or_default : Option String → String → String
or_default none default = default
or_default (some s) default = s

-- `d or {}`.
abbrev pub or_no_dict : Option (Dict String) → Dict String
or_no_dict none = []
or_no_dict (some d) = d

-- Who sent a request: `role`, `user_id` and `token`.
pub record Identity : Type 0 where
  pub role : String
  pub user_id : String
  pub token : Option String

module _ (tokens : Tokens) where
  -- An empty body is not parsed, and one that is not JSON leaves `None`.
  abbrev pub parse_body : Option String → Json
  parse_body none = null
  parse_body (some body) =
      if body == "" then null else elim (tokens.loads body) [ none ↦ null | some v ↦ v ]

  abbrev pub request_body : Json → Option String
  request_body (str s) = some s
  request_body null = none
  request_body (bool b) = if b then some (tokens.dumps (bool b)) else none
  request_body (num n) = if truthy (num n) then some (tokens.dumps (num n)) else none
  request_body (arr xs) = if truthy (arr xs) then some (tokens.dumps (arr xs)) else none
  request_body (obj fs) = if truthy (obj fs) then some (tokens.dumps (obj fs)) else none

  -- The claims over the defaults; a token that cannot be decoded leaves the defaults.
  abbrev pub claimed : String → Option Claims → Identity
  claimed token none = record { role = "user"; user_id = "unknown"; token = some token }
  claimed token (some claims) = record {
    role = or_default claims.role "user";
    user_id = or_default claims.user_id "unknown";
    token = some token;
  }

  abbrev pub with_header : Option String → Identity
  with_header none = record { role = "user"; user_id = "unknown"; token = none }
  with_header (some header) =
      claimed (without_bearer 0 header) (tokens.decode (without_bearer 0 header))

  unfoldable pub identity : Option (Dict String) → Identity
  unfolding without_bearer
  identity headers = with_header (get (or_no_dict headers) "Authorization")

  unfoldable pub to_response : ℕ → Task → Response → ℕ → ScanResponse
  unfolding identity
  to_response now task resp status_code = record {
    endpoint = task.url;
    method = task.method;
    url = task.url;
    status_code = status_code;
    headers = or_no_dict resp.response_headers;
    body = resp.response_body;
    body_json = parse_body resp.response_body;
    user_id = some (identity task.headers).user_id;
    role = some (identity task.headers).role;
    tenant_id = none;
    token = (identity task.headers).token;
    request_headers = or_no_dict task.headers;
    request_body = request_body task.payload;
    latency_ms = resp.latency_ms;
    timestamp = now;
  }

  -- A task without a response, or without a status, is passed over.
  unfoldable pub response_of : ℕ → Task → Option Response → Option ScanResponse
  unfolding to_response
  response_of now task none = none
  response_of now task (some resp) = elim resp.status_code [
    | none ↦ none
    | some status_code ↦ some (to_response now task resp status_code)
  ]

  abbrev pub feed_one : Option ScanResponse → Collector → Collector
  feed_one none c = c
  feed_one (some r) c = on_result r c

  unfoldable pub feed :
      (tables : Tables) → (now : ℕ) → tables.Db → List Task → Collector → Collector
  unfolding response_of
  feed tables now d [] c = c
  feed tables now d (task ∷ tasks) c =
      feed tables now d tasks (feed_one (response_of now task (tables.response d task.id)) c)
