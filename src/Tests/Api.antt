-- ===== src/Tests/Api.antt =====
-- Runs of the routes.
use integrated_work_tll.Prelude.{
  ℕ, zero, suc, ◌+◌, ◌*◌, String, ◌==◌, ◌≡◌, refl, sym, ap, ◌∙◌, true, false, List, [], ◌∷◌, none,
  some, codes, length, map, select, is_empty, lower, All, arith, if◌then◌else◌,
}
use integrated_work_tll.Json.{Json, obj, arr, cons, nil, null, str, end, field, lookup_field}
use integrated_work_tll.Database.{pending, success, failed}
use integrated_work_tll.Redis.Memory.{memory}
use integrated_work_tll.Collector.{build_pairs, has_role}
use integrated_work_tll.Spec.{ParseResult, parse_result}
use integrated_work_tll.Spec.Load.{loaded, load_failed, value}
use integrated_work_tll.Bridges.{parser_of}
use integrated_work_tll.Api.{reply}
use integrated_work_tll.Api.Tables.{Scan, Task, Response, joined}
use integrated_work_tll.Api.Tables.Memory.{MemoryTables, memory_tables}
use integrated_work_tll.Api.Submit.{TaskSubmit, Draws, submit_tasks}
use integrated_work_tll.Api.Submit.Rows.{IsSubmitted, submit_tasks-IsSubmitted}
use integrated_work_tll.Api.Progress.{Progress, get_scan_progress}
use integrated_work_tll.Api.Progress.Counts.{IsCounted, get_scan_progress-IsCounted}
use integrated_work_tll.Api.Telemetry.{Point, get_scan_telemetry}
use integrated_work_tll.Api.Telemetry.Counts.{IsChart, get_scan_telemetry-IsChart}
use integrated_work_tll.Api.Jwt.{Jwt, decoded, algorithm}
use integrated_work_tll.Api.RoleSwaps.{swap_of, group_swaps}
use integrated_work_tll.Api.RoleSwaps.Pairs.{group_swaps-build_pairs}
use integrated_work_tll.Api.Discover.{DiscoverRequest, Tools}
use integrated_work_tll.Tests.{floats, admin, guest}
use integrated_work_tll.Collector.Reflexive.{IsResponse}
use integrated_work_tll.Tests.Collector.{is_response}
use integrated_work_tll.Tests.Queue.{codec, empty}

-- Distinct ids.
abbrev unary : ℕ → String
unary zero = ""
unary (suc k) = String.◌∷◌ "x" (unary k)

length-unary : (k : ℕ) → length (codes (unary k)) ≡ k
length-unary zero = refl
length-unary (suc k) = omega (arith, length-unary k)

abbrev draws : Draws
draws = record { id = unary; now = 60000000; now_iso = "1970-01-01T00:01:00" }

distinct : (i j : ℕ) → draws.id i ≡ draws.id j → i ≡ j
distinct i j e = sym (length-unary i) ∙ ap (λ (s : String). length (codes s)) e ∙ length-unary j

abbrev pub scan : Scan
scan = record {
  id = "s-1";
  name = "shop";
  target = "https://shop.example";
  status = pending;
  config = none;
  created_at = some 0;
  started_at = none;
  finished_at = none;
}

abbrev pub task_row : Task
task_row = record {
  id = "t-1";
  scan_id = "s-1";
  method = "GET";
  url = "https://shop.example/orders/42";
  headers = some (("Authorization", "Bearer alice") ∷ []);
  payload = null;
  mutation_strategy = none;
  mutation_reason = none;
  status = success;
  attempts = 1;
  max_retries = 3;
  created_at = some 0;
}

abbrev pub second_row : Task
second_row = record task_row {
  id = "t-2";
  headers = some (("Authorization", "Bearer bob") ∷ []);
  status = failed;
}

abbrev pub answer : Response
answer = record {
  id = "r-1";
  status_code = some 200;
  latency_ms = some 1250;
  response_headers = none;
  response_body = some "order 42";
  error_message = none;
  created_at = some 61000000;
}

abbrev pub rows : MemoryTables
rows = record {
  scan_list = scan ∷ [];
  scan_of = λ i. if i == "s-1" then some scan else none;
  task_of = λ i. if i == "t-1" then some task_row else if i == "t-2" then some second_row else none;
  tasks_of = λ i. if i == "s-1" then task_row ∷ second_row ∷ [] else [];
  response_of = λ i. some answer;
}

abbrev submit : TaskSubmit
submit = record {
  method = "GET";
  url = "https://shop.example/orders/7";
  headers = none;
  payload = null;
  auth_token = some "carol";
  retry_count = 3;
  priority_level = "P1";
  mutation_strategy = none;
  mutation_reason = none;
}

submit_tasks-IsSubmitted_example :
    IsSubmitted memory_tables draws "s-1" distinct memory codec submit
      (submit ∷ [])
      scan
      rows
      empty
      (submit_tasks memory_tables draws memory codec "s-1" (submit ∷ submit ∷ []) (rows, empty)).0
      (submit_tasks memory_tables draws memory codec "s-1" (submit ∷ submit ∷ []) (rows, empty)).1.0
      (submit_tasks memory_tables draws memory codec "s-1" (submit ∷ submit ∷ []) (rows, empty)).1.1
submit_tasks-IsSubmitted_example =
    submit_tasks-IsSubmitted memory_tables draws "s-1" distinct memory codec submit (submit ∷ [])
      scan rows empty refl refl

get_scan_progress-IsCounted_example :
    (p : Progress) × (get_scan_progress memory_tables "s-1" rows ≡ reply p)
    × IsCounted scan (task_row ∷ second_row ∷ []) p
get_scan_progress-IsCounted_example = get_scan_progress-IsCounted memory_tables rows "s-1" scan refl

get_scan_telemetry-IsChart_example :
    (ps : List Point) × (get_scan_telemetry memory_tables (λ n d. n) 9 "s-1" rows ≡ reply ps)
    × IsChart (λ n d. n) (joined memory_tables rows (task_row ∷ second_row ∷ [])) ps
get_scan_telemetry-IsChart_example =
    get_scan_telemetry-IsChart memory_tables (λ n d. n) 9 "s-1" rows scan refl

-- A token without an expiration.
abbrev jwt : Jwt
jwt = record {
  decode = λ s. decoded (field "alg" (str "HS256") end) (field "sub" (str "alice") end);
  is_past = λ n. true;
}

is_hs256 : algorithm (lookup_field (field "alg" (str "HS256") end) "alg") ≡ some "hs256"
unfolding lower lookup_field
is_hs256 = refl

are_responses : All IsResponse (admin ∷ guest ∷ [])
are_responses = (is_response "alice" "admin" 200, (is_response "bob" "guest" 200, tt))

some_admin : is_empty (select (has_role "admin") (admin ∷ guest ∷ [])) ≡ false
unfolding lower
some_admin = refl

group_swaps-build_pairs_example :
    group_swaps floats ("GET", "/orders/42") (admin ∷ guest ∷ [])
    ≡ map (swap_of floats ("GET", "/orders/42")) (build_pairs "admin" (admin ∷ guest ∷ []))
group_swaps-build_pairs_example =
    group_swaps-build_pairs floats ("GET", "/orders/42") (admin ∷ guest ∷ []) are_responses
      some_admin

-- A specification with one operation that requires authentication.
abbrev operation : Json
operation = obj (
    field "security" (arr (cons (obj (field "bearer" (arr nil) end)) nil))
      (field "responses" (obj end) end))

abbrev specification : Json
specification =
    obj (field "paths" (obj (field "/orders" (obj (field "get" operation end)) end)) end)

abbrev tools : Tools
tools = record {
  loader = record {
    get_text = λ url. loaded "paths";
    read_file = λ filepath. load_failed "no such file";
    loads = λ text. value specification;
    safe_load = none;
  };
  message_of = λ spec_source. "Internal server error";
  engine = λ requests. none;
}

abbrev request : DiscoverRequest
request = record {
  spec_source = "https://shop.example/openapi.json";
  base_url = none;
  jwt_tokens = some (("alice", "a.b.c") ∷ ("bob", "d.e.f") ∷ []);
}

-- The parser finds the operation.
found_endpoint :
    (r : ParseResult) × (parse_result (parser_of tools.loader request.spec_source) ≡ some r)
    × (r.total_endpoints ≡ 1)
unfolding parse_result parser_of integrated_work_tll.Prelude.upper
found_endpoint = (_, refl, refl)
