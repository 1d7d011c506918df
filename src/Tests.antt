-- ===== src/Tests.antt =====
-- Runs of the development at concrete inputs: the data that they share.
mod Diff
mod Collector
mod Queue
mod Limiter
mod Engine
mod Discovery
mod Slots
mod Api
mod Analysis
mod Report
mod Spec
mod Copilot
mod Main
use integrated_work_tll.Prelude.{
  ℕ, ◌*◌, ◌/◌, String, ◌&◌, Bool, true, false, List, [], ◌∷◌, Option, none, some, show_ℕ, pos,
}
use integrated_work_tll.Json.{Json, null, num, str, obj, arr, nil, cons, end, field}
use integrated_work_tll.Models.{Floats, Stamp, ScanResponse, DiffResult}
use integrated_work_tll.Diff.Compare.{compare_responses}

abbrev pub floats : Floats
floats = record {
  percent = λ n d. show_ℕ (100 * n / d) & "%";
  tie_up = λ k. false;
  round2 = λ z. z;
}

abbrev pub stamp : Stamp
stamp = record { uuid = "d2c1"; now = 1700000000000000 }

abbrev pub draw : ℕ → Stamp
draw k = record { uuid = show_ℕ k; now = 1700000000000000 }

abbrev pub draws : ℕ → ℕ → Stamp
draws n k = record { uuid = show_ℕ n & "-" & show_ℕ k; now = 1700000000000000 }

abbrev pub order : Json
order = obj (
    field "id" (num (pos 42)) (
      field "owner_id" (str "7f9c24e5-21a0-4c5b-9e1d-3f0a6b8c7d2e")
        (field "items" (arr (cons (str "pen") (cons (str "ink") nil))) end)))

abbrev pub response : (user role : String) → (status : ℕ) → ScanResponse
response user role status = record {
  endpoint = "/orders/42";
  method = "GET";
  url = "https://shop.example/orders/42";
  status_code = status;
  headers = [];
  body = some "{id: 42}";
  body_json = order;
  user_id = some user;
  role = some role;
  tenant_id = some "t1";
  token = some "abc";
  request_headers = [];
  request_body = none;
  latency_ms = some 12;
  timestamp = 1700000000000000;
}

abbrev pub admin : ScanResponse
admin = response "alice" "admin" 200

abbrev pub guest : ScanResponse
guest = response "bob" "guest" 200

abbrev pub refused : ScanResponse
refused = response "carol" "guest" 403

abbrev pub pair_diff : DiffResult
pair_diff = compare_responses floats admin guest 6500
