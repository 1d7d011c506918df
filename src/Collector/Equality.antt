-- ===== src/Collector/Equality.antt =====
-- models.py: the equality of two `ScanResponse` objects, which `r not in refs` uses.
use integrated_work_tll.Prelude.{
  ℕ, String, ◌==◌, Bool, true, false, ◌&&◌, [], ◌∷◌, Option, none, some, Dict, get, length,
  option_eq, eqb,
}
use integrated_work_tll.Json.{json_eq}
use integrated_work_tll.Models.{ScanResponse}

-- Every entry of the first dict is one of the second.
abbrev pub dict_in : Dict String → Dict String → Bool
dict_in [] e = true
dict_in ((k, v) ∷ d) e = option_eq (get e k) (some v) && dict_in d e

abbrev pub dict_eq : Dict String → Dict String → Bool
dict_eq d e = eqb (length d) (length e) && dict_in d e

abbrev number_eq : Option ℕ → Option ℕ → Bool
number_eq none none = true
number_eq (some n) (some m) = eqb n m
number_eq _ _ = false

unfoldable pub response_eq : ScanResponse → ScanResponse → Bool
response_eq r s =
    r.endpoint == s.endpoint
    && r.method == s.method
    && r.url == s.url
    && eqb r.status_code s.status_code
    && dict_eq r.headers s.headers
    && option_eq r.body s.body
    && json_eq r.body_json s.body_json
    && option_eq r.user_id s.user_id
    && option_eq r.role s.role
    && option_eq r.tenant_id s.tenant_id
    && option_eq r.token s.token
    && dict_eq r.request_headers s.request_headers
    && option_eq r.request_body s.request_body
    && number_eq r.latency_ms s.latency_ms
    && eqb r.timestamp s.timestamp
