-- ===== src/Discovery/Result.antt =====
-- endpoint_discovery.py: the result of `parse`, which its callers get.
use integrated_work_tll.Prelude.{ℕ, String, Bool, List, Option, none, some, map, length}
use integrated_work_tll.Json.{Json}
use integrated_work_tll.Discovery.{DiscoveredEndpoint, Parser, parse}

-- The dict of `to_dict`.
pub record EndpointDict : Type 0 where
  pub method : String
  pub path : String
  pub request_body_required : Json
  pub has_auth : Bool

unfoldable pub to_dict : DiscoveredEndpoint → EndpointDict
to_dict e = record {
  method = e.method;
  path = e.path;
  request_body_required = e.request_body_required;
  has_auth = e.has_auth;
}

pub record ParseResult : Type 0 where
  pub endpoints : List EndpointDict
  pub errors_encountered : List String
  pub total_endpoints : ℕ

unfoldable pub build_result : Parser → ParseResult
unfolding to_dict
build_result s = record {
  endpoints = map to_dict s.endpoints;
  errors_encountered = s.errors_encountered;
  total_endpoints = length s.endpoints;
}

-- The whole of `parse`, with the result that it returns.
unfoldable pub parse_result : Parser → Option ParseResult
unfolding parse build_result
parse_result s = elim (parse s) [ none ↦ none | some t ↦ some (build_result t) ]
