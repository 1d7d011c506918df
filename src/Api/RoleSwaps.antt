-- ===== src/Api/RoleSwaps.antt =====
-- executor/api/routes.py: `get_scan_role_swaps`, the responses of a scan compared by role.
pub mod Pairs
use integrated_work_tll.Prelude.{
  ℕ, String, ◌==◌, ◌&◌, Bool, true, false, not, ◌&&◌, List, [], ◌∷◌, ◌++◌, Option, none, some, Dict,
  get, lower, or_empty, show_option, is_empty, select, if◌then◌else◌,
}
use integrated_work_tll.Models.{Floats, ScanResponse, DiffResult}
use integrated_work_tll.Diff.Compare.{compare_responses}
use integrated_work_tll.Analysis.Responses.{
  Tokens, Claims, Identity, or_no_dict, claimed, without_bearer, parse_body, request_body,
}
use integrated_work_tll.Api.{Reply, reply, http_error}
use integrated_work_tll.Api.Tables.{Scan, Task, Response, Tables}

pub record RoleSwap : Type 0 where
  pub endpoint : String
  pub method : String
  pub source_role : Option String
  pub target_role : Option String
  pub status : String
  pub bypass : Bool
  pub detail : String
  pub source_status_code : ℕ
  pub target_status_code : ℕ

-- The entries of the `defaultdict`, with a method and a path as key.
abbrev pub Groups : Type 0
Groups = List ((String × String) × List ScanResponse)

abbrev pub same_key : String × String → String × String → Bool
same_key j k = j.0 == k.0 && j.1 == k.1

unfoldable pub add_to_group : String × String → ScanResponse → Groups → Groups
add_to_group k r [] = (k, r ∷ []) ∷ []
add_to_group k r ((j, rs) ∷ groups) =
    if same_key j k then (j, rs ++ r ∷ []) ∷ groups else (j, rs) ∷ add_to_group k r groups

abbrev pub is_admin : ScanResponse → Bool
is_admin r = lower (or_empty r.role) == "admin"

-- `urlparse(url).path or url`; `url_path` is the path that `urlparse` finds.
abbrev pub path_of : (url_path : String → String) → String → String
path_of url_path url = if url_path url == "" then url else url_path url

module _ (tokens : Tokens) where
  -- Without a header, or where the token cannot be decoded, the sender is an anonymous guest.
  abbrev pub claimed_or_guest : String → Option Claims → Identity
  claimed_or_guest token none = record { role = "guest"; user_id = "anonymous"; token = some token }
  claimed_or_guest token (some claims) = claimed tokens token (some claims)

  abbrev pub sender_of : Option String → Identity
  sender_of none = record { role = "guest"; user_id = "anonymous"; token = none }
  sender_of (some header) =
      claimed_or_guest (without_bearer 0 header) (tokens.decode (without_bearer 0 header))

  unfoldable pub sender : Option (Dict String) → Identity
  unfolding without_bearer
  sender headers = sender_of (get (or_no_dict headers) "Authorization")

  module _ (url_path : String → String) (now : ℕ) where
    unfoldable pub tll_response : Task → Response → ℕ → ScanResponse
    unfolding sender
    tll_response task resp status_code = record {
      endpoint = path_of url_path task.url;
      method = task.method;
      url = task.url;
      status_code = status_code;
      headers = or_no_dict resp.response_headers;
      body = resp.response_body;
      body_json = parse_body tokens resp.response_body;
      user_id = some (sender task.headers).user_id;
      role = some (sender task.headers).role;
      tenant_id = none;
      token = (sender task.headers).token;
      request_headers = or_no_dict task.headers;
      request_body = request_body tokens task.payload;
      latency_ms = resp.latency_ms;
      timestamp = now;
    }

    abbrev pub add_row : Task → Option Response → Groups → Groups
    add_row task none groups = groups
    add_row task (some resp) groups = elim resp.status_code [
      | none ↦ groups
      | some status_code ↦
          add_to_group (task.method, path_of url_path task.url) (tll_response task resp status_code)
            groups
    ]

    unfoldable pub group_rows : (tables : Tables) → tables.Db → List Task → Groups → Groups
    unfolding add_to_group tll_response
    group_rows tables d [] groups = groups
    group_rows tables d (task ∷ tasks) groups =
        group_rows tables d tasks (add_row task (tables.response d task.id) groups)

module _ (fl : Floats) where
  -- `diff.anomaly_reason or ...`.
  abbrev pub detail_of : String → ScanResponse → DiffResult → String
  detail_of path other diff =
      if diff.anomaly_reason == ""
      then "Access to " & path & " was properly restricted for role " & show_option other.role & "."
      else diff.anomaly_reason

  unfoldable pub swap_of : String × String → ScanResponse × ScanResponse → RoleSwap
  swap_of (method, path) (admin, other) =
      let diff = compare_responses fl admin other 6500 in
      record {
        endpoint = path;
        method = method;
        source_role = admin.role;
        target_role = other.role;
        status = if diff.is_anomaly then "Bypass Detected" else "Enforced";
        bypass = diff.is_anomaly;
        detail = detail_of path other diff;
        source_status_code = admin.status_code;
        target_status_code = other.status_code;
      }

  abbrev pub swaps_with : String × String → ScanResponse → List ScanResponse → List RoleSwap
  swaps_with key admin [] = []
  swaps_with key admin (other ∷ others) = swap_of key (admin, other) ∷ swaps_with key admin others

  abbrev pub swaps_of : String × String → List ScanResponse → List ScanResponse → List RoleSwap
  swaps_of key [] others = []
  swaps_of key (admin ∷ admins) others = swaps_with key admin others ++ swaps_of key admins others

  -- Without an admin the first of at least two responses stands in for one.
  abbrev pub first_swaps : String × String → List ScanResponse → List RoleSwap
  first_swaps key [] = []
  first_swaps key (r ∷ []) = []
  first_swaps key (r ∷ s ∷ rest) = swaps_of key (r ∷ []) (s ∷ rest)

  unfoldable pub group_swaps : String × String → List ScanResponse → List RoleSwap
  unfolding swap_of
  group_swaps key responses =
      let admins = select is_admin responses in
      if is_empty admins
      then first_swaps key responses
      else swaps_of key admins (select (λ r. not (is_admin r)) responses)

  unfoldable pub all_swaps : Groups → List RoleSwap
  unfolding group_swaps
  all_swaps [] = []
  all_swaps ((key, responses) ∷ groups) = group_swaps key responses ++ all_swaps groups

  unfoldable pub get_scan_role_swaps :
      (tokens : Tokens)
      → (url_path : String → String) → (now : ℕ) → (tables : Tables) → (scan_id : String)
      → tables.Db
      → Reply (List RoleSwap)
  unfolding group_rows all_swaps
  get_scan_role_swaps tokens url_path now tables scan_id d = elim (tables.scan d scan_id) [
    | none ↦ http_error 404 "Scan not found"
    | some scan ↦
        reply (all_swaps (group_rows tokens url_path now tables d (tables.tasks d scan_id) []))
  ]
