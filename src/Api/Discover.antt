-- ===== src/Api/Discover.antt =====
-- executor/api/routes.py: `discover_and_submit`.
pub mod Answers
use integrated_work_tll.Prelude.{
  ℕ, String, ◌==◌, ◌&◌, Bool, true, false, List, [], ◌∷◌, ◌++◌, Option, none, some, Dict, take,
  join, is_given, or_empty, is_empty, if◌then◌else◌,
}
use integrated_work_tll.Redis.{Redis}
use integrated_work_tll.Queue.{Codec}
use integrated_work_tll.Spec.{EndpointDict}
use integrated_work_tll.Spec.Load.{Loader}
use integrated_work_tll.Bridges.{
  EngineRequest, Mutation, generate_tasks_from_spec, generate_jwt_tasks, generate_mutations,
}
use integrated_work_tll.Api.{Reply, reply, http_error}
use integrated_work_tll.Api.Tables.{Scan, Tables}
use integrated_work_tll.Api.Submit.{TaskSubmit, Draws, submit_tasks}

pub record DiscoverRequest : Type 0 where
  pub spec_source : String
  pub base_url : Option String
  pub jwt_tokens : Option (Dict String)

-- What reads the specification, the process of the mutation engine, and the message that the handler
-- of main.py sends for an exception of the parser, by the source of the specification.
pub record Tools : Type 0 where
  pub loader : Loader
  pub message_of : (spec_source : String) → String
  pub engine : List EngineRequest → Option (List (List Mutation))

abbrev pub invalid_specification : List String → String
invalid_specification parse_errors =
    "Invalid Swagger/OpenAPI specification: "
    & join "; " (take 3 parse_errors)
    & ". Provide a valid OpenAPI/Swagger URL (e.g. .../openapi.json) or spec content."

abbrev pub no_endpoints : String
no_endpoints =
    "No endpoints were found in the provided specification. "
    & "Ensure the source is a reachable OpenAPI/Swagger document."

-- `req.base_url or scan.target`.
abbrev pub base_of : DiscoverRequest → Scan → String
base_of req scan = if is_given req.base_url then or_empty req.base_url else scan.target

-- No tokens and an empty dict of tokens give no tasks.
abbrev pub jwt_tasks_of : Option (Dict String) → List EndpointDict → String → List TaskSubmit
jwt_tasks_of none endpoints base_url = []
jwt_tasks_of (some []) endpoints base_url = []
jwt_tasks_of (some (t ∷ tokens)) endpoints base_url =
    generate_jwt_tasks endpoints (t ∷ tokens) base_url

module _ (tools : Tools) where
  -- `all_tasks`, and the errors of the parser; `none` where the parser raises.
  unfoldable pub all_tasks : DiscoverRequest → String → Option (List TaskSubmit × List String)
  unfolding generate_tasks_from_spec generate_jwt_tasks generate_mutations
  all_tasks req base_url = elim (generate_tasks_from_spec tools.loader req.spec_source base_url) [
    | none ↦ none
    | some (base_tasks, (endpoints, errors)) ↦ some (
      base_tasks
          ++ jwt_tasks_of req.jwt_tokens endpoints base_url
          ++ generate_mutations tools.engine endpoints base_url,
      errors,
    )
  ]

  module _ (tables : Tables) (draws : Draws) (redis : Redis) (codec : Codec) where
    abbrev pub submit_all :
        String
        → DiscoverRequest
        → Option (List TaskSubmit × List String)
        → tables.Db × redis.Store
        → Reply String × (tables.Db × redis.Store)
    submit_all scan_id req none state = (http_error 500 (tools.message_of req.spec_source), state)
    submit_all scan_id req (some ([], [])) state = (http_error 400 no_endpoints, state)
    submit_all scan_id req (some ([], e ∷ errors)) state =
        (http_error 400 (invalid_specification (e ∷ errors)), state)
    submit_all scan_id req (some (t ∷ tasks, errors)) state =
        submit_tasks tables draws redis codec scan_id (t ∷ tasks) state

    unfoldable pub discover_and_submit :
        (scan_id : String)
        → DiscoverRequest
        → tables.Db × redis.Store
        → Reply String × (tables.Db × redis.Store)
    unfolding all_tasks submit_tasks
    discover_and_submit scan_id req (d, s) = elim (tables.scan d scan_id) [
      | none ↦ (http_error 404 "Scan not found", (d, s))
      | some scan ↦ submit_all scan_id req (all_tasks req (base_of req scan)) (d, s)
    ]
