-- ===== src/Api/Discover/Answers.antt =====
-- What `discover_and_submit` submits, and when it refuses.
use integrated_work_tll.Prelude.{
  String, ◌≡◌, List, [], ◌∷◌, ◌++◌, Option, none, some, Dict, map, All,
}
use integrated_work_tll.Redis.{Redis}
use integrated_work_tll.Queue.{Codec}
use integrated_work_tll.Spec.{EndpointDict, ParseResult}
use integrated_work_tll.Bridges.{discovery_tasks, engine_request, with_auth, generate_mutations}
use integrated_work_tll.Bridges.Described.{AllCrawl, role_tasks, IsFuzz, fuzz_tasks}
use integrated_work_tll.Api.{Reply, http_error}
use integrated_work_tll.Api.Tables.{Scan, Tables}
use integrated_work_tll.Api.Submit.{TaskSubmit, Draws, submit_tasks}
use integrated_work_tll.Api.Discover.{DiscoverRequest, Tools, base_of, jwt_tasks_of, submit_all}

abbrev pub tokens_in : Option (Dict String) → Dict String
tokens_in none = []
tokens_in (some tokens) = tokens

-- The tasks for the endpoints, in three parts: a visit of each, every token at every one that
-- requires authentication, and what the mutation engine makes of them.
pub record IsPlan (tools : Tools) (req : DiscoverRequest) (base_url : String)
    (endpoints : List EndpointDict) (tasks : List TaskSubmit) : Type 0 where
  pub crawl : List TaskSubmit
  pub fuzz : List TaskSubmit
  pub parts :
      tasks ≡ crawl ++ role_tasks base_url (tokens_in req.jwt_tokens) (with_auth endpoints) ++ fuzz
  pub crawls : AllCrawl base_url endpoints crawl
  pub fuzzes : fuzz ≡ fuzz_tasks (tools.engine (map (engine_request base_url) endpoints))
  pub all_fuzz : All IsFuzz fuzz

module _ (tools : Tools) (req : DiscoverRequest) where
  -- The tasks for given endpoints.
  tasks_for : String → List EndpointDict → List TaskSubmit
  tasks_for base_url eps =
      discovery_tasks base_url eps
      ++ jwt_tasks_of req.jwt_tokens eps base_url
      ++ generate_mutations tools.engine eps base_url

  tasks_of_result : String → Option ParseResult → Option (List TaskSubmit × List String)
  tasks_of_result base_url none = none
  tasks_of_result base_url (some result) =
      some (tasks_for base_url result.endpoints, result.errors_encountered)

  module _ (tables : Tables) (draws : Draws) (redis : Redis) (codec : Codec) (scan_id : String)
      (scan : Scan) (d : tables.Db) (s : redis.Store) where
    abbrev pub Answer : Type 0
    Answer = Reply String × (tables.Db × redis.Store)

    -- What is answered for the endpoints of the result.
    abbrev pub IsAnswerFor : List EndpointDict → Answer → Type 0
    IsAnswerFor [] a = (detail : String) × (a ≡ (http_error 400 detail, (d, s)))
    IsAnswerFor (ep ∷ eps) a =
        (tasks : List TaskSubmit) × IsPlan tools req (base_of req scan) (ep ∷ eps) tasks
        × (a ≡ submit_tasks tables draws redis codec scan_id tasks (d, s))

    -- What is answered for what the parser does.
    abbrev pub IsAnswer : Option ParseResult → Answer → Type 0
    IsAnswer none a = a ≡ (http_error 500 (tools.message_of req.spec_source), (d, s))
    IsAnswer (some result) a = IsAnswerFor result.endpoints a

    abbrev submitted : Option (List TaskSubmit × List String) → Answer
    submitted o = submit_all tools tables draws redis codec scan_id req o (d, s)
