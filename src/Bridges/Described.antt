-- ===== src/Bridges/Described.antt =====
-- The tasks of the three bridges, without the steps that make them.
use mathlib.Core.Path.{ap₂}
use mathlib.Core.List.{map-append, flat_map}
use integrated_work_tll.Prelude.{
  String, ◌&◌, ◌≡◌, refl, ap, ◌∙◌, ◌&&◌, List, [], ◌∷◌, ◌++◌, Option, none, some, Dict, map,
  is_empty, All, Option-cases, inl, inr, if◌then◌else◌,
}
use integrated_work_tll.Json.{null, truthy}
use integrated_work_tll.Spec.{EndpointDict}
use integrated_work_tll.Api.Submit.{TaskSubmit}
use integrated_work_tll.Bridges.{
  target_url, json_headers, dummy_payload, discovery_task, discovery_tasks, cases_of,
  generate_test_cases, with_auth, jwt_task, generate_jwt_tasks, EngineRequest, Mutation,
  engine_request, mutation_task, generate_mutations,
}

-- The task that visits an endpoint.
pub record IsCrawl (base_url : String) (ep : EndpointDict) (t : TaskSubmit) : Type 0 where
  pub method : t.method ≡ ep.method
  pub url : t.url ≡ target_url base_url ep.path
  pub payload : t.payload ≡ (
      if truthy ep.request_body_required && truthy ep.request_body_schema
      then dummy_payload
      else null)
  pub auth_token : t.auth_token ≡ none
  pub retry_count : t.retry_count ≡ 3
  pub priority_level : t.priority_level ≡ "P3"

abbrev pub AllCrawl : String → List EndpointDict → List TaskSubmit → Type 0
AllCrawl base_url [] [] = Unit
AllCrawl base_url (ep ∷ eps) (t ∷ ts) = IsCrawl base_url ep t × AllCrawl base_url eps ts
AllCrawl base_url [] (t ∷ ts) = ⊥
AllCrawl base_url (ep ∷ eps) [] = ⊥

discovery_task-IsCrawl :
    (base_url : String) (ep : EndpointDict) → IsCrawl base_url ep (discovery_task base_url ep)
unfolding discovery_task
discovery_task-IsCrawl base_url ep = record {
  method = refl;
  url = refl;
  payload = refl;
  auth_token = refl;
  retry_count = refl;
  priority_level = refl;
}

pub discovery_tasks-AllCrawl :
    (base_url : String) (eps : List EndpointDict)
    → AllCrawl base_url eps (discovery_tasks base_url eps)
discovery_tasks-AllCrawl base_url [] = tt
discovery_tasks-AllCrawl base_url (ep ∷ eps) =
    (discovery_task-IsCrawl base_url ep, discovery_tasks-AllCrawl base_url eps)

-- The task that visits an endpoint with a token.
abbrev pub role_task : (base_url : String) → EndpointDict → (token : String) → TaskSubmit
role_task base_url ep token = record {
  method = ep.method;
  url = base_url & ep.path;
  headers = some json_headers;
  payload = null;
  auth_token = some token;
  retry_count = 3;
  priority_level = "P2";
  mutation_strategy = none;
  mutation_reason = none;
}

-- Every token at every one of the endpoints.
abbrev pub role_tasks : (base_url : String) → Dict String → List EndpointDict → List TaskSubmit
role_tasks base_url tokens eps =
    flat_map (λ ep. map (λ entry. role_task base_url ep entry.1) tokens) eps

module _ (base_url : String) where
  map-cases_of :
      (ep : EndpointDict) (tokens : Dict String)
      → map jwt_task (cases_of base_url ep tokens)
        ≡ map (λ entry. role_task base_url ep entry.1) tokens
  map-cases_of ep [] = refl
  map-cases_of ep ((name, token) ∷ tokens) =
      ap (λ (ts : List TaskSubmit). role_task base_url ep token ∷ ts) (map-cases_of ep tokens)

  map-generate_test_cases :
      (tokens : Dict String) (eps : List EndpointDict)
      → map jwt_task (generate_test_cases base_url eps tokens) ≡ role_tasks base_url tokens eps
  unfolding generate_test_cases flat_map
  map-generate_test_cases tokens [] = refl
  map-generate_test_cases tokens (ep ∷ eps) =
      map-append jwt_task (cases_of base_url ep tokens) (generate_test_cases base_url eps tokens)
      ∙ ap₂ (λ (xs ys : List TaskSubmit). xs ++ ys) (map-cases_of ep tokens)
          (map-generate_test_cases tokens eps)

  guarded :
      (tokens : Dict String) (eps : List EndpointDict)
      → (if is_empty eps then [] else map jwt_task (generate_test_cases base_url eps tokens))
        ≡ role_tasks base_url tokens eps
  unfolding flat_map
  guarded tokens [] = refl
  guarded tokens (ep ∷ eps) = map-generate_test_cases tokens (ep ∷ eps)

  pub generate_jwt_tasks-eq :
      (tokens : Dict String) (eps : List EndpointDict)
      → generate_jwt_tasks eps tokens base_url ≡ role_tasks base_url tokens (with_auth eps)
  unfolding generate_jwt_tasks
  generate_jwt_tasks-eq tokens eps = guarded tokens (with_auth eps)

  pub role_tasks_nil : (eps : List EndpointDict) → role_tasks base_url [] eps ≡ []
  unfolding flat_map
  role_tasks_nil [] = refl
  role_tasks_nil (ep ∷ eps) = role_tasks_nil eps

-- A task of the lowest priority, which is tried once.
pub record IsFuzz (t : TaskSubmit) : Type 0 where
  pub auth_token : t.auth_token ≡ none
  pub retry_count : t.retry_count ≡ 1
  pub priority_level : t.priority_level ≡ "P4"

map-All : (ms : List Mutation) → All IsFuzz (map mutation_task ms)
unfolding mutation_task
map-All [] = tt
map-All (m ∷ ms) =
    (record { auth_token = refl; retry_count = refl; priority_level = refl }, map-All ms)

-- The tasks for the mutations that the engine gives for the endpoints: none where it fails.
abbrev pub fuzz_tasks : Option (List (List Mutation)) → List TaskSubmit
fuzz_tasks none = []
fuzz_tasks (some results) = map mutation_task (flat_map (λ r. r) results)

pub generate_mutations-All :
    (engine : List EngineRequest → Option (List (List Mutation)))
    → (ep : EndpointDict) (eps : List EndpointDict) (base_url : String)
    → All IsFuzz (generate_mutations engine (ep ∷ eps) base_url)
unfolding generate_mutations
generate_mutations-All engine ep eps base_url =
    elim (Option-cases (engine (map (engine_request base_url) (ep ∷ eps)))) [
      | inl e ↦ rw (generate_mutations, e) tt
      | inr (results, e) ↦ rw (generate_mutations, e) (map-All (flat_map (λ r. r) results))
    ]

pub generate_mutations-eq :
    (engine : List EngineRequest → Option (List (List Mutation)))
    → (ep : EndpointDict) (eps : List EndpointDict) (base_url : String)
    → generate_mutations engine (ep ∷ eps) base_url
      ≡ fuzz_tasks (engine (map (engine_request base_url) (ep ∷ eps)))
unfolding generate_mutations
generate_mutations-eq engine ep eps base_url =
    elim (Option-cases (engine (map (engine_request base_url) (ep ∷ eps)))) [
      | inl e ↦ rw (generate_mutations, e) refl
      | inr (results, e) ↦ rw (generate_mutations, e) refl
    ]
