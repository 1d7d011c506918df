-- ===== src/Api/Assistant.antt =====
-- executor/api/copilot_routes.py: what a model is told of a scan, and the answer of `ask_copilot`.
pub mod Model
pub mod Fallback
pub mod Outcomes
pub mod Answer
use Prim.Native.String
use integrated_work_tll.Prelude.{
  ℕ, ◌+◌, String, ◌&◌, Bool, true, false, List, [], ◌∷◌, ◌++◌, Option, none, some, Dict, map, take,
  length, reverse, select, is_empty, is_given, or_empty, show_ℕ, ltb, if◌then◌else◌,
}
use integrated_work_tll.Database.{TaskStatus, ScanStatus, failed}
use integrated_work_tll.Json.{Json, null, bool, num, str, arr, obj}
use integrated_work_tll.Api.Tables.{Scan, Task, Response, Tables, group_status}
use integrated_work_tll.Api.Views.{iso}
use integrated_work_tll.Api.Dashboard.{unique_endpoints}
use Model.{Llm, Called, called, call_raised, call_llm}
use Fallback.{rule_based_fallback}

-- An entry of `context["scan"]`, of the responses in `context["tasks"]`, and of `context["tasks"]`.
pub record ScanContext : Type 0 where
  pub id : String
  pub name : String
  pub target : String
  pub status : ScanStatus
  pub created_at : Option String

pub record ResponseSummary : Type 0 where
  pub response_status_code : Option ℕ
  pub latency_ms : Option ℕ
  pub error_message : Option String
  pub response_body_preview : Option String

pub record TaskSummary : Type 0 where
  pub method : String
  pub url : String
  pub status : TaskStatus
  pub attempts : ℕ
  pub response : Option ResponseSummary

pub record Context : Type 0 where
  pub scan : ScanContext
  pub task_stats : Dict ℕ
  pub total_tasks : ℕ
  pub tasks : List TaskSummary
  pub failed_tasks_count : ℕ
  pub failed_tasks_sample : List TaskSummary
  pub unique_endpoints : List String
  pub endpoint_count : ℕ

abbrev pub preview : Option String → Option String
preview body = if is_given body then some (String.slice (or_empty body) 0 500) else none

abbrev pub summary_of : Option Response → Option ResponseSummary
summary_of none = none
summary_of (some resp) = some (record {
  response_status_code = resp.status_code;
  latency_ms = resp.latency_ms;
  error_message = resp.error_message;
  response_body_preview = preview resp.response_body;
})

abbrev pub is_failed : TaskStatus → Bool
is_failed failed = true
is_failed _ = false

-- `sum(task_stats.values())`.
abbrev pub sum_values : Dict ℕ → ℕ
sum_values [] = 0
sum_values ((k, n) ∷ d) = n + sum_values d

pub record CopilotRequest : Type 0 where
  pub scan_id : Option String
  pub query : String
  pub context_view : String

pub record CopilotResponse : Type 0 where
  pub answer : String
  pub evidence : List TaskSummary
  pub suggestions : List String

-- The texts of `json.dumps` and of a status, and the path that `urlparse` finds, or `none` where it
-- raises.
pub record Dumps : Type 0 where
  pub isoformat : ℕ → String
  pub url_path : String → Option String
  pub status : ScanStatus → String
  pub stats : Dict ℕ → String
  pub tasks : List TaskSummary → String

abbrev pub tasks_in : Option Context → List TaskSummary
tasks_in none = []
tasks_in (some c) = c.tasks

abbrev pub evidence_in : Option Context → List TaskSummary
evidence_in none = []
evidence_in (some c) = c.failed_tasks_sample

abbrev pub suggestion : Bool → String → List String
suggestion b s = if b then s ∷ [] else []

abbrev pub suggested : Option Context → List String
suggested none = []
suggested (some c) =
    suggestion (ltb 0 c.failed_tasks_count) "Show me the failed task details"
    ++ suggestion (ltb 0 c.endpoint_count) "Which endpoints are most at risk?"
    ++ suggestion (ltb 0 c.total_tasks) "Generate an executive summary"

abbrev pub or_questions : List String → List String
or_questions [] =
    "How do I start a scan?" ∷ "What types of vulnerabilities can you detect?"
    ∷ "Explain BOLA and BFLA" ∷ []
or_questions (s ∷ suggestions) = s ∷ suggestions

abbrev pub answered : CopilotRequest → Called → Json
answered request (called v) = v
answered request call_raised = str (rule_based_fallback request.query)

-- `CopilotResponse` raises where the answer is not a text.
abbrev pub response_with : Option Context → Json → Option CopilotResponse
response_with context (str answer) = some (record {
  answer = answer;
  evidence = evidence_in context;
  suggestions = or_questions (suggested context);
})
response_with context null = none
response_with context (bool b) = none
response_with context (num n) = none
response_with context (arr xs) = none
response_with context (obj fs) = none

module _ (dumps : Dumps) (tables : Tables) where
  -- The query for the latest twenty tasks, by falling creation.
  abbrev pub latest : String → tables.Db → List Task
  latest scan_id d = take 20 (reverse (tables.tasks d scan_id))

  abbrev pub summaries : tables.Db → List Task → List TaskSummary
  summaries d [] = []
  summaries d (task ∷ tasks) =
      (record {
        method = task.method;
        url = task.url;
        status = task.status;
        attempts = task.attempts;
        response = summary_of (tables.response d task.id);
      })
      ∷ summaries d tasks

  abbrev pub context_of : Scan → String → tables.Db → Context
  context_of scan scan_id d =
      let task_stats = group_status (tables.tasks d scan_id) in
      let tasks = summaries d (latest scan_id d) in
      let failed_tasks = select (λ t. is_failed t.status) tasks in
      let endpoints = unique_endpoints dumps.url_path (latest scan_id d) in
      record {
        scan = record {
          id = scan.id;
          name = scan.name;
          target = scan.target;
          status = scan.status;
          created_at = iso dumps.isoformat scan.created_at;
        };
        task_stats = task_stats;
        total_tasks = sum_values task_stats;
        tasks = tasks;
        failed_tasks_count = length failed_tasks;
        failed_tasks_sample = take 5 failed_tasks;
        unique_endpoints = endpoints;
        endpoint_count = length endpoints;
      }

  -- `none` is a dict with an error, which the caller reads like the empty one. The text of the id is
  -- taken as the id.
  unfoldable pub gather_scan_context : String → tables.Db → Option Context
  unfolding group_status unique_endpoints
  gather_scan_context scan_id d = elim (tables.scan d scan_id) [
    | none ↦ none
    | some scan ↦ some (context_of scan scan_id d)
  ]

  abbrev pub scan_lines : Option Context → String
  scan_lines none =
      "- Scan: None\n- Target: None\n- Status: None\n- Total Tasks: 0\n- Task Status Breakdown: "
      & dumps.stats []
      & "\n- Unique Endpoints: 0\n- Failed Tasks: 0\n"
  scan_lines (some c) =
      "- Scan: "
      & c.scan.name
      & "\n- Target: "
      & c.scan.target
      & "\n- Status: "
      & dumps.status c.scan.status
      & "\n- Total Tasks: "
      & show_ℕ c.total_tasks
      & "\n- Task Status Breakdown: "
      & dumps.stats c.task_stats
      & "\n- Unique Endpoints: "
      & show_ℕ c.endpoint_count
      & "\n- Failed Tasks: "
      & show_ℕ c.failed_tasks_count
      & "\n"

  unfoldable pub build_system_prompt : Option Context → (context_view : String) → String
  build_system_prompt context context_view =
      "You are a cybersecurity AI assistant for an API Security Testing Platform called TrustLayer API Studio.\nYou analyze REAL scan data and provide expert security insights. Never make up findings — only reference actual data provided.\n\nCurrent scan context:\n"
      & scan_lines context
      & "- Current View: "
      & context_view
      & "\n\nRecent task details (most recent 20):\n"
      & String.slice (dumps.tasks (tasks_in context)) 0 3000
      & "\n\nRules:\n1. Base ALL answers on the actual scan data above.\n2. If no scan data exists, say so clearly.\n3. Provide actionable security recommendations.\n4. Reference specific endpoints and status codes from the data.\n5. Be concise but thorough. Use bullet points.\n6. If asked about vulnerabilities, analyze the response codes, error messages, and patterns.\n7. Suggest follow-up actions the user should take."

  -- `if request.scan_id`.
  abbrev pub context_for : CopilotRequest → tables.Db → Option Context
  context_for request d =
      if is_given request.scan_id then gather_scan_context (or_empty request.scan_id) d else none

  unfoldable pub ask_copilot : Llm → CopilotRequest → tables.Db → Option CopilotResponse
  unfolding gather_scan_context build_system_prompt rule_based_fallback call_llm
  ask_copilot llm request d =
      let context = context_for request d in
      response_with context (
        answered request
          (call_llm llm (build_system_prompt context request.context_view) request.query))
