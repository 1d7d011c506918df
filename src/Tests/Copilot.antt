-- ===== src/Tests/Copilot.antt =====
-- Runs of the copilots.
use integrated_work_tll.Prelude.{
  ℕ, String, false, ◌==◌, ◌≡◌, refl, Dict, [], ◌∷◌, none, some, strip_text, show_ℕ, mentions, lower,
}
use integrated_work_tll.Json.{Json, str, arr, obj, nil, cons, end, field}
use integrated_work_tll.Api.{reply}
use integrated_work_tll.Api.Tables.Memory.{memory_tables}
use integrated_work_tll.Api.Views.{get_scan_tasks}
use integrated_work_tll.Api.Copilot.{Query, asks_why, report_terms, copilot_query}
use integrated_work_tll.Api.Copilot.Branches.{Answer, request_evidence}
use integrated_work_tll.Api.Copilot.Answers.{IsTop, copilot_query-IsTop}
use integrated_work_tll.Api.Assistant.{Dumps, CopilotRequest, ask_copilot}
use integrated_work_tll.Api.Assistant.Model.{Llm, posted, post_raised}
use integrated_work_tll.Api.Assistant.Answer.{IsAnswered, ask_copilot-IsAnswered}
use integrated_work_tll.Tests.Api.{scan, rows}
use integrated_work_tll.Tests.Analysis.{run}

abbrev question : Query
question = record { question = some " How many tasks are there?\n"; scan_id = some "s-1" }

asked : (strip_text " How many tasks are there?\n" == "") ≡ false
unfolding strip_text
asked = refl

no_why : asks_why (lower (strip_text " How many tasks are there?\n")) ≡ false
unfolding strip_text lower integrated_work_tll.Prelude.contains
no_why = refl

no_report : mentions report_terms (lower (strip_text " How many tasks are there?\n")) ≡ false
unfolding mentions strip_text lower integrated_work_tll.Prelude.contains
no_report = refl

copilot_query-IsTop_example :
    (a : Answer) × (top : Dict ℕ) × (copilot_query run
        (λ u. u)
        memory_tables
        rows
        (λ s. some s)
        question
      ≡ reply a)
    × (a.evidence ≡ request_evidence top)
    × IsTop (λ u. u) (get_scan_tasks run.isoformat memory_tables "s-1" rows) top
copilot_query-IsTop_example =
    copilot_query-IsTop run (λ u. u) memory_tables rows (λ s. some s) question "s-1" scan asked
      no_why no_report refl refl refl

abbrev said : Json
said = obj (
    field "choices"
      (arr (
        cons (obj (field "message" (obj (field "content" (str "Two tasks failed.") end)) end)) nil))
      end)

-- A service that raises, and one that answers.
abbrev llm : Llm
llm = record {
  gemini_key = none;
  openai_key = some "sk-1";
  post_gemini = λ key text. post_raised;
  post_openai = λ key system user. posted 200 (some said);
}

abbrev dumps : Dumps
dumps = record {
  isoformat = show_ℕ;
  url_path = λ u. some u;
  status = λ s. "PENDING";
  stats = λ d. "{}";
  tasks = λ ts. "[]";
}

abbrev request : CopilotRequest
request = record {
  scan_id = some "s-1";
  query = "Why did it fail?";
  context_view = "executive_dashboard";
}

ask_copilot-IsAnswered_example :
    IsAnswered dumps memory_tables llm request rows
      (ask_copilot dumps memory_tables llm request rows)
ask_copilot-IsAnswered_example = ask_copilot-IsAnswered dumps memory_tables llm request rows
