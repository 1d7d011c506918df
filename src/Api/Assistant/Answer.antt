-- ===== src/Api/Assistant/Answer.antt =====
-- What `ask_copilot` answers.
use mathlib.Core.Path.{subst}
use mathlib.Core.List.{reverse-append}
use integrated_work_tll.Prelude.{
  ℕ, zero, suc, ◌+◌, ◌≤◌, min, false, ◌++◌, reverse, length-append, length-reverse, String, ◌≡◌,
  refl, sym, ap, ◌∙◌, true, List, [], ◌∷◌, Option, none, some, ◌≢◌, inl, inr, Option-cases,
  Bool-cases, length, length-take, take, select, All, All-select, is_given, or_empty, arith,
}
use integrated_work_tll.Redis.Memory.{some_eq}
use integrated_work_tll.Json.{Json, null, bool, num, str, arr, obj}
use integrated_work_tll.Database.{TaskStatus, queued, processing, retrying, success, failed}
use integrated_work_tll.Api.Tables.{Scan, Task, Tables}
use integrated_work_tll.Api.Assistant.{
  Dumps, TaskSummary, Context, CopilotRequest, CopilotResponse, is_failed, latest, summaries,
  gather_scan_context, build_system_prompt, context_for, evidence_in, suggested, or_questions,
  answered, response_with, ask_copilot,
}
use integrated_work_tll.Api.Assistant.Model.{Llm, Called, call_llm}
use integrated_work_tll.Api.Assistant.Fallback.{rule_based_fallback}
use integrated_work_tll.Api.Assistant.Outcomes.{
  Says, Says-called, Outcome, said, ruled, call_failed, call_llm-Outcome,
}

length-or_questions : (xs : List String) → 1 ≤ length (or_questions xs)
length-or_questions [] = omega arith
length-or_questions (x ∷ xs) = omega arith

All-take : (P : TaskSummary → Type 0) (n : ℕ) (xs : List TaskSummary) → All P xs → All P (take n xs)
All-take P zero xs h = tt
All-take P (suc n) [] h = tt
All-take P (suc n) (x ∷ xs) h = (h.0, All-take P n xs h.1)

failed_status : (s : TaskStatus) → is_failed s ≡ true → s ≡ failed
failed_status failed e = refl
failed_status queued e = ground arith
failed_status processing e = ground arith
failed_status retrying e = ground arith
failed_status success e = ground arith

-- At most five tasks, all of which failed.
pub record IsSample (tasks : List TaskSummary) : Type 0 where
  pub few : length tasks ≤ 5
  pub all_failed : All (λ (t : TaskSummary). t.status ≡ failed) tasks

take-IsSample :
    (tasks : List TaskSummary) → All (λ t. t.status ≡ failed) tasks → IsSample (take 5 tasks)
take-IsSample tasks h = record {
  few = omega (arith, length-take 5 tasks);
  all_failed = All-take (λ t. t.status ≡ failed) 5 tasks h;
}

-- `recent` ends `rows`, and has as many of them as there are up to twenty.
abbrev pub AreLatest : (rows earlier recent : List Task) → Type 0
AreLatest rows earlier recent = (rows ≡ earlier ++ recent) × (length recent ≡ min 20 (length rows))

take_all_of :
    (n : ℕ) (xs ys : List Task) → length xs ≡ min n (length xs + length ys) → take n (xs ++ ys) ≡ xs
take_all_of zero [] ys e = refl
take_all_of zero (x ∷ xs) ys e = ground (arith, e)
take_all_of (suc n) [] [] e = refl
take_all_of (suc n) [] (y ∷ ys) e = ground (arith, e)
take_all_of (suc n) (x ∷ xs) ys e =
    ap (λ (zs : List Task). x ∷ zs) (take_all_of n xs ys (omega (arith, e)))

take-reverse :
    (rows earlier recent : List Task)
    → AreLatest rows earlier recent
    → take 20 (reverse rows) ≡ reverse recent
take-reverse rows earlier recent (e, n) =
    ap (λ (xs : List Task). take 20 (reverse xs)) e
    ∙ ap (λ (xs : List Task). take 20 xs) (reverse-append earlier recent)
    ∙ take_all_of 20 (reverse recent) (reverse earlier) (
        omega (
          arith,
          n,
          ap (λ (xs : List Task). length xs) e,
          length-append earlier recent,
          length-reverse earlier,
          length-reverse recent,
        ))

module _ (dumps : Dumps) (tables : Tables) (llm : Llm) (request : CopilotRequest)
    (d : tables.Db) where
  abbrev context : Option Context
  context = context_for dumps tables request d

  abbrev prompt : String
  prompt = build_system_prompt dumps tables context request.context_view

  -- What the service says to the prompt of the scan and the question.
  abbrev pub Told : Json → Type 0
  Told v = Says llm prompt request.query v

  -- The first five that failed of the tasks `recent`, the last of them first.
  abbrev pub failures_of : (recent : List Task) → List TaskSummary
  failures_of recent =
      take 5 (select (λ t. is_failed t.status) (summaries dumps tables d (reverse recent)))

  -- The evidence is the failures of the latest tasks of the scan, and there is something to ask next.
  pub record IsUseful (r : CopilotResponse) : Type 0 where
    pub sample : IsSample r.evidence
    pub no_scan : is_given request.scan_id ≡ false → r.evidence ≡ []
    pub unknown_scan : tables.scan d (or_empty request.scan_id) ≡ none → r.evidence ≡ []
    pub latest_failures :
        (scan : Scan) (earlier recent : List Task)
        → is_given request.scan_id ≡ true
        → tables.scan d (or_empty request.scan_id) ≡ some scan
        → AreLatest (tables.tasks d (or_empty request.scan_id)) earlier recent
        → r.evidence ≡ failures_of recent
    pub suggests : 1 ≤ length r.suggestions

  pub record IsAnswered (o : Option CopilotResponse) : Type 0 where
    pub told : (t : String) → Told (str t) → (r : CopilotResponse) × (o ≡ some r) × (r.answer ≡ t)
    pub not_told :
        ((v : Json) → ¬ Told v)
        → (r : CopilotResponse) × (o ≡ some r) × (r.answer ≡ rule_based_fallback request.query)
    pub raises : o ≡ none → (v : Json) × Told v × ((t : String) → v ≢ str t)
    pub useful : (r : CopilotResponse) → o ≡ some r → IsUseful r

  abbrev call : Called
  call = call_llm llm prompt request.query

  gathered-IsSample :
      (scan_id : String) → IsSample (evidence_in (gather_scan_context dumps tables scan_id d))
  unfolding gather_scan_context
  gathered-IsSample scan_id = elim (Option-cases (tables.scan d scan_id)) [
    | inl e ↦ rw (gather_scan_context, e) (record { few = omega arith; all_failed = tt })
    | inr (scan, e) ↦
        let tasks = summaries dumps tables d (latest dumps tables scan_id d) in
        rw (gather_scan_context, e)
          (take-IsSample (select (λ t. is_failed t.status) tasks) (
            All-select (λ t. t.status ≡ failed) (λ t. is_failed t.status) tasks
              (λ t h. failed_status t.status h)))
  ]

  context-IsSample : IsSample (evidence_in context)
  context-IsSample = elim (Bool-cases (is_given request.scan_id)) [
    | inl e ↦ rw e (gathered-IsSample (or_empty request.scan_id))
    | inr e ↦ rw e (record { few = omega arith; all_failed = tt })
  ]

  not_given : is_given request.scan_id ≡ false → evidence_in context ≡ []
  not_given e = rw e refl

  not_found : tables.scan d (or_empty request.scan_id) ≡ none → evidence_in context ≡ []
  unfolding gather_scan_context
  not_found n = elim (Bool-cases (is_given request.scan_id)) [
    | inl e ↦ rw (gather_scan_context, e, n) refl
    | inr e ↦ rw e refl
  ]

  found_latest :
      (scan : Scan) (earlier recent : List Task)
      → is_given request.scan_id ≡ true
      → tables.scan d (or_empty request.scan_id) ≡ some scan
      → AreLatest (tables.tasks d (or_empty request.scan_id)) earlier recent
      → evidence_in context ≡ failures_of recent
  unfolding gather_scan_context
  found_latest scan earlier recent given e same =
      rw (gather_scan_context, given, e)
        (ap
          (λ (xs : List Task).
            take 5 (select (λ t. is_failed t.status) (summaries dumps tables d xs)))
          (take-reverse (tables.tasks d (or_empty request.scan_id)) earlier recent same))

  response-IsUseful :
      (v : Json) (r : CopilotResponse) → response_with context v ≡ some r → IsUseful r
  response-IsUseful (str t) r e = subst IsUseful (some_eq e) (record {
    sample = context-IsSample;
    no_scan = not_given;
    unknown_scan = not_found;
    latest_failures = found_latest;
    suggests = length-or_questions (suggested context);
  })
  response-IsUseful null r e = ground arith
  response-IsUseful (bool b) r e = ground arith
  response-IsUseful (num n) r e = ground arith
  response-IsUseful (arr xs) r e = ground arith
  response-IsUseful (obj fs) r e = ground arith

  abbrev made : String → CopilotResponse
  made t = record {
    answer = t;
    evidence = evidence_in context;
    suggestions = or_questions (suggested context);
  }

  no_text : (v : Json) → response_with context v ≡ none → (t : String) → v ≢ str t
  no_text v e t same =
      let impossible : some (made t) ≡ none = ap (λ x. response_with context x) (sym same) ∙ e in
      ground (arith, impossible)

  silent_answer :
      (c : Called)
      → Outcome llm prompt request.query c
      → ((v : Json) → ¬ Told v)
      → (r : CopilotResponse) × (response_with context (answered request c) ≡ some r)
        × (r.answer ≡ rule_based_fallback request.query)
  silent_answer _ (said v says) silent = ground (arith, silent v says)
  silent_answer _ ruled silent = (made (rule_based_fallback request.query), refl, refl)
  silent_answer _ call_failed silent = (made (rule_based_fallback request.query), refl, refl)

  raised_by :
      (c : Called)
      → Outcome llm prompt request.query c
      → response_with context (answered request c) ≡ none
      → (v : Json) × Told v × ((t : String) → v ≢ str t)
  raised_by _ (said v says) e = (v, says, no_text v e)
  raised_by _ ruled e = ground arith
  raised_by _ call_failed e = ground arith

  -- For every request: a text that the service gives to the prompt of the scan is the answer; where the
  -- service gives no value, for lack of a key, by an exception, another status or another body, the
  -- rule-based answer is; only a value that is no text raises. The evidence is, the
  -- latest first, the first five that failed of the latest twenty tasks of the scan, and nothing where
  -- no scan is named or found; at least one question is suggested.
  pub ask_copilot-IsAnswered : IsAnswered (ask_copilot dumps tables llm request d)
  unfolding ask_copilot
  ask_copilot-IsAnswered = record {
    told = λ t says. (
      made t,
      ap (λ c. response_with context (answered request c))
          (Says-called llm prompt request.query (str t) says),
      refl,
    );
    not_told = silent_answer call (call_llm-Outcome llm prompt request.query);
    raises = raised_by call (call_llm-Outcome llm prompt request.query);
    useful = λ r e. response-IsUseful (answered request call) r e;
  }
