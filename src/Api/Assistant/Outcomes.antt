-- ===== src/Api/Assistant/Outcomes.antt =====
-- What the call of a model gives.
use mathlib.Core.Path.{subst, ap₂}
use integrated_work_tll.Prelude.{
  String, ◌&◌, ◌≡◌, refl, sym, ap, true, false, List, [], ◌∷◌, Option, none, some, inl, inr,
  Option-cases, Bool-cases, is_given, or_empty, eqb, arith,
}
use integrated_work_tll.Json.{
  Json, null, bool, num, str, arr, obj, Items, nil, cons, Fields, lookup_field,
}
use integrated_work_tll.Api.Assistant.Model.{
  Llm, Posted, post_raised, posted, Part, key, first, Got, got, missing, type_error, get_key,
  get_first, navigate, Called, called, call_raised, gemini_path, openai_path, text_at, text_in,
  read_posted, call_llm,
}
use integrated_work_tll.Api.Assistant.Fallback.{rule_based_fallback}

-- A value holds another one at the end of a path.
pub data Holds (v : Json) : List Part → Json → Type 0 where
  here : Holds v [] v
  under_key :
      {k : String} {parts : List Part} {fields : Fields} {w : Json}
      → lookup_field fields k ≡ some w
      → Holds v parts w
      → Holds v (key k ∷ parts) (obj fields)
  under_first :
      {k : String} {parts : List Part} {fields : Fields} {xs : Items} {w : Json}
      → lookup_field fields k ≡ some w
      → Holds v parts w
      → Holds v (first k ∷ parts) (arr (cons (obj fields) xs))

navigate-Holds : (v : Json) (path : List Part) (j : Json) → Holds v path j → navigate j path ≡ got v
unfolding navigate get_key get_first
navigate-Holds v _ _ here = refl
navigate-Holds v _ _ (under_key {parts = parts} {w = w} e h) =
    rw (navigate, get_key, e) (navigate-Holds v parts w h)
navigate-Holds v _ _ (under_first {parts = parts} {w = w} e h) =
    rw (navigate, get_first, get_key, e) (navigate-Holds v parts w h)

got_eq : (v w : Json) → got v ≡ got w → v ≡ w
got_eq v w e = ap (λ (x : Got). elim x [ got y ↦ y | missing ↦ null | type_error ↦ null ]) e

Holds-navigate : (v : Json) (path : List Part) (j : Json) → navigate j path ≡ got v → Holds v path j
unfolding navigate get_key get_first
Holds-navigate v [] j e = subst (λ x. Holds v [] x) (sym (got_eq j v e)) here
Holds-navigate v (key k ∷ parts) (obj fields) e = elim (Option-cases (lookup_field fields k)) [
  | inl none_there ↦ ground (arith, none_there)
  | inr (w, found) ↦ under_key found (Holds-navigate v parts w (rw (navigate, get_key, found) at e))
]
Holds-navigate v (key k ∷ parts) null e = ground arith
Holds-navigate v (key k ∷ parts) (bool b) e = ground arith
Holds-navigate v (key k ∷ parts) (num n) e = ground arith
Holds-navigate v (key k ∷ parts) (str s) e = ground arith
Holds-navigate v (key k ∷ parts) (arr xs) e = ground arith
Holds-navigate v (first k ∷ parts) (arr (cons (obj fields) xs)) e =
    elim (Option-cases (lookup_field fields k)) [
      | inl none_there ↦ ground (arith, none_there)
      | inr (w, found) ↦
          under_first found
            (Holds-navigate v parts w (rw (navigate, get_first, get_key, found) at e))
    ]
Holds-navigate v (first k ∷ parts) (arr (cons null xs)) e = ground arith
Holds-navigate v (first k ∷ parts) (arr (cons (bool b) xs)) e = ground arith
Holds-navigate v (first k ∷ parts) (arr (cons (num n) xs)) e = ground arith
Holds-navigate v (first k ∷ parts) (arr (cons (str s) xs)) e = ground arith
Holds-navigate v (first k ∷ parts) (arr (cons (arr ys) xs)) e = ground arith
Holds-navigate v (first k ∷ parts) (arr nil) e = ground arith
Holds-navigate v (first k ∷ parts) (obj fields) e = ground arith
Holds-navigate v (first k ∷ parts) (str s) e = ground arith
Holds-navigate v (first k ∷ parts) null e = ground arith
Holds-navigate v (first k ∷ parts) (bool b) e = ground arith
Holds-navigate v (first k ∷ parts) (num n) e = ground arith

module _ (llm : Llm) (system_prompt user_query : String) where
  -- The service that is asked, Gemini where it has a key, answers with a value at the place of a text.
  pub data Says (v : Json) : Type 0 where
    gemini_says :
        (data_ : Json)
        → is_given llm.gemini_key ≡ true
        → llm.post_gemini
            (or_empty llm.gemini_key)
            (system_prompt & "\n\nUser Question: " & user_query)
          ≡ posted 200 (some data_)
        → Holds v gemini_path data_
        → Says v
    openai_says :
        (data_ : Json)
        → is_given llm.gemini_key ≡ false
        → is_given llm.openai_key ≡ true
        → llm.post_openai (or_empty llm.openai_key) system_prompt user_query
          ≡ posted 200 (some data_)
        → Holds v openai_path data_
        → Says v

  pub Says-called : (v : Json) → Says v → call_llm llm system_prompt user_query ≡ called v
  unfolding call_llm
  Says-called v (gemini_says data_ given sent h) =
      rw (call_llm, given, sent, navigate-Holds v gemini_path data_ h) refl
  Says-called v (openai_says data_ no_gemini given sent h) =
      rw (call_llm, no_gemini, given, sent, navigate-Holds v openai_path data_ h) refl

  -- What a call gives: a value that the service says, or the rule-based answer, or an exception.
  pub data Outcome : Called → Type 0 where
    said : (v : Json) → Says v → Outcome (called v)
    ruled : Outcome (called (str (rule_based_fallback user_query)))
    call_failed : Outcome call_raised

  got-Outcome :
      (path : List Part) (data_ : Json) (g : Got)
      → navigate data_ path ≡ g
      → ((v : Json) → Holds v path data_ → Says v)
      → Outcome (text_at user_query g)
  got-Outcome path data_ (got v) e says = said v (says v (Holds-navigate v path data_ e))
  got-Outcome path data_ missing e says = ruled
  got-Outcome path data_ type_error e says = call_failed

  text-Outcome :
      (path : List Part) (json : Option Json)
      → ((v data_ : Json) → json ≡ some data_ → Holds v path data_ → Says v)
      → Outcome (text_in user_query path json)
  text-Outcome path none says = call_failed
  text-Outcome path (some data_) says =
      got-Outcome path data_ (navigate data_ path) refl (λ v. says v data_ refl)

  read-Outcome :
      (path : List Part) (sent : Posted)
      → ((v data_ : Json) → sent ≡ posted 200 (some data_) → Holds v path data_ → Says v)
      → Outcome (read_posted user_query path sent)
  read-Outcome path post_raised says = call_failed
  read-Outcome path (posted code json) says = elim (Bool-cases (eqb code 200)) [
    | inr other ↦ rw other ruled
    | inl ok ↦
        let same : code ≡ 200 = ground arith in
        rw ok (text-Outcome path json (λ v data_ e. says v data_ (ap₂ posted same e)))
  ]

  pub call_llm-Outcome : Outcome (call_llm llm system_prompt user_query)
  unfolding call_llm
  call_llm-Outcome = elim (Bool-cases (is_given llm.gemini_key)) [
    | inl given ↦
        rw (call_llm, given)
          (read-Outcome gemini_path
            (llm.post_gemini (or_empty llm.gemini_key)
              (system_prompt & "\n\nUser Question: " & user_query))
            (λ v data_ e h. gemini_says data_ given e h))
    | inr no_gemini ↦ elim (Bool-cases (is_given llm.openai_key)) [
      | inl given ↦
          rw (call_llm, no_gemini, given)
            (read-Outcome openai_path
              (llm.post_openai (or_empty llm.openai_key) system_prompt user_query)
              (λ v data_ e h. openai_says data_ no_gemini given e h))
      | inr no_openai ↦ rw (call_llm, no_gemini, no_openai) ruled
    ]
  ]
