-- ===== src/Api/Assistant/Model.antt =====
-- executor/api/copilot_routes.py: `_call_llm`, `_call_gemini` and `_call_openai`.
use Prim.Native.String
use integrated_work_tll.Prelude.{
  ℕ, String, ◌==◌, ◌&◌, List, [], ◌∷◌, Option, none, some, is_given, or_empty, eqb, if◌then◌else◌,
}
use integrated_work_tll.Json.{Json, null, bool, num, str, arr, obj, nil, cons, lookup_field}
use integrated_work_tll.Api.Assistant.Fallback.{rule_based_fallback}

-- What a service answers to a request: an exception, or a status and a body, `none` where the body is
-- no JSON.
pub data Posted : Type 0 where
  post_raised : Posted
  posted : (status_code : ℕ) → (json : Option Json) → Posted

-- The keys of the environment and the two services. A request is the texts that its payload holds; the
-- rest of the payload is constant.
pub record Llm : Type 0 where
  pub gemini_key : Option String
  pub openai_key : Option String
  pub post_gemini : (api_key text : String) → Posted
  pub post_openai : (api_key system_content user_content : String) → Posted

-- A step in `data["candidates"][0]["content"]...`: `[k]`, or `[0][k]`.
pub data Part : Type 0 where
  key : String → Part
  first : String → Part

-- A value, a `KeyError` or an `IndexError`, or a `TypeError`.
pub data Got : Type 0 where
  got : Json → Got
  missing : Got
  type_error : Got

unfoldable pub get_key : Json → String → Got
get_key (obj fields) k = elim (lookup_field fields k) [ none ↦ missing | some v ↦ got v ]
get_key null k = type_error
get_key (bool b) k = type_error
get_key (num n) k = type_error
get_key (str s) k = type_error
get_key (arr xs) k = type_error

-- A dict of JSON has no key 0; the first character of a text is a text.
unfoldable pub get_first : Json → String → Got
unfolding get_key
get_first (arr nil) k = missing
get_first (arr (cons x xs)) k = get_key x k
get_first (obj fields) k = missing
get_first (str s) k = if s == "" then missing else get_key (str (String.slice s 0 1)) k
get_first null k = type_error
get_first (bool b) k = type_error
get_first (num n) k = type_error

abbrev pub get_part : Json → Part → Got
get_part v (key k) = get_key v k
get_part v (first k) = get_first v k

unfoldable pub navigate : Json → List Part → Got
unfolding get_key get_first
navigate v [] = got v
navigate v (part ∷ parts) = elim (get_part v part) [
  | got w ↦ navigate w parts
  | missing ↦ missing
  | type_error ↦ type_error
]

-- A result of `_call_llm`, or an exception.
pub data Called : Type 0 where
  called : Json → Called
  call_raised : Called

abbrev pub gemini_path : List Part
gemini_path = key "candidates" ∷ first "content" ∷ key "parts" ∷ first "text" ∷ []

abbrev pub openai_path : List Part
openai_path = key "choices" ∷ first "message" ∷ key "content" ∷ []

abbrev pub text_at : (user_query : String) → Got → Called
text_at user_query (got v) = called v
text_at user_query missing = called (str (rule_based_fallback user_query))
text_at user_query type_error = call_raised

abbrev pub text_in : (user_query : String) → List Part → Option Json → Called
text_in user_query path none = call_raised
text_in user_query path (some data_) = text_at user_query (navigate data_ path)

abbrev pub read_posted : (user_query : String) → List Part → Posted → Called
read_posted user_query path post_raised = call_raised
read_posted user_query path (posted status_code json) =
    if eqb status_code 200
    then text_in user_query path json
    else called (str (rule_based_fallback user_query))

module _ (llm : Llm) (system_prompt user_query : String) where
  abbrev pub call_gemini : (api_key : String) → Called
  call_gemini api_key =
      read_posted user_query gemini_path
        (llm.post_gemini api_key (system_prompt & "\n\nUser Question: " & user_query))

  abbrev pub call_openai : (api_key : String) → Called
  call_openai api_key =
      read_posted user_query openai_path (llm.post_openai api_key system_prompt user_query)

  unfoldable pub call_llm : Called
  unfolding navigate rule_based_fallback
  call_llm =
      if is_given llm.gemini_key
      then call_gemini (or_empty llm.gemini_key)
      else if is_given llm.openai_key
      then call_openai (or_empty llm.openai_key)
      else called (str (rule_based_fallback user_query))
