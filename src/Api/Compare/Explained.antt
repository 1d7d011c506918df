-- ===== src/Api/Compare/Explained.antt =====
-- What the explanation of two responses says of them.
use integrated_work_tll.Prelude.{
  ℕ, String, ◌≡◌, refl, not, ◌&&◌, List, Option, pos, is_empty, eqb, length, codes, arith,
  if◌then◌else◌,
}
use integrated_work_tll.Json.{Json, Fields, num, str, obj, end, field, lookup_field, json_eq}
use integrated_work_tll.Api.{reply}
use integrated_work_tll.Api.Compare.{
  Comparison, leaked_fields, comparison, compare_responses, compared, parsed, get_key, len,
}

-- A response as the route takes it.
abbrev pub given : ℕ → String → Json
given status body = obj (field "status_code" (num (pos status)) (field "body" (str body) end))

abbrev pub asked : Json → Json → Fields
asked a b = field "response_a" a (field "response_b" b end)

-- The fields that leak between two texts.
abbrev pub leaks : (String → Option Json) → String → String → List String
leaks loads s t = leaked_fields (parsed loads (str s)) (parsed loads (str t))

-- How two responses with texts as bodies are judged.
pub record IsJudged (loads : String → Option Json) (m n : ℕ) (s t : String) (c : Comparison)
    : Type 0 where
  pub status_differs : c.status_differs ≡ not (eqb m n)
  pub lengths : c.body_length_differs ≡ not (eqb (length (codes s)) (length (codes t)))
  pub leak_detected : c.leak_detected ≡ (eqb m 200 && eqb n 200 && not (is_empty (leaks loads s t)))
  pub risk_score : c.risk_score ≡ (if c.leak_detected then 90 else if eqb m n then 10 else 40)

-- Two responses that are given with a status and a text: the route tells whether the statuses and
-- the lengths differ, and finds a leak exactly where both statuses are 200 and the parsed bodies
-- agree on a sensitive field of the second. A leak scores 90, other differing statuses 40, and all
-- else 10.
pub compare_responses-IsJudged :
    (loads : String → Option Json) (m n : ℕ) (s t : String)
    → (c : Comparison) × (compare_responses loads (asked (given m s) (given n t)) ≡ reply c)
      × IsJudged loads m n s t c
unfolding compare_responses comparison get_key lookup_field len json_eq
compare_responses-IsJudged loads m n s t = (
  compared (num (pos m)) (num (pos n)) (parsed loads (str s)) (parsed loads (str t))
      (length (codes s)) (length (codes t)),
  refl,
  record { status_differs = refl; lengths = refl; leak_detected = refl; risk_score = ground arith },
)
