-- ===== src/Tests/Spec.antt =====
-- Runs of the executor's parser of specifications.
use integrated_work_tll.Prelude.{refl}
use integrated_work_tll.Json.{Json, str, obj, Fields, end, field}
use integrated_work_tll.Discovery as Old
use integrated_work_tll.Discovery.Result as OldResult
use integrated_work_tll.Spec.{parse_result}
use integrated_work_tll.Spec.Plain.{HasPlain}
use integrated_work_tll.Spec.Equivalence.{Agree, parse_result-Agree}

-- A specification with one operation, which takes a body.
abbrev body : Json
body =
    obj (
      field "content" (obj (field "application/json" (obj (field "schema" (obj end) end)) end)) end)

abbrev operation : Json
operation = obj (field "requestBody" body (field "responses" (obj end) end))

abbrev spec : Fields
spec =
    field "openapi" (str "3.0.0")
      (field "paths" (obj (field "/users" (obj (field "post" operation end)) end)) end)

spec-HasPlain : HasPlain spec
unfolding HasPlain
spec-HasPlain = (
  refl,
  tt,
  (
    refl,
    (refl, (refl, (refl, (refl, (refl, (refl, tt, tt), tt), tt), (refl, tt, tt)), tt), tt),
    tt,
  ),
)

parse_result-Agree_example :
    Agree
      (parse_result (Old.new_parser (obj spec)))
      (OldResult.parse_result (Old.new_parser (obj spec)))
parse_result-Agree_example = parse_result-Agree spec spec-HasPlain
