-- ===== src/Tests/Discovery.antt =====
-- Runs of the endpoint discovery.
use integrated_work_tll.Prelude.{
  ℕ, ◌+◌, ◌*◌, ◌^◌, ◌++◌, get, ◌≤◌, String, ◌==◌, ◌≡◌, refl, Bool, true, false, not, List, [], ◌∷◌,
  Option, none, some, length, min, ltb, arith, if◌then◌else◌,
}
use integrated_work_tll.Json.{Json, null, obj, Fields, end, field, lookup_field}
use integrated_work_tll.Discovery.{Parser, new_parser, normalize_path, parse_section, parse}
use integrated_work_tll.Discovery.Body.{extract_body_schema}
use integrated_work_tll.Discovery.Total.{ReadablePaths, ReadableSection, parse-Returns}
use integrated_work_tll.Discovery.Distinct.{IsParsed, entries, parse-IsParsed}

-- A specification with one path that is given twice.
abbrev details : Json
details = obj (field "responses" (obj end) end)

abbrev paths : Fields
paths =
    field "/users" (obj (field "get" details (field "fetch" details end)))
      (field "//users/" (obj (field "GET" details end)) end)

abbrev parsed : Parser
parsed = elim (parse (new_parser (obj (field "paths" (obj paths) end)))) [
  | none ↦ new_parser null
  | some s ↦ s
]

is_parsed : parse (new_parser (obj (field "paths" (obj paths) end))) ≡ some parsed
unfolding parse parse_section lookup_field integrated_work_tll.Prelude.upper extract_body_schema
    normalize_path
is_parsed = refl

here : lookup_field (field "paths" (obj paths) end) "paths" ≡ some (obj paths)
unfolding lookup_field
here = refl

parse-IsParsed_example :
    IsParsed parsed × (entries paths ≤ length parsed.endpoints + length parsed.errors_encountered)
parse-IsParsed_example = parse-IsParsed "paths" (obj paths) end paths parsed here is_parsed

readable : ReadablePaths paths
unfolding extract_body_schema integrated_work_tll.Prelude.upper lookup_field
readable = (((_, refl), ((_, refl), tt)), (((_, refl), tt), tt))

readable_section : ReadableSection (lookup_field (field "paths" (obj paths) end) "paths")
unfolding lookup_field
readable_section = readable

parse-Returns_example :
    (t : Parser) × (parse (new_parser (obj (field "paths" (obj paths) end))) ≡ some t)
parse-Returns_example = parse-Returns (field "paths" (obj paths) end) readable_section
