-- ===== src/Discovery/Total.antt =====
-- Specifications on which `parse` (endpoint_discovery.py) ends with a result.
use integrated_work_tll.Prelude.{
  String, ◌≡◌, inl, inr, refl, Option, none, some, Bool-cases, upper, elem,
}
use integrated_work_tll.Json.{
  Json, null, bool, num, str, arr, obj, Fields, end, field, lookup_field,
}
use integrated_work_tll.Discovery.Body.{extract_body_schema}
use integrated_work_tll.Discovery.{
  Parser, new_parser, valid_methods, has_field, is_seen, normalize_path, add_endpoint,
  parse_details, parse_value, parse_method, parse_methods, parse_path, parse_paths, parse_section,
  parse,
}

-- A value is there.
abbrev pub Returns : {A : Type 0} → Option A → Type 0
Returns {A} o = (a : A) × (o ≡ some a)

-- The body of an operation is read without an exception.
abbrev pub Readable : (method_name : String) → Json → Type 0
Readable method_name (obj details) = Returns (extract_body_schema (upper method_name) details)
Readable method_name _ = Unit

abbrev pub ReadableMethods : Fields → Type 0
ReadableMethods end = Unit
ReadableMethods (field m details methods) = Readable m details × ReadableMethods methods

abbrev pub ReadablePath : Json → Type 0
ReadablePath (obj methods) = ReadableMethods methods
ReadablePath _ = Unit

abbrev pub ReadablePaths : Fields → Type 0
ReadablePaths end = Unit
ReadablePaths (field path methods paths) = ReadablePath methods × ReadablePaths paths

add_endpoint-Returns :
    (method path : String) (details : Fields) (s : Parser)
    → Returns (extract_body_schema method details)
    → Returns (add_endpoint method path details s)
unfolding add_endpoint
add_endpoint-Returns method path details s ((schema, required), e) = rw (add_endpoint, e) (_, refl)

parse_details-Returns :
    (path method : String) (details : Fields) (s : Parser)
    → Returns (extract_body_schema method details)
    → Returns (parse_details path method details s)
unfolding parse_details
parse_details-Returns path method details s h =
    elim (Bool-cases (is_seen method (normalize_path path) s.seen_endpoints)) [
      | inl a ↦ rw (parse_details, a) (_, refl)
      | inr a ↦ elim (Bool-cases (has_field details "responses")) [
        | inl b ↦
            rw (parse_details, a, b) (add_endpoint-Returns method (normalize_path path) details s h)
        | inr b ↦
            rw (parse_details, a, b) (add_endpoint-Returns method (normalize_path path) details _ h)
      ]
    ]

parse_value-Returns :
    (path m : String) (details : Json) (s : Parser)
    → Readable m details
    → Returns (parse_value path (upper m) details s)
unfolding parse_value
parse_value-Returns path m (obj details) s h = parse_details-Returns path (upper m) details s h
parse_value-Returns path m null s h = (_, refl)
parse_value-Returns path m (bool b) s h = (_, refl)
parse_value-Returns path m (num n) s h = (_, refl)
parse_value-Returns path m (str x) s h = (_, refl)
parse_value-Returns path m (arr xs) s h = (_, refl)

parse_method-Returns :
    (path m : String) (details : Json) (s : Parser)
    → Readable m details
    → Returns (parse_method path m details s)
unfolding parse_method
parse_method-Returns path m details s h = elim (Bool-cases (elem (upper m) valid_methods)) [
  | inl a ↦ rw (parse_method, a) (parse_value-Returns path m details s h)
  | inr a ↦ rw (parse_method, a) (_, refl)
]

parse_methods-Returns :
    (path : String) (methods : Fields) (s : Parser)
    → ReadableMethods methods
    → Returns (parse_methods path methods s)
unfolding parse_methods
parse_methods-Returns path end s h = (s, refl)
parse_methods-Returns path (field m details methods) s h =
    let (t, e) = parse_method-Returns path m details s h.0 in
    rw (parse_methods, e) (parse_methods-Returns path methods t h.1)

parse_path-Returns :
    (path : String) (methods : Json) (s : Parser)
    → ReadablePath methods
    → Returns (parse_path path methods s)
unfolding parse_path
parse_path-Returns path (obj methods) s h = parse_methods-Returns path methods s h
parse_path-Returns path null s h = (_, refl)
parse_path-Returns path (bool b) s h = (_, refl)
parse_path-Returns path (num n) s h = (_, refl)
parse_path-Returns path (str x) s h = (_, refl)
parse_path-Returns path (arr xs) s h = (_, refl)

parse_paths-Returns :
    (paths : Fields) (s : Parser) → ReadablePaths paths → Returns (parse_paths paths s)
unfolding parse_paths
parse_paths-Returns end s h = (s, refl)
parse_paths-Returns (field path methods paths) s h =
    let (t, e) = parse_path-Returns path methods s h.0 in
    rw (parse_paths, e) (parse_paths-Returns paths t h.1)

-- The section `paths`, where it is a dict.
abbrev pub ReadableSection : Option Json → Type 0
ReadableSection (some (obj paths)) = ReadablePaths paths
ReadableSection _ = Unit

parse_section-Returns :
    (o : Option Json) (s : Parser) → ReadableSection o → Returns (parse_section o s)
unfolding parse_section
parse_section-Returns none s h = (_, refl)
parse_section-Returns (some (obj paths)) s h = parse_paths-Returns paths s h
parse_section-Returns (some null) s h = (_, refl)
parse_section-Returns (some (bool b)) s h = (_, refl)
parse_section-Returns (some (num n)) s h = (_, refl)
parse_section-Returns (some (str x)) s h = (_, refl)
parse_section-Returns (some (arr xs)) s h = (_, refl)

-- A parser ends with a result on every specification, of whatever shape, in which the body of each
-- operation that is a dict can be read.
pub parse-Returns :
    (spec : Fields)
    → ReadableSection (lookup_field spec "paths")
    → Returns (parse (new_parser (obj spec)))
unfolding parse
parse-Returns end h = (new_parser (obj end), refl)
parse-Returns (field k v fs) h =
    parse_section-Returns (lookup_field (field k v fs) "paths") (new_parser (obj (field k v fs))) h
