-- ===== src/Spec/Equivalence.antt =====
-- The two parsers of specifications, the one of the executor and endpoint_discovery.py.
use mathlib.Core.Path.{subst}
use integrated_work_tll.Prelude.{
  String, ◌&◌, ◌≡◌, refl, ap, sym, ◌∙◌, List, [], ◌∷◌, map, Option, none, some, upper, elem,
  Option-cases, Bool-cases, inl, inr,
}
use integrated_work_tll.Json.{
  Json, null, bool, num, str, arr, obj, Fields, end, field, lookup_field,
}
use integrated_work_tll.Discovery.{
  DiscoveredEndpoint, Parser, new_parser, valid_methods, add_error, is_seen, has_field,
  normalize_path, with_endpoint,
}
use integrated_work_tll.Discovery as Old
use integrated_work_tll.Discovery.Result as OldResult
use integrated_work_tll.Discovery.Body as OldBody
use integrated_work_tll.Spec.{
  add_errors, add_endpoint, parse_details, parse_value, parse_method, parse_methods, parse_path,
  parse_paths, parse_section, parse, EndpointDict, to_dict, ParseResult, build_result, parse_result,
}
use integrated_work_tll.Spec.Plain.{IsPlain, HasPlain, OfPlain, lookup-OfPlain}
use integrated_work_tll.Spec.Plain.Bodies.{extract_body_schema-eq}
use integrated_work_tll.Spec.Plain.Parameters.{process_parameters-eq, add_no_errors}

add_endpoint-eq :
    (method path : String) (details : Fields) (s : Parser)
    → HasPlain details
    → add_endpoint method path details s ≡ Old.add_endpoint method path details s
unfolding add_endpoint Old.add_endpoint
add_endpoint-eq method path details s h =
    let body = extract_body_schema-eq s.spec method details h in
    let params = process_parameters-eq s.spec details h in
    elim (Option-cases (OldBody.extract_body_schema method details)) [
      | inl e ↦ rw (add_endpoint, Old.add_endpoint, body, e) refl
      | inr (r, e) ↦
          let made : DiscoveredEndpoint = record {
            method = method;
            path = path;
            request_body_required = r.1;
            has_auth = OldBody.check_auth s.spec details;
            parameters = OldBody.process_parameters details;
            request_body_schema = r.0;
          } in
          rw (add_endpoint, Old.add_endpoint, body, e, params)
            (ap (λ (x : Parser). some (with_endpoint made x))
              (add_no_errors (add_errors [] s) ∙ add_no_errors s))
    ]

parse_details-eq :
    (path method : String) (details : Fields) (s : Parser)
    → HasPlain details
    → parse_details path method details s ≡ Old.parse_details path method details s
unfolding parse_details Old.parse_details
parse_details-eq path method details s h =
    let normalized = normalize_path path in
    elim (Bool-cases (is_seen method normalized s.seen_endpoints)) [
      | inl e ↦ rw (parse_details, Old.parse_details, e) refl
      | inr e ↦ elim (Bool-cases (has_field details "responses")) [
        | inl f ↦
            rw (parse_details, Old.parse_details, e, f)
              (add_endpoint-eq method normalized details s h)
        | inr f ↦
            rw (parse_details, Old.parse_details, e, f)
              (add_endpoint-eq method normalized details
                (add_error ("Missing 'responses' field for " & method & " " & path & ".") s) h)
      ]
    ]

parse_value-eq :
    (path method : String) (v : Json) (s : Parser)
    → IsPlain v
    → parse_value path method v s ≡ Old.parse_value path method v s
unfolding parse_value Old.parse_value IsPlain
parse_value-eq path method (obj details) s h = parse_details-eq path method details s h
parse_value-eq path method null s h = refl
parse_value-eq path method (bool b) s h = refl
parse_value-eq path method (num n) s h = refl
parse_value-eq path method (str t) s h = refl
parse_value-eq path method (arr xs) s h = refl

parse_method-eq :
    (path name : String) (v : Json) (s : Parser)
    → IsPlain v
    → parse_method path name v s ≡ Old.parse_method path name v s
unfolding parse_method Old.parse_method
parse_method-eq path name v s h = elim (Bool-cases (elem (upper name) valid_methods)) [
  | inl e ↦ rw (parse_method, Old.parse_method, e) (parse_value-eq path (upper name) v s h)
  | inr e ↦ rw (parse_method, Old.parse_method, e) refl
]

parse_methods-eq :
    (path : String) (methods : Fields) (s : Parser)
    → HasPlain methods
    → parse_methods path methods s ≡ Old.parse_methods path methods s
unfolding parse_methods Old.parse_methods HasPlain
parse_methods-eq path end s h = refl
parse_methods-eq path (field name v methods) s h =
    elim (Option-cases (Old.parse_method path name v s)) [
      | inl e ↦ rw (parse_methods, Old.parse_methods, parse_method-eq path name v s h.1, e) refl
      | inr (t, e) ↦
          rw (parse_methods, Old.parse_methods, parse_method-eq path name v s h.1, e)
            (parse_methods-eq path methods t h.2)
    ]

parse_path-eq :
    (path : String) (v : Json) (s : Parser)
    → IsPlain v
    → parse_path path v s ≡ Old.parse_path path v s
unfolding parse_path Old.parse_path IsPlain
parse_path-eq path (obj methods) s h = parse_methods-eq path methods s h
parse_path-eq path null s h = refl
parse_path-eq path (bool b) s h = refl
parse_path-eq path (num n) s h = refl
parse_path-eq path (str t) s h = refl
parse_path-eq path (arr xs) s h = refl

parse_paths-eq :
    (paths : Fields) (s : Parser) → HasPlain paths → parse_paths paths s ≡ Old.parse_paths paths s
unfolding parse_paths Old.parse_paths HasPlain
parse_paths-eq end s h = refl
parse_paths-eq (field path v paths) s h = elim (Option-cases (Old.parse_path path v s)) [
  | inl e ↦ rw (parse_paths, Old.parse_paths, parse_path-eq path v s h.1, e) refl
  | inr (t, e) ↦
      rw (parse_paths, Old.parse_paths, parse_path-eq path v s h.1, e) (parse_paths-eq paths t h.2)
]

parse_section-eq :
    (o : Option Json) (s : Parser) → OfPlain o → parse_section o s ≡ Old.parse_section o s
unfolding parse_section Old.parse_section IsPlain
parse_section-eq none s h = refl
parse_section-eq (some null) s h = refl
parse_section-eq (some (obj paths)) s h = parse_paths-eq paths s h
parse_section-eq (some (bool b)) s h = refl
parse_section-eq (some (num n)) s h = refl
parse_section-eq (some (str t)) s h = refl
parse_section-eq (some (arr xs)) s h = refl

parse-eq_parse :
    (spec : Fields) (s : Parser) → s.spec ≡ spec → HasPlain spec → parse s ≡ Old.parse s
unfolding parse Old.parse HasPlain
parse-eq_parse end s e h = rw (parse, Old.parse, e) refl
parse-eq_parse (field k v fs) s e h =
    rw (parse, Old.parse, e)
      (parse_section-eq (lookup_field s.spec "paths") s (
        subst (λ (x : Fields). OfPlain (lookup_field x "paths")) (sym e)
          (lookup-OfPlain (field k v fs) "paths" h)))

-- The dicts of one endpoint agree on the keys that both have.
pub record SameEndpoint (e : EndpointDict) (f : OldResult.EndpointDict) : Type 0 where
  pub method : e.method ≡ f.method
  pub path : e.path ≡ f.path
  pub request_body_required : e.request_body_required ≡ f.request_body_required
  pub has_auth : e.has_auth ≡ f.has_auth

abbrev pub SameEndpoints : List EndpointDict → List OldResult.EndpointDict → Type 0
SameEndpoints [] [] = Unit
SameEndpoints (e ∷ es) (f ∷ fs) = SameEndpoint e f × SameEndpoints es fs
SameEndpoints [] (f ∷ fs) = ⊥
SameEndpoints (e ∷ es) [] = ⊥

pub record SameResult (r : ParseResult) (t : OldResult.ParseResult) : Type 0 where
  pub endpoints : SameEndpoints r.endpoints t.endpoints
  pub errors_encountered : r.errors_encountered ≡ t.errors_encountered
  pub total_endpoints : r.total_endpoints ≡ t.total_endpoints

-- Both raise, or both return results that agree.
abbrev pub Agree : Option ParseResult → Option OldResult.ParseResult → Type 0
Agree none none = Unit
Agree (some r) (some t) = SameResult r t
Agree none (some t) = ⊥
Agree (some r) none = ⊥

to_dict-SameEndpoints :
    (es : List DiscoveredEndpoint) → SameEndpoints (map to_dict es) (map OldResult.to_dict es)
unfolding to_dict OldResult.to_dict
to_dict-SameEndpoints [] = tt
to_dict-SameEndpoints (e ∷ es) = (
  record { method = refl; path = refl; request_body_required = refl; has_auth = refl },
  to_dict-SameEndpoints es,
)

build_result-SameResult : (s : Parser) → SameResult (build_result s) (OldResult.build_result s)
unfolding build_result OldResult.build_result
build_result-SameResult s = record {
  endpoints = to_dict-SameEndpoints s.endpoints;
  errors_encountered = refl;
  total_endpoints = refl;
}

-- On a specification without references the parser of the executor and the one of
-- endpoint_discovery.py both raise, or return results with the same errors, the same number of
-- endpoints, and endpoints that agree one by one on the method, the path, the authentication and
-- whether a body is required.
pub parse_result-Agree :
    (spec : Fields)
    → HasPlain spec
    → Agree (parse_result (new_parser (obj spec))) (OldResult.parse_result (new_parser (obj spec)))
unfolding parse_result OldResult.parse_result
parse_result-Agree spec h =
    let s = new_parser (obj spec) in
    elim (Option-cases (Old.parse s)) [
      | inl e ↦ rw (parse_result, OldResult.parse_result, parse-eq_parse spec s refl h, e) tt
      | inr (t, e) ↦
          rw (parse_result, OldResult.parse_result, parse-eq_parse spec s refl h, e)
            (build_result-SameResult t)
    ]
