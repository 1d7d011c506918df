-- ===== src/Discovery/Distinct.antt =====
-- What `parse` finds (endpoint_discovery.py): no endpoint twice, and no entry passed over in silence.
use mathlib.Core.Path.{subst}
use mathlib.Core.Option.{some-injective}
use integrated_work_tll.Prelude.{
  ℕ, ◌+◌, ◌≤◌, String, ◌==◌, ◌&◌, ◌≡◌, inl, inr, refl, sym, ap, ◌∙◌, Bool, true, false, ◌&&◌, ◌||◌,
  List, [], ◌∷◌, ◌++◌, Option, none, some, length, length-append, elem, Bool-cases, Option-cases,
  arith, eq_iff, upper,
}
use integrated_work_tll.Json.{
  Json, null, bool, num, str, arr, obj, Fields, end, field, lookup_field, count_fields,
}
use integrated_work_tll.Discovery.Body.{extract_body_schema}
use integrated_work_tll.Discovery.{
  DiscoveredEndpoint, Parser, new_parser, valid_methods, add_error, has_field, is_seen,
  normalize_path, with_endpoint, add_endpoint, parse_details, parse_value, parse_method,
  parse_methods, parse_path, parse_paths, parse_section, parse,
}

-- Whether an endpoint of the method and the path is in the list.
abbrev pub among : String → String → List DiscoveredEndpoint → Bool
among method path [] = false
among method path (e ∷ es) = (e.method == method && e.path == path) || among method path es

abbrev pub IsDistinct : List DiscoveredEndpoint → Type 0
IsDistinct [] = Unit
IsDistinct (e ∷ es) = (among e.method e.path es ≡ false) × IsDistinct es

-- A parser whose endpoints are distinct, of valid methods, and those it has seen.
pub record IsParsed (s : Parser) : Type 0 where
  pub distinct : IsDistinct s.endpoints
  pub seen : (m p : String) → among m p s.endpoints ≡ is_seen m p s.seen_endpoints
  pub valid : (m p : String) → among m p s.endpoints ≡ true → elem m valid_methods ≡ true

-- Endpoints and messages together.
abbrev pub noted : Parser → ℕ
noted s = length s.endpoints + length s.errors_encountered

among-append :
    (m p : String) (es : List DiscoveredEndpoint) (e : DiscoveredEndpoint)
    → among m p (es ++ e ∷ []) ≡ (among m p es || (e.method == m && e.path == p))
among-append m p [] e = ground arith
among-append m p (x ∷ es) e = ground (arith, among-append m p es e)

append-IsDistinct :
    (es : List DiscoveredEndpoint) (e : DiscoveredEndpoint)
    → among e.method e.path es ≡ false
    → IsDistinct es
    → IsDistinct (es ++ e ∷ [])
append-IsDistinct [] e n h = (refl, tt)
append-IsDistinct (x ∷ es) e n h = (
  among-append x.method x.path es e
      ∙ ground (
        arith,
        h.0,
        eq_iff x.method e.method,
        eq_iff e.method x.method,
        eq_iff x.path e.path,
        eq_iff e.path x.path,
      ),
  append-IsDistinct es e (ground arith) h.1,
)

-- What a round makes of a parser in order.
record Step (k : ℕ) (s t : Parser) : Type 0 where
  parsed : IsParsed t
  noted : noted s + k ≤ noted t

error-Step : (e : String) (s : Parser) → IsParsed s → Step 1 s (add_error e s)
error-Step e s h = record {
  parsed = record { distinct = h.distinct; seen = h.seen; valid = h.valid };
  noted = omega (arith, length-append s.errors_encountered (e ∷ []));
}

with_endpoint-Step :
    (e : DiscoveredEndpoint) (s : Parser)
    → elem e.method valid_methods ≡ true
    → is_seen e.method e.path s.seen_endpoints ≡ false
    → IsParsed s
    → Step 1 s (with_endpoint e s)
with_endpoint-Step e s v fresh h = record {
  parsed = record {
    distinct = append-IsDistinct s.endpoints e (h.seen e.method e.path ∙ fresh) h.distinct;
    seen = λ m p. among-append m p s.endpoints e ∙ ground (arith, h.seen m p);
    valid = λ m p a. ground (arith, among-append m p s.endpoints e, h.valid m p, eq_iff e.method m);
  };
  noted = omega (arith, length-append s.endpoints (e ∷ []));
}

Step-cong : (k : ℕ) (s t u : Parser) → some t ≡ some u → Step k s t → Step k s u
Step-cong k s t u e h = subst (Step k s) (some-injective t u e) h

add_endpoint-Step :
    (method path : String) (details : Fields) (s t : Parser)
    → elem method valid_methods ≡ true
    → is_seen method path s.seen_endpoints ≡ false
    → IsParsed s
    → add_endpoint method path details s ≡ some t
    → Step 1 s t
unfolding add_endpoint
add_endpoint-Step method path details s t v fresh h e =
    elim (Option-cases (extract_body_schema method details)) [
      | inl n ↦ let f : none ≡ some t = rw (n, add_endpoint) at e in cc
      | inr ((schema, required), b) ↦
          Step-cong 1 s _ t (rw (b, add_endpoint) at e) (with_endpoint-Step _ s v fresh h)
    ]

Step-trans : (k l : ℕ) (s t u : Parser) → Step k s t → Step l t u → Step (k + l) s u
Step-trans k l s t u g h = record { parsed = h.parsed; noted = omega (arith, g.noted, h.noted) }

Step-weak : (k l : ℕ) (s t : Parser) → l ≤ k → Step k s t → Step l s t
Step-weak k l s t e h = record { parsed = h.parsed; noted = omega (arith, h.noted) }

parse_details-Step :
    (path method : String) (details : Fields) (s t : Parser)
    → elem method valid_methods ≡ true
    → IsParsed s
    → parse_details path method details s ≡ some t
    → Step 1 s t
unfolding parse_details
parse_details-Step path method details s t v h e =
    let normalized = normalize_path path in
    elim (Bool-cases (is_seen method normalized s.seen_endpoints)) [
      | inl a ↦ Step-cong 1 s _ t (rw (a, parse_details) at e) (error-Step _ s h)
      | inr a ↦ elim (Bool-cases (has_field details "responses")) [
        | inl b ↦
            add_endpoint-Step method normalized details s t v a h (rw (a, b, parse_details) at e)
        | inr b ↦
            let told = add_error ("Missing 'responses' field for " & method & " " & path & ".") s in
            let noted_once =
              error-Step ("Missing 'responses' field for " & method & " " & path & ".") s h in
            Step-weak 2 1 s t (omega arith) (
              Step-trans 1 1 s told t noted_once (
                add_endpoint-Step method normalized details told t v a noted_once.parsed
                  (rw (a, b, parse_details) at e)))
      ]
    ]

parse_value-Step :
    (path method : String) (details : Json) (s t : Parser)
    → elem method valid_methods ≡ true
    → IsParsed s
    → parse_value path method details s ≡ some t
    → Step 1 s t
unfolding parse_value
parse_value-Step path method (obj fs) s t v h e = parse_details-Step path method fs s t v h e
parse_value-Step path method null s t v h e = Step-cong 1 s _ t e (error-Step _ s h)
parse_value-Step path method (bool b) s t v h e = Step-cong 1 s _ t e (error-Step _ s h)
parse_value-Step path method (num n) s t v h e = Step-cong 1 s _ t e (error-Step _ s h)
parse_value-Step path method (str x) s t v h e = Step-cong 1 s _ t e (error-Step _ s h)
parse_value-Step path method (arr xs) s t v h e = Step-cong 1 s _ t e (error-Step _ s h)

parse_method-Step :
    (path method_name : String) (details : Json) (s t : Parser)
    → IsParsed s
    → parse_method path method_name details s ≡ some t
    → Step 1 s t
unfolding parse_method
parse_method-Step path method_name details s t h e =
    elim (Bool-cases (elem (upper method_name) valid_methods)) [
      | inr a ↦ Step-cong 1 s _ t (rw (a, parse_method) at e) (error-Step _ s h)
      | inl a ↦
          parse_value-Step path (upper method_name) details s t a h (rw (a, parse_method) at e)
    ]

parse_methods-Step :
    (path : String) (methods : Fields) (s t : Parser)
    → IsParsed s
    → parse_methods path methods s ≡ some t
    → Step (count_fields methods) s t
unfolding parse_methods count_fields
parse_methods-Step path end s t h e =
    Step-cong 0 s s t e (record { parsed = h; noted = omega arith })
parse_methods-Step path (field m details methods) s t h e =
    elim (Option-cases (parse_method path m details s)) [
      | inl n ↦ let f : none ≡ some t = rw (n, parse_methods) at e in cc
      | inr (u, b) ↦
          let first = parse_method-Step path m details s u h b in
          let rest =
            parse_methods-Step path methods u t first.parsed (rw (b, parse_methods) at e) in
          Step-weak _ _ s t (omega arith) (Step-trans 1 (count_fields methods) s u t first rest)
    ]

-- The entries of the section `paths`: the methods of each path, or one where they are no dict.
abbrev pub entries_at : Json → ℕ
entries_at (obj methods) = count_fields methods
entries_at _ = 1

abbrev pub entries : Fields → ℕ
entries end = 0
entries (field path methods paths) = entries_at methods + entries paths

parse_path-Step :
    (path : String) (methods : Json) (s t : Parser)
    → IsParsed s
    → parse_path path methods s ≡ some t
    → Step (entries_at methods) s t
unfolding parse_path
parse_path-Step path (obj methods) s t h e = parse_methods-Step path methods s t h e
parse_path-Step path null s t h e = Step-cong 1 s _ t e (error-Step _ s h)
parse_path-Step path (bool b) s t h e = Step-cong 1 s _ t e (error-Step _ s h)
parse_path-Step path (num n) s t h e = Step-cong 1 s _ t e (error-Step _ s h)
parse_path-Step path (str x) s t h e = Step-cong 1 s _ t e (error-Step _ s h)
parse_path-Step path (arr xs) s t h e = Step-cong 1 s _ t e (error-Step _ s h)

parse_paths-Step :
    (paths : Fields) (s t : Parser)
    → IsParsed s
    → parse_paths paths s ≡ some t
    → Step (entries paths) s t
unfolding parse_paths
parse_paths-Step end s t h e = Step-cong 0 s s t e (record { parsed = h; noted = omega arith })
parse_paths-Step (field path methods paths) s t h e =
    elim (Option-cases (parse_path path methods s)) [
      | inl n ↦ let f : none ≡ some t = rw (n, parse_paths) at e in cc
      | inr (u, b) ↦
          let first = parse_path-Step path methods s u h b in
          let rest = parse_paths-Step paths u t first.parsed (rw (b, parse_paths) at e) in
          Step-trans (entries_at methods) (entries paths) s u t first rest
    ]

fresh-IsParsed : (spec : Json) → IsParsed (new_parser spec)
fresh-IsParsed spec = record { distinct = tt; seen = λ m p. refl; valid = λ m p a. ground arith }

-- Where a parser ends on a specification with a section of paths, no two endpoints have the same
-- method and path, the methods are valid ones, and there are at least as many endpoints and messages
-- as entries of the section.
pub parse-IsParsed :
    (k : String) (v : Json) (fs paths : Fields) (t : Parser)
    → lookup_field (field k v fs) "paths" ≡ some (obj paths)
    → parse (new_parser (obj (field k v fs))) ≡ some t
    → IsParsed t × (entries paths ≤ length t.endpoints + length t.errors_encountered)
unfolding parse parse_section
parse-IsParsed k v fs paths t here e =
    let spec = new_parser (obj (field k v fs)) in
    let done =
      parse_paths-Step paths spec t (fresh-IsParsed (obj (field k v fs)))
        (ap (λ (o : Option Json). parse_section o spec) (sym here) ∙ e) in
    (done.parsed, omega (arith, done.noted))
