-- ===== src/Spec/Plain/Bodies.antt =====
-- The bodies that the two parsers read in specifications without references.
use integrated_work_tll.Prelude.{
  String, ◌==◌, ◌≡◌, refl, ap, false, List, [], Option, none, some, ◌>>=◌, Option-cases, Bool-cases,
  inl, inr, if_both,
}
use integrated_work_tll.Json.{
  Json, null, bool, num, str, arr, obj, Items, nil, cons, Fields, end, field, lookup_field, truthy,
}
use integrated_work_tll.Discovery.Body as OldBody
use integrated_work_tll.Discovery.Body.{
  lists_json, get_or, schema_of, is_body, with_default, set_default, check_auth,
}
use integrated_work_tll.Spec.Body.{
  follow, resolve_ref, Found, read_body, request_body, body_parameter, body_parameters,
  resolve_schema, extract_body_schema,
}
use integrated_work_tll.Spec.Plain.{
  IsPlain, ArePlain, HasPlain, no_ref, resolve_ref_plain, get_or-IsPlain, OfPlain, StartsPlain,
  lookup-OfPlain, schema_of-OfPlain,
}

-- A result without errors.
abbrev pub lift {ℓ} : {A : Type ℓ} → Option A → Option (A × List String)
lift none = none
lift (some x) = some (x, [])

-- The old request body, at what the details hold.
request_body-eq :
    (spec details : Fields) (o : Option Json)
    → OfPlain o
    → lookup_field details "requestBody" ≡ o
    → (request_body spec details ≡ lift (OldBody.request_body details))
      × StartsPlain (OldBody.request_body details)
unfolding request_body OldBody.request_body read_body resolve_ref follow IsPlain
request_body-eq spec details none h e =
    (rw (request_body, OldBody.request_body, e) refl, rw (OldBody.request_body, e) tt)
request_body-eq spec details (some null) h e =
    (rw (request_body, OldBody.request_body, e) refl, rw (OldBody.request_body, e) tt)
request_body-eq spec details (some (bool b)) h e =
    (rw (request_body, OldBody.request_body, e) refl, rw (OldBody.request_body, e) tt)
request_body-eq spec details (some (num n)) h e =
    (rw (request_body, OldBody.request_body, e) refl, rw (OldBody.request_body, e) tt)
request_body-eq spec details (some (str s)) h e =
    (rw (request_body, OldBody.request_body, e) refl, rw (OldBody.request_body, e) tt)
request_body-eq spec details (some (arr xs)) h e =
    (rw (request_body, OldBody.request_body, e) refl, rw (OldBody.request_body, e) tt)
request_body-eq spec details (some (obj rb)) h e =
    let content = get_or (obj end) (lookup_field rb "content") in
    let plain = schema_of-OfPlain content (get_or-IsPlain (obj end) rb "content" tt h) in
    elim (Option-cases (schema_of content)) [
      | inl f ↦ (
        rw (request_body, OldBody.request_body, e, no_ref rb h, f) refl,
        rw (OldBody.request_body, e, f) tt,
      )
      | inr (schema, f) ↦ (
        rw (request_body, OldBody.request_body, e, no_ref rb h, f) refl,
        rw (OldBody.request_body, e, f) (rw f at plain),
      )
    ]

body_parameter-eq :
    (spec : Fields) (xs : Items) (r : Json × Json)
    → ArePlain xs
    → body_parameter spec xs (r, []) ≡ lift (OldBody.body_parameter xs r)
unfolding body_parameter OldBody.body_parameter resolve_ref follow IsPlain
body_parameter-eq spec nil r h = refl
body_parameter-eq spec (cons (obj p) xs) r h = elim (Bool-cases (is_body (lookup_field p "in"))) [
  | inl e ↦ rw (no_ref p h.0, e) refl
  | inr e ↦ rw (no_ref p h.0, e) (body_parameter-eq spec xs r h.1)
]
body_parameter-eq spec (cons null xs) r h = refl
body_parameter-eq spec (cons (bool b) xs) r h = refl
body_parameter-eq spec (cons (num n) xs) r h = refl
body_parameter-eq spec (cons (str s) xs) r h = refl
body_parameter-eq spec (cons (arr ys) xs) r h = refl

body_parameter-StartsPlain :
    (xs : Items) (r : Json × Json)
    → ArePlain xs
    → IsPlain r.0
    → StartsPlain (OldBody.body_parameter xs r)
unfolding OldBody.body_parameter IsPlain
body_parameter-StartsPlain nil r h k = k
body_parameter-StartsPlain (cons (obj p) xs) r h k =
    if_both StartsPlain (is_body (lookup_field p "in"))
      (some
        (get_or null (lookup_field p "schema"), get_or (bool false) (lookup_field p "required")))
      (OldBody.body_parameter xs r) (get_or-IsPlain null p "schema" tt h.0)
      (body_parameter-StartsPlain xs r h.1 k)
body_parameter-StartsPlain (cons null xs) r h k = tt
body_parameter-StartsPlain (cons (bool b) xs) r h k = tt
body_parameter-StartsPlain (cons (num n) xs) r h k = tt
body_parameter-StartsPlain (cons (str s) xs) r h k = tt
body_parameter-StartsPlain (cons (arr ys) xs) r h k = tt

body_parameters-eq :
    (spec : Fields) (v : Json) (r : Json × Json)
    → IsPlain v
    → body_parameters spec v (r, []) ≡ lift (OldBody.body_parameters v r)
unfolding body_parameters OldBody.body_parameters IsPlain
body_parameters-eq spec (arr xs) r h = body_parameter-eq spec xs r h
body_parameters-eq spec (obj end) r h = refl
body_parameters-eq spec (obj (field k v fs)) r h = refl
body_parameters-eq spec (str s) r h = elim (Bool-cases (s == "")) [
  | inl e ↦ rw e refl
  | inr e ↦ rw e refl
]
body_parameters-eq spec null r h = refl
body_parameters-eq spec (bool b) r h = refl
body_parameters-eq spec (num n) r h = refl

body_parameters-StartsPlain :
    (v : Json) (r : Json × Json)
    → IsPlain v
    → IsPlain r.0
    → StartsPlain (OldBody.body_parameters v r)
unfolding OldBody.body_parameters IsPlain
body_parameters-StartsPlain (arr xs) r h k = body_parameter-StartsPlain xs r h k
body_parameters-StartsPlain (obj end) r h k = k
body_parameters-StartsPlain (obj (field j v fs)) r h k = tt
body_parameters-StartsPlain (str s) r h k = if_both StartsPlain (s == "") (some r) none k tt
body_parameters-StartsPlain null r h k = tt
body_parameters-StartsPlain (bool b) r h k = tt
body_parameters-StartsPlain (num n) r h k = tt

resolve_schema-eq :
    (spec : Fields) (r : Json × Json) → IsPlain r.0 → resolve_schema spec (r, []) ≡ some (r, [])
resolve_schema-eq spec (schema, required) h = elim (Bool-cases (truthy schema)) [
  | inl e ↦ rw (e, resolve_ref_plain spec schema h) refl
  | inr e ↦ rw e refl
]

abbrev finish : String → Found → Option Found
finish method z = some (with_default method z.0, z.1)

-- The end of the extraction, of a schema that is found.
finish-eq :
    (spec : Fields) (method : String) (r : Json × Json)
    → IsPlain r.0
    → (resolve_schema spec (r, []) >>= finish method) ≡ some (with_default method r, [])
finish-eq spec method r h =
    ap (λ (o : Option Found). o >>= finish method) (resolve_schema-eq spec r h)

pub extract_body_schema-eq :
    (spec : Fields) (method : String) (details : Fields)
    → HasPlain details
    → extract_body_schema spec method details ≡ lift (OldBody.extract_body_schema method details)
unfolding extract_body_schema OldBody.extract_body_schema IsPlain
extract_body_schema-eq spec method details h =
    let (same, plain) =
      request_body-eq spec details (lookup_field details "requestBody")
        (lookup-OfPlain details "requestBody" h) refl in
    let params = get_or (arr nil) (lookup_field details "parameters") in
    let plain_params = get_or-IsPlain (arr nil) details "parameters" tt h in
    elim (Option-cases (OldBody.request_body details)) [
      | inl e ↦ rw (extract_body_schema, OldBody.extract_body_schema, same, e) refl
      | inr ((schema, required), e) ↦
          let found : IsPlain schema = rw e at plain in
          elim (Bool-cases (truthy schema)) [
            | inl t ↦
                rw (extract_body_schema, OldBody.extract_body_schema, same, e, t)
                  (finish-eq spec method (schema, required) found)
            | inr t ↦
                let more = body_parameters-eq spec params (schema, required) plain_params in
                let kept =
                  body_parameters-StartsPlain params (schema, required) plain_params found in
                elim (Option-cases (OldBody.body_parameters params (schema, required))) [
                  | inl f ↦
                      rw (extract_body_schema, OldBody.extract_body_schema, same, e, t, more, f)
                        refl
                  | inr (q, f) ↦
                      rw (extract_body_schema, OldBody.extract_body_schema, same, e, t, more, f)
                        (finish-eq spec method q (rw f at kept))
                ]
          ]
    ]
