-- ===== src/Spec/Plain.antt =====
-- Specifications without references.
pub mod Bodies
pub mod Parameters
use mathlib.Core.List.{append-nil}
use integrated_work_tll.Redis.Memory.{some_eq}
use mathlib.Core.Path.{subst}
use integrated_work_tll.Prelude.{
  String, ◌==◌, ◌≡◌, refl, sym, ap, ◌∙◌, false, List, [], Option, none, some, ◌>>=◌, Option-cases,
  Bool-cases, inl, inr, if_both, contains, arith,
}
use integrated_work_tll.Json.{
  Json, null, bool, num, str, arr, obj, Items, nil, cons, Fields, end, field, lookup_field, truthy,
}
use integrated_work_tll.Discovery.{Parser}
use integrated_work_tll.Discovery.Body as OldBody
use integrated_work_tll.Discovery.Body.{
  lists_json, get_or, schema_of, is_body, with_default, set_default, check_auth,
}
use integrated_work_tll.Spec.{add_errors}
use integrated_work_tll.Spec.Body.{
  follow, resolve_ref, Found, read_body, request_body, body_parameter, body_parameters,
  resolve_schema, extract_body_schema, process_items, process_parameters,
}

-- No field of a value, at any depth, is named `$ref`.
unfoldable mutual
  pub IsPlain : Json → Type 0
  IsPlain null = Unit
  IsPlain (bool b) = Unit
  IsPlain (num n) = Unit
  IsPlain (str s) = Unit
  IsPlain (arr xs) = ArePlain xs
  IsPlain (obj fs) = HasPlain fs

  pub ArePlain : Items → Type 0
  ArePlain nil = Unit
  ArePlain (cons x xs) = IsPlain x × ArePlain xs

  pub HasPlain : Fields → Type 0
  HasPlain end = Unit
  HasPlain (field k v fs) = ((k == "$ref") ≡ false) × IsPlain v × HasPlain fs

pub lookup-IsPlain :
    (fs : Fields) (k : String) (v : Json) → HasPlain fs → lookup_field fs k ≡ some v → IsPlain v
unfolding lookup_field HasPlain
lookup-IsPlain end k v h e = ground arith
lookup-IsPlain (field j w fs) k v h e = elim (Bool-cases (j == k)) [
  | inl here ↦ subst IsPlain (some_eq (sym (rw here refl) ∙ e)) h.1
  | inr away ↦ lookup-IsPlain fs k v h.2 (rw away at e)
]

pub no_ref : (fs : Fields) → HasPlain fs → lookup_field fs "$ref" ≡ none
unfolding lookup_field HasPlain
no_ref end h = refl
no_ref (field k v fs) h = rw h.0 (no_ref fs h.2)

pub resolve_ref_plain : (spec : Fields) (v : Json) → IsPlain v → resolve_ref spec v ≡ some (v, [])
unfolding resolve_ref follow IsPlain
resolve_ref_plain spec null h = refl
resolve_ref_plain spec (bool b) h = refl
resolve_ref_plain spec (num n) h = refl
resolve_ref_plain spec (str s) h = refl
resolve_ref_plain spec (arr xs) h = refl
resolve_ref_plain spec (obj fs) h = rw (no_ref fs h) refl

pub get_or-IsPlain :
    (d : Json) (fs : Fields) (k : String)
    → IsPlain d
    → HasPlain fs
    → IsPlain (get_or d (lookup_field fs k))
get_or-IsPlain d fs k hd h = elim (Option-cases (lookup_field fs k)) [
  | inl e ↦ rw e hd
  | inr (v, e) ↦ rw e (lookup-IsPlain fs k v h e)
]

-- A result, if there is one, has a plain schema.
abbrev pub OfPlain : Option Json → Type 0
OfPlain none = Unit
OfPlain (some v) = IsPlain v

abbrev pub StartsPlain : Option (Json × Json) → Type 0
StartsPlain none = Unit
StartsPlain (some r) = IsPlain r.0

pub media-OfPlain :
    (content : Fields) (o : Option Json)
    → OfPlain o
    → lookup_field content "application/json" ≡ o
    → OfPlain (schema_of (obj content))
unfolding schema_of IsPlain
media-OfPlain content none h e = rw (schema_of, e) tt
media-OfPlain content (some (obj media)) h e =
    rw (schema_of, e) (get_or-IsPlain null media "schema" tt h)
media-OfPlain content (some null) h e = rw (schema_of, e) tt
media-OfPlain content (some (bool b)) h e = rw (schema_of, e) tt
media-OfPlain content (some (num n)) h e = rw (schema_of, e) tt
media-OfPlain content (some (str s)) h e = rw (schema_of, e) tt
media-OfPlain content (some (arr xs)) h e = rw (schema_of, e) tt

pub lookup-OfPlain : (fs : Fields) (k : String) → HasPlain fs → OfPlain (lookup_field fs k)
lookup-OfPlain fs k h = elim (Option-cases (lookup_field fs k)) [
  | inl e ↦ rw e tt
  | inr (v, e) ↦ rw e (lookup-IsPlain fs k v h e)
]

pub schema_of-OfPlain : (v : Json) → IsPlain v → OfPlain (schema_of v)
unfolding schema_of IsPlain
schema_of-OfPlain (obj content) h =
    media-OfPlain content (lookup_field content "application/json")
      (lookup-OfPlain content "application/json" h) refl
schema_of-OfPlain (str s) h = if_both OfPlain (contains s "application/json") none (some null) tt tt
schema_of-OfPlain (arr xs) h = if_both OfPlain (lists_json xs) none (some null) tt tt
schema_of-OfPlain null h = tt
schema_of-OfPlain (bool b) h = tt
schema_of-OfPlain (num n) h = tt
