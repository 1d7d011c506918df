-- ===== src/Collector/Reflexive.antt =====
-- A response equals itself: its JSON objects and its headers have no key twice.
use text.Mathlib.TextPositions.{eq_refl}
use integrated_work_tll.Prelude.{
  String, ◌≡◌, refl, true, false, [], ◌∷◌, Option, none, some, Dict, get, keys, elem, IsDict,
  option_eq, option_eq_iff, eq_iff, arith, eq_ℤ_refl,
}
use integrated_work_tll.Json.{
  Json, null, bool, num, str, arr, obj, Items, nil, cons, Fields, end, field, json_eq, items_eq,
  fields_in, lookup_field,
}
use integrated_work_tll.Models.{ScanResponse}
use integrated_work_tll.Collector.Equality.{dict_in, dict_eq, response_eq}

-- What `json.loads` returns: an object has each key once.
abbrev mutual
  pub IsProper : Json → Type 0
  IsProper (arr xs) = ItemsProper xs
  IsProper (obj fs) = FieldsProper fs
  IsProper v = Unit

  pub ItemsProper : Items → Type 0
  ItemsProper nil = Unit
  ItemsProper (cons x xs) = IsProper x × ItemsProper xs

  pub FieldsProper : Fields → Type 0
  FieldsProper end = Unit
  FieldsProper (field k v fs) = (lookup_field fs k ≡ none) × IsProper v × FieldsProper fs

abbrev Agree : Fields → Fields → Type 0
Agree end gs = Unit
Agree (field k v fs) gs = (lookup_field gs k ≡ some v) × Agree fs gs

Agree-field :
    (fs gs : Fields) (j : String) (w : Json)
    → lookup_field fs j ≡ none
    → Agree fs gs
    → Agree fs (field j w gs)
unfolding lookup_field
Agree-field end gs j w n h = tt
Agree-field (field k v fs) gs j w n h =
    ground (arith, eq_iff k j, eq_iff j k, Agree-field fs gs j w)

Agree-self : (fs : Fields) → FieldsProper fs → Agree fs fs
unfolding lookup_field
Agree-self end h = tt
Agree-self (field k v fs) h = (rw (eq_refl k), Agree-field fs fs k v h.0 (Agree-self fs h.2))

mutual
  unfolding json_eq

  json_eq_refl : (v : Json) → IsProper v → json_eq v v ≡ true
  json_eq_refl null h = refl
  json_eq_refl (bool true) h = refl
  json_eq_refl (bool false) h = refl
  json_eq_refl (num n) h = eq_ℤ_refl n
  json_eq_refl (str s) h = eq_refl s
  json_eq_refl (arr xs) h = items_eq_refl xs h
  json_eq_refl (obj fs) h = ground (arith, fields_in_refl fs fs h (Agree-self fs h))

  items_eq_refl : (xs : Items) → ItemsProper xs → items_eq xs xs ≡ true
  items_eq_refl nil h = refl
  items_eq_refl (cons x xs) h = ground (arith, json_eq_refl x h.0, items_eq_refl xs h.1)

  fields_in_refl : (fs gs : Fields) → FieldsProper fs → Agree fs gs → fields_in fs gs ≡ true
  fields_in_refl end gs h a = refl
  fields_in_refl (field k v fs) gs h a =
      rw a.0 (ground (arith, json_eq_refl v h.1, fields_in_refl fs gs h.2 a.1))

abbrev DictAgree : Dict String → Dict String → Type 0
DictAgree [] e = Unit
DictAgree ((k, v) ∷ d) e = (get e k ≡ some v) × DictAgree d e

DictAgree-cons :
    (d e : Dict String) (j w : String)
    → elem j (keys d) ≡ false
    → DictAgree d e
    → DictAgree d ((j, w) ∷ e)
DictAgree-cons [] e j w n h = tt
DictAgree-cons ((k, v) ∷ d) e j w n h =
    ground (arith, eq_iff k j, eq_iff j k, DictAgree-cons d e j w)

DictAgree-self : (d : Dict String) → IsDict d → DictAgree d d
DictAgree-self [] h = tt
DictAgree-self ((k, v) ∷ d) h = (rw (eq_refl k), DictAgree-cons d d k v h.0 (DictAgree-self d h.1))

dict_in-of_DictAgree : (d e : Dict String) → DictAgree d e → dict_in d e ≡ true
dict_in-of_DictAgree [] e h = refl
dict_in-of_DictAgree ((k, v) ∷ d) e h =
    rw h.0 (ground (arith, eq_refl v, dict_in-of_DictAgree d e h.1))

dict_eq_refl : (d : Dict String) → IsDict d → dict_eq d d ≡ true
dict_eq_refl d h = ground (arith, dict_in-of_DictAgree d d (DictAgree-self d h))

-- The dicts of a response are dicts.
pub record IsResponse (r : ScanResponse) : Type 0 where
  pub headers : IsDict r.headers
  pub request_headers : IsDict r.request_headers
  pub body : IsProper r.body_json

option_eq_refl : (o : Option String) → option_eq o o ≡ true
option_eq_refl none = refl
option_eq_refl (some s) = eq_refl s

pub response_eq_refl : (r : ScanResponse) → IsResponse r → response_eq r r ≡ true
unfolding response_eq
response_eq_refl r h = ground (
  arith,
  eq_refl r.endpoint,
  eq_refl r.method,
  eq_refl r.url,
  dict_eq_refl r.headers h.headers,
  option_eq_refl r.body,
  json_eq_refl r.body_json h.body,
  option_eq_refl r.user_id,
  option_eq_refl r.role,
  option_eq_refl r.tenant_id,
  option_eq_refl r.token,
  dict_eq_refl r.request_headers h.request_headers,
  option_eq_refl r.request_body,
)

-- Equal responses have equal roles.
pub role-of_response_eq : (r s : ScanResponse) → response_eq r s ≡ true → r.role ≡ s.role
unfolding response_eq
role-of_response_eq r s h = ground (arith, option_eq_iff r.role s.role)
