-- ===== src/Api/Compare.antt =====
-- executor/api/routes.py: `compare_responses`, the route `/diff`. An exception that nothing catches
-- is the error 500 of the server.
pub mod Explained
use integrated_work_tll.Prelude.{
  ℕ, suc, String, ◌==◌, Bool, true, false, not, ◌&&◌, List, [], ◌∷◌, ◌++◌, Option, none, some, pos,
  codes, length, elem, select, is_empty, eqb, ◌>>=◌, if◌then◌else◌,
}
use integrated_work_tll.Json.{
  Json, Items, Fields, null, bool, num, str, arr, obj, nil, cons, end, field, lookup_field,
  count_fields, json_eq,
}
use integrated_work_tll.Api.{Reply, reply, http_error}

pub record Comparison : Type 0 where
  pub status_differs : Bool
  pub status_a : Json
  pub status_b : Json
  pub body_length_differs : Bool
  pub body_length_a : ℕ
  pub body_length_b : ℕ
  pub json_diff_keys : List String
  pub leak_detected : Bool
  pub leak_type : Option String
  pub risk_score : ℕ
  pub explanation : String

-- `d.get(key, default)`, which raises on what is not a dict.
unfoldable pub get_key : Json → String → Json → Option Json
unfolding lookup_field
get_key (obj fields) key default =
    some (elim (lookup_field fields key) [ none ↦ default | some v ↦ v ])
get_key null key default = none
get_key (bool b) key default = none
get_key (num n) key default = none
get_key (str s) key default = none
get_key (arr xs) key default = none

unfoldable pub count_items : Items → ℕ
count_items nil = 0
count_items (cons x xs) = suc (count_items xs)

-- `len(v)`.
unfoldable pub len : Json → Option ℕ
unfolding count_items count_fields
len (str s) = some (length (codes s))
len (arr xs) = some (count_items xs)
len (obj fields) = some (count_fields fields)
len null = none
len (bool b) = none
len (num n) = none

abbrev pub field_names : Fields → List String
field_names end = []
field_names (field k v fields) = k ∷ field_names fields

-- `set(a).symmetric_difference(b)`.
abbrev pub symmetric_difference : List String → List String → List String
symmetric_difference a b = select (λ k. not (elem k b)) a ++ select (λ k. not (elem k a)) b

unfoldable pub diff_keys : Json → Json → List String
diff_keys (obj a) (obj b) = symmetric_difference (field_names a) (field_names b)
diff_keys _ _ = []

abbrev pub sensitive_fields : List String
sensitive_fields =
    "email" ∷ "phone" ∷ "ssn" ∷ "address" ∷ "balance" ∷ "credit_card" ∷ "password" ∷ []

abbrev pub or_null : Option Json → Json
or_null none = null
or_null (some v) = v

-- `f in json_b and json_b[f] == json_a.get(f)`.
unfoldable pub is_leaked : Fields → Fields → String → Bool
unfolding lookup_field json_eq
is_leaked a b f = elim (lookup_field b f) [
  | none ↦ false
  | some v ↦ json_eq v (or_null (lookup_field a f))
]

unfoldable pub leaked_fields : Json → Json → List String
unfolding is_leaked
leaked_fields (obj a) (obj b) = select (is_leaked a b) sensitive_fields
leaked_fields _ _ = []

-- Of the statuses and the bodies, the bodies parsed, and the lengths.
abbrev pub compared : (status_a status_b json_a json_b : Json) → (len_a len_b : ℕ) → Comparison
compared status_a status_b json_a json_b len_a len_b =
    let status_differs = not (json_eq status_a status_b) in
    let leak_detected =
      json_eq status_a (num (pos 200))
      && json_eq status_b (num (pos 200))
      && not (is_empty (leaked_fields json_a json_b)) in
    record {
      status_differs = status_differs;
      status_a = status_a;
      status_b = status_b;
      body_length_differs = not (eqb len_a len_b);
      body_length_a = len_a;
      body_length_b = len_b;
      json_diff_keys = diff_keys json_a json_b;
      leak_detected = leak_detected;
      leak_type =
          if leak_detected
          then some "BOLA/BFLA (Broken Object/Function Level Authorization)"
          else none;
      risk_score = if leak_detected then 90 else if status_differs then 40 else 10;
      explanation =
          if leak_detected
          then "Leaked sensitive keys detected when executing request with low-privileged token."
          else if status_differs
          then "Responses differ in status code indicating proper authorization control."
          else "Responses are identical.";
    }

module _ (loads : String → Option Json) where
  -- A text that is not JSON leaves `None`.
  abbrev pub parsed : Json → Json
  parsed (str s) = or_null (loads s)
  parsed null = null
  parsed (bool b) = bool b
  parsed (num n) = num n
  parsed (arr xs) = arr xs
  parsed (obj fields) = obj fields

  -- `none` where `get` or `len` raises.
  unfoldable pub comparison : (response_a response_b : Json) → Option Comparison
  unfolding get_key len diff_keys leaked_fields
  comparison response_a response_b = do
    status_a ← get_key response_a "status_code" (num (pos 200))
    status_b ← get_key response_b "status_code" (num (pos 200))
    body_a ← get_key response_a "body" (str "")
    body_b ← get_key response_b "body" (str "")
    len_a ← len body_a
    len_b ← len body_b
    some (compared status_a status_b (parsed body_a) (parsed body_b) len_a len_b)

  unfoldable pub compare_responses : (payload : Fields) → Reply Comparison
  unfolding comparison lookup_field
  compare_responses payload =
      let a = get_key (obj payload) "response_a" (obj end) in
      let b = get_key (obj payload) "response_b" (obj end) in
      elim (a >>= λ r. b >>= λ s. comparison r s) [
        | none ↦ http_error 500 "Internal Server Error"
        | some c ↦ reply c
      ]
