-- ===== src/Diff/Flatten.antt =====
-- diff_engine.py: `_flatten_json`, `_field_diff` and `_extract_ids`. A Python set is a list of
-- distinct members here, whose order stands for the unspecified order of the set.
pub mod Leaves
pub mod KeySets
use integrated_work_tll.Prelude.{
  ℕ, zero, suc, ◌+◌, String, ◌==◌, ◌&◌, Bool, true, false, not, ◌&&◌, ◌||◌, List, [], ◌∷◌, Option,
  none, some, Dict, get, put, update, keys, elem, select, codes, leb, eqb, mentions, lower, show_ℕ,
  if◌then◌else◌,
}
use integrated_work_tll.Json.{
  Json, null, bool, num, str, arr, obj, Items, nil, cons, Fields, end, field, truthy, show_leaf,
  json_eq,
}
use integrated_work_tll.Models.{Change}

abbrev pub full_key : String → String → String
full_key prefix k = if prefix == "" then k else prefix & "." & k

abbrev pub index_key : String → ℕ → String
index_key prefix i = prefix & "[" & show_ℕ i & "]"

-- The loops take the dict that was built so far.
unfoldable mutual
  pub flatten_json : Json → String → Dict Json
  flatten_json (obj fs) prefix = flatten_fields fs prefix []
  flatten_json (arr xs) prefix = flatten_items xs prefix 0 []
  flatten_json null prefix = (prefix, null) ∷ []
  flatten_json (bool b) prefix = (prefix, bool b) ∷ []
  flatten_json (num n) prefix = (prefix, num n) ∷ []
  flatten_json (str s) prefix = (prefix, str s) ∷ []

  pub flatten_fields : Fields → String → Dict Json → Dict Json
  flatten_fields end prefix result = result
  flatten_fields (field k v fs) prefix result =
      flatten_fields fs prefix (update result (flatten_json v (full_key prefix k)))

  pub flatten_items : Items → String → ℕ → Dict Json → Dict Json
  flatten_items nil prefix i result = result
  flatten_items (cons v xs) prefix i result =
      flatten_items xs prefix (suc i) (update result (flatten_json v (index_key prefix i)))

-- `_flatten_json(obj) if obj else {}`.
unfoldable pub flat : Json → Dict Json
flat v = if truthy v then flatten_json v "" else []

is_digit : ℕ → Bool
is_digit c = leb b'0' c && leb c b'9'

is_hex : ℕ → Bool
unfolding is_digit
is_hex c = is_digit c || leb b'a' c && leb c b'f' || leb b'A' c && leb c b'F'

-- `[0-9a-f]{n}` and then the rest of a pattern.
hex_run : ℕ → (List ℕ → Bool) → List ℕ → Bool
unfolding is_hex
hex_run zero rest cs = rest cs
hex_run (suc n) rest [] = false
hex_run (suc n) rest (c ∷ cs) = is_hex c && hex_run n rest cs

hyphen : (List ℕ → Bool) → List ℕ → Bool
hyphen rest [] = false
hyphen rest (c ∷ cs) = eqb c b'-' && rest cs

-- `uuid_pattern.match(s)`: at the start of the text, in either case.
unfoldable pub is_uuid : List ℕ → Bool
unfolding hex_run hyphen
is_uuid =
    hex_run 8 (
      hyphen
        (hex_run 4 (hyphen (hex_run 4 (hyphen (hex_run 4 (hyphen (hex_run 12 (λ _. true)))))))))

-- At most `n` digits and the end of the text; `$` also stands before a last line break.
digits_end : ℕ → List ℕ → Bool
unfolding is_digit
digits_end n [] = true
digits_end zero (c ∷ []) = eqb c 10
digits_end zero (c ∷ d ∷ cs) = false
digits_end (suc n) (c ∷ []) = is_digit c || eqb c 10
digits_end (suc n) (c ∷ d ∷ cs) = is_digit c && digits_end n (d ∷ cs)

-- `^\d{1,12}$`, over the ASCII digits.
unfoldable pub is_int_id : List ℕ → Bool
unfolding is_digit digits_end
is_int_id [] = false
is_int_id (c ∷ cs) = is_digit c && digits_end 11 cs

abbrev pub id_words : List String
id_words = "id" ∷ "user" ∷ "owner" ∷ "account" ∷ "tenant" ∷ []

-- The text that one entry adds to the set of ids, if any.
unfoldable pub id_of : String → Json → Option String
unfolding is_uuid is_int_id
id_of key null = none
id_of key val =
    let val_str = show_leaf val in
    if is_uuid (codes val_str)
    then some (lower val_str)
    else if is_int_id (codes val_str) && mentions id_words (lower key)
    then some val_str
    else none

-- `ids.add(x)`.
abbrev pub add : Option String → List String → List String
add none ids = ids
add (some x) ids = if elem x ids then ids else x ∷ ids

ids_from : Dict Json → List String
unfolding id_of
ids_from [] = []
ids_from ((key, val) ∷ d) = add (id_of key val) (ids_from d)

unfoldable pub extract_ids : Json → List String
unfolding flat ids_from
extract_ids v = ids_from (flat v)

pub record FieldDiff : Type 0 where
  pub leaked : List String
  pub added : List String
  pub removed : List String
  pub value_changes : Dict Change

-- `{"a": flat_a[k], "b": flat_b[k]}` where the two differ.
abbrev pub change_at : Option Json → Option Json → Option Change
change_at (some v) (some w) = if json_eq v w then none else some (record { a = v; b = w })
change_at _ _ = none

abbrev pub record_change : String → Option Change → Dict Change → Dict Change
record_change k none d = d
record_change k (some c) d = put d k c

changes : Dict Json → Dict Json → List String → Dict Change → Dict Change
changes flat_a flat_b [] acc = acc
changes flat_a flat_b (k ∷ ks) acc =
    changes flat_a flat_b ks (record_change k (change_at (get flat_a k) (get flat_b k)) acc)

-- The key sets of two flattened bodies: common, only in the second, only in the first.
unfoldable pub field_diff_flat : Dict Json → Dict Json → FieldDiff
unfolding changes
field_diff_flat flat_a flat_b =
    let common = select (λ k. elem k (keys flat_b)) (keys flat_a) in
    record {
      leaked = common;
      added = select (λ k. not (elem k (keys flat_a))) (keys flat_b);
      removed = select (λ k. not (elem k (keys flat_b))) (keys flat_a);
      value_changes = changes flat_a flat_b common [];
    }

unfoldable pub field_diff : Json → Json → FieldDiff
unfolding flat field_diff_flat
field_diff null null = record { leaked = []; added = []; removed = []; value_changes = [] }
field_diff body_a body_b = field_diff_flat (flat body_a) (flat body_b)
