-- ===== src/Diff/Flatten/Leaves.antt =====
-- A flattened body is a dict: no key twice, and no value that is a list or a dict.
use integrated_work_tll.Prelude.{
  ℕ, suc, String, refl, [], ◌∷◌, Dict, put, update, IsDict, update-IsDict, arith,
}
use integrated_work_tll.Json.{
  Json, null, bool, num, str, arr, obj, Items, nil, cons, Fields, end, field,
}
use integrated_work_tll.Diff.Flatten.{
  flatten_json, flatten_fields, flatten_items, full_key, index_key,
}

abbrev pub IsLeaf : Json → Type 0
IsLeaf (arr xs) = ⊥
IsLeaf (obj fs) = ⊥
IsLeaf v = Unit

abbrev pub HasLeaves : Dict Json → Type 0
HasLeaves [] = Unit
HasLeaves ((k, v) ∷ d) = IsLeaf v × HasLeaves d

-- The result of `_flatten_json`.
pub record IsFlat (d : Dict Json) : Type 0 where
  pub distinct : IsDict d
  pub leaves : HasLeaves d

put-HasLeaves :
    (d : Dict Json) (k : String) (v : Json) → IsLeaf v → HasLeaves d → HasLeaves (put d k v)
put-HasLeaves [] k v p h = (p, tt)
put-HasLeaves ((j, w) ∷ d) k v p h = ground (arith, put-HasLeaves d k v p)

update-HasLeaves : (d e : Dict Json) → HasLeaves e → HasLeaves d → HasLeaves (update d e)
update-HasLeaves d [] p h = h
update-HasLeaves d ((k, v) ∷ e) p h = update-HasLeaves (put d k v) e p.1 (put-HasLeaves d k v p.0 h)

update-IsFlat : (d e : Dict Json) → IsFlat e → IsFlat d → IsFlat (update d e)
update-IsFlat d e p h = record {
  distinct = update-IsDict d e h.distinct;
  leaves = update-HasLeaves d e p.leaves h.leaves;
}

one-IsFlat : (k : String) (v : Json) → IsLeaf v → IsFlat ((k, v) ∷ [])
one-IsFlat k v p = record { distinct = (refl, tt); leaves = (p, tt) }

mutual
  unfolding flatten_json flatten_fields flatten_items

  json-IsFlat : (v : Json) (prefix : String) → IsFlat (flatten_json v prefix)
  json-IsFlat (obj fs) prefix = fields-IsFlat fs prefix [] (record { distinct = tt; leaves = tt })
  json-IsFlat (arr xs) prefix = items-IsFlat xs prefix 0 [] (record { distinct = tt; leaves = tt })
  json-IsFlat null prefix = one-IsFlat prefix null tt
  json-IsFlat (bool b) prefix = one-IsFlat prefix (bool b) tt
  json-IsFlat (num n) prefix = one-IsFlat prefix (num n) tt
  json-IsFlat (str s) prefix = one-IsFlat prefix (str s) tt

  fields-IsFlat :
      (fs : Fields) (prefix : String) (d : Dict Json)
      → IsFlat d
      → IsFlat (flatten_fields fs prefix d)
  fields-IsFlat end prefix d h = h
  fields-IsFlat (field k v fs) prefix d h =
      fields-IsFlat fs prefix (update d (flatten_json v (full_key prefix k)))
        (update-IsFlat d _ (json-IsFlat v (full_key prefix k)) h)

  items-IsFlat :
      (xs : Items) (prefix : String) (i : ℕ) (d : Dict Json)
      → IsFlat d
      → IsFlat (flatten_items xs prefix i d)
  items-IsFlat nil prefix i d h = h
  items-IsFlat (cons v xs) prefix i d h =
      items-IsFlat xs prefix (suc i) (update d (flatten_json v (index_key prefix i)))
        (update-IsFlat d _ (json-IsFlat v (index_key prefix i)) h)

-- Flattening any JSON value under any prefix gives a dict with distinct keys, whose values are
-- neither lists nor dicts.
pub flatten_json-IsFlat : (v : Json) (prefix : String) → IsFlat (flatten_json v prefix)
flatten_json-IsFlat v prefix = json-IsFlat v prefix
