-- ===== src/Json.antt =====
-- JSON bodies as Python values (`json.loads`): null is `None`, numbers are integers.
use integrated_work_tll.Prelude.{
  ℕ, suc, String, ◌==◌, Bool, true, false, not, ◌&&◌, Option, none, some, ℤ, pos, eq_ℤ, show_ℤ, eqb,
  if◌then◌else◌,
}

mutual
  pub data Json : Type 0 where
    null : Json
    bool : Bool → Json
    num : ℤ → Json
    str : String → Json
    arr : Items → Json
    obj : Fields → Json

  pub data Items : Type 0 where
    nil : Items
    cons : Json → Items → Items

  pub data Fields : Type 0 where
    end : Fields
    field : String → Json → Fields → Fields

-- `bool(v)`.
abbrev pub truthy : Json → Bool
truthy null = false
truthy (bool b) = b
truthy (num n) = not (eq_ℤ n (pos 0))
truthy (str s) = not (s == "")
truthy (arr nil) = false
truthy (arr (cons x xs)) = true
truthy (obj end) = false
truthy (obj (field k v fs)) = true

-- `str(v)`, of what is neither a list nor a dict.
abbrev pub show_leaf : Json → String
show_leaf null = "None"
show_leaf (bool b) = if b then "True" else "False"
show_leaf (num n) = show_ℤ n
show_leaf (str s) = s
show_leaf (arr xs) = ""
show_leaf (obj fs) = ""

-- `True == 1` and `False == 0`.
abbrev pub bool_num : Bool → ℤ
bool_num b = if b then pos 1 else pos 0

abbrev same_bool : Bool → Bool → Bool
same_bool b c = if b then c else not c

unfoldable pub lookup_field : Fields → String → Option Json
lookup_field end k = none
lookup_field (field j v fs) k = if j == k then some v else lookup_field fs k

unfoldable pub count_fields : Fields → ℕ
count_fields end = 0
count_fields (field k v fs) = suc (count_fields fs)

unfoldable mutual
  unfolding lookup_field count_fields

  -- `v == w`: lists by place, dicts by key, a Boolean as its number.
  pub json_eq : Json → Json → Bool
  json_eq null null = true
  json_eq (bool b) (bool c) = same_bool b c
  json_eq (bool b) (num n) = eq_ℤ (bool_num b) n
  json_eq (num n) (num m) = eq_ℤ n m
  json_eq (num n) (bool c) = eq_ℤ n (bool_num c)
  json_eq (str s) (str t) = s == t
  json_eq (arr xs) (arr ys) = items_eq xs ys
  json_eq (obj fs) (obj gs) = eqb (count_fields fs) (count_fields gs) && fields_in fs gs
  json_eq _ _ = false

  pub items_eq : Items → Items → Bool
  items_eq nil nil = true
  items_eq nil (cons y ys) = false
  items_eq (cons x xs) nil = false
  items_eq (cons x xs) (cons y ys) = json_eq x y && items_eq xs ys

  -- Every field of the first is a field of the second, at an equal value.
  pub fields_in : Fields → Fields → Bool
  fields_in end gs = true
  fields_in (field k v fs) gs =
      elim (lookup_field gs k) [ none ↦ false | some w ↦ json_eq v w ] && fields_in fs gs
