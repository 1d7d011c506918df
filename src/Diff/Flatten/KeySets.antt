-- ===== src/Diff/Flatten/KeySets.antt =====
-- What the field lists of `_field_diff` hold.
use integrated_work_tll.Prelude.{
  String, ◌==◌, ◌≡◌, ◌↔◌, sym, ap, ◌∙◌, true, false, Bool-cases, inl, inr, refl, not, ◌&&◌, List,
  [], ◌∷◌, Option, none, some, Dict, get, keys, get-put, get_missing, select, elem, elem-select,
  arith, eq_iff, if◌then◌else◌,
}
use mathlib.Core.Path.{ap₂}
use integrated_work_tll.Redis.Memory.{some_eq}
use integrated_work_tll.Json.{Json, null, json_eq}
use integrated_work_tll.Models.{Change}
use integrated_work_tll.Diff.Flatten.{
  flat, FieldDiff, change_at, record_change, changes, field_diff_flat, field_diff,
}

-- The three key lists of two bodies, and their changed values.
pub record IsFieldDiff (a b : Dict Json) (d : FieldDiff) : Type 0 where
  pub leaked : (k : String) → elem k d.leaked ≡ (elem k (keys b) && elem k (keys a))
  pub added : (k : String) → elem k d.added ≡ (not (elem k (keys a)) && elem k (keys b))
  pub removed : (k : String) → elem k d.removed ≡ (not (elem k (keys b)) && elem k (keys a))
  pub changed :
      (k : String) (c : Change)
      → (get d.value_changes k ≡ some c)
        ↔ ((get a k ≡ some c.a) × (get b k ≡ some c.b) × (json_eq c.a c.b ≡ false))

abbrev first_of_two : Option Change → Option Change → Option Change
first_of_two none o = o
first_of_two (some c) o = some c

get-record_change :
    (j k : String) (c : Option Change) (d : Dict Change)
    → get (record_change j c d) k ≡ (if j == k then first_of_two c (get d k) else get d k)
get-record_change j k none d = ground arith
get-record_change j k (some c) d = ground (arith, get-put d j k c)

get-changes :
    (a b : Dict Json) (ks : List String) (acc : Dict Change) (k : String)
    → get (changes a b ks acc) k
      ≡ first_of_two (if elem k ks then change_at (get a k) (get b k) else none) (get acc k)
unfolding changes
get-changes a b [] acc k = refl
get-changes a b (j ∷ ks) acc k = ground (
  arith,
  eq_iff j k,
  get-changes a b ks (record_change j (change_at (get a j) (get b j)) acc) k,
  get-record_change j k (change_at (get a j) (get b j)) acc,
)

change_at-none : (o : Option Json) → change_at o none ≡ none
change_at-none none = refl
change_at-none (some v) = refl

values_of :
    (v w : Json) (c : Change)
    → json_eq v w ≡ false
    → some (record { a = v; b = w }) ≡ some c
    → (v ≡ c.a) × (w ≡ c.b) × (json_eq c.a c.b ≡ false)
values_of v w c e h =
    let same : record { a = v; b = w } ≡ c = some_eq h in
    let left : v ≡ c.a = ap (λ (x : Change). x.a) same in
    let right : w ≡ c.b = ap (λ (x : Change). x.b) same in
    (left, right, sym (ap₂ json_eq left right) ∙ e)

change_at_iff :
    (o p : Option Json) (c : Change)
    → (change_at o p ≡ some c) ↔ ((o ≡ some c.a) × (p ≡ some c.b) × (json_eq c.a c.b ≡ false))
change_at_iff none p c = (λ e. ground (arith, e), λ h. ground (arith, h.0))
change_at_iff (some v) none c = (λ e. ground (arith, e), λ h. ground (arith, h.1))
change_at_iff (some v) (some w) c = elim (Bool-cases (json_eq v w)) [
  | inl e ↦
      let apart : (v ≡ c.a) → (w ≡ c.b) → (json_eq c.a c.b ≡ false) → ⊥ =
        λ l r n. let same : true ≡ false = sym e ∙ ap₂ json_eq l r ∙ n in ground (arith, same) in
      rw e (λ h. ground (arith, h), λ h. absurd (apart (some_eq h.0) (some_eq h.1) h.2))
  | inr e ↦ rw e (
    λ h. let (l, r, n) = values_of v w c e h in (ap some l, ap some r, n),
    λ h. ap some (ap₂ (λ (x y : Json). record { a = x; b = y }) (some_eq h.0) (some_eq h.1)),
  )
]

get-value_changes :
    (a b : Dict Json) (k : String)
    → get (field_diff_flat a b).value_changes k ≡ change_at (get a k) (get b k)
unfolding field_diff_flat
get-value_changes a b k =
    let common = select (λ j. elem j (keys b)) (keys a) in
    ground (
      arith,
      get-changes a b common [] k,
      elem-select (λ j. elem j (keys b)) k (keys a),
      get_missing a k,
      get_missing b k,
      change_at-none (get a k),
    )

field_diff_flat-IsFieldDiff : (a b : Dict Json) → IsFieldDiff a b (field_diff_flat a b)
unfolding field_diff_flat
field_diff_flat-IsFieldDiff a b = record {
  leaked = λ k. elem-select (λ j. elem j (keys b)) k (keys a);
  added = λ k. elem-select (λ j. not (elem j (keys a))) k (keys b);
  removed = λ k. elem-select (λ j. not (elem j (keys b))) k (keys a);
  changed = λ k c.
      let (there, back) = change_at_iff (get a k) (get b k) c in
      let same = get-value_changes a b k in (λ e. there (sym same ∙ e), λ h. same ∙ back h);
}

-- Of two JSON bodies, flattened, the leaked fields are those of both, the added ones only in the
-- second, the removed ones only in the first, and a field is recorded as changed from one value to
-- another exactly where the first body has the one, the second the other, and the two differ.
pub field_diff-IsFieldDiff :
    (body_a body_b : Json) → IsFieldDiff (flat body_a) (flat body_b) (field_diff body_a body_b)
unfolding field_diff
field_diff-IsFieldDiff null null = unfold flat in field_diff_flat-IsFieldDiff [] []
field_diff-IsFieldDiff a b = field_diff_flat-IsFieldDiff (flat a) (flat b)
