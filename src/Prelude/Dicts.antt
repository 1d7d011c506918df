-- ===== src/Prelude/Dicts.antt =====
-- Python's `dict` with text keys: an association list in the order of insertion.
use Prim.Native.String.{String}
use text.Mathlib.Text.{◌==◌}
use text.Mathlib.TextEquality.{eq_iff}
use mathlib.Core.Path.{◌≡◌, refl}
use mathlib.Core.Bool.{false, ◌||◌}
use mathlib.Core.Option.{Option, none, some}
use mathlib.Core.List.{List, [], ◌∷◌}
use native.Mathlib.Omega.{arith}
use integrated_work_tll.Prelude.Tests.{if◌then◌else◌}
use integrated_work_tll.Prelude.Text.{elem}

abbrev pub Dict {ℓ} : Type ℓ → Type ℓ
Dict V = List (String × V)

module _ {ℓ} {V : Type ℓ} where
  -- `d.get(k)`.
  abbrev pub get : Dict V → String → Option V
  get [] k = none
  get ((j, v) ∷ d) k = if j == k then some v else get d k

  -- `d[k] = v`: a key that is there keeps its place.
  abbrev pub put : Dict V → String → V → Dict V
  put [] k v = (k, v) ∷ []
  put ((j, w) ∷ d) k v = if j == k then (j, v) ∷ d else (j, w) ∷ put d k v

  -- `d.update(e)`.
  abbrev pub update : Dict V → Dict V → Dict V
  update d [] = d
  update d ((k, v) ∷ e) = update (put d k v) e

  abbrev pub keys : Dict V → List String
  keys [] = []
  keys ((k, v) ∷ d) = k ∷ keys d

  -- No key stands twice.
  abbrev pub IsDict : Dict V → Type 0
  IsDict [] = Unit
  IsDict ((k, v) ∷ d) = (elem k (keys d) ≡ false) × IsDict d

  pub get-put :
      (d : Dict V) (k j : String) (v : V) → get (put d k v) j ≡ (if k == j then some v else get d j)
  get-put [] k j v = refl
  get-put ((i, w) ∷ d) k j v = ground (arith, eq_iff k j, eq_iff i k, eq_iff i j, get-put d k j v)

  pub elem-keys-put :
      (d : Dict V) (k j : String) (v : V) → elem j (keys (put d k v)) ≡ (k == j || elem j (keys d))
  elem-keys-put [] k j v = refl
  elem-keys-put ((i, w) ∷ d) k j v =
      ground (arith, eq_iff k j, eq_iff i k, eq_iff i j, elem-keys-put d k j v)

  pub put-IsDict : (d : Dict V) (k : String) (v : V) → IsDict d → IsDict (put d k v)
  put-IsDict [] k v h = (refl, tt)
  put-IsDict ((i, w) ∷ d) k v h =
      ground (arith, eq_iff i k, eq_iff k i, elem-keys-put d k i v, put-IsDict d k v)

  pub update-IsDict : (d e : Dict V) → IsDict d → IsDict (update d e)
  update-IsDict d [] h = h
  update-IsDict d ((k, v) ∷ e) h = update-IsDict (put d k v) e (put-IsDict d k v h)

  pub get_missing : (d : Dict V) (k : String) → elem k (keys d) ≡ false → get d k ≡ none
  get_missing [] k h = refl
  get_missing ((j, v) ∷ d) k h = ground (arith, get_missing d k)
