-- ===== src/Diff/Similarity/Bounds.antt =====
-- Bounds of the similarity, and that the fuel of `matching` is enough.
use integrated_work_tll.Prelude.{
  ℕ, zero, suc, ◌+◌, ◌≤◌, ◌<◌, ◌≡◌, Bool, List, [], ◌∷◌, map, reverse, Option, none, some, String,
  codes, strip, length, take, drop, length-take, length-drop, length-reverse, arith,
}
use integrated_work_tll.Diff.Similarity.{
  Match, common_prefix, next_row, better, best_in_row, scan_rows, extend, find_longest_match,
  matching, ratio, popular, body_similarity,
}

common_prefix-le :
    (xs ys : List ℕ) → (common_prefix xs ys ≤ length xs) × (common_prefix xs ys ≤ length ys)
unfolding common_prefix
common_prefix-le [] ys = omega arith
common_prefix-le (x ∷ xs) [] = omega arith
common_prefix-le (x ∷ xs) (y ∷ ys) = ground (arith, common_prefix-le xs ys)

-- The entry at place `j` is at most `j + 1`, and at most `n`.
abbrev Fits : ℕ → ℕ → List ℕ → Type 0
Fits n j [] = Unit
Fits n j (k ∷ row) = (k ≤ n) × (k ≤ suc j) × Fits n (suc j) row

next_row-Fits :
    (skip : ℕ → Bool) (n j c diagonal : ℕ) (ys row : List ℕ)
    → diagonal ≤ n
    → diagonal ≤ j
    → Fits n j row
    → Fits (suc n) j (next_row skip c diagonal ys row)
unfolding next_row
next_row-Fits skip n j c d [] row p q h = tt
next_row-Fits skip n j c d (y ∷ ys) [] p q h = tt
next_row-Fits skip n j c d (y ∷ ys) (k ∷ row) p q h =
    ground (arith, next_row-Fits skip n (suc j) c k ys row h.0 h.1 h.2)

length-next_row :
    (skip : ℕ → Bool) (c diagonal : ℕ) (ys row : List ℕ)
    → length (next_row skip c diagonal ys row) ≤ length ys
unfolding next_row
length-next_row skip c d [] row = omega arith
length-next_row skip c d (y ∷ ys) [] = omega arith
length-next_row skip c d (y ∷ ys) (k ∷ row) = omega (arith, length-next_row skip c k ys row)

-- A block that lies inside texts of the lengths `n` and `m`.
pub record Inside (n m : ℕ) (x : Match) : Type 0 where
  pub first : x.i + x.size ≤ n
  pub second : x.j + x.size ≤ m

best_in_row-Inside :
    (n m i j : ℕ) (row : List ℕ) (best : Match)
    → suc i ≤ n
    → j + length row ≤ m
    → Fits (suc i) j row
    → Inside n m best
    → Inside n m (best_in_row i j row best)
unfolding best_in_row
best_in_row-Inside n m i j [] best p q f h = h
best_in_row-Inside n m i j (k ∷ row) best p q f h =
    best_in_row-Inside n m i (suc j) row (better i j k best) p (omega arith) f.2
      (unfold better in ground arith)

scan_rows-Inside :
    (skip : ℕ → Bool) (n : ℕ) (ys : List ℕ) (i : ℕ) (row xs : List ℕ) (best : Match)
    → i + length xs ≤ n
    → Fits i 0 row
    → Inside n (length ys) best
    → Inside n (length ys) (scan_rows skip ys i row xs best)
unfolding scan_rows
scan_rows-Inside skip n ys i row [] best p f h = h
scan_rows-Inside skip n ys i row (x ∷ xs) best p f h =
    let next = next_row skip x 0 ys row in
    let fits : Fits (suc i) 0 next =
      next_row-Fits skip i 0 x 0 ys row (omega arith) (omega arith) f in
    scan_rows-Inside skip n ys (suc i) next xs (best_in_row i 0 next best) (omega arith) fits (
      best_in_row-Inside n (length ys) i 0 next best (omega arith)
        (omega (arith, length-next_row skip x 0 ys row)) fits h)

zeros-Fits : (j : ℕ) (ys : List ℕ) → Fits 0 j (map (λ _. 0) ys)
zeros-Fits j [] = tt
zeros-Fits j (y ∷ ys) = (omega arith, omega arith, zeros-Fits (suc j) ys)

extend-Inside :
    (xs ys : List ℕ) (m : Match)
    → Inside (length xs) (length ys) m
    → Inside (length xs) (length ys) (extend xs ys m)
unfolding extend
extend-Inside xs ys m h =
    let ls = reverse (take m.i xs) in
    let rs = reverse (take m.j ys) in
    let at = drop (m.i + m.size) xs in
    let bt = drop (m.j + m.size) ys in
    omega (
      arith,
      common_prefix-le ls rs,
      common_prefix-le at bt,
      length-reverse (take m.i xs),
      length-reverse (take m.j ys),
      length-take m.i xs,
      length-take m.j ys,
      length-drop (m.i + m.size) xs,
      length-drop (m.j + m.size) ys,
    )

find_longest_match-Inside :
    (skip : ℕ → Bool) (xs ys : List ℕ)
    → Inside (length xs) (length ys) (find_longest_match skip xs ys)
unfolding find_longest_match
find_longest_match-Inside skip xs ys =
    extend-Inside xs ys _
      (scan_rows-Inside skip (length xs) ys 0 _ xs _ (omega arith) (zeros-Fits 0 ys) (omega arith))

matching-le :
    (skip : ℕ → Bool) (f : ℕ) (xs ys : List ℕ)
    → (matching skip f xs ys ≤ length xs) × (matching skip f xs ys ≤ length ys)
unfolding matching
matching-le skip zero xs ys = omega arith
matching-le skip (suc f) xs ys =
    let m = find_longest_match skip xs ys in
    ground (
      arith,
      find_longest_match-Inside skip xs ys,
      matching-le skip f (take m.i xs) (take m.j ys),
      matching-le skip f (drop (m.i + m.size) xs) (drop (m.j + m.size) ys),
      length-take m.i xs,
      length-take m.j ys,
      length-drop (m.i + m.size) xs,
      length-drop (m.j + m.size) ys,
    )

-- Every number of rounds above the length of the first text gives the same sum of matching blocks.
pub matching_fuel :
    (skip : ℕ → Bool) (f g : ℕ) (xs ys : List ℕ)
    → length xs < f
    → length xs < g
    → matching skip f xs ys ≡ matching skip g xs ys
unfolding matching
matching_fuel skip zero g xs ys p q = absurd (omega arith)
matching_fuel skip (suc f) zero xs ys p q = absurd (omega arith)
matching_fuel skip (suc f) (suc g) xs ys p q =
    let m = find_longest_match skip xs ys in
    ground (
      arith,
      find_longest_match-Inside skip xs ys,
      matching_fuel skip f g (take m.i xs) (take m.j ys),
      matching_fuel skip f g (drop (m.i + m.size) xs) (drop (m.j + m.size) ys),
      length-take m.i xs,
      length-drop (m.i + m.size) xs,
    )

ratio_bounds : (xs ys : List ℕ) → ((ratio xs ys).num ≤ (ratio xs ys).den) × (0 < (ratio xs ys).den)
unfolding ratio
ratio_bounds xs ys = ground (arith, matching-le (popular ys) (suc (length xs)) xs ys)

-- The similarity of two bodies is a fraction between 0 and 1, and its denominator is not 0.
pub body_similarity_bounds :
    (a b : Option String)
    → ((body_similarity a b).num ≤ (body_similarity a b).den) × (0 < (body_similarity a b).den)
unfolding body_similarity
body_similarity_bounds none none = omega arith
body_similarity_bounds none (some b) = omega arith
body_similarity_bounds (some a) none = omega arith
body_similarity_bounds (some a) (some b) = ratio_bounds (strip (codes a)) (strip (codes b))
