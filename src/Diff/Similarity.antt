-- ===== src/Diff/Similarity.antt =====
-- diff_engine.py: `_body_similarity`, with what it uses of `difflib.SequenceMatcher`: `ratio` with
-- no junk function and with `autojunk`. A similarity is the exact quotient of two numbers.
pub mod Bounds
use integrated_work_tll.Prelude.{
  ℕ, zero, suc, ◌+◌, ◌-◌, ◌*◌, ◌/◌, ◌%◌, String, Bool, ◌&&◌, not, List, [], ◌∷◌, ◌++◌, map, reverse,
  Option, none, some, length, take, drop, count_if, codes, strip, ltb, leb, eqb, if◌then◌else◌,
}
use integrated_work_tll.Models.{Floats}

pub record Ratio : Type 0 where
  pub num : ℕ
  pub den : ℕ

-- A matching block: where it begins in each text, and its length.
pub record Match : Type 0 where
  pub i : ℕ
  pub j : ℕ
  pub size : ℕ

common_prefix : List ℕ → List ℕ → ℕ
common_prefix [] ys = 0
common_prefix (a ∷ xs) [] = 0
common_prefix (a ∷ xs) (b ∷ ys) = if eqb a b then suc (common_prefix xs ys) else 0

-- `chain_b`: characters that are too frequent in a long second text do not start a block.
unfoldable pub popular : List ℕ → ℕ → Bool
popular ys c = leb 200 (length ys) && ltb (length ys / 100 + 1) (count_if (eqb c) ys)

module _ (skip : ℕ → Bool) where
  -- The row `newj2len` for the character `c`, from the row before; `diagonal` is `j2len[j - 1]`.
  next_row : ℕ → ℕ → List ℕ → List ℕ → List ℕ
  next_row c diagonal [] row = []
  next_row c diagonal (b ∷ ys) [] = []
  next_row c diagonal (b ∷ ys) (k ∷ row) =
      (if eqb b c && not (skip b) then suc diagonal else 0) ∷ next_row c k ys row

-- A strictly longer block replaces the best one.
better : ℕ → ℕ → ℕ → Match → Match
better i j k best =
    if ltb best.size k then record { i = suc i - k; j = suc j - k; size = k } else best

best_in_row : ℕ → ℕ → List ℕ → Match → Match
unfolding better
best_in_row i j [] best = best
best_in_row i j (k ∷ row) best = best_in_row i (suc j) row (better i j k best)

scan_rows : (ℕ → Bool) → List ℕ → ℕ → List ℕ → List ℕ → Match → Match
unfolding next_row best_in_row
scan_rows skip ys i row [] best = best
scan_rows skip ys i row (a ∷ xs) best =
    let next = next_row skip a 0 ys row in
    scan_rows skip ys (suc i) next xs (best_in_row i 0 next best)

-- The block grows over equal characters on both sides.
extend : List ℕ → List ℕ → Match → Match
unfolding common_prefix
extend xs ys m =
    let left = common_prefix (reverse (take m.i xs)) (reverse (take m.j ys)) in
    let right = common_prefix (drop (m.i + m.size) xs) (drop (m.j + m.size) ys) in
    record { i = m.i - left; j = m.j - left; size = left + m.size + right }

-- `find_longest_match`, on the two stretches themselves.
find_longest_match : (ℕ → Bool) → List ℕ → List ℕ → Match
unfolding scan_rows extend
find_longest_match skip xs ys =
    extend xs ys (scan_rows skip ys 0 (map (λ _. 0) ys) xs (record { i = 0; j = 0; size = 0 }))

-- `sum(triple[-1] for triple in get_matching_blocks())`, on fuel above the first length.
unfoldable pub matching : (ℕ → Bool) → ℕ → List ℕ → List ℕ → ℕ
unfolding find_longest_match
matching skip zero xs ys = 0
matching skip (suc f) xs ys =
    let m = find_longest_match skip xs ys in
    let left = matching skip f (take m.i xs) (take m.j ys) in
    let right = matching skip f (drop (m.i + m.size) xs) (drop (m.j + m.size) ys) in
    if eqb m.size 0 then 0 else left + m.size + right

unfoldable pub ratio : List ℕ → List ℕ → Ratio
unfolding matching popular
ratio xs ys =
    let total = length xs + length ys in
    if eqb total 0
    then record { num = 1; den = 1 }
    else record { num = 2 * matching (popular ys) (suc (length xs)) xs ys; den = total }

unfoldable pub body_similarity : Option String → Option String → Ratio
unfolding ratio strip
body_similarity none none = record { num = 1; den = 1 }
body_similarity none (some b) = record { num = 0; den = 1 }
body_similarity (some a) none = record { num = 0; den = 1 }
body_similarity (some a) (some b) = ratio (strip (codes a)) (strip (codes b))

-- `round(x, 4)`, in ten-thousandths.
unfoldable pub round4 : Floats → Ratio → ℕ
round4 fl r =
    let whole = 10000 * r.num / r.den in
    let rest = 10000 * r.num % r.den in
    if ltb (2 * rest) r.den
    then whole
    else if ltb r.den (2 * rest)
    then whole + 1
    else if fl.tie_up whole
    then whole + 1
    else whole

-- `x >= threshold`, for a threshold in ten-thousandths.
abbrev pub at_least : ℕ → Ratio → Bool
at_least threshold r = leb (threshold * r.den) (10000 * r.num)
