-- ===== src/Report/Order.antt =====
-- The order of the issues in a report.
use mathlib.Core.List.{Perm}
use mathlib.Core.List.Perm
use integrated_work_tll.Prelude.{
  ℕ, suc, length, ◌≤◌, String, ◌≡◌, refl, List, [], ◌∷◌, Option, select, All, arith, leb, eqb,
  Bool-cases, inl, inr,
}
use integrated_work_tll.Models.{Floats, Stamp, severity_score, Issue, Metadata}
use integrated_work_tll.Report.{insert, sort_issues, build_report}

abbrev pub score : Issue → ℕ
score i = severity_score i.severity

-- No issue stands behind one of a lower score.
abbrev pub IsSorted : List Issue → Type 0
IsSorted [] = Unit
IsSorted (i ∷ issues) = All (λ j. score j ≤ score i) issues × IsSorted issues

insert-perm : (i : Issue) (xs : List Issue) → Perm (insert i xs) (i ∷ xs)
unfolding insert
insert-perm i [] = Perm.rfl
insert-perm i (j ∷ xs) = elim (Bool-cases (leb (score j) (score i))) [
  | inl e ↦ rw e Perm.rfl
  | inr e ↦ rw e (Perm.trans (Perm.cons j (insert-perm i xs)) (Perm.swap i j xs))
]

pub sort_issues-perm : (xs : List Issue) → Perm (sort_issues xs) xs
unfolding sort_issues
sort_issues-perm [] = Perm.rfl
sort_issues-perm (i ∷ xs) =
    Perm.trans (insert-perm i (sort_issues xs)) (Perm.cons i (sort_issues-perm xs))

All-below :
    (m n : ℕ) (xs : List Issue) → m ≤ n → All (λ j. score j ≤ m) xs → All (λ j. score j ≤ n) xs
All-below m n [] h a = tt
All-below m n (x ∷ xs) h a = (omega arith, All-below m n xs h a.1)

insert-All :
    (n : ℕ) (i : Issue) (xs : List Issue)
    → score i ≤ n
    → All (λ j. score j ≤ n) xs
    → All (λ j. score j ≤ n) (insert i xs)
unfolding insert
insert-All n i [] h a = (h, tt)
insert-All n i (j ∷ xs) h a = ground (arith, insert-All n i xs h a.1)

insert-IsSorted : (i : Issue) (xs : List Issue) → IsSorted xs → IsSorted (insert i xs)
unfolding insert
insert-IsSorted i [] h = (tt, tt)
insert-IsSorted i (j ∷ xs) h = elim (Bool-cases (leb (score j) (score i))) [
  | inl e ↦
      let le : score j ≤ score i = ground arith in
      rw e ((le, All-below (score j) (score i) xs le h.0), h)
  | inr e ↦
      let le : score i ≤ score j = ground arith in
      rw e (insert-All (score j) i xs le h.0, insert-IsSorted i xs h.1)
]

pub sort_issues-IsSorted : (xs : List Issue) → IsSorted (sort_issues xs)
unfolding sort_issues
sort_issues-IsSorted [] = tt
sort_issues-IsSorted (i ∷ xs) = insert-IsSorted i (sort_issues xs) (sort_issues-IsSorted xs)

length-insert : (i : Issue) (xs : List Issue) → length (insert i xs) ≡ suc (length xs)
unfolding insert
length-insert i [] = refl
length-insert i (j ∷ xs) = ground (arith, length-insert i xs)

pub length-sort_issues : (xs : List Issue) → length (sort_issues xs) ≡ length xs
unfolding sort_issues
length-sort_issues [] = refl
length-sort_issues (i ∷ xs) = omega (arith, length-insert i (sort_issues xs), length-sort_issues xs)

-- The issues of one score.
abbrev pub with_score : ℕ → List Issue → List Issue
with_score n = select (λ i. eqb (score i) n)

with_score-insert :
    (n : ℕ) (i : Issue) (xs : List Issue) → with_score n (insert i xs) ≡ with_score n (i ∷ xs)
unfolding insert
with_score-insert n i [] = refl
with_score-insert n i (j ∷ xs) = ground (arith, with_score-insert n i xs)

with_score-sort_issues : (n : ℕ) (xs : List Issue) → with_score n (sort_issues xs) ≡ with_score n xs
unfolding sort_issues
with_score-sort_issues n [] = refl
with_score-sort_issues n (i ∷ xs) =
    ground (arith, with_score-insert n i (sort_issues xs), with_score-sort_issues n xs)

-- What `sorted(..., reverse=True)` promises of the issues of a report.
pub record IsStableSort (before after : List Issue) : Type 0 where
  pub same : Perm after before
  pub falling : IsSorted after
  pub stable : (n : ℕ) → with_score n after ≡ with_score n before

module _ (fl : Floats) (now : ℕ) (stamp : Stamp) (issues : List Issue) (target name : String)
    (endpoints requests : ℕ) (since until : Option ℕ) (metadata : Option Metadata) where
  -- A report holds the given issues, each as often, with falling severity scores, and the issues of
  -- one score in the order in which they were given.
  pub build_report-IsStableSort :
      IsStableSort issues
        (build_report fl now stamp issues target name endpoints requests since until
          metadata).issues
  unfolding build_report
  build_report-IsStableSort = record {
    same = sort_issues-perm issues;
    falling = sort_issues-IsSorted issues;
    stable = λ n. with_score-sort_issues n issues;
  }
