-- ===== src/Collector/Pairs.antt =====
-- Which pairs of responses `_build_pairs` makes.
use integrated_work_tll.Prelude.{
  String, ◌==◌, ◌≡◌, refl, sym, ap, true, false, not, List, [], ◌∷◌, ◌++◌, select, any, lower,
  or_empty, option_eq_iff, is_empty, All, arith, Bool-cases, inl, inr,
}
use mathlib.Core.Path.{ap₂, subst}
use integrated_work_tll.Models.{ScanResponse}
use integrated_work_tll.Collector.Equality.{response_eq}
use integrated_work_tll.Collector.Reflexive.{IsResponse, response_eq_refl, role-of_response_eq}
use integrated_work_tll.Collector.{has_role, differs_from, pairs_with, all_pairs, build_pairs}

-- Every member of the first list with every member of the second.
abbrev pub product_with : ScanResponse → List ScanResponse → List (ScanResponse × ScanResponse)
product_with ref [] = []
product_with ref (s ∷ ss) = (ref, s) ∷ product_with ref ss

abbrev pub product : List ScanResponse → List ScanResponse → List (ScanResponse × ScanResponse)
product [] others = []
product (ref ∷ refs) others = product_with ref others ++ product refs others

same_role :
    (reference : String) (r s : ScanResponse)
    → r.role ≡ s.role
    → has_role reference r ≡ has_role reference s
same_role reference r s e = ap (λ (o : _). lower (or_empty o) == lower reference) e

-- A response of the reference role is among the references, and no other equals one of them.
in_refs :
    (reference : String) (r : ScanResponse) (rs : List ScanResponse)
    → has_role reference r ≡ false
    → any (response_eq r) (select (has_role reference) rs) ≡ false
in_refs reference r [] n = refl
in_refs reference r (s ∷ rs) n = elim (Bool-cases (response_eq r s)) [
  | inl e ↦
      ground (arith, same_role reference r s (role-of_response_eq r s e), in_refs reference r rs n)
  | inr e ↦ ground (arith, in_refs reference r rs n)
]

-- Every response of the reference role among `xs` equals one of `refs`.
abbrev Covers : String → List ScanResponse → List ScanResponse → Type 0
Covers reference refs = All (λ r. has_role reference r ≡ true → any (response_eq r) refs ≡ true)

Covers-cons :
    (reference : String) (s : ScanResponse) (refs xs : List ScanResponse)
    → Covers reference refs xs
    → Covers reference (s ∷ refs) xs
Covers-cons reference s refs [] h = tt
Covers-cons reference s refs (x ∷ xs) h =
    (λ e. ground (arith, h.0 e), Covers-cons reference s refs xs h.1)

select-Covers :
    (reference : String) (xs : List ScanResponse)
    → All IsResponse xs
    → Covers reference (select (has_role reference) xs) xs
select-Covers reference [] h = tt
select-Covers reference (x ∷ xs) h =
    let refs = select (has_role reference) xs in
    elim (Bool-cases (has_role reference x)) [
      | inl e ↦
          let kept : select (has_role reference) (x ∷ xs) ≡ x ∷ refs = rw e in
          subst (λ l. Covers reference l (x ∷ xs)) (sym kept)
            (
              λ _. ground (arith, response_eq_refl x h.0),
              Covers-cons reference x refs xs (select-Covers reference xs h.1),
            )
      | inr e ↦
          let dropped : select (has_role reference) (x ∷ xs) ≡ refs = rw e in
          subst (λ l. Covers reference l (x ∷ xs)) (sym dropped)
            (λ f. cc, select-Covers reference xs h.1)
    ]

-- `[r for r in responses if r not in refs]` are the responses of other roles.
others-eq :
    (reference : String) (all xs : List ScanResponse)
    → Covers reference (select (has_role reference) all) xs
    → select (λ r. not (any (response_eq r) (select (has_role reference) all))) xs
      ≡ select (λ r. not (has_role reference r)) xs
others-eq reference all [] h = refl
others-eq reference all (x ∷ xs) h = elim (Bool-cases (has_role reference x)) [
  | inl e ↦ ground (arith, h.0 e, others-eq reference all xs h.1)
  | inr e ↦ ground (arith, in_refs reference x all e, others-eq reference all xs h.1)
]

differs_of_roles :
    (reference : String) (r s : ScanResponse)
    → has_role reference r ≡ true
    → has_role reference s ≡ false
    → differs_from r s ≡ true
differs_of_roles reference r s p q =
    ground (arith, option_eq_iff r.role s.role, same_role reference r s)

pairs_with-eq :
    (reference : String) (ref : ScanResponse) (xs : List ScanResponse)
    → has_role reference ref ≡ true
    → pairs_with ref (select (λ r. not (has_role reference r)) xs)
      ≡ product_with ref (select (λ r. not (has_role reference r)) xs)
unfolding pairs_with
pairs_with-eq reference ref [] h = refl
pairs_with-eq reference ref (x ∷ xs) h = elim (Bool-cases (has_role reference x)) [
  | inl e ↦ rw e (pairs_with-eq reference ref xs h)
  | inr e ↦ rw (e, differs_of_roles reference ref x h e, pairs_with-eq reference ref xs h)
]

all_pairs-eq :
    (reference : String) (refs xs : List ScanResponse)
    → all_pairs (select (has_role reference) refs) (select (λ r. not (has_role reference r)) xs)
      ≡ product (select (has_role reference) refs) (select (λ r. not (has_role reference r)) xs)
unfolding all_pairs
all_pairs-eq reference [] xs = refl
all_pairs-eq reference (r ∷ refs) xs = elim (Bool-cases (has_role reference r)) [
  | inl e ↦ rw e (ap₂ ◌++◌ (pairs_with-eq reference r xs e) (all_pairs-eq reference refs xs))
  | inr e ↦ rw e (all_pairs-eq reference refs xs)
]

-- Where a response has the reference role, the pairs are exactly the products of the responses of
-- that role with the responses of other roles; the test on user and role drops none of them.
pub build_pairs-eq_product :
    (reference : String) (responses : List ScanResponse)
    → All IsResponse responses
    → is_empty (select (has_role reference) responses) ≡ false
    → build_pairs reference responses
      ≡ product
          (select (has_role reference) responses)
          (select (λ r. not (has_role reference r)) responses)
unfolding build_pairs
build_pairs-eq_product reference responses valid some_ref =
    rw (some_ref, others-eq reference responses responses (select-Covers reference responses valid))
      (all_pairs-eq reference responses responses)
