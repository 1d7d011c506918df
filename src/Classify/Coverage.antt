-- ===== src/Classify/Coverage.antt =====
-- From the comparison of two responses to the issues: what is flagged is classified.
use native.Mathlib.Nat.{le-div_iff_mul-le}
use integrated_work_tll.Prelude.{
  ℕ, ◌*◌, ◌/◌, ◌≤◌, ◌<◌, ◌≡◌, refl, ap, ◌∙◌, Bool, true, false, not, ◌&&◌, ◌||◌, List, [], ◌∷◌,
  ◌++◌, select, any, is_empty, is_given, or_empty, option_eq, mentions, lower, eqb, leb, ltb,
  Bool-cases, inl, inr, arith, leb→le, if◌then◌else◌,
}
use integrated_work_tll.Models.{
  Floats, Stamp, IssueType, bola, bfla, tenant_leak, jwt_bypass, priv_escalation, info_disclosure,
  ScanResponse, DiffResult,
}
use integrated_work_tll.Diff.Flatten.{field_diff}
use integrated_work_tll.Diff.Similarity.{Ratio, body_similarity, round4, at_least}
use integrated_work_tll.Diff.Similarity.Bounds.{body_similarity_bounds}
use integrated_work_tll.Diff.Compare.{same_user, foreign_ids, compare_responses}
use integrated_work_tll.Diff.Compare.Anomaly.{
  same_data, shared_ids, refused_first, compare_responses-is_anomaly,
}
use integrated_work_tll.Classify.{tamper_markers, sensitive_hints, classify_diff}
use integrated_work_tll.Classify.Triggers.{triggers, all_types, types, rank_of, types-classify_diff}

le-round4 : (fl : Floats) (r : Ratio) (k : ℕ) → 0 < r.den → at_least k r ≡ true → k ≤ round4 fl r
unfolding round4
le-round4 fl r k p h =
    let q : k ≤ 10000 * r.num / r.den = (le-div_iff_mul-le p).1 (leb→le _ _ h) in ground arith

module _ (fl : Floats) (threshold : ℕ) (a b : ScanResponse) where
  -- Both users get an answer, which gives away the same data or ids.
  abbrev exposed : Bool
  exposed =
      eqb a.status_code 200 && eqb b.status_code 200 && (same_data threshold a b || shared_ids a b)

  -- The similarity of the two bodies in ten-thousandths.
  abbrev similarity : ℕ
  similarity = round4 fl (body_similarity a.body b.body)

  -- What two responses are reported for, by the responses alone.
  abbrev pub exposes : IssueType → Bool
  exposes bola = exposed && leb 6500 similarity
  exposes priv_escalation = exposed && leb 5000 similarity && ltb (rank_of b) (rank_of a)
  exposes bfla = refused_first a b
  exposes tenant_leak =
      not (is_empty (foreign_ids a b))
      && (same_data threshold a b || shared_ids a b || refused_first a b)
      && not (is_given a.tenant_id && option_eq a.tenant_id b.tenant_id)
  exposes jwt_bypass =
      eqb b.status_code 200
      && mentions tamper_markers (or_empty b.token)
      && (same_data threshold a b || shared_ids a b || refused_first a b)
  exposes info_disclosure =
      any (λ f. mentions sensitive_hints (lower f)) (field_diff a.body_json b.body_json).added
      && (same_data threshold a b || shared_ids a b || refused_first a b)

  abbrev diff : DiffResult
  diff = compare_responses fl a b threshold

  exposes-triggers :
      (t : IssueType) → (diff.is_anomaly && triggers diff t) ≡ (not (same_user a b) && exposes t)
  unfolding compare_responses
  exposes-triggers bola = ground (arith, compare_responses-is_anomaly fl a b threshold)
  exposes-triggers bfla = ground (arith, compare_responses-is_anomaly fl a b threshold)
  exposes-triggers tenant_leak = ground (arith, compare_responses-is_anomaly fl a b threshold)
  exposes-triggers jwt_bypass = ground (arith, compare_responses-is_anomaly fl a b threshold)
  exposes-triggers priv_escalation = ground (arith, compare_responses-is_anomaly fl a b threshold)
  exposes-triggers info_disclosure = ground (arith, compare_responses-is_anomaly fl a b threshold)

select-if :
    (b c : Bool) (p q : IssueType → Bool)
    → ((t : IssueType) → (b && p t) ≡ (c && q t))
    → (ts : List IssueType) → (if b then select p ts else []) ≡ (if c then select q ts else [])
select-if true true p q h [] = refl
select-if true false p q h [] = refl
select-if false true p q h [] = refl
select-if false false p q h [] = refl
select-if true true p q h (t ∷ ts) = ground (arith, h t, select-if true true p q h ts)
select-if true false p q h (t ∷ ts) = ground (arith, h t, select-if true false p q h ts)
select-if false true p q h (t ∷ ts) = ground (arith, h t, select-if false true p q h ts)
select-if false false p q h (t ∷ ts) = refl

select-middle :
    (p : IssueType → Bool) (t : IssueType) (xs ys : List IssueType)
    → p t ≡ true
    → select p (xs ++ t ∷ ys) ≡ select p xs ++ t ∷ select p ys
select-middle p t [] ys e = rw e refl
select-middle p t (x ∷ xs) ys e = elim (Bool-cases (p x)) [
  | inl f ↦ rw f (ap (λ (l : List IssueType). x ∷ l) (select-middle p t xs ys e))
  | inr f ↦ rw f (select-middle p t xs ys e)
]

-- What is reported of two responses, by the responses alone and in the order of the checkers, each
-- type once: nothing for one and the same user, and between two users a BOLA or an escalation only
-- where both get an answer that gives away the same data or ids, whatever the endpoint is, a BFLA
-- exactly where the first is refused and the second is not, whatever their roles are, and each
-- other type only along with one of the three anomalies.
pub types-classify_diff-compare_responses :
    (fl : Floats) (draw : ℕ → Stamp) (a b : ScanResponse) (threshold : ℕ)
    → types (classify_diff fl draw (compare_responses fl a b threshold))
      ≡ (if not (same_user a b) then select (exposes fl threshold a b) all_types else [])
types-classify_diff-compare_responses fl draw a b threshold =
    let d = compare_responses fl a b threshold in
    types-classify_diff fl draw d
    ∙ select-if d.is_anomaly (not (same_user a b)) (triggers d) (exposes fl threshold a b)
        (exposes-triggers fl threshold a b) all_types

-- With a threshold of at least 0.65, two users with the same data are reported for a BOLA, the
-- rounding of their similarity included.
pub same_data-classify_diff :
    (fl : Floats) (draw : ℕ → Stamp) (a b : ScanResponse) (threshold : ℕ)
    → 6500 ≤ threshold
    → same_user a b ≡ false
    → same_data threshold a b ≡ true
    → (before : List IssueType) × (after : List IssueType) × (types
          (classify_diff fl draw (compare_responses fl a b threshold))
        ≡ before ++ bola ∷ after)
same_data-classify_diff fl draw a b threshold t u s =
    let r = body_similarity a.body b.body in
    let h = body_similarity_bounds a.body b.body in
    let close : leb 6500 (round4 fl r) ≡ true = ground (arith, le-round4 fl r threshold h.1) in
    let found : exposes fl threshold a b bola ≡ true = ground (arith, close) in
    let p = exposes fl threshold a b in
    let users : not (same_user a b) ≡ true = rw u refl in
    (
      select p (jwt_bypass ∷ tenant_leak ∷ []),
      select p (bfla ∷ priv_escalation ∷ info_disclosure ∷ []),
      types-classify_diff-compare_responses fl draw a b threshold
          ∙ ap (λ (c : Bool). if c then select p all_types else []) users
          ∙ select-middle p bola (jwt_bypass ∷ tenant_leak ∷ [])
              (bfla ∷ priv_escalation ∷ info_disclosure ∷ []) found,
    )
