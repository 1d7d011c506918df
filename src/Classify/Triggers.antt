-- ===== src/Classify/Triggers.antt =====
-- Which issues a comparison is classified as.
use integrated_work_tll.Prelude.{
  ℕ, String, ◌≡◌, refl, Bool, true, false, not, ◌&&◌, List, [], ◌∷◌, select, any, is_empty, lower,
  mentions, eqb, leb, ltb, or_empty, is_given, option_eq, arith, Option, none, some, Bool-cases,
  inl, inr, eq_iff, if◌then◌else◌,
}
use integrated_work_tll.Models.{
  Floats, Stamp, IssueType, bola, bfla, tenant_leak, jwt_bypass, priv_escalation, info_disclosure,
  ScanResponse, DiffResult, Issue,
}
use integrated_work_tll.Diff.Compare.{same_user, is_denied}
use integrated_work_tll.Classify.{
  new_issue, check_bola, check_bfla, check_tenant_leak, check_jwt_bypass,
  check_privilege_escalation, check_info_disclosure, classify_diff, tamper_markers, role_rank,
  sensitive_hints, sensitive_fields, collect,
}

abbrev pub both_ok : DiffResult → Bool
both_ok d = eqb d.response_a.status_code 200 && eqb d.response_b.status_code 200

abbrev pub rank_of : ScanResponse → ℕ
rank_of r = role_rank (lower (or_empty r.role))

-- The condition of each type of issue on a comparison, as the checkers test it.
abbrev pub triggers : DiffResult → IssueType → Bool
triggers d jwt_bypass =
    eqb d.response_b.status_code 200 && mentions tamper_markers (or_empty d.response_b.token)
triggers d tenant_leak =
    not (is_empty d.foreign_ids_found)
    && not
        (is_given d.response_a.tenant_id && option_eq d.response_a.tenant_id d.response_b.tenant_id)
triggers d bola =
    both_ok d && leb 6500 d.body_similarity && not (same_user d.response_a d.response_b)
triggers d bfla = is_denied d.response_a.status_code && eqb d.response_b.status_code 200
triggers d priv_escalation =
    both_ok d && ltb (rank_of d.response_b) (rank_of d.response_a) && leb 5000 d.body_similarity
triggers d info_disclosure = any (λ f. mentions sensitive_hints (lower f)) d.added_fields

abbrev pub all_types : List IssueType
all_types = jwt_bypass ∷ tenant_leak ∷ bola ∷ bfla ∷ priv_escalation ∷ info_disclosure ∷ []

abbrev pub types : List Issue → List IssueType
types [] = []
types (i ∷ issues) = i.issue_type ∷ types issues

abbrev type_of : Option Issue → Option IssueType
type_of none = none
type_of (some i) = some i.issue_type

abbrev given : Bool → IssueType → Option IssueType
given b t = if b then some t else none

-- The second tenant need not be tested for being given, where the two are equal.
tenant_test_lem :
    (a b : Option String)
    → (is_given a && is_given b && option_eq a b) ≡ (is_given a && option_eq a b)
tenant_test_lem none b = refl
tenant_test_lem (some s) none = ground arith
tenant_test_lem (some s) (some t) = ground (arith, eq_iff s t)

is_empty-select : (p : String → Bool) (xs : List String) → is_empty (select p xs) ≡ not (any p xs)
is_empty-select p [] = refl
is_empty-select p (x ∷ xs) = ground (arith, is_empty-select p xs)

module _ (fl : Floats) (st : Stamp) (d : DiffResult) where
  jwt_bypass-type : type_of (check_jwt_bypass st d) ≡ given (triggers d jwt_bypass) jwt_bypass
  unfolding check_jwt_bypass new_issue
  jwt_bypass-type = ground arith

  tenant_leak-type : type_of (check_tenant_leak st d) ≡ given (triggers d tenant_leak) tenant_leak
  unfolding check_tenant_leak new_issue
  tenant_leak-type = ground (arith, tenant_test_lem d.response_a.tenant_id d.response_b.tenant_id)

  bola-type : type_of (check_bola fl st d) ≡ given (triggers d bola) bola
  unfolding check_bola new_issue
  bola-type = ground arith

  bfla-type : type_of (check_bfla st d) ≡ given (triggers d bfla) bfla
  unfolding check_bfla new_issue
  bfla-type = ground arith

  priv_escalation-type :
      type_of (check_privilege_escalation fl st d)
      ≡ given (triggers d priv_escalation) priv_escalation
  unfolding check_privilege_escalation new_issue
  priv_escalation-type = ground arith

  info_disclosure-type :
      type_of (check_info_disclosure st d) ≡ given (triggers d info_disclosure) info_disclosure
  unfolding check_info_disclosure new_issue sensitive_fields
  info_disclosure-type =
      ground (arith, is_empty-select (λ f. mentions sensitive_hints (lower f)) d.added_fields)

abbrev put_type : Option IssueType → List IssueType → List IssueType
put_type none ts = ts
put_type (some t) ts = t ∷ ts

types-collect :
    (r : Option Issue) (rs : List (Option Issue))
    → types (collect (r ∷ rs)) ≡ put_type (type_of r) (types (collect rs))
types-collect none rs = refl
types-collect (some i) rs = refl

put_type-given :
    (b : Bool) (t : IssueType) (ts : List IssueType)
    → put_type (given b t) ts ≡ (if b then t ∷ ts else ts)
put_type-given true t ts = refl
put_type-given false t ts = refl

-- The types of the issues of a comparison, in the order of the checkers: none without an anomaly,
-- and otherwise each type whose condition holds, once.
pub types-classify_diff :
    (fl : Floats) (draw : ℕ → Stamp) (d : DiffResult)
    → types (classify_diff fl draw d) ≡ (if d.is_anomaly then select (triggers d) all_types else [])
unfolding classify_diff
types-classify_diff fl draw d = elim (Bool-cases d.is_anomaly) [
  | inl e ↦ rw e (
      simp (
        types-collect, jwt_bypass-type, tenant_leak-type, bola-type, bfla-type,
        priv_escalation-type, info_disclosure-type, put_type-given,
      ))
  | inr e ↦ rw e
]
