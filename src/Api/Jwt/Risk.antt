-- ===== src/Api/Jwt/Risk.antt =====
-- The score of an analysis, and what makes it.
use integrated_work_tll.Prelude.{
  ℕ, max, String, ◌==◌, ◌≡◌, refl, true, not, ◌&&◌, ◌||◌, List, [], ◌∷◌, some, any, arith,
  if◌then◌else◌,
}
use integrated_work_tll.Json.{Fields, lookup_field, truthy}
use integrated_work_tll.Api.Jwt.{
  Vulnerability, Analysis, decoded, Jwt, algorithm_check, or_null, is_expired, expiration_check,
  subject_check, has_severity, risk_of, algorithm, vulnerabilities_of, analysis_of,
}

-- The weight of a severity.
abbrev pub weight : String → ℕ
weight s =
    if s == "CRITICAL" then 100 else if s == "HIGH" then 70 else if s == "MEDIUM" then 40 else 10

abbrev pub heaviest : List Vulnerability → ℕ
heaviest [] = 10
heaviest (v ∷ vs) = max (weight v.severity) (heaviest vs)

-- How an analysis of claims rates what it finds.
pub record IsRated (jwt : Jwt) (alg : String) (claims : Fields) (a : Analysis) : Type 0 where
  pub valid : a.valid ≡ true
  pub risk_score : a.risk_score ≡ heaviest a.vulnerabilities
  pub critical : any (has_severity "CRITICAL") a.vulnerabilities ≡ (alg == "none")
  pub high :
      any (has_severity "HIGH") a.vulnerabilities
      ≡ not (truthy (or_null (lookup_field claims "exp")))
  pub medium : any (has_severity "MEDIUM") a.vulnerabilities ≡ (
      not (alg == "none") && alg == "hs256" || not (truthy (or_null (lookup_field claims "sub"))))
  pub low : any (has_severity "LOW") a.vulnerabilities ≡ (
      truthy (or_null (lookup_field claims "exp"))
      && is_expired jwt (or_null (lookup_field claims "exp")))

risk_of-eq_heaviest :
    (jwt : Jwt) (alg : String) (claims : Fields)
    → risk_of (vulnerabilities_of jwt alg claims) ≡ heaviest (vulnerabilities_of jwt alg claims)
unfolding risk_of vulnerabilities_of algorithm_check expiration_check subject_check
risk_of-eq_heaviest jwt alg claims = ground arith

-- An analysis of a token that can be decoded, with a text as algorithm, is valid and scores the
-- heaviest of its findings: one that is critical exactly for the algorithm `none`, a high one exactly
-- without an expiration, a low one exactly for an expiration that is past, and medium ones for HS256
-- or without a subject.
pub analysis_of-IsRated :
    (jwt : Jwt) (no_lower alg : String) (header claims : Fields)
    → algorithm (lookup_field header "alg") ≡ some alg
    → IsRated jwt alg claims (analysis_of jwt no_lower (decoded header claims))
unfolding analysis_of vulnerabilities_of algorithm_check expiration_check subject_check lookup_field
analysis_of-IsRated jwt no_lower alg header claims e =
    rw (analysis_of, e)
      (record {
        valid = refl;
        risk_score = risk_of-eq_heaviest jwt alg claims;
        critical = ground arith;
        high = ground arith;
        medium = ground arith;
        low = ground arith;
      })
