-- ===== src/Api/Jwt.antt =====
-- executor/api/routes.py: `analyze_jwt_token`.
pub mod Risk
use integrated_work_tll.Prelude.{
  ℕ, String, ◌==◌, ◌&◌, Bool, true, false, not, List, [], ◌∷◌, ◌++◌, Option, none, some, ℤ, any,
  lower, is_empty, if◌then◌else◌,
}
use integrated_work_tll.Json.{
  Json, Fields, null, bool, num, str, arr, obj, end, truthy, bool_num, lookup_field,
}
use integrated_work_tll.Api.{Reply, reply, http_error}

pub record Vulnerability : Type 0 where
  pub severity : String
  pub kind : String
  pub description : String
  pub remediation : String

pub record Analysis : Type 0 where
  pub valid : Bool
  pub error : Option String
  pub header : Fields
  pub payload : Fields
  pub vulnerabilities : List Vulnerability
  pub risk_score : ℕ

-- PyJWT without verification: the header and the claims, or the text of an exception. `is_past n`
-- is `datetime.fromtimestamp(n) < datetime.now()`, and `false` where that raises.
pub data Decoded : Type 0 where
  decoded : (header claims : Fields) → Decoded
  malformed : (e : String) → Decoded

pub record Jwt : Type 0 where
  pub decode : String → Decoded
  pub is_past : ℤ → Bool

-- The test of the algorithm, lower-cased.
unfoldable pub algorithm_check : String → List Vulnerability
algorithm_check alg =
    if alg == "none"
    then record {
      severity = "CRITICAL";
      kind = "Algorithm 'none' Allowed";
      description = "The JWT specifies algorithm 'none', allowing signature bypass.";
      remediation =
          "Configure your JWT library to explicitly reject 'none' algorithm and verify signatures.";
    }
      ∷ []
    else if alg == "hs256"
    then record {
      severity = "MEDIUM";
      kind = "Weak Symmetric Key Risk";
      description =
          "HS256 uses symmetric keys. If a weak secret is used, it can be brute-forced offline.";
      remediation =
          "Ensure secrets are high-entropy (at least 256 bits) or migrate to asymmetric RS256/ES256.";
    }
      ∷ []
    else []

abbrev pub or_null : Option Json → Json
or_null none = null
or_null (some v) = v

-- A claim that is not a number makes `fromtimestamp` raise, which is caught.
abbrev pub is_expired : Jwt → Json → Bool
is_expired jwt (num n) = jwt.is_past n
is_expired jwt (bool b) = jwt.is_past (bool_num b)
is_expired jwt _ = false

unfoldable pub expiration_check : Jwt → Json → List Vulnerability
expiration_check jwt exp =
    if not (truthy exp)
    then record {
      severity = "HIGH";
      kind = "Missing Expiration Claim";
      description =
          "The token does not contain an 'exp' claim, making it valid indefinitely if stolen.";
      remediation = "Always set a short-lived 'exp' claim (e.g., 15-60 minutes).";
    }
      ∷ []
    else if is_expired jwt exp
    then record {
      severity = "LOW";
      kind = "Expired Token";
      description = "The token is already expired.";
      remediation = "Obtain a fresh token using refresh tokens.";
    }
      ∷ []
    else []

unfoldable pub subject_check : Json → List Vulnerability
subject_check sub =
    if truthy sub
    then []
    else record {
      severity = "MEDIUM";
      kind = "Missing Subject Claim";
      description = "The token lacks a 'sub' (subject) claim, which identifies the user principal.";
      remediation = "Ensure the subject claim is present and uniquely identifies the user.";
    }
      ∷ []

abbrev pub has_severity : String → Vulnerability → Bool
has_severity s v = v.severity == s

unfoldable pub risk_of : List Vulnerability → ℕ
risk_of vulnerabilities =
    if any (has_severity "CRITICAL") vulnerabilities
    then 100
    else if any (has_severity "HIGH") vulnerabilities
    then 70
    else if any (has_severity "MEDIUM") vulnerabilities
    then 40
    else 10

abbrev pub malformed_token : String → Analysis
malformed_token e = record {
  valid = false;
  error = some ("Invalid JWT structure or decoding failed: " & e);
  header = end;
  payload = end;
  vulnerabilities =
      record {
        severity = "HIGH";
        kind = "Malformed Token";
        description = "Failed to parse JWT: " & e;
        remediation = "Ensure the token is a valid, dot-separated three-part JWT.";
      }
      ∷ [];
  risk_score = 80;
}

-- `header.get("alg", "")`, where a value that is not a text has no `lower`.
abbrev pub algorithm : Option Json → Option String
algorithm none = some ""
algorithm (some (str s)) = some (lower s)
algorithm (some null) = none
algorithm (some (bool b)) = none
algorithm (some (num n)) = none
algorithm (some (arr xs)) = none
algorithm (some (obj fs)) = none

module _ (jwt : Jwt) where
  unfoldable pub vulnerabilities_of : String → Fields → List Vulnerability
  unfolding algorithm_check expiration_check subject_check lookup_field
  vulnerabilities_of alg claims =
      algorithm_check alg
      ++ expiration_check jwt (or_null (lookup_field claims "exp"))
      ++ subject_check (or_null (lookup_field claims "sub"))

  -- `no_lower` is the text of the exception for an algorithm that is not a text.
  unfoldable pub analysis_of : (no_lower : String) → Decoded → Analysis
  unfolding vulnerabilities_of risk_of lookup_field
  analysis_of no_lower (malformed e) = malformed_token e
  analysis_of no_lower (decoded header claims) = elim (algorithm (lookup_field header "alg")) [
    | none ↦ malformed_token no_lower
    | some alg ↦ record {
      valid = true;
      error = none;
      header = header;
      payload = claims;
      vulnerabilities = vulnerabilities_of alg claims;
      risk_score = risk_of (vulnerabilities_of alg claims);
    }
  ]

  unfoldable pub analyze_jwt_token : (no_lower token : String) → Reply Analysis
  unfolding analysis_of
  analyze_jwt_token no_lower token =
      if token == ""
      then http_error 400 "Token is required"
      else reply (analysis_of no_lower (jwt.decode token))
