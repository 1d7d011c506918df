-- ===== src/Classify/Meta.antt =====
-- issue_classifier.py: `ISSUE_META`, the severity rules and the reproduction steps.
use integrated_work_tll.Prelude.{
  String, ◌==◌, ◌&◌, Bool, ◌&&◌, ◌||◌, List, [], ◌∷◌, Dict, any, length, join, lower, upper,
  mentions, leb, or_empty, if◌then◌else◌,
}
use integrated_work_tll.Models.{
  IssueType, bola, bfla, tenant_leak, jwt_bypass, priv_escalation, info_disclosure, SeverityLevel,
  critical, high, medium, ScanResponse, DiffResult, ReproductionSteps,
}

-- An entry of `ISSUE_META`.
pub record Meta : Type 0 where
  pub cwe : String
  pub owasp : String
  pub recommendation : String

unfoldable pub issue_meta : IssueType → Meta
issue_meta bola = record {
  cwe = "CWE-285";
  owasp = "OWASP API1:2023 — Broken Object Level Authorization";
  recommendation =
      "Validate that the authenticated user owns or has explicit permission "
      & "to access the requested object. Use indirect object references or "
      & "enforce ownership checks server-side on every request.";
}
issue_meta bfla = record {
  cwe = "CWE-862";
  owasp = "OWASP API5:2023 — Broken Function Level Authorization";
  recommendation =
      "Implement role-based access control (RBAC) checks at the function/action "
      & "level. Do not rely solely on UI hiding of admin features. Enforce "
      & "permissions in the business logic layer on every API call.";
}
issue_meta tenant_leak = record {
  cwe = "CWE-284";
  owasp = "OWASP API1:2023 — Broken Object Level Authorization (Multi-tenant)";
  recommendation =
      "Ensure every database query and response is scoped by tenant_id. "
      & "Never derive tenant context from user-supplied input alone. "
      & "Add automated tests that assert cross-tenant queries return 0 results.";
}
issue_meta jwt_bypass = record {
  cwe = "CWE-287";
  owasp = "OWASP API2:2023 — Broken Authentication";
  recommendation =
      "Always verify JWT signature with a strong secret or asymmetric key. "
      & "Reject tokens with alg=none. Use a well-maintained JWT library and "
      & "pin the expected algorithm. Rotate secrets regularly.";
}
issue_meta priv_escalation = record {
  cwe = "CWE-269";
  owasp = "OWASP API5:2023 — Broken Function Level Authorization";
  recommendation =
      "Enforce the principle of least privilege. Each role should only be "
      & "granted the minimum permissions required. Re-validate role on every "
      & "sensitive action, not just at login.";
}
issue_meta info_disclosure = record {
  cwe = "CWE-200";
  owasp = "OWASP API3:2023 — Broken Object Property Level Authorization";
  recommendation =
      "Apply field-level filtering based on the caller's role before "
      & "serializing responses. Use allowlist-based serializers rather than "
      & "returning full model objects.";
}

abbrev pub pii_keywords : List String
pii_keywords = "email" ∷ "phone" ∷ "ssn" ∷ "password" ∷ "address" ∷ "dob" ∷ "credit" ∷ "token" ∷ []

unfoldable pub has_pii : DiffResult → Bool
has_pii diff = any (λ f. mentions pii_keywords (lower f)) diff.leaked_fields

unfoldable pub score_bola : DiffResult → SeverityLevel
score_bola diff =
    if has_pii diff || leb 9000 diff.body_similarity
    then critical
    else if leb 7000 diff.body_similarity || leb 5 (length diff.leaked_fields)
    then high
    else medium

abbrev pub admin_words : List String
admin_words = "admin" ∷ "manage" ∷ "config" ∷ "setting" ∷ "role" ∷ "permission" ∷ "internal" ∷ []

unfoldable pub is_destructive : DiffResult → Bool
is_destructive diff =
    let method = upper diff.method in method == "DELETE" || method == "PUT" || method == "PATCH"

unfoldable pub has_admin_hints : DiffResult → Bool
has_admin_hints diff = mentions admin_words (lower diff.endpoint)

unfoldable pub score_bfla : DiffResult → SeverityLevel
score_bfla diff =
    if is_destructive diff && has_admin_hints diff
    then critical
    else if is_destructive diff || has_admin_hints diff
    then high
    else medium

abbrev header_flags : Dict String → List String
header_flags [] = []
header_flags ((k, v) ∷ d) = ("-H '" & k & ": " & v & "'") ∷ header_flags d

unfoldable pub build_curl : ScanResponse → String
build_curl response =
    let headers = join " " (header_flags response.request_headers) in
    let body_flag =
      if or_empty response.request_body == ""
      then ""
      else "-d '" & or_empty response.request_body & "'" in
    "curl -X " & response.method & " " & headers & " " & body_flag & " '" & response.url & "'"

unfoldable pub build_repro : DiffResult → String → ReproductionSteps
build_repro diff description =
    let a = diff.response_a in
    let b = diff.response_b in
    record {
      description = description;
      request_method = diff.method;
      request_url = b.url;
      request_headers = b.request_headers;
      request_body = b.request_body;
      user_a_token = a.token;
      user_b_token = b.token;
      expected_status = 403;
      actual_status = b.status_code;
      curl_command = build_curl b;
    }
