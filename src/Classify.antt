-- ===== src/Classify.antt =====
-- issue_classifier.py: the six checks, and the classification of one comparison and of many.
-- Each check that makes an issue draws the id and the time of that issue.
pub mod Meta
pub mod Triggers
pub mod Coverage
use integrated_work_tll.Prelude.{
  ℕ, zero, suc, String, ◌==◌, ◌&◌, Bool, ◌&&◌, ◌||◌, not, List, [], ◌∷◌, ◌++◌, Option, none, some,
  select, take, join, length, is_empty, lower, mentions, contains, eqb, leb, ltb, show_ℕ,
  show_option, or_empty, is_given, option_eq, if◌then◌else◌,
}
use integrated_work_tll.Models.{
  Floats, Stamp, IssueType, bola, bfla, tenant_leak, jwt_bypass, priv_escalation, info_disclosure,
  SeverityLevel, critical, high, medium, ScanResponse, DiffResult, Issue,
}
use integrated_work_tll.Diff.Compare.{is_denied}
use Meta.{issue_meta, score_bola, score_bfla, build_repro}

-- What the six calls of `Issue(...)` share.
unfoldable pub new_issue :
    Stamp → IssueType → SeverityLevel → (title description steps : String) → DiffResult → Issue
new_issue st type severity title description steps diff =
    let meta = issue_meta type in
    record {
      issue_id = st.uuid;
      issue_type = type;
      severity = severity;
      title = title & " — " & diff.method & " " & diff.endpoint;
      description = description;
      endpoint = diff.endpoint;
      method = diff.method;
      diff = diff;
      repro = some (build_repro diff steps);
      recommendation = meta.recommendation;
      cwe = meta.cwe;
      owasp = meta.owasp;
      false_positive_likelihood = 0;
      discovered_at = st.now;
    }

unfoldable pub check_bola : Floats → Stamp → DiffResult → Option Issue
check_bola fl st diff =
    let a = diff.response_a in
    let b = diff.response_b in
    if eqb a.status_code 200
      && eqb b.status_code 200
      && leb 6500 diff.body_similarity
      && not (option_eq a.user_id b.user_id)
    then some (
        new_issue st bola (score_bola diff) "BOLA"
          ("User '"
            & show_option b.user_id
            & "' (role: "
            & show_option b.role
            & ") received data belonging to User '"
            & show_option a.user_id
            & "' with "
            & fl.percent diff.body_similarity 10000
            & " body similarity. "
            & show_ℕ (length diff.leaked_fields)
            & " fields were present in both responses.")
          "Send request as User B using User B's token to User A's resource URL." diff)
    else none

unfoldable pub check_bfla : Stamp → DiffResult → Option Issue
check_bfla st diff =
    let a = diff.response_a in
    let b = diff.response_b in
    if is_denied a.status_code && eqb b.status_code 200
    then some (
        new_issue st bfla (score_bfla diff) "BFLA"
          ("User '"
            & show_option a.user_id
            & "' (role: "
            & show_option a.role
            & ") received HTTP "
            & show_ℕ a.status_code
            & " but User '"
            & show_option b.user_id
            & "' (role: "
            & show_option b.role
            & ") received HTTP 200 on the same endpoint. "
            & "Function-level authorization appears missing.")
          "Send request as lower-privilege User B. Observe 200 where 403 expected." diff)
    else none

unfoldable pub check_tenant_leak : Stamp → DiffResult → Option Issue
check_tenant_leak st diff =
    let a = diff.response_a in
    let b = diff.response_b in
    if is_empty diff.foreign_ids_found
    then none
    else if is_given a.tenant_id && is_given b.tenant_id && option_eq a.tenant_id b.tenant_id
    then none
    else some (
        new_issue st tenant_leak critical "Tenant Data Leak"
          ("IDs belonging to Tenant '"
            & show_option a.tenant_id
            & "' (User '"
            & show_option a.user_id
            & "') were found in the response of Tenant '"
            & show_option b.tenant_id
            & "' (User '"
            & show_option b.user_id
            & "'). Leaked IDs: "
            & join ", " (take 5 diff.foreign_ids_found)
            & ".")
          ("Authenticate as Tenant B, call the endpoint, "
            & "observe Tenant A's object IDs in response.")
          diff)

abbrev pub tamper_markers : List String
tamper_markers = "alg=none" ∷ "eyJhbGciOiJub25lIiwidHlwIjoiSldUIn0" ∷ "__tampered__" ∷ []

unfoldable pub check_jwt_bypass : Stamp → DiffResult → Option Issue
check_jwt_bypass st diff =
    let b = diff.response_b in
    if eqb b.status_code 200 && mentions tamper_markers (or_empty b.token)
    then some (
        new_issue st jwt_bypass critical "JWT Bypass"
          ("A tampered JWT token was accepted by "
            & diff.endpoint
            & ". The server returned HTTP "
            & show_ℕ b.status_code
            & " instead of 401/403. This may indicate the signature is not being verified.")
          ("Send request with tampered JWT (alg=none or modified payload). "
            & "Observe 200 response.")
          diff)
    else none

-- `role_hierarchy.get(role, 1)`.
unfoldable pub role_rank : String → ℕ
role_rank role =
    if role == "admin" then 3 else if role == "manager" then 2 else if role == "guest" then 0 else 1

unfoldable pub check_privilege_escalation : Floats → Stamp → DiffResult → Option Issue
check_privilege_escalation fl st diff =
    let a = diff.response_a in
    let b = diff.response_b in
    let role_a_rank = role_rank (lower (or_empty a.role)) in
    let role_b_rank = role_rank (lower (or_empty b.role)) in
    if eqb a.status_code 200
      && eqb b.status_code 200
      && ltb role_b_rank role_a_rank
      && leb 5000 diff.body_similarity
    then some (
        new_issue st priv_escalation high "Privilege Escalation"
          ("User '"
            & show_option b.user_id
            & "' with role '"
            & show_option b.role
            & "' accessed a resource that should require role '"
            & show_option a.role
            & "'. Response body similarity: "
            & fl.percent diff.body_similarity 10000
            & ".")
          "Authenticate as lower-privilege user and call the higher-privilege endpoint." diff)
    else none

abbrev pub sensitive_hints : List String
sensitive_hints =
    "token" ∷ "secret" ∷ "key" ∷ "hash" ∷ "internal" ∷ "debug" ∷ "password" ∷ "private" ∷ []

unfoldable pub sensitive_fields : DiffResult → List String
sensitive_fields diff = select (λ f. mentions sensitive_hints (lower f)) diff.added_fields

unfoldable pub check_info_disclosure : Stamp → DiffResult → Option Issue
check_info_disclosure st diff =
    if is_empty (sensitive_fields diff)
    then none
    else some (
        new_issue st info_disclosure medium "Info Disclosure"
          ("User '"
            & show_option diff.response_b.user_id
            & "' received sensitive fields not present in the reference response: "
            & join ", " (sensitive_fields diff)
            & ".")
          "Send request as User B and inspect response body for extra sensitive fields." diff)

-- `if result: issues.append(result)`, over the results of the checkers.
abbrev pub collect : List (Option Issue) → List Issue
collect [] = []
collect (none ∷ results) = collect results
collect (some i ∷ results) = i ∷ collect results

-- `draw k` is what checker `k` draws.
unfoldable pub classify_diff : Floats → (ℕ → Stamp) → DiffResult → List Issue
classify_diff fl draw diff =
    if not diff.is_anomaly
    then []
    else collect (
        check_jwt_bypass (draw 0) diff
        ∷ check_tenant_leak (draw 1) diff
        ∷ check_bola fl (draw 2) diff
        ∷ check_bfla (draw 3) diff
        ∷ check_privilege_escalation fl (draw 4) diff
        ∷ check_info_disclosure (draw 5) diff
        ∷ [])

-- The draws of the first comparison, and then those of the rest.
unfoldable pub classify_all : Floats → (ℕ → ℕ → Stamp) → List DiffResult → List Issue
classify_all fl draw [] = []
classify_all fl draw (diff ∷ diffs) =
    classify_diff fl (draw 0) diff ++ classify_all fl (λ k. draw (suc k)) diffs
