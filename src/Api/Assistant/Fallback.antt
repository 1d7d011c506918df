-- ===== src/Api/Assistant/Fallback.antt =====
-- executor/api/copilot_routes.py: `_rule_based_fallback`.
use integrated_work_tll.Prelude.{String, lower, mentions, if◌then◌else◌}
use integrated_work_tll.Prelude.{[], ◌∷◌}

abbrev pub about_critical : String
about_critical =
    "To identify the most critical endpoint, I analyze task failure patterns and HTTP response codes from your scan data. Endpoints returning 500-series errors or those with BOLA/BFLA patterns (where unauthorized roles receive 200 OK responses) are the highest risk. Please check the scan context above for specific endpoints. Configure a GEMINI_API_KEY or OPENAI_API_KEY environment variable for deeper AI-powered analysis."

abbrev pub about_failures : String
about_failures =
    "I can see task failure data in your scan. Failed tasks typically indicate either target API errors (5xx), authentication failures (401/403), or network timeouts. Check the Async Execution view for detailed error messages on each failed task. Configure a GEMINI_API_KEY or OPENAI_API_KEY for intelligent root-cause analysis."

abbrev pub about_authorization : String
about_authorization =
    "Authorization issues are detected by comparing responses across different role contexts. If a low-privilege role receives the same sensitive data as an admin role (both 200 OK with matching fields), it indicates BOLA or Privilege Escalation. Use the Role Swapper and Diff Engine views to inspect these patterns. Configure a GEMINI_API_KEY or OPENAI_API_KEY for AI-powered vulnerability assessment."

abbrev pub about_reports : String
about_reports =
    "I can generate an executive summary from your live scan results. Navigate to the Security Reports view and click 'Regenerate Report' to create a comprehensive vulnerability assessment. The report includes OWASP API Top 10 mapping, CVSS scores, and remediation guidance. Configure a GEMINI_API_KEY or OPENAI_API_KEY for AI-generated narrative summaries."

abbrev pub about_copilot : String
about_copilot =
    "I'm your Security Copilot. I analyze your live scan data to answer security questions. For full AI-powered analysis, configure a GEMINI_API_KEY or OPENAI_API_KEY environment variable. You can ask me about specific endpoints, vulnerabilities, failures, or request remediation guidance."

unfoldable pub rule_based_fallback : (user_query : String) → String
rule_based_fallback user_query =
    let query_lower = lower user_query in
    if mentions ("critical" ∷ "most critical" ∷ []) query_lower
    then about_critical
    else if mentions ("fail" ∷ "error" ∷ []) query_lower
    then about_failures
    else if mentions ("authorization" ∷ "bola" ∷ "privilege" ∷ []) query_lower
    then about_authorization
    else if mentions ("summary" ∷ "executive" ∷ "report" ∷ []) query_lower
    then about_reports
    else about_copilot
