-- ===== src/Report/Texts.antt =====
-- report_generator.py: what the renderers share.
use integrated_work_tll.Prelude.{ℕ, String, ◌&◌, List, [], ◌∷◌, ℤ}
use Prim.Native.String
use integrated_work_tll.Models.{
  IssueType, bola, bfla, tenant_leak, jwt_bypass, priv_escalation, info_disclosure, SeverityLevel,
  critical, high, medium, low, info,
}

-- The formats of times and floats: `strftime`, `isoformat`, `f"{n/d:.0%}"` and the text of a number of
-- seconds that is given in hundredths.
pub record Formats : Type 0 where
  pub strftime : (format : String) → ℕ → String
  pub isoformat : ℕ → String
  pub percent : (n d : ℕ) → String
  pub show_seconds : ℤ → String

-- `IssueType.value` and `SeverityLevel.value`.
abbrev pub type_value : IssueType → String
type_value bola = "BOLA"
type_value bfla = "BFLA"
type_value tenant_leak = "TENANT_LEAK"
type_value jwt_bypass = "JWT_BYPASS"
type_value priv_escalation = "PRIV_ESCALATION"
type_value info_disclosure = "INFO_DISCLOSURE"

abbrev pub severity_value : SeverityLevel → String
severity_value critical = "CRITICAL"
severity_value high = "HIGH"
severity_value medium = "MEDIUM"
severity_value low = "LOW"
severity_value info = "INFO"

-- `report_id[:8]`.
abbrev pub short_id : String → String
short_id report_id = String.slice report_id 0 8

-- The lines of a text in a row.
unfoldable pub concat : List String → String
concat [] = ""
concat (x ∷ xs) = x & concat xs
