-- ===== src/Report/Html/Verbatim.antt =====
-- What `generate_html` makes of the texts of a finding.
use text.Mathlib.TextLemmas.{nil-append, append_assoc}
use integrated_work_tll.Prelude.{
  ℕ, zero, suc, ◌+◌, String, ◌&◌, ◌≡◌, refl, sym, ap, ◌∙◌, List, [], ◌∷◌, ◌++◌, length, arith,
}
use mathlib.Core.Path.{subst}
use integrated_work_tll.Models.{Issue, ScanReport}
use integrated_work_tll.Report.Texts.{Formats, concat}
use integrated_work_tll.Report.Html.{
  issue_html, issues_html, head_lines, body_lines, or_dash, generate_html,
}
use integrated_work_tll.Report.Html.Style.{style_lines}

-- `t in s`, with the texts before and after.
abbrev pub Holds : (t s : String) → Type 0
Holds t s = (u : String) × (v : String) × (s ≡ u & (t & v))

after-Holds : (t s r : String) → Holds t s → Holds t (r & s)
after-Holds t s r (u, v, e) =
    (r & u, v, ap (λ (x : String). r & x) e ∙ sym (append_assoc r u (t & v)))

before-Holds : (t s r : String) → Holds t s → Holds t (s & r)
before-Holds t s r (u, v, e) = (
  u,
  v & r,
  ap (λ (x : String). x & r) e
      ∙ append_assoc u (t & v) r
      ∙ ap (λ (x : String). u & x) (append_assoc t v r),
)

Holds-trans : (t s r : String) → Holds t s → Holds s r → Holds t r
Holds-trans t s r h (u, v, e) =
    subst (Holds t) (sym e) (after-Holds t (s & v) u (before-Holds t s v h))

-- The n-th of some lines, and the empty text where there is none.
abbrev pub line : ℕ → List String → String
line n [] = ""
line zero (x ∷ xs) = x
line (suc n) (x ∷ xs) = line n xs

line-Holds : (n : ℕ) (xs : List String) → Holds (line n xs) (concat xs)
unfolding concat
line-Holds zero [] = ("", "", refl)
line-Holds (suc n) [] = ("", "", refl)
line-Holds zero (x ∷ xs) = ("", concat xs, sym (nil-append (x & concat xs)))
line-Holds (suc n) (x ∷ xs) = after-Holds (line n xs) (concat xs) x (line-Holds n xs)

module _ (fmt : Formats) where
  issues_html-Holds :
      (n idx : ℕ) (before : List Issue) (issue : Issue) (after : List Issue)
      → Holds
          (line n (issue_html fmt (idx + length before) issue))
          (issues_html fmt idx (before ++ issue ∷ after))
  unfolding issues_html
  issues_html-Holds n idx [] issue after =
      before-Holds (line n (issue_html fmt (idx + 0) issue)) (concat (issue_html fmt idx issue))
        (issues_html fmt (suc idx) after)
        (subst
          (λ (k : ℕ). Holds (line n (issue_html fmt k issue)) (concat (issue_html fmt idx issue)))
          (omega arith) (line-Holds n (issue_html fmt idx issue)))
  issues_html-Holds n idx (x ∷ before) issue after =
      let same : suc idx + length before ≡ idx + suc (length before) = omega arith in
      after-Holds (line n (issue_html fmt (idx + length (x ∷ before)) issue))
        (issues_html fmt (suc idx) (before ++ issue ∷ after)) (concat (issue_html fmt idx x))
        (subst
          (λ (k : ℕ).
            Holds (line n (issue_html fmt k issue))
              (issues_html fmt (suc idx) (before ++ issue ∷ after)))
          same (issues_html-Holds n (suc idx) before issue after))

  generate_html-Holds :
      (t : String) (report : ScanReport)
      → Holds t (issues_html fmt 1 report.issues)
      → Holds t (generate_html fmt report)
  unfolding generate_html
  generate_html-Holds t report h =
      let findings = issues_html fmt 1 report.issues in
      let in_line = after-Holds t (findings & "\n") "  " (before-Holds t findings "\n" h) in
      let in_body =
        Holds-trans t (line 23 (body_lines fmt report)) (concat (body_lines fmt report)) in_line
          (line-Holds 23 (body_lines fmt report)) in
      after-Holds t (concat style_lines & concat (body_lines fmt report))
        (concat (head_lines fmt report))
        (after-Holds t (concat (body_lines fmt report)) (concat style_lines) in_body)

  row-Holds :
      (report : ScanReport) (before : List Issue) (issue : Issue) (after : List Issue)
      → report.issues ≡ before ++ issue ∷ after
      → (n : ℕ)
      → Holds (line n (issue_html fmt (1 + length before) issue)) (generate_html fmt report)
  row-Holds report before issue after e n =
      let row = line n (issue_html fmt (1 + length before) issue) in
      generate_html-Holds row report (
        subst (λ (xs : List Issue). Holds row (issues_html fmt 1 xs)) (sym e)
          (issues_html-Holds n 1 before issue after))

  -- The rows of a finding whose texts come from the responses or from the name of a scan.
  pub record IsVerbatim (issue : Issue) (page : String) : Type 0 where
    pub title : Holds ("            <span class=\"issue-title\">" & issue.title & "</span>\n") page
    pub description : Holds ("            <p>" & issue.description & "</p>\n") page
    pub reason :
        Holds
          ("              <tr><td>Anomaly Reason</td><td>"
            & or_dash issue.diff.anomaly_reason
            & "</td></tr>\n")
          page

  -- For every finding of a report, the page holds its title, its description and the reason of the
  -- anomaly as they are, with no character of HTML escaped.
  pub generate_html-IsVerbatim :
      (report : ScanReport) (before : List Issue) (issue : Issue) (after : List Issue)
      → report.issues ≡ before ++ issue ∷ after
      → IsVerbatim issue (generate_html fmt report)
  generate_html-IsVerbatim report before issue after e = record {
    title = row-Holds report before issue after e 6;
    description = row-Holds report before issue after e 16;
    reason = row-Holds report before issue after e 25;
  }
