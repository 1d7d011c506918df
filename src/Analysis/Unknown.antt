-- ===== src/Analysis/Unknown.antt =====
-- Reports on responses of one user.
use integrated_work_tll.Prelude.{
  ℕ, suc, String, ◌≡◌, refl, sym, ap, ◌∙◌, false, List, [], ◌∷◌, Option, none, some, Dict, get,
  length, All, Option-cases, inl, inr, arith,
}
use integrated_work_tll.Models.{Floats, Stamp, ScanResponse, Issue}
use integrated_work_tll.Diff.Compare.Anomaly.{same_user-no_anomaly}
use integrated_work_tll.Classify.{classify_diff}
use integrated_work_tll.Collector.{Collector, new_collector, flush}
use integrated_work_tll.Collector.Members.{Both, AllBuffered, All-buffer_pairs, All-on_result}
use integrated_work_tll.Collector.Runs.{buffer_pairs, compare_all, issues_from}
use integrated_work_tll.Api.Tables.{Scan, Task, Response, Tables}
use integrated_work_tll.Analysis.{ApiIssue, ApiReport, Run, generated, collected, generate_report}
use integrated_work_tll.Analysis.Responses.{
  Claims, or_no_dict, claimed, with_header, without_bearer, identity, response_of, to_response,
  feed, feed_one,
}
use integrated_work_tll.Analysis.Findings.{AllTell, found_issues, generate_report-IsReport}

-- The responses are of the user that stands for no user.
abbrev IsUnknown : ScanResponse → Type 0
IsUnknown r = r.user_id ≡ some "unknown"

no_issues :
    (fl : Floats) (draw : ℕ → ℕ → Stamp) (n threshold : ℕ) (ps : List (ScanResponse × ScanResponse))
    → All (Both IsUnknown) ps
    → issues_from fl draw n (compare_all fl threshold ps) ≡ []
unfolding classify_diff
no_issues fl draw n threshold [] h = refl
no_issues fl draw n threshold ((a, b) ∷ ps) h = rw (
  classify_diff,
  same_user-no_anomaly fl a b threshold (h.0.0 ∙ sym h.0.1),
  no_issues fl draw (suc n) threshold ps h.1,
)

module _ (run : Run) (tables : Tables)
    (no_user : (token : String) (c : Claims)
      → run.tokens.decode token ≡ some c
      → c.user_id ≡ none) where
  user_id-claimed :
      (token : String) (o : Option Claims)
      → run.tokens.decode token ≡ o
      → (claimed run.tokens token o).user_id ≡ "unknown"
  user_id-claimed token none e = refl
  user_id-claimed token (some c) e = rw (no_user token c e)

  user_id-with_header : (o : Option String) → (with_header run.tokens o).user_id ≡ "unknown"
  user_id-with_header none = refl
  user_id-with_header (some header) =
      user_id-claimed (without_bearer 0 header) (run.tokens.decode (without_bearer 0 header)) refl

  abbrev OfUnknown : Option ScanResponse → Type 0
  OfUnknown none = Unit
  OfUnknown (some r) = IsUnknown r

  to_response-IsUnknown :
      (t : Task) (resp : Response) (n : ℕ) → IsUnknown (to_response run.tokens run.start t resp n)
  unfolding to_response identity
  to_response-IsUnknown t resp n =
      ap (λ (u : String). some u) (user_id-with_header (get (or_no_dict t.headers) "Authorization"))

  response_of-OfUnknown :
      (t : Task) (o : Option Response) → OfUnknown (response_of run.tokens run.start t o)
  unfolding response_of
  response_of-OfUnknown t none = tt
  response_of-OfUnknown t (some resp) = elim (Option-cases resp.status_code) [
    | inl e ↦ rw (response_of, e) tt
    | inr (n, e) ↦ rw (response_of, e) (to_response-IsUnknown t resp n)
  ]

  feed_one-AllBuffered :
      (o : Option ScanResponse) (c : Collector)
      → OfUnknown o
      → AllBuffered IsUnknown c.buffer
      → AllBuffered IsUnknown (feed_one run.tokens o c).buffer
  feed_one-AllBuffered none c h k = k
  feed_one-AllBuffered (some r) c h k = All-on_result IsUnknown r c h k

  AllBuffered-feed :
      (d : tables.Db) (tasks : List Task) (c : Collector)
      → AllBuffered IsUnknown c.buffer
      → AllBuffered IsUnknown (feed run.tokens tables run.start d tasks c).buffer
  unfolding feed
  AllBuffered-feed d [] c h = h
  AllBuffered-feed d (t ∷ ts) c h =
      let o = response_of run.tokens run.start t (tables.response d t.id) in
      AllBuffered-feed d ts (feed_one run.tokens o c)
        (feed_one-AllBuffered o c (response_of-OfUnknown t (tables.response d t.id)) h)

  no_found :
      (scan_id : String) (scan : Scan) (d : tables.Db) → found_issues run tables scan_id scan d ≡ []
  no_found scan_id scan d =
      let c = collected run tables scan d in
      no_issues run.floats run.draw (length c.diffs) c.similarity_threshold
        (buffer_pairs c.reference_role c.buffer)
        (All-buffer_pairs IsUnknown c.reference_role c.buffer (
          AllBuffered-feed d (tables.tasks d scan.id)
            (new_collector scan.target scan.name 6500 "admin" false run.start) tt))

  nothing_told :
      (iso : ℕ → String) (vs : List ApiIssue) (issues : List Issue)
      → length issues ≡ 0
      → AllTell iso vs issues
      → vs ≡ []
  nothing_told iso [] issues e h = refl
  nothing_told iso (v ∷ vs) [] e h = ground (arith, h)
  nothing_told iso (v ∷ vs) (i ∷ issues) e h = ground (arith, e)

  -- Where no token has the claim `user_id`, every response is of the user `unknown`, and the report
  -- has no vulnerability, whatever the responses are.
  pub generate_report-unknown :
      (scan_id : String) (scan : Scan) (d : tables.Db) (paths : Dict String)
      → tables.scan d scan_id ≡ some scan
      → run.save (flush run.floats run.draw run.end run.stamp (collected run tables scan d)).1
        ≡ some paths
      → (r : ApiReport) × (generate_report run tables scan_id d ≡ generated r)
        × (r.vulnerabilities ≡ [])
        × (r.issues_found ≡ 0)
  generate_report-unknown scan_id scan d paths e f =
      let (r, same, is) = generate_report-IsReport run tables scan_id scan d paths e f in
      let none_sorted : length is.sorted ≡ 0 =
        is.as_many ∙ ap (λ (xs : List Issue). length xs) (no_found scan_id scan d) in
      (
        r,
        same,
        nothing_told run.isoformat r.vulnerabilities is.sorted none_sorted is.tells,
        is.issues_found ∙ ap (λ (xs : List Issue). length xs) (no_found scan_id scan d),
      )
