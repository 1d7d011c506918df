-- ===== src/Api/Copilot/Answers.antt =====
-- The overview among the answers of `copilot_query`.
use integrated_work_tll.Prelude.{
  ℕ, zero, suc, ◌+◌, ◌≤◌, String, ◌==◌, ◌≡◌, refl, ap, ◌∙◌, true, false, List, [], ◌∷◌, Option,
  some, Dict, get, put, keys, IsDict, get-put, put-IsDict, get_missing, elem, take, length,
  count_if, is_given, or_empty, lower, mentions, strip_text, All, eq_iff, ◌⊎◌, inl, inr, Bool-cases,
  arith,
}
use integrated_work_tll.Analysis.{Run}
use integrated_work_tll.Api.{reply}
use integrated_work_tll.Api.Tables.{Scan, Tables, or_zero}
use integrated_work_tll.Api.Views.{TaskView, get_scan_tasks}
use integrated_work_tll.Api.Progress.{Progress, get_scan_progress, progress_of}
use integrated_work_tll.Api.RoleSwaps.{path_of}
use integrated_work_tll.Api.Copilot.{Query, asks_why, report_terms, answer_of, copilot_query}
use integrated_work_tll.Api.Copilot.Branches.{
  Answer, sort_counts, endpoint_counts, request_evidence, overview,
}
use integrated_work_tll.Api.Copilot.Sorted.{
  IsFalling, All-sort_counts, All-take, sort_counts-IsFalling, take-IsFalling, elem-sort_counts,
  sort_counts-IsDict, take-IsDict,
}

module _ (url_path : String → String) where
  -- The number of tasks for an endpoint.
  abbrev pub requests_of : String → List TaskView → ℕ
  requests_of e tasks = count_if (λ t. path_of url_path t.url == e) tasks

  get-endpoint_counts :
      (e : String) (tasks : List TaskView) (d : Dict ℕ)
      → or_zero (get (endpoint_counts url_path tasks d) e) ≡ or_zero (get d e) + requests_of e tasks
  unfolding endpoint_counts
  get-endpoint_counts e [] d = omega arith
  get-endpoint_counts e (t ∷ tasks) d =
      let k = path_of url_path t.url in
      let n = or_zero (get d k) + 1 in
      get-endpoint_counts e tasks (put d k n) ∙ elim (Bool-cases (k == e)) [
        | inl same ↦
            rw (get-put d k e n, same)
              (omega (arith, ap (λ x. or_zero (get d x)) ((eq_iff k e).0 same)))
        | inr other ↦ rw (get-put d k e n, other) refl
      ]

  endpoint_counts-IsDict :
      (tasks : List TaskView) (d : Dict ℕ) → IsDict d → IsDict (endpoint_counts url_path tasks d)
  unfolding endpoint_counts
  endpoint_counts-IsDict [] d h = h
  endpoint_counts-IsDict (t ∷ tasks) d h =
      let k = path_of url_path t.url in
      let n = or_zero (get d k) + 1 in endpoint_counts-IsDict tasks (put d k n) (put-IsDict d k n h)

-- The entries of a dict are what it gives for their keys.
entries-get :
    (f : String → ℕ) (d : Dict ℕ)
    → IsDict d
    → ((e : String) → elem e (keys d) ≡ true → or_zero (get d e) ≡ f e)
    → All (λ (i : String × ℕ). i.1 ≡ f i.0) d
entries-get f [] h g = tt
entries-get f ((k, n) ∷ d) h g = (
  ground (arith, g k, eq_iff k k),
  entries-get f d h.1 (λ e there. ground (arith, g e, eq_iff k e, h.0)),
)

below :
    (f : String → ℕ) (e : String) (m : ℕ) (d : Dict ℕ)
    → All (λ (i : String × ℕ). i.1 ≤ m) d
    → All (λ (i : String × ℕ). i.1 ≡ f i.0) d
    → elem e (keys d) ≡ true
    → f e ≤ m
below f e m [] small counted there = ground arith
below f e m (i ∷ d) small counted there = elim (Bool-cases (i.0 == e)) [
  | inl same ↦ omega (arith, small.0, counted.0, ap f ((eq_iff i.0 e).0 same))
  | inr other ↦ below f e m d small.1 counted.1 (ground arith)
]

-- What a falling list of counts keeps in its first n entries.
kept :
    (f : String → ℕ) (e : String) (n : ℕ) (d : Dict ℕ)
    → IsFalling d
    → All (λ (i : String × ℕ). i.1 ≡ f i.0) d
    → elem e (keys d) ≡ true
    → (elem e (keys (take n d)) ≡ true)
      ⊎ ((length (take n d) ≡ n) × All (λ (i : String × ℕ). f e ≤ i.1) (take n d))
kept f e zero d falling counted there = inr (refl, tt)
kept f e (suc n) [] falling counted there = ground arith
kept f e (suc n) (i ∷ d) falling counted there = elim (Bool-cases (i.0 == e)) [
  | inl same ↦ inl (rw same refl)
  | inr other ↦
      let later : elem e (keys d) ≡ true = ground arith in
      elim (kept f e n d falling.1 counted.1 later) [
        | inl found ↦ inl (ground arith)
        | inr (full, more) ↦ inr (ap suc full, (below f e i.1 d falling.0 counted.1 later, more))
      ]
]

module _ (url_path : String → String) (tasks : List TaskView) where
  -- The endpoints with the most tasks.
  pub record IsTop (top : Dict ℕ) : Type 0 where
    pub distinct : IsDict top
    pub falling : IsFalling top
    pub counted : All (λ (i : String × ℕ). i.1 ≡ requests_of url_path i.0 tasks) top
    pub complete :
        (e : String)
        → 1 ≤ requests_of url_path e tasks
        → (elem e (keys top) ≡ true)
          ⊎ ((length top ≡ 5) × All (λ (i : String × ℕ). requests_of url_path e tasks ≤ i.1) top)

  abbrev all_counts : Dict ℕ
  all_counts = endpoint_counts url_path tasks []

  all_counts-eq : (e : String) → or_zero (get all_counts e) ≡ requests_of url_path e tasks
  all_counts-eq e = get-endpoint_counts url_path e tasks [] ∙ omega arith

  all_counted : All (λ (i : String × ℕ). i.1 ≡ requests_of url_path i.0 tasks) all_counts
  all_counted =
      entries-get (λ e. requests_of url_path e tasks) all_counts
        (endpoint_counts-IsDict url_path tasks [] tt) (λ e there. all_counts-eq e)

  is_counted : (e : String) → 1 ≤ requests_of url_path e tasks → elem e (keys all_counts) ≡ true
  is_counted e h = elim (Bool-cases (elem e (keys all_counts))) [
    | inl there ↦ there
    | inr gone ↦
        let zero_there : or_zero (get all_counts e) ≡ 0 = rw (get_missing all_counts e gone) refl in
        ground (arith, all_counts-eq e)
  ]

  all_counts-IsTop : IsTop (take 5 (sort_counts all_counts))
  all_counts-IsTop =
      let sorted = sort_counts all_counts in
      let counted =
        All-sort_counts (λ i. i.1 ≡ requests_of url_path i.0 tasks) all_counts all_counted in
      record {
        distinct =
            take-IsDict 5 sorted
              (sort_counts-IsDict all_counts (endpoint_counts-IsDict url_path tasks [] tt));
        falling = take-IsFalling 5 sorted (sort_counts-IsFalling all_counts);
        counted = All-take (λ i. i.1 ≡ requests_of url_path i.0 tasks) 5 sorted counted;
        complete = λ e h.
            kept (λ x. requests_of url_path x tasks) e 5 sorted (sort_counts-IsFalling all_counts)
              counted (elem-sort_counts e all_counts ∙ is_counted e h);
      }

found_progress :
    (tables : Tables) (d : tables.Db) (i : String) (scan : Scan)
    → tables.scan d i ≡ some scan
    → get_scan_progress tables i d ≡ reply (progress_of scan (tables.tasks d i))
unfolding get_scan_progress
found_progress tables d i scan stored = rw (get_scan_progress, stored) refl

plain_answer :
    (run : Run) (url_path : String → String) (tables : Tables) (d : tables.Db) (i : String)
    (scan : Scan) (tasks : List TaskView) (progress : Progress) (question : String)
    → asks_why question ≡ false
    → mentions report_terms question ≡ false
    → answer_of run url_path tables d i scan tasks progress question
      ≡ overview url_path scan tasks progress
unfolding answer_of
plain_answer run url_path tables d i scan tasks progress question no_why no_report =
    rw (answer_of, no_why, no_report) refl

-- A question that is not empty, asks neither why something failed nor for a part of the report, and
-- names a scan that is stored: the evidence of the answer is the at most five endpoints of the scan's
-- tasks with the most tasks, each once, with the number of its tasks, in falling order; every other
-- endpoint has at most as many tasks as each of the five.
pub copilot_query-IsTop :
    (run : Run) (url_path : String → String) (tables : Tables) (d : tables.Db)
    (as_uuid : String → Option String) (payload : Query) (i : String) (scan : Scan)
    → (strip_text (or_empty payload.question) == "") ≡ false
    → asks_why (lower (strip_text (or_empty payload.question))) ≡ false
    → mentions report_terms (lower (strip_text (or_empty payload.question))) ≡ false
    → is_given payload.scan_id ≡ true
    → as_uuid (or_empty payload.scan_id) ≡ some i
    → tables.scan d i ≡ some scan
    → (a : Answer) × (top : Dict ℕ) × (copilot_query run url_path tables d as_uuid payload
        ≡ reply a)
      × (a.evidence ≡ request_evidence top)
      × IsTop url_path (get_scan_tasks run.isoformat tables i d) top
unfolding copilot_query overview
copilot_query-IsTop run url_path tables d as_uuid payload i scan asked no_why no_report given valid
      stored =
    (
      overview url_path scan (get_scan_tasks run.isoformat tables i d)
          (progress_of scan (tables.tasks d i)),
      take 5 (sort_counts (endpoint_counts url_path (get_scan_tasks run.isoformat tables i d) [])),
      rw
          (
            copilot_query,
            asked,
            given,
            valid,
            stored,
            found_progress tables d i scan stored,
            plain_answer run url_path tables d i scan (get_scan_tasks run.isoformat tables i d)
                (progress_of scan (tables.tasks d i))
                (lower (strip_text (or_empty payload.question))) no_why no_report,
          )
          refl,
      refl,
      all_counts-IsTop url_path (get_scan_tasks run.isoformat tables i d),
    )
