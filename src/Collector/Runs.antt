-- ===== src/Collector/Runs.antt =====
-- What `process_buffered` computes, and what `flush` reports.
use integrated_work_tll.Prelude.{
  ℕ, suc, ◌+◌, String, ◌≡◌, refl, sym, ap, ◌∙◌, Bool, true, false, List, [], ◌∷◌, ◌++◌, Dict,
  length, length-append, ltb, arith, if◌then◌else◌,
}
use mathlib.Core.List.{append-nil, append_assoc}
use native.Mathlib.Nat.{add-zero}
use integrated_work_tll.Models.{Floats, Stamp, ScanResponse, DiffResult, Issue}
use integrated_work_tll.Diff.Compare.{compare_responses}
use integrated_work_tll.Classify.{classify_diff}
use integrated_work_tll.Collector.{
  Collector, build_pairs, process_pair, process_pairs, process_entries, process_buffered,
}

-- The pairs of one endpoint, and of all, in the order of the buffer.
abbrev pub endpoint_pairs : String → List ScanResponse → List (ScanResponse × ScanResponse)
endpoint_pairs reference rs = if ltb (length rs) 2 then [] else build_pairs reference rs

abbrev pub buffer_pairs : String → Dict (List ScanResponse) → List (ScanResponse × ScanResponse)
buffer_pairs reference [] = []
buffer_pairs reference ((k, rs) ∷ d) = endpoint_pairs reference rs ++ buffer_pairs reference d

abbrev pub compare_all : Floats → ℕ → List (ScanResponse × ScanResponse) → List DiffResult
compare_all fl threshold [] = []
compare_all fl threshold ((a, b) ∷ pairs) =
    compare_responses fl a b threshold ∷ compare_all fl threshold pairs

-- The issues of comparisons that are numbered from `n`.
abbrev pub issues_from : Floats → (ℕ → ℕ → Stamp) → ℕ → List DiffResult → List Issue
issues_from fl draw n [] = []
issues_from fl draw n (d ∷ ds) = classify_diff fl (draw n) d ++ issues_from fl draw (suc n) ds

abbrev notify : Bool → List Issue → List Issue → List Issue
notify b old new = if b then old ++ new else old

classify_diff_guard :
    (fl : Floats) (draw : ℕ → Stamp) (d : DiffResult)
    → (if d.is_anomaly then classify_diff fl draw d else []) ≡ classify_diff fl draw d
unfolding classify_diff
classify_diff_guard fl draw d = ground arith

-- The collector `c` after the comparisons `ds`, all else unchanged.
abbrev pub advance : Floats → (ℕ → ℕ → Stamp) → Collector → List DiffResult → Collector
advance fl draw c ds = record c {
  diffs = c.diffs ++ ds;
  notified = notify c.has_callback c.notified (issues_from fl draw (length c.diffs) ds);
}

notify_nil : (b : Bool) (xs : List Issue) → notify b xs [] ≡ xs
notify_nil true xs = append-nil xs
notify_nil false xs = refl

notify-notify :
    (b : Bool) (xs ys zs : List Issue) → notify b (notify b xs ys) zs ≡ notify b xs (ys ++ zs)
notify-notify true xs ys zs = append_assoc xs ys zs
notify-notify false xs ys zs = refl

compare_all-append :
    (fl : Floats) (threshold : ℕ) (ps qs : List (ScanResponse × ScanResponse))
    → compare_all fl threshold (ps ++ qs)
      ≡ compare_all fl threshold ps ++ compare_all fl threshold qs
compare_all-append fl threshold [] qs = refl
compare_all-append fl threshold ((a, b) ∷ ps) qs = rw (compare_all-append fl threshold ps qs)

module _ (fl : Floats) (draw : ℕ → ℕ → Stamp) where
  issues_from-append :
      (n : ℕ) (ds es : List DiffResult)
      → issues_from fl draw n (ds ++ es)
        ≡ issues_from fl draw n ds ++ issues_from fl draw (n + length ds) es
  issues_from-append n [] es = rw add-zero
  issues_from-append n (d ∷ ds) es =
      let e : suc n + length ds ≡ n + suc (length ds) = omega arith in
      simp (issues_from-append (suc n) ds es, append_assoc, e)

  advance_nil : (c : Collector) → advance fl draw c [] ≡ c
  advance_nil c = λ i. record c {
    diffs = append-nil c.diffs i;
    notified = notify_nil c.has_callback c.notified i;
  }

  issues_after :
      (c : Collector) (ds es : List DiffResult)
      → issues_from fl draw (length c.diffs) ds ++ issues_from fl draw (length (c.diffs ++ ds)) es
        ≡ issues_from fl draw (length c.diffs) (ds ++ es)
  issues_after c ds es =
      rw (length-append c.diffs ds) (sym (issues_from-append (length c.diffs) ds es))

  found_after :
      (found : List Issue) (c : Collector) (ds es : List DiffResult)
      → (found ++ issues_from fl draw (length c.diffs) ds)
          ++ issues_from fl draw (length (c.diffs ++ ds)) es
        ≡ found ++ issues_from fl draw (length c.diffs) (ds ++ es)
  found_after found c ds es =
      append_assoc found (issues_from fl draw (length c.diffs) ds)
        (issues_from fl draw (length (c.diffs ++ ds)) es)
      ∙ ap (λ (l : List Issue). found ++ l) (issues_after c ds es)

  advance-advance :
      (c : Collector) (ds es : List DiffResult)
      → advance fl draw (advance fl draw c ds) es ≡ advance fl draw c (ds ++ es)
  advance-advance c ds es = λ i. record c {
    diffs = append_assoc c.diffs ds es i;
    notified =
        (notify-notify c.has_callback c.notified (issues_from fl draw (length c.diffs) ds)
              (issues_from fl draw (length (c.diffs ++ ds)) es)
            ∙ ap (notify c.has_callback c.notified) (issues_after c ds es))
          i;
  }

  process_pair-eq :
      (a b : ScanResponse) (c : Collector) (found : List Issue)
      → process_pair fl draw a b c found ≡ (
        advance fl draw c (compare_responses fl a b c.similarity_threshold ∷ []),
        found
            ++ issues_from fl draw
                (length c.diffs)
                (compare_responses fl a b c.similarity_threshold ∷ []),
      )
  unfolding process_pair
  process_pair-eq a b c found = simp (append-nil, classify_diff_guard fl (draw (length c.diffs)))

  process_pairs-eq :
      (pairs : List (ScanResponse × ScanResponse)) (c : Collector) (found : List Issue)
      → process_pairs fl draw pairs c found ≡ (
        advance fl draw c (compare_all fl c.similarity_threshold pairs),
        found ++ issues_from fl draw (length c.diffs) (compare_all fl c.similarity_threshold pairs),
      )
  unfolding process_pairs
  process_pairs-eq [] c found = rw (append-nil found, advance_nil c)
  process_pairs-eq ((a, b) ∷ pairs) c found =
      let d = compare_responses fl a b c.similarity_threshold in
      let ds = compare_all fl c.similarity_threshold pairs in
      rw
        (
          process_pair-eq a b c found,
          process_pairs-eq pairs (advance fl draw c (d ∷ []))
              (found ++ issues_from fl draw (length c.diffs) (d ∷ [])),
        )
        (λ i. (advance-advance c (d ∷ []) ds i, found_after found c (d ∷ []) ds i))

  process_entries-eq :
      (entries : Dict (List ScanResponse)) (c : Collector) (found : List Issue)
      → process_entries fl draw entries c found ≡ (
        advance fl draw c
            (compare_all fl c.similarity_threshold (buffer_pairs c.reference_role entries)),
        found
            ++ issues_from fl draw
                (length c.diffs)
                (compare_all fl c.similarity_threshold (buffer_pairs c.reference_role entries)),
      )
  unfolding process_entries
  process_entries-eq [] c found = rw (append-nil found, advance_nil c)
  process_entries-eq ((k, rs) ∷ entries) c found =
      let ps = endpoint_pairs c.reference_role rs in
      let qs = buffer_pairs c.reference_role entries in
      let ds = compare_all fl c.similarity_threshold ps in
      let es = compare_all fl c.similarity_threshold qs in
      rw
        (
          process_pairs-eq ps c found,
          process_entries-eq entries (advance fl draw c ds)
              (found ++ issues_from fl draw (length c.diffs) ds),
          compare_all-append fl c.similarity_threshold ps qs,
        )
        (λ i. (advance-advance c ds es i, found_after found c ds es i))

  -- The comparisons and the issues of the buffered responses.
  abbrev pub buffer_diffs : Collector → List DiffResult
  buffer_diffs c = compare_all fl c.similarity_threshold (buffer_pairs c.reference_role c.buffer)

  abbrev pub buffer_issues : Collector → List Issue
  buffer_issues c = issues_from fl draw (length c.diffs) (buffer_diffs c)

  -- Processing compares every pair of every endpoint in the order of the buffer, adds the results
  -- to the comparisons that were there, replaces the issues by those of the new comparisons, calls
  -- the callback with each of them if there is one, and changes nothing else.
  pub process_buffered-eq :
      (c : Collector)
      → process_buffered fl draw c ≡ record c {
        diffs = c.diffs ++ buffer_diffs c;
        issues = buffer_issues c;
        notified = if c.has_callback then c.notified ++ buffer_issues c else c.notified;
      }
  unfolding process_buffered
  process_buffered-eq c = rw (process_entries-eq c.buffer c [])
