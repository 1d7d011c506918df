-- ===== src/Collector/Members.antt =====
-- The members of the pairs that `_build_pairs` makes, and of the buffer.
use integrated_work_tll.Prelude.{
  String, ◌==◌, not, List, [], ◌∷◌, ◌++◌, Option, some, Dict, get, put, any, select, is_empty,
  length, ltb, All, All-append, All-select_all, if_both,
}
use integrated_work_tll.Models.{ScanResponse}
use integrated_work_tll.Collector.{
  Collector, endpoint_key, or_nil, on_result, has_role, differs_from, pairs_with, all_pairs,
  first_pairs, build_pairs,
}
use integrated_work_tll.Collector.Equality.{response_eq}
use integrated_work_tll.Collector.Runs.{endpoint_pairs, buffer_pairs}

module _ (P : ScanResponse → Type 0) where
  abbrev pub Both : ScanResponse × ScanResponse → Type 0
  Both p = P p.0 × P p.1

  abbrev pub AllBuffered : Dict (List ScanResponse) → Type 0
  AllBuffered = All (λ (e : String × List ScanResponse). All P e.1)

  All-pairs_with :
      (r : ScanResponse) (xs : List ScanResponse) → P r → All P xs → All Both (pairs_with r xs)
  unfolding pairs_with
  All-pairs_with r [] h k = tt
  All-pairs_with r (x ∷ xs) h k =
      if_both (All Both) (differs_from r x) ((r, x) ∷ pairs_with r xs) (pairs_with r xs)
        ((h, k.0), All-pairs_with r xs h k.1) (All-pairs_with r xs h k.1)

  All-all_pairs : (rs xs : List ScanResponse) → All P rs → All P xs → All Both (all_pairs rs xs)
  unfolding all_pairs
  All-all_pairs [] xs h k = tt
  All-all_pairs (r ∷ rs) xs h k =
      All-append Both (pairs_with r xs) (all_pairs rs xs) (All-pairs_with r xs h.0 k)
        (All-all_pairs rs xs h.1 k)

  All-first_pairs : (rs : List ScanResponse) → All P rs → All Both (first_pairs rs)
  unfolding first_pairs
  All-first_pairs [] h = tt
  All-first_pairs (r ∷ []) h = tt
  All-first_pairs (r ∷ s ∷ rest) h = All-all_pairs (r ∷ []) (s ∷ rest) (h.0, tt) h.1

  All-build_pairs :
      (reference : String) (rs : List ScanResponse) → All P rs → All Both (build_pairs reference rs)
  unfolding build_pairs
  All-build_pairs reference rs h =
      let refs = select (has_role reference) rs in
      let others = select (λ r. not (any (response_eq r) refs)) rs in
      if_both (All Both) (is_empty refs) (first_pairs rs) (all_pairs refs others)
        (All-first_pairs rs h)
        (All-all_pairs refs others (All-select_all P (has_role reference) rs h)
          (All-select_all P (λ r. not (any (response_eq r) refs)) rs h))

  pub All-buffer_pairs :
      (reference : String) (d : Dict (List ScanResponse))
      → AllBuffered d
      → All Both (buffer_pairs reference d)
  All-buffer_pairs reference [] h = tt
  All-buffer_pairs reference ((k, rs) ∷ d) h =
      All-append Both (endpoint_pairs reference rs) (buffer_pairs reference d)
        (if_both (All Both) (ltb (length rs) 2) [] (build_pairs reference rs) tt
          (All-build_pairs reference rs h.0))
        (All-buffer_pairs reference d h.1)

  All-or_nil :
      (d : Dict (List ScanResponse)) (k : String) → AllBuffered d → All P (or_nil (get d k))
  All-or_nil [] k h = tt
  All-or_nil ((j, rs) ∷ d) k h =
      if_both (λ (o : Option (List ScanResponse)). All P (or_nil o)) (j == k) (some rs) (get d k)
        h.0 (All-or_nil d k h.1)

  All-put :
      (d : Dict (List ScanResponse)) (k : String) (rs : List ScanResponse)
      → AllBuffered d
      → All P rs
      → AllBuffered (put d k rs)
  All-put [] k rs h e = (e, tt)
  All-put ((j, ss) ∷ d) k rs h e =
      if_both AllBuffered (j == k) ((j, rs) ∷ d) ((j, ss) ∷ put d k rs) (e, h.1)
        (h.0, All-put d k rs h.1 e)

  -- A result of the kind keeps the buffer of the kind.
  pub All-on_result :
      (r : ScanResponse) (c : Collector)
      → P r
      → AllBuffered c.buffer
      → AllBuffered (on_result r c).buffer
  unfolding on_result
  All-on_result r c h k =
      All-put c.buffer (endpoint_key r) (or_nil (get c.buffer (endpoint_key r)) ++ r ∷ []) k (
        All-append P (or_nil (get c.buffer (endpoint_key r))) (r ∷ [])
          (All-or_nil c.buffer (endpoint_key r) k) (h, tt))
