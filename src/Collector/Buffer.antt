-- ===== src/Collector/Buffer.antt =====
-- The buffer of the collector: what it holds, and the number of requests.
use integrated_work_tll.Prelude.{
  ℕ, ◌+◌, String, ◌==◌, ◌≡◌, refl, List, [], ◌∷◌, ◌++◌, Dict, get, put, length, length-append, All,
  All-append, IsDict, put-IsDict, eq_iff, arith, Bool-cases, inl, inr, sym, ◌∙◌,
}
use integrated_work_tll.Models.{ScanResponse}
use integrated_work_tll.Collector.{
  Collector, endpoint_key, or_nil, on_result, on_results_batch, reset,
}

abbrev pub buffered : Dict (List ScanResponse) → ℕ
buffered [] = 0
buffered ((k, rs) ∷ d) = length rs + buffered d

-- Each response stands under the key of its own method and endpoint.
abbrev pub Keyed : Dict (List ScanResponse) → Type 0
Keyed [] = Unit
Keyed ((k, rs) ∷ d) = All (λ r. endpoint_key r ≡ k) rs × Keyed d

pub record IsBuffered (c : Collector) : Type 0 where
  pub distinct : IsDict c.buffer
  pub keyed : Keyed c.buffer
  pub counted : c.request_count ≡ buffered c.buffer

buffered-put :
    (d : Dict (List ScanResponse)) (k : String) (r : ScanResponse)
    → buffered (put d k (or_nil (get d k) ++ r ∷ [])) ≡ buffered d + 1
buffered-put [] k r = omega arith
buffered-put ((j, rs) ∷ d) k r = ground (arith, length-append rs (r ∷ []), buffered-put d k r)

put-Keyed :
    (d : Dict (List ScanResponse)) (k : String) (r : ScanResponse)
    → endpoint_key r ≡ k
    → Keyed d
    → Keyed (put d k (or_nil (get d k) ++ r ∷ []))
put-Keyed [] k r e h = ((e, tt), tt)
put-Keyed ((j, rs) ∷ d) k r e h = elim (Bool-cases (j == k)) [
  | inl same ↦
      let here : endpoint_key r ≡ j = e ∙ sym ((eq_iff j k).0 same) in
      rw same (All-append (λ x. endpoint_key x ≡ j) rs (r ∷ []) h.0 (here, tt), h.1)
  | inr other ↦ rw other (h.0, put-Keyed d k r e h.1)
]

on_result-IsBuffered :
    (r : ScanResponse) (c : Collector) → IsBuffered c → IsBuffered (on_result r c)
unfolding on_result
on_result-IsBuffered r c h =
    let key = endpoint_key r in
    record {
      distinct = put-IsDict c.buffer key _ h.distinct;
      keyed = put-Keyed c.buffer key r refl h.keyed;
      counted = omega (arith, buffered-put c.buffer key r, h.counted);
    }

-- After any batch of results, on a collector whose buffer is in order, every buffered response
-- stands under its own method and endpoint, each endpoint has one entry, and the number of requests
-- is the number of buffered responses.
pub on_results_batch-IsBuffered :
    (responses : List ScanResponse) (c : Collector)
    → IsBuffered c
    → IsBuffered (on_results_batch responses c)
unfolding on_results_batch
on_results_batch-IsBuffered [] c h = h
on_results_batch-IsBuffered (r ∷ responses) c h =
    on_results_batch-IsBuffered responses (on_result r c) (on_result-IsBuffered r c h)

reset-IsBuffered : (now : ℕ) (c : Collector) → IsBuffered (reset now c)
unfolding reset
reset-IsBuffered now c = record { distinct = tt; keyed = tt; counted = refl }
