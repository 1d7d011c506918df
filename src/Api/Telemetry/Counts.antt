-- ===== src/Api/Telemetry/Counts.antt =====
-- The points of the telemetry count the responses of the scan.
use integrated_work_tll.Prelude.{
  ℕ, suc, ◌+◌, ◌≤◌, String, ◌==◌, ◌≡◌, refl, ap, ◌∙◌, Bool, true, false, List, [], ◌∷◌, Option,
  none, some, Dict, get, put, keys, put-IsDict, IsDict, elem, All, count_if, if_both, arith,
}
use integrated_work_tll.Api.{reply}
use integrated_work_tll.Api.Tables.{Scan, Task, Response, Tables, joined}
use integrated_work_tll.Api.Telemetry.{
  Bucket, new_bucket, or_new, is_failure, add_latency, add_response, timestamp, minute, fill,
  clock_label, Point, points, get_scan_telemetry,
}

abbrev is_answered : Task × Option Response → Bool
is_answered (t, none) = false
is_answered (t, some r) = true

abbrev has_failed : Task × Option Response → Bool
has_failed (t, none) = false
has_failed (t, some r) = is_failure r

abbrev sum_of : (Point → ℕ) → List Point → ℕ
sum_of f [] = 0
sum_of f (p ∷ ps) = f p + sum_of f ps

abbrev names : List Point → List String
names [] = []
names (p ∷ ps) = p.name ∷ names ps

abbrev Distinct : List String → Type 0
Distinct [] = Unit
Distinct (x ∷ xs) = (elem x xs ≡ false) × Distinct xs

-- The same, of the buckets.
abbrev total : (Bucket → ℕ) → Dict Bucket → ℕ
total f [] = 0
total f ((k, b) ∷ d) = f b + total f d

total-put :
    (f : Bucket → ℕ) (d : Dict Bucket) (k : String) (b : Bucket)
    → f new_bucket ≡ 0
    → total f (put d k b) + f (or_new (get d k)) ≡ total f d + f b
total-put f [] k b e = omega (arith, e)
total-put f ((j, c) ∷ d) k b e = ground (arith, total-put f d k b)

requests-add_latency : (o : Option ℕ) (b : Bucket) → (add_latency o b).requests ≡ b.requests
requests-add_latency none b = refl
requests-add_latency (some n) b = refl

failures-add_latency : (o : Option ℕ) (b : Bucket) → (add_latency o b).failures ≡ b.failures
failures-add_latency none b = refl
failures-add_latency (some n) b = refl

count-add_latency :
    (o : Option ℕ) (b : Bucket) → (add_latency o b).latency_count ≤ suc b.latency_count
count-add_latency none b = omega arith
count-add_latency (some n) b = omega arith

requests-add_response :
    (t : Task) (r : Option Response) (b : Bucket)
    → (add_response r b).requests ≡ b.requests + count_if is_answered ((t, r) ∷ [])
unfolding add_response
requests-add_response t none b = omega arith
requests-add_response t (some r) b =
    ground (arith, requests-add_latency r.latency_ms (record b { requests = suc b.requests }))

failures-add_response :
    (t : Task) (r : Option Response) (b : Bucket)
    → (add_response r b).failures ≡ b.failures + count_if has_failed ((t, r) ∷ [])
unfolding add_response
failures-add_response t none b = omega arith
failures-add_response t (some r) b =
    ground (arith, failures-add_latency r.latency_ms (record b { requests = suc b.requests }))

abbrev IsBounded : Bucket → Type 0
IsBounded b = (b.failures ≤ b.requests) × (b.latency_count ≤ b.requests)

add_response-IsBounded :
    (r : Option Response) (b : Bucket) → IsBounded b → IsBounded (add_response r b)
unfolding add_response
add_response-IsBounded none b h = h
add_response-IsBounded (some r) b h =
    let c = record b { requests = suc b.requests } in
    ground (
      arith,
      h.0,
      h.1,
      requests-add_latency r.latency_ms c,
      failures-add_latency r.latency_ms c,
      count-add_latency r.latency_ms c,
    )

or_new-IsBounded :
    (d : Dict Bucket) (k : String) → All (λ e. IsBounded e.1) d → IsBounded (or_new (get d k))
or_new-IsBounded [] k h = (omega arith, omega arith)
or_new-IsBounded ((j, b) ∷ d) k h =
    if_both (λ (o : Option Bucket). IsBounded (or_new o)) (j == k) (some b) (get d k) h.0
      (or_new-IsBounded d k h.1)

put-IsBounded :
    (d : Dict Bucket) (k : String) (b : Bucket)
    → All (λ e. IsBounded e.1) d
    → IsBounded b
    → All (λ e. IsBounded e.1) (put d k b)
put-IsBounded [] k b h e = (e, tt)
put-IsBounded ((j, c) ∷ d) k b h e =
    if_both (All (λ (e : String × Bucket). IsBounded e.1)) (j == k) ((j, b) ∷ d)
      ((j, c) ∷ put d k b) (e, h.1) (h.0, put-IsBounded d k b h.1 e)

module _ (label : ℕ → String) (now : ℕ) where
  fill-total :
      (f : Bucket → ℕ) (p : Task × Option Response → Bool)
      → f new_bucket ≡ 0
      → ((t : Task) (r : Option Response) (b : Bucket)
          → f (add_response r b) ≡ f b + count_if p ((t, r) ∷ []))
      → (rows : List (Task × Option Response)) (d : Dict Bucket)
      → total f (fill label now rows d) ≡ total f d + count_if p rows
  unfolding fill
  fill-total f p zero_new step [] d = omega arith
  fill-total f p zero_new step ((t, r) ∷ rows) d =
      let k = label (minute (timestamp now t r)) in
      let b = add_response r (or_new (get d k)) in
      ground (
        arith,
        fill-total f p zero_new step rows (put d k b),
        total-put f d k b zero_new,
        step t r (or_new (get d k)),
      )

  fill-IsDict :
      (rows : List (Task × Option Response)) (d : Dict Bucket)
      → IsDict d
      → IsDict (fill label now rows d)
  unfolding fill
  fill-IsDict [] d h = h
  fill-IsDict ((t, r) ∷ rows) d h =
      let k = label (minute (timestamp now t r)) in
      fill-IsDict rows (put d k (add_response r (or_new (get d k))))
        (put-IsDict d k (add_response r (or_new (get d k))) h)

  fill-IsBounded :
      (rows : List (Task × Option Response)) (d : Dict Bucket)
      → All (λ e. IsBounded e.1) d
      → All (λ e. IsBounded e.1) (fill label now rows d)
  unfolding fill
  fill-IsBounded [] d h = h
  fill-IsBounded ((t, r) ∷ rows) d h =
      let k = label (minute (timestamp now t r)) in
      let b = or_new (get d k) in
      fill-IsBounded rows (put d k (add_response r b)) (
        put-IsBounded d k (add_response r b) h
          (add_response-IsBounded r b (or_new-IsBounded d k h)))

module _ (mean : ℕ → ℕ → ℕ) where
  sum_of-points_requests :
      (d : Dict Bucket) → sum_of (λ p. p.requests) (points mean d) ≡ total (λ b. b.requests) d
  sum_of-points_requests [] = refl
  sum_of-points_requests ((k, b) ∷ d) = omega (arith, sum_of-points_requests d)

  sum_of-points_failures :
      (d : Dict Bucket) → sum_of (λ p. p.failures) (points mean d) ≡ total (λ b. b.failures) d
  sum_of-points_failures [] = refl
  sum_of-points_failures ((k, b) ∷ d) = omega (arith, sum_of-points_failures d)

  names-points : (d : Dict Bucket) → names (points mean d) ≡ keys d
  names-points [] = refl
  names-points ((k, b) ∷ d) = ap (λ (xs : List String). k ∷ xs) (names-points d)

  keys-Distinct : (d : Dict Bucket) → IsDict d → Distinct (names (points mean d))
  keys-Distinct [] h = tt
  keys-Distinct ((k, b) ∷ d) h = (ap (elem k) (names-points d) ∙ h.0, keys-Distinct d h.1)

  points-bounded :
      (d : Dict Bucket)
      → All (λ e. IsBounded e.1) d
      → All (λ p. p.failures ≤ p.requests) (points mean d)
  points-bounded [] h = tt
  points-bounded ((k, b) ∷ d) h = (h.0.0, points-bounded d h.1)

  -- How the points of a chart count the rows of the tasks with their responses.
  pub record IsChart (rows : List (Task × Option Response)) (ps : List Point) : Type 0 where
    pub requests : sum_of (λ p. p.requests) ps ≡ count_if is_answered rows
    pub failures : sum_of (λ p. p.failures) ps ≡ count_if has_failed rows
    pub distinct : Distinct (names ps)
    pub bounded : All (λ p. p.failures ≤ p.requests) ps

  points-IsChart :
      (label : ℕ → String) (now : ℕ) (rows : List (Task × Option Response))
      → IsChart rows (points mean (fill label now rows []))
  points-IsChart label now rows = record {
    requests = omega (
      arith,
      sum_of-points_requests (fill label now rows []),
      fill-total label now (λ b. b.requests) is_answered refl requests-add_response rows [],
    );
    failures = omega (
      arith,
      sum_of-points_failures (fill label now rows []),
      fill-total label now (λ b. b.failures) has_failed refl failures-add_response rows [],
    );
    distinct = keys-Distinct (fill label now rows []) (fill-IsDict label now rows [] tt);
    bounded = points-bounded (fill label now rows []) (fill-IsBounded label now rows [] tt);
  }

-- The telemetry of a scan that exists has one point for each label, the requests of its points are
-- the responses of the scan, their failures are those with an error or a status from 400 on, and no
-- point has more failures than requests.
pub get_scan_telemetry-IsChart :
    (tables : Tables) (mean : ℕ → ℕ → ℕ) (now : ℕ) (scan_id : String) (d : tables.Db) (scan : Scan)
    → tables.scan d scan_id ≡ some scan
    → (ps : List Point) × (get_scan_telemetry tables mean now scan_id d ≡ reply ps)
      × IsChart mean (joined tables d (tables.tasks d scan_id)) ps
unfolding get_scan_telemetry
get_scan_telemetry-IsChart tables mean now scan_id d scan found = (
  points mean (fill clock_label now (joined tables d (tables.tasks d scan_id)) []),
  rw (get_scan_telemetry, found),
  points-IsChart mean clock_label now (joined tables d (tables.tasks d scan_id)),
)
