-- ===== src/Tests/Limiter.antt =====
-- Runs of the rate limiter, in thousandths.
use integrated_work_tll.Prelude.{
  get, ℕ, suc, ◌*◌, ◌/◌, String, ◌≡◌, refl, Bool, true, false, [], ◌∷◌, some, Dict, ltb, leb, arith,
}
use integrated_work_tll.Limiter.Arith.{thousandths}
use integrated_work_tll.Limiter.{
  Rates, limits, Bucket, Limiter, local_acquire, local_report_429, acquire_one, acquire_all,
  acquire_loop, ensure_backend, take_tokens, acquire,
}
use integrated_work_tll.Limiter.Bounds.{InBounds, start, acquired, slowed_down, Reachable-InBounds}
use integrated_work_tll.Limiter.Waiting.{Granted, acquire-ends, acquire-Granted}

abbrev capacity : String → ℕ
capacity key = 10000

capacity_nonneg : (key : String) → leb 0 (capacity key) ≡ true
capacity_nonneg key = refl

abbrev buckets : Dict (Bucket thousandths)
buckets =
    local_report_429 thousandths "rl:global" 7
      ((local_acquire thousandths "rl:global" 10000 10000 1000 5 []).1)

abbrev bucket : Bucket thousandths
bucket = record { tokens = 9000; last_refill = 5; multiplier = 500 }

bucket_there : get buckets "rl:global" ≡ some bucket
unfolding local_acquire local_report_429 take_tokens
bucket_there = refl

Reachable-InBounds_example : InBounds thousandths 10000 bucket
Reachable-InBounds_example =
    Reachable-InBounds thousandths capacity capacity_nonneg buckets
      (slowed_down _ "rl:global" 7 (acquired [] "rl:global" 1000 5 (ground arith) start))
      "rl:global" bucket bucket_there

abbrev in_process : Limiter thousandths
in_process = record { scripting_supported = some false; buckets = []; hashes = [] }

abbrev rates : Rates thousandths
rates = record { global_limit = 10000; domains = ("shop.example", 5000) ∷ []; scan_rate = 20000 }

acquire-ends_example :
    (r : Bool × Limiter thousandths) × (acquire thousandths
        (suc (suc (5000 / 100)))
        true
        (λ k. 100 * k)
        (λ k j. (k, true))
        5000
        1000
        rates
        "shop.example"
        "s-1"
        in_process
      ≡ some r)
acquire-ends_example =
    acquire-ends thousandths true 5000 (λ k. 100 * k) (λ k j. (k, true)) 1000 rates "shop.example"
      "s-1" in_process (λ k. omega arith)

abbrev left : ℕ → Bucket thousandths
left tokens = record { tokens = tokens; last_refill = 0; multiplier = 1000 }

abbrev after : Limiter thousandths
after = record in_process {
  buckets =
      ("rl:global", left 9000)
      ∷ ("rl:domain:shop.example", left 4000)
      ∷ ("rl:scan:s-1", left 19000)
      ∷ [];
}

may_go :
    acquire thousandths 1 true
      (λ k. 100 * k)
      (λ k j. (k, true))
      5000
      1000
      rates
      "shop.example"
      "s-1"
      in_process
    ≡ some (true, after)
unfolding acquire acquire_loop acquire_all acquire_one ensure_backend local_acquire take_tokens
    limits
may_go = refl

acquire-Granted_example :
    (k : ℕ) × (before : Limiter thousandths) × (ltb (100 * k) 5000 ≡ true)
    × Granted thousandths 1000
        (λ j. (k, true))
        (limits thousandths rates "shop.example" "s-1")
        before
        after
acquire-Granted_example =
    acquire-Granted thousandths 1 true 5000 (λ k. 100 * k) (λ k j. (k, true)) 1000 rates
      "shop.example" "s-1" in_process after may_go
