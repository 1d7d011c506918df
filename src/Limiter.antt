-- ===== src/Limiter.antt =====
-- executor/rate_limiter/limiter.py: token buckets in the process and in Redis, and the limiter that
-- asks several of them.
pub mod Arith
pub mod Bounds
pub mod Waiting
use integrated_work_tll.Prelude.{
  ℕ, zero, suc, ◌+◌, String, ◌&◌, ◌≡◌, Bool, true, false, not, ◌&&◌, List, [], ◌∷◌, ◌++◌, Option,
  none, some, Dict, get, put, ltb, if◌then◌else◌,
}
use Arith.{Numbers, least, greatest}

module _ (n : Numbers) where
  open n use {Number, add, sub, mul, at_most}

  pub record Bucket : Type 0 where
    pub tokens : Number
    pub last_refill : Number
    pub multiplier : Number

  -- The fields of a bucket in Redis that `HMGET` finds, and the time at which its key expires, if any.
  pub record Hash : Type 0 where
    pub tokens : Option Number
    pub last_refill : Option Number
    pub adaptive_multiplier : Option Number
    pub expires : Option Number

module _ (n : Numbers) where
  open n use {Number, add, sub, mul, at_most}

  -- `self._buckets.get(key)`, with a full bucket for a new key.
  abbrev pub or_full : (capacity now : Number) → Option (Bucket n) → Bucket n
  or_full capacity now none = record { tokens = capacity; last_refill = now; multiplier = n.one }
  or_full capacity now (some b) = b

  -- The tokens of a bucket at the time `now`.
  abbrev pub refilled : (capacity refill_rate now : Number) → Bucket n → Number
  refilled capacity refill_rate now b =
      let effective_rate = mul refill_rate b.multiplier in
      let time_passed = greatest n n.zero (sub now b.last_refill) in
      least n capacity (add b.tokens (mul time_passed effective_rate))

  unfoldable pub take_tokens :
      (capacity refill_rate requested now : Number) → Bucket n → Bool × Bucket n
  take_tokens capacity refill_rate requested now b =
      let tokens = refilled capacity refill_rate now b in
      if at_most requested tokens
      then (true, record b { tokens = sub tokens requested; last_refill = now })
      else (false, record b { tokens = tokens; last_refill = now })

  -- `_LocalTokenBucket.acquire`.
  unfoldable pub local_acquire :
      (key : String)
      → (capacity refill_rate requested now : Number) → Dict (Bucket n)
      → Bool × Dict (Bucket n)
  local_acquire key capacity refill_rate requested now buckets =
      let (granted, b) =
        take_tokens capacity refill_rate requested now (or_full capacity now (get buckets key)) in
      (granted, put buckets key b)

  -- `max(0.1, m * 0.5)`.
  abbrev pub slowed : Number → Number
  slowed m = greatest n n.tenth (mul m n.half)

  abbrev pub or_empty_bucket : (now : Number) → Option (Bucket n) → Bucket n
  or_empty_bucket now none = record { tokens = n.zero; last_refill = now; multiplier = n.one }
  or_empty_bucket now (some b) = b

  -- `_LocalTokenBucket.report_429`.
  unfoldable pub local_report_429 : String → (now : Number) → Dict (Bucket n) → Dict (Bucket n)
  local_report_429 key now buckets =
      let b = or_empty_bucket now (get buckets key) in
      put buckets key (record b { multiplier = slowed b.multiplier })

  abbrev pub or_one : Option Number → Number
  or_one none = n.one
  or_one (some m) = m

  -- What `HMSET` writes, with the time at which the key expires.
  abbrev pub hash_of : (tokens last_refill multiplier : Number) → Option Number → Hash n
  hash_of tokens last_refill multiplier expires = record {
    tokens = some tokens;
    last_refill = some last_refill;
    adaptive_multiplier = some multiplier;
    expires = expires;
  }

  -- What the script does from the tokens and the time of the bucket. A grant sets the time at which
  -- the key expires, and a refusal leaves it.
  unfoldable pub script_step :
      (capacity refill_rate now requested tokens last_refill multiplier : Number)
      → Option Number
      → Bool × Hash n
  script_step capacity refill_rate now requested tokens last_refill multiplier expires =
      let effective_rate = mul refill_rate multiplier in
      let time_passed = greatest n n.zero (sub now last_refill) in
      let filled = least n capacity (add tokens (mul time_passed effective_rate)) in
      if at_most requested filled
      then (
        true,
        hash_of (sub filled requested) now multiplier
            (some (add now (n.lifetime capacity effective_rate))),
      )
      else (false, hash_of filled now multiplier expires)

  -- `TOKEN_BUCKET_SCRIPT`, on the hash of its key; `none` is an error of the script, where a bucket
  -- with tokens has no time.
  unfoldable pub run_script :
      (capacity refill_rate now requested : Number) → Hash n → Option (Bool × Hash n)
  unfolding script_step
  run_script capacity refill_rate now requested bucket =
      let multiplier = or_one bucket.adaptive_multiplier in
      elim bucket.tokens [
        | none ↦
            some (
              script_step capacity refill_rate now requested capacity now multiplier bucket.expires)
        | some tokens ↦ elim bucket.last_refill [
          | none ↦ none
          | some last_refill ↦ some (
              script_step capacity refill_rate now requested tokens last_refill multiplier
                bucket.expires)
        ]
      ]

  abbrev pub no_hash : Hash n
  no_hash = record { tokens = none; last_refill = none; adaptive_multiplier = none; expires = none }

  abbrev pub or_no_hash : Option (Hash n) → Hash n
  or_no_hash none = no_hash
  or_no_hash (some h) = h

  -- What is left of a hash at the time `now`: a key that has expired is gone with all its fields.
  abbrev pub is_expired : (now : Number) → Option Number → Bool
  is_expired now none = false
  is_expired now (some e) = at_most e now

  abbrev pub live : (now : Number) → Hash n → Hash n
  live now h = if is_expired now h.expires then no_hash else h

  -- The state of a `RateLimiter`, with the buckets in the process and those in Redis.
  pub record Limiter : Type 0 where
    pub scripting_supported : Option Bool
    pub buckets : Dict (Bucket n)
    pub hashes : Dict (Hash n)

  -- `_ensure_backend`; `loads` says whether Redis takes the script.
  unfoldable pub ensure_backend : (loads : Bool) → Limiter → Limiter
  ensure_backend loads s = elim s.scripting_supported [
    | none ↦ record s { scripting_supported = some loads }
    | some b ↦ s
  ]

  abbrev pub scripted : Limiter → Bool
  scripted s = elim s.scripting_supported [ some true ↦ true | _ ↦ false ]

  abbrev pub in_process :
      (key : String) → (capacity rate requested now : Number) → Limiter → Bool × Limiter
  in_process key capacity rate requested now s =
      let (granted, buckets) = local_acquire key capacity rate requested now s.buckets in
      (granted, record s { buckets = buckets })

  -- `_acquire_one`; `answers` says whether Redis answers, whose clock is taken to be that of the
  -- caller. Where it does not, or the script fails, the limiter changes to the buckets in the process
  -- for good.
  unfoldable pub acquire_one :
      (answers : Bool) (key : String)
      → (capacity rate requested now : Number) → Limiter
      → Bool × Limiter
  acquire_one answers key capacity rate requested now s =
      let local = in_process key capacity rate requested now in
      let degraded = record s { scripting_supported = some false } in
      if not (scripted s)
      then local s
      else if not answers
      then local degraded
      else elim (run_script capacity rate now requested
          (live now (or_no_hash (get s.hashes key)))) [
            | none ↦ local degraded
            | some (granted, h) ↦ (granted, record s { hashes = put s.hashes key h })
          ]

  -- `report_429`, for the key of the domain of the URL.
  unfoldable pub report_429 : (answers : Bool) (domain : String) (now : Number) → Limiter → Limiter
  report_429 answers domain now s =
      let key = "rl:domain:" & domain in
      let h = live now (or_no_hash (get s.hashes key)) in
      let slower = record h {
        adaptive_multiplier = some (slowed (or_one h.adaptive_multiplier));
      } in
      if scripted s && answers then record s { hashes = put s.hashes key slower } else record s {
        scripting_supported = if scripted s then some false else s.scripting_supported;
        buckets = local_report_429 key now s.buckets;
      }

  -- A bucket that a request must pass: its key, and its rate, which is also its capacity.
  pub record Limit : Type 0 where
    pub key : String
    pub rate : Number

  -- `RateLimitConfig`, and the rate of a scan, which is a constant of `acquire`.
  pub record Rates : Type 0 where
    pub global_limit : Number
    pub domains : Dict Number
    pub scan_rate : Number

  -- `domain_rate` is tested as a Boolean: none and 0 are no limit.
  abbrev pub domain_limits : (domain : String) → Option Number → List Limit
  domain_limits domain none = []
  domain_limits domain (some r) =
      if at_most r n.zero && at_most n.zero r
      then []
      else record { key = "rl:domain:" & domain; rate = r } ∷ []

  -- `keys_and_args`, for a request of a scan to a domain.
  unfoldable pub limits : Rates → (domain scan_id : String) → List Limit
  limits rates domain scan_id =
      record { key = "rl:global"; rate = rates.global_limit }
        ∷ domain_limits domain (get rates.domains domain)
      ++ record { key = "rl:scan:" & scan_id; rate = rates.scan_rate } ∷ []

  -- The inner loop: the first bucket that refuses ends it, and what the buckets before it gave is
  -- not returned to them. `reads k` is the time and the answer of Redis at the call `k`.
  unfoldable pub acquire_all :
      (reads : ℕ → Number × Bool) → (requested : Number) → List Limit → Limiter → Bool × Limiter
  acquire_all reads requested [] s = (true, s)
  acquire_all reads requested (l ∷ ls) s =
      let (now, answers) = reads 0 in
      let (granted, s') = acquire_one answers l.key l.rate l.rate requested now s in
      let rest = acquire_all (λ k. reads (suc k)) requested ls s' in
      if granted then rest else (false, s')

  -- The outer loop, with the elapsed milliseconds at each test; `none` if the fuel runs out.
  unfoldable pub acquire_loop :
      (fuel : ℕ)
      → (elapsed : ℕ → ℕ) → (reads : ℕ → ℕ → Number × Bool) → (timeout : ℕ) → (requested : Number)
      → List Limit
      → Limiter
      → Option (Bool × Limiter)
  acquire_loop zero elapsed reads timeout requested ls s = none
  acquire_loop (suc fuel) elapsed reads timeout requested ls s =
      let (granted, s') = acquire_all (reads 0) requested ls s in
      let again =
        acquire_loop fuel (λ k. elapsed (suc k)) (λ k. reads (suc k)) timeout requested ls s' in
      if not (ltb (elapsed 0) timeout)
      then some (false, s)
      else if granted
      then some (true, s')
      else again

  -- `acquire`, for a request of a scan to the domain of its URL.
  unfoldable pub acquire :
      (fuel : ℕ) (loads : Bool) (elapsed : ℕ → ℕ) (reads : ℕ → ℕ → Number × Bool) (timeout : ℕ)
      → (requested : Number) → Rates
      → (domain scan_id : String) → Limiter
      → Option (Bool × Limiter)
  acquire fuel loads elapsed reads timeout requested rates domain scan_id s =
      acquire_loop fuel elapsed reads timeout requested (limits rates domain scan_id)
        (ensure_backend loads s)
