-- ===== src/Limiter/Waiting.antt =====
-- The loop of `acquire` (executor/rate_limiter/limiter.py): it ends, and what its answer means.
use integrated_work_tll.Prelude.{
  String, ℕ, zero, suc, ◌+◌, ◌*◌, ◌/◌, ◌≤◌, ◌≡◌, refl, sym, Bool, true, false, List, [], ◌∷◌,
  Option, some, arith, ltb, not, ap, if◌then◌else◌,
}
use mathlib.Core.Path.{subst}
use mathlib.Core.Bool.{true≢false}
use mathlib.Core.Option.{some-injective}
use integrated_work_tll.Limiter.{
  Rates, limits, Limiter, Limit, acquire_one, acquire_all, acquire_loop, acquire, ensure_backend,
}
use integrated_work_tll.Limiter.Arith.{Numbers}

module _ (n : Numbers) where
  open n use {Number}

  -- A round of the loop in which every bucket of the list, in turn, grants the request.
  pub data Granted (requested : Number)
      : (ℕ → Number × Bool) → List (Limit n) → Limiter n → Limiter n → Type 0 where
    done : {reads : ℕ → Number × Bool} {s : Limiter n} → Granted requested reads [] s s
    next :
        {reads : ℕ → Number × Bool} {l : Limit n} {ls : List (Limit n)} {s s' s'' : Limiter n}
        → acquire_one n ((reads 0).1) l.key l.rate l.rate requested ((reads 0).0) s ≡ (true, s')
        → Granted requested (λ k. reads (suc k)) ls s' s''
        → Granted requested reads (l ∷ ls) s s''

  HasResult : Option (Bool × Limiter n) → Type 0
  HasResult o = (r : Bool × Limiter n) × (o ≡ some r)

  HasResult-if :
      (b : Bool) (r : Bool × Limiter n) (o : Option (Bool × Limiter n))
      → HasResult o
      → HasResult (if b then some r else o)
  unfolding HasResult
  HasResult-if true r o h = (r, refl)
  HasResult-if false r o h = h

  HasResult-now :
      (b : Bool) (r : Bool × Limiter n) (o : Option (Bool × Limiter n))
      → b ≡ true
      → HasResult (if b then some r else o)
  unfolding HasResult
  HasResult-now b r o p = rw p (r, refl)

  acquire_loop-ends :
      (fuel : ℕ) (j timeout : ℕ) (elapsed : ℕ → ℕ) (reads : ℕ → ℕ → Number × Bool)
      (requested : Number)
      → (ls : List (Limit n)) (s : Limiter n) → ((k : ℕ) → 100 * (j + k) ≤ elapsed k)
      → timeout ≤ 100 * (j + fuel)
      → HasResult (acquire_loop n (suc fuel) elapsed reads timeout requested ls s)
  unfolding acquire_loop
  acquire_loop-ends zero j timeout elapsed reads requested ls s h q =
      HasResult-now (not (ltb (elapsed 0) timeout)) _ _ (ground (arith, h 0))
  acquire_loop-ends (suc fuel) j timeout elapsed reads requested ls s h q =
      let later : (k : ℕ) → 100 * (suc j + k) ≤ elapsed (suc k) = λ k. ground (arith, h (suc k)) in
      let (granted, s') = acquire_all n (reads 0) requested ls s in
      HasResult-if (not (ltb (elapsed 0) timeout)) (false, s) _
        (HasResult-if granted (true, s') _
          (acquire_loop-ends fuel (suc j) timeout (λ k. elapsed (suc k)) (λ k. reads (suc k))
            requested ls s' later (omega arith)))

  -- A call of `acquire` ends: where each round takes the 100 ms of its sleep, as many rounds as a
  -- tenth of the timeout in ms, and one more, are enough.
  pub acquire-ends :
      (loads : Bool) (timeout : ℕ) (elapsed : ℕ → ℕ) (reads : ℕ → ℕ → Number × Bool)
      (requested : Number) (rates : Rates n) (domain scan_id : String) (s : Limiter n)
      → ((k : ℕ) → 100 * k ≤ elapsed k)
      → (r : Bool × Limiter n) × (acquire n
            (suc (suc (timeout / 100)))
            loads
            elapsed
            reads
            timeout
            requested
            rates
            domain
            scan_id
            s
          ≡ some r)
  unfolding HasResult acquire
  acquire-ends loads timeout elapsed reads requested rates domain scan_id s h =
      acquire_loop-ends (suc (timeout / 100)) 0 timeout elapsed reads requested
        (limits n rates domain scan_id) (ensure_backend n loads s) (λ k. ground (arith, h k))
        (ground arith)

  Granted-if :
      {reads : ℕ → Number × Bool} {requested : Number} {l : Limit n} {ls : List (Limit n)}
      {s s' : Limiter n} (granted : Bool) (one rest : Limiter n) (more : Bool)
      → ◌≡◌ {A = Bool × Limiter n}
          (acquire_one n ((reads 0).1) l.key l.rate l.rate requested ((reads 0).0) s)
          (granted, one)
      → ((x : Limiter n)
          → ◌≡◌ {A = Bool × Limiter n} (more, rest) (true, x)
          → Granted requested (λ k. reads (suc k)) ls one x)
      → ◌≡◌ {A = Bool × Limiter n} (if granted then (more, rest) else (false, one)) (true, s')
      → Granted requested reads (l ∷ ls) s s'
  Granted-if true one rest more p f q = next p (f _ q)
  Granted-if false one rest more p f q = absurd (true≢false (sym (ap (λ x. x.0) q)))

  acquire_all-Granted :
      (reads : ℕ → Number × Bool) (requested : Number) (ls : List (Limit n)) (s s' : Limiter n)
      → acquire_all n reads requested ls s ≡ (true, s')
      → Granted requested reads ls s s'
  unfolding acquire_all
  acquire_all-Granted reads requested [] s s' p =
      subst (λ x. Granted requested reads [] s x) (ap (λ x. x.1) p) done
  acquire_all-Granted reads requested (l ∷ ls) s s' p =
      let (granted, one) =
        acquire_one n ((reads 0).1) l.key l.rate l.rate requested ((reads 0).0) s in
      let (more, rest) = acquire_all n (λ k. reads (suc k)) requested ls one in
      Granted-if granted one rest more refl
        (λ x. acquire_all-Granted (λ k. reads (suc k)) requested ls one x) p

  -- What holds of the limiter in an answer that the request may go.
  abbrev Then : Option (Bool × Limiter n) → (Limiter n → Type 0) → Type 0
  Then o P = (s : Limiter n) → o ≡ some (true, s) → P s

  Then_if :
      (P : Limiter n → Type 0) (late granted : Bool) (s s' : Limiter n)
      (o : Option (Bool × Limiter n))
      → (late ≡ false → granted ≡ true → P s')
      → Then o P
      → Then (if late then some (false, s) else if granted then some (true, s') else o) P
  Then_if P true granted s s' o f g x p = absurd (ground arith)
  Then_if P false true s s' o f g x p = subst P (ap (λ r. r.1) (some-injective _ _ p)) (f refl refl)
  Then_if P false false s s' o f g x p = g x p

  Round :
      ℕ
      → (elapsed : ℕ → ℕ) → (ℕ → ℕ → Number × Bool)
      → (requested : Number) → List (Limit n)
      → Limiter n
      → Type 0
  Round timeout elapsed reads requested ls s' =
      (k : ℕ) × (s : Limiter n) × (ltb (elapsed k) timeout ≡ true)
      × Granted requested (reads k) ls s s'

  Round-suc :
      (timeout : ℕ) (elapsed : ℕ → ℕ) (reads : ℕ → ℕ → Number × Bool) (requested : Number)
      (ls : List (Limit n)) (s : Limiter n)
      → Round timeout (λ k. elapsed (suc k)) (λ k. reads (suc k)) requested ls s
      → Round timeout elapsed reads requested ls s
  unfolding Round
  Round-suc timeout elapsed reads requested ls s (k, before, p, g) = (suc k, before, p, g)

  acquire_loop-Round :
      (fuel timeout : ℕ) (elapsed : ℕ → ℕ) (reads : ℕ → ℕ → Number × Bool) (requested : Number)
      → (ls : List (Limit n)) (s : Limiter n)
      → Then
          (acquire_loop n fuel elapsed reads timeout requested ls s)
          (Round timeout elapsed reads requested ls)
  unfolding acquire_loop Round
  acquire_loop-Round zero timeout elapsed reads requested ls s = λ x p. absurd (ground arith)
  acquire_loop-Round (suc fuel) timeout elapsed reads requested ls s =
      let (granted, s') = acquire_all n (reads 0) requested ls s in
      Then_if (Round timeout elapsed reads requested ls) (not (ltb (elapsed 0) timeout)) granted s
        s' _
        (λ early yes. (
          0,
          s,
          ground arith,
          acquire_all-Granted (reads 0) requested ls s s' (ap (λ b. (b, s')) yes),
        ))
        (λ x p. Round-suc timeout elapsed reads requested ls x (
          acquire_loop-Round fuel timeout (λ k. elapsed (suc k)) (λ k. reads (suc k)) requested ls
            s' x p))

  -- Where `acquire` answers that the request may go, the global bucket, that of the domain if it has
  -- a rate, and that of the scan granted it in one round that began before the timeout.
  pub acquire-Granted :
      (fuel : ℕ) (loads : Bool) (timeout : ℕ) (elapsed : ℕ → ℕ) (reads : ℕ → ℕ → Number × Bool)
      (requested : Number) (rates : Rates n) (domain scan_id : String) (s s' : Limiter n)
      → acquire n fuel loads elapsed reads timeout requested rates domain scan_id s
        ≡ some (true, s')
      → (k : ℕ) × (before : Limiter n) × (ltb (elapsed k) timeout ≡ true)
        × Granted requested (reads k) (limits n rates domain scan_id) before s'
  unfolding acquire Round
  acquire-Granted fuel loads timeout elapsed reads requested rates domain scan_id s s' p =
      acquire_loop-Round fuel timeout elapsed reads requested (limits n rates domain scan_id)
        (ensure_backend n loads s) s' p
