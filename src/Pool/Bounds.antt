-- ===== src/Pool/Bounds.antt =====
-- How many workers a pool has (executor/worker_manager/manager.py).
use integrated_work_tll.Prelude.{
  ℕ, zero, suc, ◌+◌, ◌-◌, ◌≤◌, ◌≡◌, inl, inr, refl, Bool, List, [], ◌∷◌, ◌++◌, length,
  length-append, ltb, min, Bool-cases, arith,
}
use integrated_work_tll.Pool.{
  Worker, Pool, polled, retire, cleanup_idle_workers, scale_up, calculate_desired_workers,
  monitor_round, start,
}

length-polled :
    (threshold now : ℕ) (engines : List Worker)
    → length (polled threshold now engines) ≡ length engines
unfolding polled
length-polled threshold now [] = refl
length-polled threshold now (e ∷ engines) = ground (arith, length-polled threshold now engines)

-- The number of workers falls, and not below the floor unless it was there.
retire_bounds :
    (floor remaining extra : ℕ) (engines : List (Bool × Worker))
    → remaining ≡ extra + length engines
    → (extra + length (retire floor remaining engines) ≤ remaining)
      × (min floor remaining ≤ extra + length (retire floor remaining engines))
unfolding retire
retire_bounds floor remaining extra [] e = omega arith
retire_bounds floor remaining extra ((idle, w) ∷ engines) e = ground (
  arith,
  retire_bounds floor (remaining - 1) extra engines,
  retire_bounds floor remaining (suc extra) engines,
)

cleanup_bounds :
    (now : ℕ) (p : Pool)
    → let n = length (cleanup_idle_workers now p).active_engines in
      (n ≤ length p.active_engines) × (min p.min_workers (length p.active_engines) ≤ n)
unfolding cleanup_idle_workers
cleanup_bounds now p =
    let engines = polled p.idle_timeout now p.active_engines in
    ground (
      arith,
      retire_bounds p.min_workers (length p.active_engines) 0 engines,
      length-polled p.idle_timeout now p.active_engines,
    )

length-scale_up :
    (spawn : ℕ → Worker) (count : ℕ) (p : Pool)
    → length p.active_engines ≤ p.max_workers
    → length (scale_up spawn count p).active_engines
      ≡ min (length p.active_engines + count) p.max_workers
unfolding scale_up
length-scale_up spawn zero p h = omega arith
length-scale_up spawn (suc count) p h =
    let larger = record p {
      active_engines = p.active_engines ++ spawn (length p.active_engines) ∷ [];
    } in
    ground (
      arith,
      length-scale_up spawn count larger,
      length-append p.active_engines (spawn (length p.active_engines) ∷ []),
    )

scale_up_limits :
    (spawn : ℕ → Worker) (count : ℕ) (p : Pool)
    → ((scale_up spawn count p).min_workers ≡ p.min_workers)
      × ((scale_up spawn count p).max_workers ≡ p.max_workers)
unfolding scale_up
scale_up_limits spawn zero p = (refl, refl)
scale_up_limits spawn (suc count) p =
    let larger = record p {
      active_engines = p.active_engines ++ spawn (length p.active_engines) ∷ [];
    } in
    ground (arith, scale_up_limits spawn count larger)

cleanup_limits :
    (now : ℕ) (p : Pool)
    → ((cleanup_idle_workers now p).min_workers ≡ p.min_workers)
      × ((cleanup_idle_workers now p).max_workers ≡ p.max_workers)
unfolding cleanup_idle_workers
cleanup_limits now p = (refl, refl)

-- The bounds that a pool keeps.
pub record InBounds (p : Pool) : Type 0 where
  pub at_least : p.min_workers ≤ length p.active_engines
  pub at_most : length p.active_engines ≤ p.max_workers

-- A round of the monitor keeps the number of workers between the two bounds, and raises it to the
-- number that the depth of the queues asks for, or to the upper bound.
pub monitor_round-InBounds :
    (spawn : ℕ → Worker) (queue_depth now : ℕ) (p : Pool)
    → InBounds p
    → let after = monitor_round spawn queue_depth now p in
      InBounds after
      × (min (calculate_desired_workers p.min_workers queue_depth) p.max_workers
          ≤ length after.active_engines)
unfolding monitor_round
monitor_round-InBounds spawn queue_depth now p h =
    let cleaned = cleanup_idle_workers now p in
    let desired = calculate_desired_workers p.min_workers queue_depth in
    let n = length cleaned.active_engines in
    let count = min (desired - n) (p.max_workers - n) in
    let (falls, floor) = cleanup_bounds now p in
    let (low, high) = cleanup_limits now p in
    let (low', high') = scale_up_limits spawn count cleaned in
    let grown = length-scale_up spawn count cleaned (omega arith) in
    elim (Bool-cases (ltb n desired)) [
      | inl b ↦ rw b (record { at_least = omega arith; at_most = omega arith }, omega arith)
      | inr b ↦ rw b (record { at_least = omega arith; at_most = omega arith }, ground arith)
    ]

-- The pools that the start and rounds of the monitor make.
pub data Monitored (p : Pool) (spawn : ℕ → Worker) : Pool → Type 0 where
  started : Monitored p spawn (start spawn p)
  round :
      (q : Pool) (queue_depth now : ℕ)
      → Monitored p spawn q
      → Monitored p spawn (monitor_round spawn queue_depth now q)

start-InBounds :
    (p : Pool) (spawn : ℕ → Worker)
    → p.active_engines ≡ []
    → p.min_workers ≤ p.max_workers
    → InBounds (start spawn p)
unfolding start
start-InBounds p spawn e h =
    let none : length p.active_engines ≡ 0 = rw e refl in
    let grown = length-scale_up spawn p.min_workers p (omega arith) in
    let (low, high) = scale_up_limits spawn p.min_workers p in
    record { at_least = omega arith; at_most = omega arith }

-- A pool that starts empty, with a lower bound that is not above the upper one, starts in its
-- bounds, and every sequence of rounds of the monitor keeps it there.
pub Monitored-InBounds :
    (p : Pool) (spawn : ℕ → Worker) (q : Pool)
    → p.active_engines ≡ []
    → p.min_workers ≤ p.max_workers
    → Monitored p spawn q
    → InBounds q
Monitored-InBounds p spawn _ e h started = start-InBounds p spawn e h
Monitored-InBounds p spawn _ e h (round q depth now r) =
    (monitor_round-InBounds spawn depth now q (Monitored-InBounds p spawn q e h r)).0
