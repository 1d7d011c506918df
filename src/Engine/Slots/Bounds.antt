-- ===== src/Engine/Slots/Bounds.antt =====
-- How many tasks a worker has at once, and after its stop (executor/workers/engine.py).
use integrated_work_tll.Prelude.{
  ℕ, ◌+◌, ◌≤◌, ◌≡◌, Bool, true, false, [], ◌∷◌, length, length-append, arith,
}
use integrated_work_tll.Engine.Slots.{
  Phase, at_top, waiting, fetching, ended, Worker, late_one, Step, enter, leave, take, give_up,
  nothing, spawn, finish, halt, Reached, fresh, step,
}

-- The place that the loop itself holds.
abbrev pub held : Phase → ℕ
held fetching = 1
held _ = 0

-- The tasks that the loop may still start after a stop.
abbrev pub may_start : Bool → Phase → ℕ
may_start true phase = 1
may_start false phase = held phase

pub record InOrder (concurrency : ℕ) (w : Worker) : Type 0 where
  pub places : w.permits + held w.phase + length w.tasks ≡ concurrency
  pub late : w.late + may_start w.running w.phase ≤ 1

nothing_late : (n : ℕ) (b : Bool) → n + may_start b fetching ≤ 1 → n + may_start b at_top ≤ 1
nothing_late n true h = h
nothing_late n false h = omega (arith, h)

spawn_late :
    (n : ℕ) (b : Bool) → n + may_start b fetching ≤ 1 → n + late_one b + may_start b at_top ≤ 1
spawn_late n true h = omega (arith, h)
spawn_late n false h = omega (arith, h)

held-le : (x : Phase) → held x ≤ 1
held-le at_top = omega arith
held-le waiting = omega arith
held-le fetching = omega arith
held-le ended = omega arith

halt_late : (n : ℕ) (b : Bool) (x : Phase) → n + may_start b x ≤ 1 → n + held x ≤ 1
halt_late n true x h = omega (arith, h, held-le x)
halt_late n false x h = h

step-InOrder : (c : ℕ) (v w : Worker) → Step v w → InOrder c v → InOrder c w
step-InOrder c _ _ (enter w) h = record { places = h.places; late = h.late }
step-InOrder c _ _ (leave w) h = record { places = h.places; late = h.late }
step-InOrder c _ _ (take w n) h = record { places = omega (arith, h.places); late = h.late }
step-InOrder c _ _ (give_up w n) h = record { places = h.places; late = h.late }
step-InOrder c _ _ (nothing w) h = record {
  places = omega (arith, h.places);
  late = nothing_late w.late w.running h.late;
}
step-InOrder c _ _ (spawn w p) h = record {
  places = omega (arith, h.places, length-append w.tasks (p ∷ []));
  late = spawn_late w.late w.running h.late;
}
step-InOrder c _ _ (finish w before after p) h = record {
  places = omega (arith, h.places, length-append before after, length-append before (p ∷ after));
  late = h.late;
}
step-InOrder c _ _ (halt w) h = record {
  places = h.places;
  late = halt_late w.late w.running w.phase h.late;
}

-- In every state that a worker reaches, the free places, the place of the loop and the tasks add up
-- to its concurrency, and at most one task was started after its stop.
pub Reached-InOrder : (c : ℕ) (w : Worker) → Reached c w → InOrder c w
Reached-InOrder c _ fresh = record { places = omega arith; late = omega arith }
Reached-InOrder c _ (step v w r s) = step-InOrder c v w s (Reached-InOrder c v r)
