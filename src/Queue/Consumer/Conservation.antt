-- ===== src/Queue/Consumer/Conservation.antt =====
-- How many tasks the queues and the delayed queue hold before and after due tasks are moved.
use text.Mathlib.TextLemmas.{append_cancel_left}
use text.Mathlib.TextPositions.{eq_refl}
use integrated_work_tll.Prelude.{
  ℕ, suc, ◌+◌, ◌-◌, String, ◌==◌, ◌&◌, ◌≡◌, ◌≢◌, refl, ap, ◌∙◌, Bool, false, List, [], ◌∷◌, none,
  some, Dict, length, length-append, length-take, take, eq_iff, arith, Bool-cases, Option-cases,
  inl, inr, if◌then◌else◌,
}
use integrated_work_tll.Redis.{due, not_due, members, Redis}
use integrated_work_tll.Queue.{Codec, priority_queue, delayed_queue, group_add}
use integrated_work_tll.Queue.Consumer.{batch_size, group_due, move_due}
use integrated_work_tll.Queue.Consumer.Delayed.{stored_for, due_tasks, move_due-HasMoved}

ne_of_tails : (n s t : String) → s ≢ t → (n & s == n & t) ≡ false
ne_of_tails n s t h = elim (Bool-cases (n & s == n & t)) [
  | inl e ↦ absurd (h (append_cancel_left n s t ((eq_iff (n & s) (n & t)).0 e)))
  | inr e ↦ e
]

abbrev bit : Bool → ℕ
bit b = if b then 1 else 0

-- The queue of a task is exactly one of the four.
one_queue :
    (n level : String)
    → bit (priority_queue n level == n & ":critical")
        + bit (priority_queue n level == n & ":high")
        + bit (priority_queue n level == n & ":medium")
        + bit (priority_queue n level == n & ":low")
      ≡ 1
unfolding priority_queue
one_queue n level = ground (
  arith,
  eq_refl (n & ":critical"),
  eq_refl (n & ":high"),
  eq_refl (n & ":medium"),
  eq_refl (n & ":low"),
  ne_of_tails n ":critical" ":high" (ground (arith, eq_iff ":critical" ":high")),
  ne_of_tails n ":critical" ":medium" (ground (arith, eq_iff ":critical" ":medium")),
  ne_of_tails n ":critical" ":low" (ground (arith, eq_iff ":critical" ":low")),
  ne_of_tails n ":high" ":critical" (ground (arith, eq_iff ":high" ":critical")),
  ne_of_tails n ":high" ":medium" (ground (arith, eq_iff ":high" ":medium")),
  ne_of_tails n ":high" ":low" (ground (arith, eq_iff ":high" ":low")),
  ne_of_tails n ":medium" ":critical" (ground (arith, eq_iff ":medium" ":critical")),
  ne_of_tails n ":medium" ":high" (ground (arith, eq_iff ":medium" ":high")),
  ne_of_tails n ":medium" ":low" (ground (arith, eq_iff ":medium" ":low")),
  ne_of_tails n ":low" ":critical" (ground (arith, eq_iff ":low" ":critical")),
  ne_of_tails n ":low" ":high" (ground (arith, eq_iff ":low" ":high")),
  ne_of_tails n ":low" ":medium" (ground (arith, eq_iff ":low" ":medium")),
)

length-members : (d : Dict ℕ) → length (members d) ≡ length d
length-members [] = refl
length-members ((m, k) ∷ d) = ap suc (length-members d)

length-due : (now : ℕ) (d : Dict ℕ) → length (due now d) + length (not_due now d) ≡ length d
length-due now [] = omega arith
length-due now ((m, k) ∷ d) = ground (arith, length-due now d)

module _ (redis : Redis) (codec : Codec) (queue_name : String) where
  -- The length of the list of each priority, added up, with the delayed queue.
  abbrev pub held : redis.Store → ℕ
  held s =
      length (redis.list s (queue_name & ":critical"))
      + length (redis.list s (queue_name & ":high"))
      + length (redis.list s (queue_name & ":medium"))
      + length (redis.list s (queue_name & ":low"))
      + length (redis.sorted_set s (delayed_queue queue_name))

  abbrev stored : String → List String → ℕ
  stored q xs = length (stored_for redis codec queue_name (queue_name & q) xs)

  length-stored_for :
      (xs : List String) (g h : Dict (List String))
      → group_due redis codec queue_name xs g ≡ some h
      → stored ":critical" xs + stored ":high" xs + stored ":medium" xs + stored ":low" xs
        ≡ length xs
  unfolding group_due
  length-stored_for [] g h e = omega arith
  length-stored_for (x ∷ xs) g h e = elim (Option-cases (codec.validate x)) [
    | inl n ↦ let f : none ≡ some h = rw (n, group_due) at e in cc
    | inr (p, v) ↦
        let k = priority_queue queue_name p.priority_level in
        let f : group_due redis codec queue_name xs (group_add k x g) ≡ some h =
          rw (v, group_due) at e in
        ground (
          arith,
          v,
          one_queue queue_name p.priority_level,
          length-stored_for xs (group_add k x g) h f,
        )
  ]

  -- A move of due tasks that Redis accepts keeps the number of tasks that are held, less the due
  -- tasks beyond the first fifty: those are removed from the delayed queue and pushed nowhere.
  pub held-move_due :
      (now : ℕ) (s t : redis.Store)
      → due_tasks redis codec queue_name now s ≢ []
      → move_due redis codec queue_name now s ≡ some t
      → held t + (length (due_tasks redis codec queue_name now s) - batch_size) ≡ held s
  held-move_due now s t some_due e =
      let xs = due_tasks redis codec queue_name now s in
      let d = redis.sorted_set s (delayed_queue queue_name) in
      let m = move_due-HasMoved redis codec queue_name now s t some_due e in
      let at = λ (q : String).
        ap length (m.lists (queue_name & q))
        ∙ length-append (redis.list s (queue_name & q))
            (stored_for redis codec queue_name (queue_name & q) (take batch_size xs)) in
      omega (
        arith,
        at ":critical",
        at ":high",
        at ":medium",
        at ":low",
        ap length m.set,
        length-stored_for (take batch_size xs) [] m.grouped m.valid,
        length-take batch_size xs,
        length-members (due now d),
        length-due now d,
      )
