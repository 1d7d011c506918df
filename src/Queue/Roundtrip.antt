-- ===== src/Queue/Roundtrip.antt =====
-- A published task is consumed.
use integrated_work_tll.Prelude.{
  ℕ, String, ◌==◌, ◌≡◌, sym, ap, ◌∙◌, true, List, [], ◌∷◌, Option, some, Dict, take, elem, All,
  eq_iff, arith, Bool-cases, Option-cases, inl, inr, if◌then◌else◌,
}
use integrated_work_tll.Redis.{due, members, first_of, Redis}
use integrated_work_tll.Queue.{QueuePayload, Codec, priority_queue, delayed_queue, publish}
use integrated_work_tll.Queue.Routing.{list-publish, priority_queue-polled, set-publish}
use integrated_work_tll.Queue.Consumer.{
  poll_queues, batch_size, move_due, process_delayed_tasks, consume,
}
use integrated_work_tll.Queue.Consumer.Delayed.{due_tasks}

-- Of lists that are all empty but one, the element of that one is found.
first_of_single :
    (lists : String → List String) (k x : String) (qs : List String)
    → All (λ q. lists q ≡ (if k == q then x ∷ [] else [])) qs
    → elem k qs ≡ true
    → first_of lists qs ≡ some (k, x)
first_of_single lists k x [] h m = cc
first_of_single lists k x (q ∷ qs) h m = elim (Bool-cases (k == q)) [
  | inl e ↦
      let here : lists q ≡ x ∷ [] = h.0 ∙ rw e in
      rw (here, first_of) (ap (λ (j : String). some (j, x)) (sym ((eq_iff k q).0 e)))
  | inr e ↦
      let here : lists q ≡ [] = h.0 ∙ rw e in
      rw (here, first_of)
        (first_of_single lists k x qs h.1 (ground (arith, eq_iff k q, eq_iff q k)))
]

module _ (redis : Redis) (codec : Codec) (queue_name : String) where
  -- Without due tasks the step before a poll changes nothing.
  process_delayed_tasks_idle :
      (now : ℕ) (s : redis.Store)
      → due_tasks redis codec queue_name now s ≡ []
      → process_delayed_tasks redis codec queue_name now s ≡ s
  unfolding process_delayed_tasks move_due
  process_delayed_tasks_idle now s idle =
      elim (Option-cases (redis.zrangebyscore (delayed_queue queue_name) now batch_size s)) [
        | inl n ↦ rw (n, process_delayed_tasks, move_due)
        | inr (xs, v) ↦
            let e : xs ≡ [] =
              redis.zrangebyscore_lem (delayed_queue queue_name) now batch_size s xs v
              ∙ ap (take batch_size) idle in
            rw (v, e, process_delayed_tasks, move_due)
      ]

  filled :
      (p : QueuePayload) (s t : redis.Store)
      → publish redis codec queue_name p s ≡ (true, t)
      → (qs : List String) → All (λ q. redis.list s q ≡ []) qs
      → All
          (λ q.
            redis.list t q
            ≡ (if priority_queue queue_name p.priority_level == q then codec.dump p ∷ [] else []))
          qs
  filled p s t sent [] h = tt
  filled p s t sent (q ∷ qs) h =
      (list-publish redis codec queue_name p s t sent q ∙ rw h.0, filled p s t sent qs h.1)

  -- A task that is published to empty queues, with no delayed task due, is what the next poll
  -- returns, whatever its priority and the random number, provided that Redis answers both and that
  -- what is dumped of it is read back.
  pub consume-publish :
      (p : QueuePayload) (now r : ℕ) (s t u : redis.Store) (answer : Option (String × String))
      → codec.validate (codec.dump p) ≡ some p
      → All (λ q. redis.list s q ≡ []) (poll_queues queue_name r)
      → due_tasks redis codec queue_name now s ≡ []
      → publish redis codec queue_name p s ≡ (true, t)
      → redis.blpop (poll_queues queue_name r) t ≡ some (answer, u)
      → consume redis codec queue_name now r t ≡ (some p, u)
  unfolding consume
  consume-publish p now r s t u answer read_back empty idle sent popped =
      let k = priority_queue queue_name p.priority_level in
      let qs = poll_queues queue_name r in
      let still : due_tasks redis codec queue_name now t ≡ [] =
        ap (λ (d : Dict ℕ). members (due now d))
          (set-publish redis codec queue_name p s t sent (delayed_queue queue_name))
        ∙ idle in
      let found : answer ≡ some (k, codec.dump p) =
        redis.blpop-value qs t u answer popped
        ∙ first_of_single (redis.list t) k (codec.dump p) qs (filled p s t sent qs empty)
            (priority_queue-polled queue_name p.priority_level r) in
      rw (process_delayed_tasks_idle now t still, popped, found, read_back, consume)
