-- ===== src/Engine/Retry.antt =====
-- Where a failed task goes (executor/workers/engine.py, `_handle_retry`).
use integrated_work_tll.Prelude.{
  ℕ, ◌+◌, ◌-◌, ◌*◌, ◌^◌, String, ◌≡◌, refl, ap, ◌∙◌, Bool, true, some, Option-cases, inl, inr, get,
  ltb, arith,
}
use text.Mathlib.TextPositions.{eq_refl}
use integrated_work_tll.Redis.{Redis}
use integrated_work_tll.Queue.{QueuePayload, Codec, delayed_queue, schedule_delayed}
use integrated_work_tll.Database.{Database, TaskStatus, retrying}
use integrated_work_tll.Engine.{Run, World, update_task_status, handle_retry}

module _ (db : Database) (redis : Redis) (codec : Codec) (queue_name : String) (backoff : ℕ) where
  pub store-update_task_status :
      (commits h : Bool) (id : String) (status : TaskStatus)
      (w : World db redis codec queue_name backoff)
      → (update_task_status db redis codec queue_name backoff commits h id status w).store ≡ w.store
  unfolding update_task_status
  store-update_task_status commits h id status w = elim (Option-cases (db.as_uuid id)) [
    | inl n ↦ rw (update_task_status, n) refl
    | inr (i, e) ↦ elim (Option-cases (db.task w.rows i)) [
      | inl n ↦ rw (update_task_status, e, n) refl
      | inr (t, f) ↦ ground (arith, f, e)
    ]
  ]

module _ (db : Database) (redis : Redis) (codec : Codec) (queue_name : String) (backoff : ℕ)
    (run : Run) (p : QueuePayload) (m : String) (w : World db redis codec queue_name backoff)
    (t : redis.Store) where
  abbrev next : QueuePayload
  next = record p { attempt = p.attempt + 1 }

  abbrev after : World db redis codec queue_name backoff
  after = handle_retry db redis codec queue_name backoff run p m w

  -- A failed task with attempts left, which Redis accepts, is due again after the backoff, doubled
  -- for each attempt before, with one attempt more, and no list has changed.
  pub handle_retry_scheduled :
      ltb p.attempt p.max_retries ≡ true
      → redis.zadd
          (delayed_queue queue_name)
          (codec.dump next)
          (run.now + backoff * 2 ^ p.attempt)
          w.store
        ≡ some t
      → (get (redis.sorted_set after.store (delayed_queue queue_name)) (codec.dump next)
          ≡ some (run.now + backoff * 2 ^ p.attempt))
        × ((q : String) → redis.list after.store q ≡ redis.list w.store q)
  unfolding handle_retry schedule_delayed
  handle_retry_scheduled left accepted =
      let delayed = delayed_queue queue_name in
      let due_at = run.now + backoff * 2 ^ p.attempt in
      let same =
        store-update_task_status db redis codec queue_name backoff run.commits_update run.heard
          p.task_id retrying w in
      let one : p.attempt + 1 - 1 ≡ p.attempt = omega arith in
      let stored : after.store ≡ t = rw (handle_retry, left, same, one, accepted) refl in
      (
        ap (λ (x : redis.Store). get (redis.sorted_set x delayed) (codec.dump next)) stored
            ∙ redis.set-zadd delayed (codec.dump next) due_at w.store t accepted delayed
                (codec.dump next)
            ∙ rw (eq_refl delayed, eq_refl (codec.dump next)) refl,
        λ q.
            ap (λ (x : redis.Store). redis.list x q) stored
            ∙ redis.list-zadd delayed (codec.dump next) due_at w.store t accepted q,
      )
