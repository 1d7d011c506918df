-- ===== src/Queue/Consumer/Delayed.antt =====
-- Delayed tasks: which of them move to the queues, which stay, and which are lost.
use mathlib.Core.List.{append-nil, append_assoc}
use text.Mathlib.TextPositions.{eq_refl}
use integrated_work_tll.Prelude.{
  ℕ, String, ◌==◌, ◌≡◌, ◌≢◌, refl, sym, ap, ◌∙◌, Bool, false, List, [], ◌∷◌, ◌++◌, Option, none,
  some, Dict, get, take, select, IsDict, Bool-cases, Option-cases, inl, inr, leb, if◌then◌else◌,
}
use integrated_work_tll.Redis.{zremrangebyscore, due, not_due, members, set_after, IsRising, Redis}
use integrated_work_tll.Redis.Memory.{select-IsRising}
use integrated_work_tll.Queue.{
  QueuePayload, Codec, priority_queue, delayed_queue, or_nil, group_add,
}
use integrated_work_tll.Queue.Routing.{
  group_add-IsDict, get-group_add, list_after-pushes, set_after-pushes,
}
use integrated_work_tll.Queue.Consumer.{batch_size, group_due, moves, move_due}

take_nil : (xs : List String) → [] ≡ take batch_size xs → xs ≡ []
take_nil [] e = refl
take_nil (x ∷ xs) e = cc

module _ (redis : Redis) (codec : Codec) (queue_name : String) where
  -- The queue of a stored text, if the text is a payload.
  abbrev belongs : String → Option QueuePayload → Bool
  belongs q none = false
  belongs q (some p) = priority_queue queue_name p.priority_level == q

  -- The stored texts that belong to the queue `q`, in their order.
  abbrev pub stored_for : String → List String → List String
  stored_for q = select (λ x. belongs q (codec.validate x))

  stored_for-cons :
      (q x : String) (xs : List String) (p : QueuePayload)
      → codec.validate x ≡ some p
      → stored_for q (x ∷ xs)
        ≡ (if priority_queue queue_name p.priority_level == q then x ∷ [] else [])
          ++ stored_for q xs
  stored_for-cons q x xs p v =
      rw v (elim (Bool-cases (priority_queue queue_name p.priority_level == q)) [
        | inl e ↦ rw e
        | inr e ↦ rw e
      ])

  group_due_lem :
      (xs : List String) (g h : Dict (List String))
      → IsDict g
      → group_due redis codec queue_name xs g ≡ some h
      → IsDict h × ((q : String) → or_nil (get h q) ≡ or_nil (get g q) ++ stored_for q xs)
  unfolding group_due
  group_due_lem [] g h d e =
      let same : g ≡ h = cc in rw (← same) (d, λ q. sym (append-nil (or_nil (get g q))))
  group_due_lem (x ∷ xs) g h d e = elim (Option-cases (codec.validate x)) [
    | inl n ↦ let f : none ≡ some h = rw (n, group_due) at e in cc
    | inr (p, v) ↦
        let k = priority_queue queue_name p.priority_level in
        let f : group_due redis codec queue_name xs (group_add k x g) ≡ some h =
          rw (v, group_due) at e in
        let (keys, texts) = group_due_lem xs (group_add k x g) h (group_add-IsDict k x g d) f in
        (
          keys,
          λ q.
              texts q
              ∙ ap (λ (l : List String). l ++ stored_for q xs) (get-group_add k x g q)
              ∙ append_assoc (or_nil (get g q)) (if k == q then x ∷ [] else []) (stored_for q xs)
              ∙ ap (λ (l : List String). or_nil (get g q) ++ l) (sym (stored_for-cons q x xs p v)),
        )
  ]

  -- The due tasks of the delayed queue at the time `now`.
  abbrev pub due_tasks : ℕ → redis.Store → List String
  due_tasks now s = members (due now (redis.sorted_set s (delayed_queue queue_name)))

  -- What a successful move of due tasks did to the store.
  pub record HasMoved (now : ℕ) (s t : redis.Store) : Type 0 where
    pub grouped : Dict (List String)
    pub valid :
        group_due redis codec queue_name (take batch_size (due_tasks now s)) [] ≡ some grouped
    pub lists :
        (q : String)
        → redis.list t q ≡ redis.list s q ++ stored_for q (take batch_size (due_tasks now s))
    pub order : IsRising (due now (redis.sorted_set s (delayed_queue queue_name)))
    pub set :
        redis.sorted_set t (delayed_queue queue_name)
        ≡ not_due now (redis.sorted_set s (delayed_queue queue_name))

  set_after-moves :
      (now : ℕ) (g : Dict (List String)) (d : Dict ℕ)
      → set_after (moves redis codec queue_name now g) (delayed_queue queue_name) d ≡ not_due now d
  set_after-moves now g d =
      set_after-pushes g (zremrangebyscore (delayed_queue queue_name) now ∷ [])
        (delayed_queue queue_name) d
      ∙ rw (eq_refl (delayed_queue queue_name))

  moved :
      (now : ℕ) (s t : redis.Store) (xs : List String) (g : Dict (List String))
      → xs ≡ take batch_size (due_tasks now s)
      → group_due redis codec queue_name xs [] ≡ some g
      → redis.transaction (moves redis codec queue_name now g) s ≡ some t
      → HasMoved now s t
  moved now s t xs g first grouped done =
      let cs = moves redis codec queue_name now g in
      let last = zremrangebyscore (delayed_queue queue_name) now ∷ [] in
      let (keys, texts) = group_due_lem xs [] g tt grouped in
      record {
        grouped = g;
        valid =
            ap (λ (l : List String). group_due redis codec queue_name l []) (sym first) ∙ grouped;
        lists = λ q.
            redis.list-transaction cs s t done q
            ∙ list_after-pushes g last q (redis.list s q) keys
            ∙ ap (λ (l : List String). redis.list s q ++ l) (texts q)
            ∙ ap (λ (l : List String). redis.list s q ++ stored_for q l) first;
        order =
            select-IsRising (λ e. leb e.1 now) (redis.sorted_set s (delayed_queue queue_name))
              (redis.rising s (delayed_queue queue_name));
        set =
            redis.set-transaction cs s t done (delayed_queue queue_name)
            ∙ set_after-moves now g (redis.sorted_set s (delayed_queue queue_name));
      }

  -- Where some task is due and Redis accepts the move, each list gets those of the first fifty due
  -- tasks that belong to it, in the order of the due tasks, which rises by their times, and every due
  -- task leaves the delayed queue.
  pub move_due-HasMoved :
      (now : ℕ) (s t : redis.Store)
      → due_tasks now s ≢ []
      → move_due redis codec queue_name now s ≡ some t
      → HasMoved now s t
  unfolding move_due
  move_due-HasMoved now s t some_due e =
      let delayed = delayed_queue queue_name in
      elim (Option-cases (redis.zrangebyscore delayed now batch_size s)) [
        | inl n ↦ let f : none ≡ some t = rw (n, move_due) at e in cc
        | inr ([], v) ↦ absurd (
            some_due
              (take_nil (due_tasks now s) (redis.zrangebyscore_lem delayed now batch_size s [] v)))
        | inr (x ∷ xs, v) ↦ elim (Option-cases (group_due redis codec queue_name (x ∷ xs) [])) [
          | inl n ↦ let f : none ≡ some t = rw (v, n, move_due) at e in cc
          | inr (g, w) ↦
              let f : redis.transaction (moves redis codec queue_name now g) s ≡ some t =
                rw (v, w, move_due) at e in
              let first : x ∷ xs ≡ take batch_size (due_tasks now s) =
                redis.zrangebyscore_lem delayed now batch_size s (x ∷ xs) v in
              moved now s t (x ∷ xs) g first w f
        ]
      ]
