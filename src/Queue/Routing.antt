-- ===== src/Queue/Routing.antt =====
-- Where published tasks go, and that they are consumed.
use text.Mathlib.TextPositions.{eq_refl}
use mathlib.Core.List.{append-nil, append_assoc}
use integrated_work_tll.Prelude.{
  ℕ, suc, length, String, ◌==◌, ◌&◌, ◌≡◌, refl, sym, ap, ◌∙◌, true, false, List, [], ◌∷◌, ◌++◌,
  Option, none, some, Dict, get, keys, get-put, get_missing, elem, IsDict, put-IsDict, eq_iff,
  arith, Bool-cases, inl, inr, if◌then◌else◌,
}
use integrated_work_tll.Redis.{Command, list_after, set_after, Redis}
use integrated_work_tll.Queue.{
  QueuePayload, Codec, priority_queue, or_nil, group_add, pushes, or_raised, publish,
  group_payloads, publish_batch,
}
use integrated_work_tll.Queue.Consumer.{poll_queues}

-- Whatever the priority of a task, and whatever the random number, its queue is one of those that
-- the consumer polls.
pub priority_queue-polled :
    (queue_name level : String) (r : ℕ)
    → elem (priority_queue queue_name level) (poll_queues queue_name r) ≡ true
unfolding priority_queue poll_queues
priority_queue-polled queue_name level r = ground (
  arith,
  eq_refl (queue_name & ":critical"),
  eq_refl (queue_name & ":high"),
  eq_refl (queue_name & ":medium"),
  eq_refl (queue_name & ":low"),
)

pub group_add-IsDict : (q x : String) (g : Dict (List String)) → IsDict g → IsDict (group_add q x g)
group_add-IsDict q x g h = put-IsDict g q (or_nil (get g q) ++ x ∷ []) h

pub get-group_add :
    (k x : String) (g : Dict (List String)) (q : String)
    → or_nil (get (group_add k x g) q) ≡ or_nil (get g q) ++ (if k == q then x ∷ [] else [])
get-group_add k x g q = elim (Bool-cases (k == q)) [
  | inl e ↦ rw (get-put g k q (or_nil (get g k) ++ x ∷ []), e, (eq_iff k q).0 e)
  | inr e ↦ rw (get-put g k q (or_nil (get g k) ++ x ∷ []), e) (sym (append-nil (or_nil (get g q))))
]

appended :
    (g : Dict (List String)) (k : String) (ys : List String) (q : String) (xs : List String)
    → elem k (keys g) ≡ false
    → (if k == q then xs ++ ys else xs) ++ or_nil (get g q)
      ≡ xs ++ or_nil (if k == q then some ys else get g q)
appended g k ys q xs h = elim (Bool-cases (k == q)) [
  | inl e ↦
      let absent : get g q ≡ none = get_missing g q (rw ((eq_iff k q).0 e) at h) in
      simp (e, absent, append-nil)
  | inr e ↦ simp e
]

-- What the pushes of a grouping append to the list at `q`.
pub list_after-pushes :
    (g : Dict (List String)) (cs : List Command) (q : String) (xs : List String)
    → IsDict g
    → list_after (pushes g ++ cs) q xs ≡ list_after cs q (xs ++ or_nil (get g q))
list_after-pushes [] cs q xs h = rw (append-nil xs)
list_after-pushes ((k, ys) ∷ g) cs q xs h =
    list_after-pushes g cs q (if k == q then xs ++ ys else xs) h.1
    ∙ ap (λ (l : List String). list_after cs q l) (appended g k ys q xs h.0)

pub set_after-pushes :
    (g : Dict (List String)) (cs : List Command) (q : String) (d : Dict ℕ)
    → set_after (pushes g ++ cs) q d ≡ set_after cs q d
set_after-pushes [] cs q d = refl
set_after-pushes ((k, ys) ∷ g) cs q d = set_after-pushes g cs q d

-- What a result says of the command behind it.
pub accepted :
    {S : Type 0} (s t : S) (o : Option S) → or_raised true false s o ≡ (true, t) → o ≡ some t
accepted s t none e = cc
accepted s t (some u) e = cc

count_accepted :
    {S : Type 0} (m n : ℕ) (s t : S) (o : Option S)
    → or_raised (suc m) 0 s o ≡ (suc n, t)
    → (n ≡ m) × (o ≡ some t)
count_accepted m n s t none e = cc
count_accepted m n s t (some u) e = ground arith

module _ (redis : Redis) (codec : Codec) (queue_name : String) where
  -- The texts of the payloads that belong to the queue `q`, in their order.
  abbrev pub texts_for : String → List QueuePayload → List String
  texts_for q [] = []
  texts_for q (p ∷ payloads) =
      (if priority_queue queue_name p.priority_level == q then codec.dump p ∷ [] else [])
      ++ texts_for q payloads

  group_payloads-IsDict :
      (payloads : List QueuePayload) (g : Dict (List String))
      → IsDict g
      → IsDict (group_payloads redis codec queue_name payloads g)
  unfolding group_payloads
  group_payloads-IsDict [] g h = h
  group_payloads-IsDict (p ∷ payloads) g h =
      group_payloads-IsDict payloads
        (group_add (priority_queue queue_name p.priority_level) (codec.dump p) g)
        (group_add-IsDict (priority_queue queue_name p.priority_level) (codec.dump p) g h)

  get-group_payloads :
      (payloads : List QueuePayload) (g : Dict (List String)) (q : String)
      → or_nil (get (group_payloads redis codec queue_name payloads g) q)
        ≡ or_nil (get g q) ++ texts_for q payloads
  unfolding group_payloads
  get-group_payloads [] g q = sym (append-nil (or_nil (get g q)))
  get-group_payloads (p ∷ payloads) g q =
      let k = priority_queue queue_name p.priority_level in
      get-group_payloads payloads (group_add k (codec.dump p) g) q
      ∙ ap (λ (l : List String). l ++ texts_for q payloads) (get-group_add k (codec.dump p) g q)
      ∙ append_assoc (or_nil (get g q)) (if k == q then codec.dump p ∷ [] else [])
          (texts_for q payloads)

  -- A batch that Redis accepts appends to each list the payloads whose priority belongs to it, in
  -- the order of the batch, and no other text; the number of payloads is returned.
  pub list-publish_batch :
      (p : QueuePayload) (payloads : List QueuePayload) (s t : redis.Store) (n : ℕ)
      → publish_batch redis codec queue_name (p ∷ payloads) s ≡ (suc n, t)
      → (n ≡ length payloads)
        × ((q : String) → redis.list t q ≡ redis.list s q ++ texts_for q (p ∷ payloads))
  unfolding publish_batch
  list-publish_batch p payloads s t n e =
      let g = group_payloads redis codec queue_name (p ∷ payloads) [] in
      let (same, done) =
        count_accepted (length payloads) n s t (redis.transaction (pushes g) s) e in
      (
        same,
        λ q.
            redis.list-transaction (pushes g) s t done q
            ∙ ap (λ (cs : List Command). list_after cs q (redis.list s q))
                (sym (append-nil (pushes g)))
            ∙ list_after-pushes g [] q (redis.list s q) (group_payloads-IsDict (p ∷ payloads) [] tt)
            ∙ ap (λ (l : List String). redis.list s q ++ l)
                (get-group_payloads (p ∷ payloads) [] q),
      )

  -- A payload that Redis accepts stands at the end of the list of its priority, and no other list
  -- has changed.
  pub list-publish :
      (p : QueuePayload) (s t : redis.Store)
      → publish redis codec queue_name p s ≡ (true, t)
      → (q : String)
      → redis.list t q ≡ (
          if priority_queue queue_name p.priority_level == q
          then redis.list s q ++ codec.dump p ∷ []
          else redis.list s q)
  unfolding publish
  list-publish p s t e =
      let k = priority_queue queue_name p.priority_level in
      redis.list-push k (codec.dump p ∷ []) s t
        (accepted s t (redis.push k (codec.dump p ∷ []) s) e)

  pub set-publish :
      (p : QueuePayload) (s t : redis.Store)
      → publish redis codec queue_name p s ≡ (true, t)
      → (q : String) → redis.sorted_set t q ≡ redis.sorted_set s q
  unfolding publish
  set-publish p s t e =
      let k = priority_queue queue_name p.priority_level in
      redis.set-push k (codec.dump p ∷ []) s t (accepted s t (redis.push k (codec.dump p ∷ []) s) e)
