-- ===== src/Redis/Memory.antt =====
-- A store in memory that meets the assumptions: every command succeeds.
use integrated_work_tll.Prelude.{
  ℕ, ◌≤◌, String, ◌==◌, ◌≡◌, refl, sym, ap, ◌∙◌, Bool, true, false, List, [], ◌∷◌, ◌++◌, Option,
  none, some, Dict, get, take, leb, not, select, All, All-select_all, Bool-cases, inl, inr, eq_iff,
  arith, if◌then◌else◌,
}
use integrated_work_tll.Redis.{
  Command, rpush, zremrangebyscore, due, not_due, IsRising, members, list_after, set_after,
  first_of, popped, Redis,
}

-- The sorted sets by rising score.
pub record MemoryStore : Type 0 where
  pub lists : String → List String
  pub sets : String → Dict ℕ
  pub ordered : (q : String) → IsRising (sets q)

pub select-IsRising : (p : String × ℕ → Bool) (d : Dict ℕ) → IsRising d → IsRising (select p d)
select-IsRising p [] h = tt
select-IsRising p ((m, score) ∷ d) h = elim (Bool-cases (p (m, score))) [
  | inl e ↦ rw e (All-select_all (λ x. score ≤ x.1) p d h.0, select-IsRising p d h.1)
  | inr e ↦ rw e (select-IsRising p d h.1)
]

-- A member with its score, before the members of a larger one.
unfoldable pub insert : String → ℕ → Dict ℕ → Dict ℕ
insert m score [] = (m, score) ∷ []
insert m score ((k, n) ∷ d) =
    let rest = insert m score d in if leb score n then (m, score) ∷ (k, n) ∷ d else (k, n) ∷ rest

All-le : (m n : ℕ) (d : Dict ℕ) → m ≤ n → All (λ e. n ≤ e.1) d → All (λ e. m ≤ e.1) d
All-le m n [] h a = tt
All-le m n (e ∷ d) h a = (omega arith, All-le m n d h a.1)

All-insert :
    (n : ℕ) (m : String) (score : ℕ) (d : Dict ℕ)
    → n ≤ score
    → All (λ e. n ≤ e.1) d
    → All (λ e. n ≤ e.1) (insert m score d)
unfolding insert
All-insert n m score [] h a = (h, tt)
All-insert n m score (e ∷ d) h a = ground (arith, All-insert n m score d h a.1)

insert-IsRising : (m : String) (score : ℕ) (d : Dict ℕ) → IsRising d → IsRising (insert m score d)
unfolding insert
insert-IsRising m score [] h = (tt, tt)
insert-IsRising m score ((k, n) ∷ d) h = elim (Bool-cases (leb score n)) [
  | inl e ↦ let le : score ≤ n = ground arith in rw e ((le, All-le score n d le h.0), h)
  | inr e ↦
      let le : n ≤ score = ground arith in
      rw e (All-insert n m score d le h.0, insert-IsRising m score d h.1)
]

abbrev without : String → Dict ℕ → Dict ℕ
without m = select (λ e. not (e.0 == m))

get-without : (m n : String) (d : Dict ℕ) → get (without m d) n ≡ (if m == n then none else get d n)
get-without m n [] = ground arith
get-without m n ((k, i) ∷ d) = ground (arith, eq_iff k m, eq_iff k n, eq_iff m n, get-without m n d)

get-insert :
    (m n : String) (score : ℕ) (d : Dict ℕ)
    → get d m ≡ none
    → get (insert m score d) n ≡ (if m == n then some score else get d n)
unfolding insert
get-insert m n score [] h = refl
get-insert m n score ((k, i) ∷ d) h =
    ground (arith, eq_iff k m, eq_iff k n, eq_iff m n, eq_iff m m, get-insert m n score d)

abbrev put_score : String → ℕ → Dict ℕ → Dict ℕ
put_score m score d = insert m score (without m d)

get-put_score :
    (m n : String) (score : ℕ) (d : Dict ℕ)
    → get (put_score m score d) n ≡ (if m == n then some score else get d n)
get-put_score m n score d =
    get-insert m n score (without m d) (get-without m m d ∙ ground (arith, eq_iff m m))
    ∙ ground (arith, get-without m n d)

pub put_score-IsRising :
    (m : String) (score : ℕ) (d : Dict ℕ) → IsRising d → IsRising (put_score m score d)
put_score-IsRising m score d h =
    insert-IsRising m score (without m d) (select-IsRising (λ e. not (e.0 == m)) d h)

pub if_IsRising :
    (b : Bool) (d e : Dict ℕ) → IsRising d → IsRising e → IsRising (if b then d else e)
if_IsRising true d e h i = h
if_IsRising false d e h i = i

pub set_after-IsRising :
    (cs : List Command) (q : String) (d : Dict ℕ) → IsRising d → IsRising (set_after cs q d)
set_after-IsRising [] q d h = h
set_after-IsRising (rpush k ys ∷ cs) q d h = set_after-IsRising cs q d h
set_after-IsRising (zremrangebyscore k now ∷ cs) q d h =
    set_after-IsRising cs q (if k == q then not_due now d else d)
      (if_IsRising (k == q) (not_due now d) d (select-IsRising (λ e. not (leb e.1 now)) d h) h)

abbrev write {ℓ} : {A : Type ℓ} → (String → A) → String → (A → A) → String → A
write f k g q = if k == q then g (f q) else f q

abbrev push : String → List String → MemoryStore → MemoryStore
push k xs s = record s { lists = write s.lists k (λ l. l ++ xs) }

abbrev zadd : String → String → ℕ → MemoryStore → MemoryStore
zadd k m score s = record {
  lists = s.lists;
  sets = write s.sets k (put_score m score);
  ordered = λ q.
      if_IsRising (k == q) (put_score m score (s.sets q)) (s.sets q)
        (put_score-IsRising m score (s.sets q) (s.ordered q)) (s.ordered q);
}

abbrev blpop : List String → MemoryStore → Option (String × String) × MemoryStore
blpop qs s = let r = first_of s.lists qs in (r, record s { lists = λ q. popped r q (s.lists q) })

abbrev transaction : List Command → MemoryStore → MemoryStore
transaction cs s = record {
  lists = λ q. list_after cs q (s.lists q);
  sets = λ q. set_after cs q (s.sets q);
  ordered = λ q. set_after-IsRising cs q (s.sets q) (s.ordered q);
}

pub some_eq {ℓ} : {A : Type ℓ} {x y : A} → some x ≡ some y → x ≡ y
some_eq e = cc

pub at_lists : {s t : MemoryStore} (q : String) → some s ≡ some t → t.lists q ≡ s.lists q
at_lists q e = sym (ap (λ (x : MemoryStore). x.lists q) (some_eq e))

pub at_sets : {s t : MemoryStore} (q : String) → some s ≡ some t → t.sets q ≡ s.sets q
at_sets q e = sym (ap (λ (x : MemoryStore). x.sets q) (some_eq e))

pub set-zadd_lem :
    (k m : String) (score : ℕ) (s t : MemoryStore)
    → some (zadd k m score s) ≡ some t
    → (q n : String)
    → get (t.sets q) n
      ≡ (if k == q then (if m == n then some score else get (s.sets q) n) else get (s.sets q) n)
set-zadd_lem k m score s t e q n =
    rw (at_sets q e) (ground (arith, get-put_score m n score (s.sets q)))

module _ (qs : List String) (s t : MemoryStore) (r : Option (String × String))
    (e : some (blpop qs s) ≡ some (r, t)) where
  pub blpop_first : first_of s.lists qs ≡ r
  blpop_first = ap (λ (x : Option (String × String) × MemoryStore). x.0) (some_eq e)

  pub list-blpop_lem : (q : String) → t.lists q ≡ popped r q (s.lists q)
  list-blpop_lem q =
      sym (ap (λ (x : Option (String × String) × MemoryStore). x.1.lists q) (some_eq e))
      ∙ ap (λ (o : Option (String × String)). popped o q (s.lists q)) blpop_first

  pub set-blpop_lem : (q : String) → t.sets q ≡ s.sets q
  set-blpop_lem q =
      sym (ap (λ (x : Option (String × String) × MemoryStore). x.1.sets q) (some_eq e))

abbrev pub memory : Redis
memory = record {
  Store = MemoryStore;
  list = λ s. s.lists;
  sorted_set = λ s. s.sets;
  rising = λ s q. s.ordered q;
  push = λ k xs s. some (push k xs s);
  zadd = λ k m score s. some (zadd k m score s);
  zrangebyscore = λ k now num s. some (take num (members (due now (s.sets k))));
  blpop = λ qs s. some (blpop qs s);
  transaction = λ cs s. some (transaction cs s);
  list-push = λ k xs s t e q. at_lists q e;
  set-push = λ k xs s t e q. at_sets q e;
  list-zadd = λ k m score s t e q. at_lists q e;
  set-zadd = set-zadd_lem;
  zrangebyscore_lem = λ k now num s xs e. sym (some_eq e);
  blpop-value = λ qs s t r e. sym (blpop_first qs s t r e);
  list-blpop = λ qs s t r e q. list-blpop_lem qs s t r e q;
  set-blpop = λ qs s t r e q. set-blpop_lem qs s t r e q;
  list-transaction = λ cs s t e q. at_lists q e;
  set-transaction = λ cs s t e q. at_sets q e;
}
