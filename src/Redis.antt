-- ===== src/Redis.antt =====
-- What the executor asks of Redis, which is not part of the repository: lists, sorted sets and
-- transactions, with the documented effect of each command. `none` is an exception of the client,
-- after which nothing has changed.
pub mod Memory
use integrated_work_tll.Prelude.{
  ℕ, ◌≤◌, String, All, ◌==◌, ◌≡◌, Bool, List, [], ◌∷◌, ◌++◌, Option, none, some, Dict, get, select,
  take, leb, not, if◌then◌else◌,
}

-- A command in a transaction.
pub data Command : Type 0 where
  rpush : String → List String → Command
  zremrangebyscore : String → ℕ → Command

-- The members of a sorted set up to a score, and the others; scores are milliseconds.
abbrev pub due : ℕ → Dict ℕ → Dict ℕ
due now = select (λ e. leb e.1 now)

abbrev pub not_due : ℕ → Dict ℕ → Dict ℕ
not_due now = select (λ e. not (leb e.1 now))

-- No member stands before one of a smaller score.
abbrev pub IsRising : Dict ℕ → Type 0
IsRising [] = Unit
IsRising ((m, score) ∷ d) = All (λ e. score ≤ e.1) d × IsRising d

abbrev pub members : Dict ℕ → List String
members [] = []
members ((m, score) ∷ d) = m ∷ members d

-- What a transaction makes of the list and of the sorted set at the key `q`.
abbrev pub list_after : List Command → String → List String → List String
list_after [] q xs = xs
list_after (rpush k ys ∷ cs) q xs = list_after cs q (if k == q then xs ++ ys else xs)
list_after (zremrangebyscore k now ∷ cs) q xs = list_after cs q xs

abbrev pub set_after : List Command → String → Dict ℕ → Dict ℕ
set_after [] q d = d
set_after (rpush k ys ∷ cs) q d = set_after cs q d
set_after (zremrangebyscore k now ∷ cs) q d = set_after cs q (if k == q then not_due now d else d)

-- The first element of the first list that has one, and the key of that list.
abbrev pub first_of : (String → List String) → List String → Option (String × String)
first_of lists [] = none
first_of lists (q ∷ qs) = elim (lists q) [ [] ↦ first_of lists qs | x ∷ xs ↦ some (q, x) ]

abbrev pub tail_of : List String → List String
tail_of [] = []
tail_of (x ∷ xs) = xs

abbrev pub popped : Option (String × String) → String → List String → List String
popped none q xs = xs
popped (some (k, x)) q xs = if k == q then tail_of xs else xs

pub record Redis : Type 1 where
  pub Store : Type 0
  pub list : Store → String → List String
  pub sorted_set : Store → String → Dict ℕ
  pub rising : (s : Store) (q : String) → IsRising (sorted_set s q)
  pub push : String → List String → Store → Option Store
  pub zadd : String → String → ℕ → Store → Option Store
  pub zrangebyscore : String → (now num : ℕ) → Store → Option (List String)
  pub blpop : List String → Store → Option (Option (String × String) × Store)
  pub transaction : List Command → Store → Option Store
  pub list-push :
      (k : String) (xs : List String) (s t : Store)
      → push k xs s ≡ some t
      → (q : String) → list t q ≡ (if k == q then list s q ++ xs else list s q)
  pub set-push :
      (k : String) (xs : List String) (s t : Store)
      → push k xs s ≡ some t
      → (q : String) → sorted_set t q ≡ sorted_set s q
  pub list-zadd :
      (k m : String) (score : ℕ) (s t : Store)
      → zadd k m score s ≡ some t
      → (q : String) → list t q ≡ list s q
  pub set-zadd :
      (k m : String) (score : ℕ) (s t : Store)
      → zadd k m score s ≡ some t
      → (q n : String)
      → get (sorted_set t q) n ≡ (
          if k == q
          then (if m == n then some score else get (sorted_set s q) n)
          else get (sorted_set s q) n)
  pub zrangebyscore_lem :
      (k : String) (now num : ℕ) (s : Store) (xs : List String)
      → zrangebyscore k now num s ≡ some xs
      → xs ≡ take num (members (due now (sorted_set s k)))
  pub blpop-value :
      (qs : List String) (s t : Store) (r : Option (String × String))
      → blpop qs s ≡ some (r, t)
      → r ≡ first_of (list s) qs
  pub list-blpop :
      (qs : List String) (s t : Store) (r : Option (String × String))
      → blpop qs s ≡ some (r, t)
      → (q : String) → list t q ≡ popped r q (list s q)
  pub set-blpop :
      (qs : List String) (s t : Store) (r : Option (String × String))
      → blpop qs s ≡ some (r, t)
      → (q : String) → sorted_set t q ≡ sorted_set s q
  pub list-transaction :
      (cs : List Command) (s t : Store)
      → transaction cs s ≡ some t
      → (q : String) → list t q ≡ list_after cs q (list s q)
  pub set-transaction :
      (cs : List Command) (s t : Store)
      → transaction cs s ≡ some t
      → (q : String) → sorted_set t q ≡ set_after cs q (sorted_set s q)
