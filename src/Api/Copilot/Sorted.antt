-- ===== src/Api/Copilot/Sorted.antt =====
-- The order of the endpoints in the overview of `copilot_query`.
use integrated_work_tll.Prelude.{
  ℕ, zero, suc, ◌≤◌, String, ◌==◌, ◌≡◌, refl, ◌∙◌, false, ◌||◌, [], ◌∷◌, Dict, keys, IsDict, elem,
  take, All, leb, eq_iff, inl, inr, Bool-cases, arith,
}
use integrated_work_tll.Api.Copilot.Branches.{insert_count, sort_counts}

abbrev pub IsFalling : Dict ℕ → Type 0
IsFalling [] = Unit
IsFalling (i ∷ items) = All (λ j. j.1 ≤ i.1) items × IsFalling items

module _ (P : String × ℕ → Type 0) where
  All-insert_count : (i : String × ℕ) (d : Dict ℕ) → P i → All P d → All P (insert_count i d)
  unfolding insert_count
  All-insert_count i [] p h = (p, tt)
  All-insert_count i (j ∷ d) p h = ground (arith, All-insert_count i d p h.1)

  pub All-sort_counts : (d : Dict ℕ) → All P d → All P (sort_counts d)
  unfolding sort_counts
  All-sort_counts [] h = tt
  All-sort_counts (i ∷ d) h = All-insert_count i (sort_counts d) h.0 (All-sort_counts d h.1)

  pub All-take : (n : ℕ) (d : Dict ℕ) → All P d → All P (take n d)
  All-take zero d h = tt
  All-take (suc n) [] h = tt
  All-take (suc n) (i ∷ d) h = (h.0, All-take n d h.1)

All-le : (m n : ℕ) (d : Dict ℕ) → m ≤ n → All (λ j. j.1 ≤ m) d → All (λ j. j.1 ≤ n) d
All-le m n [] h a = tt
All-le m n (i ∷ d) h a = (omega arith, All-le m n d h a.1)

insert_count-IsFalling : (i : String × ℕ) (d : Dict ℕ) → IsFalling d → IsFalling (insert_count i d)
unfolding insert_count
insert_count-IsFalling i [] h = (tt, tt)
insert_count-IsFalling i (j ∷ d) h = elim (Bool-cases (leb j.1 i.1)) [
  | inl e ↦ let le : j.1 ≤ i.1 = ground arith in rw e ((le, All-le j.1 i.1 d le h.0), h)
  | inr e ↦
      let le : i.1 ≤ j.1 = ground arith in
      rw e (All-insert_count (λ k. k.1 ≤ j.1) i d le h.0, insert_count-IsFalling i d h.1)
]

pub sort_counts-IsFalling : (d : Dict ℕ) → IsFalling (sort_counts d)
unfolding sort_counts
sort_counts-IsFalling [] = tt
sort_counts-IsFalling (i ∷ d) = insert_count-IsFalling i (sort_counts d) (sort_counts-IsFalling d)

pub take-IsFalling : (n : ℕ) (d : Dict ℕ) → IsFalling d → IsFalling (take n d)
take-IsFalling zero d h = tt
take-IsFalling (suc n) [] h = tt
take-IsFalling (suc n) (i ∷ d) h = (All-take (λ j. j.1 ≤ i.1) n d h.0, take-IsFalling n d h.1)

elem-insert_count :
    (e : String) (i : String × ℕ) (d : Dict ℕ)
    → elem e (keys (insert_count i d)) ≡ (i.0 == e || elem e (keys d))
unfolding insert_count
elem-insert_count e i [] = refl
elem-insert_count e i (j ∷ d) = ground (arith, elem-insert_count e i d)

pub elem-sort_counts : (e : String) (d : Dict ℕ) → elem e (keys (sort_counts d)) ≡ elem e (keys d)
unfolding sort_counts
elem-sort_counts e [] = refl
elem-sort_counts e (i ∷ d) =
    ground (arith, elem-insert_count e i (sort_counts d), elem-sort_counts e d)

insert_count-IsDict :
    (i : String × ℕ) (d : Dict ℕ) → elem i.0 (keys d) ≡ false → IsDict d → IsDict (insert_count i d)
unfolding insert_count
insert_count-IsDict i [] e h = (refl, tt)
insert_count-IsDict i (j ∷ d) e h =
    ground
      (arith, elem-insert_count j.0 i d, eq_iff j.0 i.0, eq_iff i.0 j.0, insert_count-IsDict i d)

pub sort_counts-IsDict : (d : Dict ℕ) → IsDict d → IsDict (sort_counts d)
unfolding sort_counts
sort_counts-IsDict [] h = tt
sort_counts-IsDict (i ∷ d) h =
    insert_count-IsDict i (sort_counts d) (elem-sort_counts i.0 d ∙ h.0) (sort_counts-IsDict d h.1)

elem-take :
    (e : String) (n : ℕ) (d : Dict ℕ) → elem e (keys d) ≡ false → elem e (keys (take n d)) ≡ false
elem-take e zero d h = refl
elem-take e (suc n) [] h = refl
elem-take e (suc n) (i ∷ d) h = ground (arith, elem-take e n d)

pub take-IsDict : (n : ℕ) (d : Dict ℕ) → IsDict d → IsDict (take n d)
take-IsDict zero d h = tt
take-IsDict (suc n) [] h = tt
take-IsDict (suc n) (i ∷ d) h = (elem-take i.0 n d h.0, take-IsDict n d h.1)
