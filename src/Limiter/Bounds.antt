-- ===== src/Limiter/Bounds.antt =====
-- The buckets in the process (executor/rate_limiter/limiter.py): what they hold after any calls.
use integrated_work_tll.Prelude.{
  String, ◌≡◌, inl, inr, refl, true, Bool-cases, [], Option, none, some, Dict, get, put, get-put,
  arith, eq_iff,
}
use integrated_work_tll.Limiter.{
  Bucket, or_full, or_empty_bucket, refilled, take_tokens, local_acquire, local_report_429, slowed,
}
use integrated_work_tll.Limiter.Arith.{Numbers, least, greatest}

module _ (n : Numbers) where
  open n use {Number, add, sub, mul, at_most}

  pub record InBounds (capacity : Number) (b : Bucket n) : Type 0 where
    pub tokens_nonneg : at_most n.zero b.tokens ≡ true
    pub tokens-le : at_most b.tokens capacity ≡ true
    pub tenth-le : at_most n.tenth b.multiplier ≡ true
    pub multiplier-le : at_most b.multiplier n.one ≡ true

  least-le : (x y : Number) → at_most (least n x y) x ≡ true
  least-le x y = ground (arith, n.refl x, n.total x y)

  le-least :
      (x y z : Number) → at_most z x ≡ true → at_most z y ≡ true → at_most z (least n x y) ≡ true
  le-least x y z p q = ground arith

  le-greatest : (x y : Number) → at_most x (greatest n x y) ≡ true
  le-greatest x y = ground (arith, n.refl x, n.total y x)

  greatest-le :
      (x y z : Number) → at_most x z ≡ true → at_most y z ≡ true → at_most (greatest n x y) z ≡ true
  greatest-le x y z p q = ground arith

  module _ (capacity : Number) (cap : at_most n.zero capacity ≡ true) where
    full-InBounds : (now : Number) → InBounds capacity (or_full n capacity now none)
    full-InBounds now = record {
      tokens_nonneg = cap;
      tokens-le = n.refl capacity;
      tenth-le = n.tenth-le-one;
      multiplier-le = n.refl n.one;
    }

    empty-InBounds : (now : Number) → InBounds capacity (or_empty_bucket n now none)
    empty-InBounds now = record {
      tokens_nonneg = n.refl n.zero;
      tokens-le = cap;
      tenth-le = n.tenth-le-one;
      multiplier-le = n.refl n.one;
    }

    or_full-InBounds :
        (now : Number) (o : Option (Bucket n))
        → ((b : Bucket n) → o ≡ some b → InBounds capacity b)
        → InBounds capacity (or_full n capacity now o)
    or_full-InBounds now none f = full-InBounds now
    or_full-InBounds now (some b) f = f b refl

    or_empty-InBounds :
        (now : Number) (o : Option (Bucket n))
        → ((b : Bucket n) → o ≡ some b → InBounds capacity b)
        → InBounds capacity (or_empty_bucket n now o)
    or_empty-InBounds now none f = empty-InBounds now
    or_empty-InBounds now (some b) f = f b refl

    refilled_nonneg :
        (rate now : Number) (b : Bucket n)
        → at_most n.zero rate ≡ true
        → InBounds capacity b
        → at_most n.zero (refilled n capacity rate now b) ≡ true
    refilled_nonneg rate now b r h = le-least capacity _ n.zero cap (
        n.add_nonneg _ _ h.tokens_nonneg (
          n.mul_nonneg _ _ (le-greatest n.zero (sub now b.last_refill))
            (n.mul_nonneg _ _ r (n.trans _ _ _ n.zero-le-tenth h.tenth-le))))

    take_tokens-InBounds :
        (rate requested now : Number) (b : Bucket n)
        → at_most n.zero rate ≡ true
        → at_most n.zero requested ≡ true
        → InBounds capacity b
        → InBounds capacity ((take_tokens n capacity rate requested now b).1)
    unfolding take_tokens
    take_tokens-InBounds rate requested now b r q h =
        let full = refilled n capacity rate now b in
        elim (Bool-cases (at_most requested full)) [
          | inl p ↦ rw p (record {
            tokens_nonneg = n.sub_nonneg full requested p;
            tokens-le = n.trans _ _ _ (n.sub-le full requested q) (least-le capacity _);
            tenth-le = h.tenth-le;
            multiplier-le = h.multiplier-le;
          })
          | inr p ↦ rw p (record {
            tokens_nonneg = refilled_nonneg rate now b r h;
            tokens-le = least-le capacity _;
            tenth-le = h.tenth-le;
            multiplier-le = h.multiplier-le;
          })
        ]

    slowed-InBounds :
        (b : Bucket n)
        → InBounds capacity b
        → InBounds capacity (record b { multiplier = slowed n b.multiplier })
    slowed-InBounds b h = record {
      tokens_nonneg = h.tokens_nonneg;
      tokens-le = h.tokens-le;
      tenth-le = le-greatest n.tenth _;
      multiplier-le =
          greatest-le _ _ _ n.tenth-le-one (
            n.trans _ _ _ (n.half-le _ (n.trans _ _ _ n.zero-le-tenth h.tenth-le)) h.multiplier-le);
    }

  -- The buckets that calls of `acquire` and `report_429` make, where each key has one capacity.
  pub data Reachable (capacity : String → Number) : Dict (Bucket n) → Type 0 where
    start : Reachable capacity []
    acquired :
        (d : Dict (Bucket n)) (key : String) (requested now : Number)
        → at_most n.zero requested ≡ true
        → Reachable capacity d
        → Reachable capacity ((local_acquire n key (capacity key) (capacity key) requested now d).1)
    slowed_down :
        (d : Dict (Bucket n)) (key : String) (now : Number)
        → Reachable capacity d
        → Reachable capacity (local_report_429 n key now d)

  module _ (capacity : String → Number)
      (cap : (key : String) → at_most n.zero (capacity key) ≡ true) where
    abbrev pub Bounded : Dict (Bucket n) → Type 0
    Bounded d = (key : String) (b : Bucket n) → get d key ≡ some b → InBounds (capacity key) b

    put-Bounded :
        (d : Dict (Bucket n)) (k : String) (b : Bucket n)
        → Bounded d
        → InBounds (capacity k) b
        → Bounded (put d k b)
    put-Bounded d k b h hb key c p = ground (arith, eq_iff k key, get-put d k key b, h key c)

    -- After any sequence of calls of `acquire` for tokens that are not negative and of `report_429`,
    -- every bucket holds between 0 tokens and its capacity, and its multiplier is between 0.1 and 1.
    pub Reachable-InBounds : (d : Dict (Bucket n)) → Reachable capacity d → Bounded d
    unfolding local_acquire local_report_429
    Reachable-InBounds _ start = λ key b p. ground arith
    Reachable-InBounds _ (acquired d key requested now q r) =
        let h = Reachable-InBounds d r in
        put-Bounded d key _ h (
          take_tokens-InBounds (capacity key) (cap key) _ _ _ _ (cap key) q
            (or_full-InBounds (capacity key) (cap key) now _ (h key)))
    Reachable-InBounds _ (slowed_down d key now r) =
        let h = Reachable-InBounds d r in
        put-Bounded d key _ h (
          slowed-InBounds (capacity key) (cap key) _
            (or_empty-InBounds (capacity key) (cap key) now _ (h key)))
