-- ===== src/Limiter/Arith.antt =====
-- The numbers of the rate limiter: floats without NaN, of which it needs the operations below and
-- the order. The laws hold of rounded arithmetic too, which keeps signs and order.
use integrated_work_tll.Prelude.{
  ℕ, ◌+◌, ◌-◌, ◌*◌, ◌/◌, ◌≡◌, Bool, true, false, leb, arith, if◌then◌else◌,
}

pub record Numbers : Type 1 where
  pub Number : Type 0
  pub zero : Number
  pub one : Number
  pub half : Number
  pub tenth : Number
  pub add : Number → Number → Number
  pub sub : Number → Number → Number
  pub mul : Number → Number → Number
  -- `math.ceil(capacity / rate) * 2`, in seconds.
  pub lifetime : (capacity rate : Number) → Number
  pub at_most : Number → Number → Bool
  pub refl : (x : Number) → at_most x x ≡ true
  pub trans : (x y z : Number) → at_most x y ≡ true → at_most y z ≡ true → at_most x z ≡ true
  pub total : (x y : Number) → at_most x y ≡ false → at_most y x ≡ true
  pub tenth-le-one : at_most tenth one ≡ true
  pub add_nonneg :
      (x y : Number) → at_most zero x ≡ true → at_most zero y ≡ true → at_most zero (add x y) ≡ true
  pub mul_nonneg :
      (x y : Number) → at_most zero x ≡ true → at_most zero y ≡ true → at_most zero (mul x y) ≡ true
  pub sub_nonneg : (x y : Number) → at_most y x ≡ true → at_most zero (sub x y) ≡ true
  pub sub-le : (x y : Number) → at_most zero y ≡ true → at_most (sub x y) x ≡ true
  pub half-le : (x : Number) → at_most zero x ≡ true → at_most (mul x half) x ≡ true
  pub zero-le-tenth : at_most zero tenth ≡ true
  pub zero-le-one : at_most zero one ≡ true

module _ (n : Numbers) where
  open n use {Number, at_most}

  -- Python's `min(x, y)` and `max(x, y)`: the first, unless the second is strictly better.
  abbrev pub least : Number → Number → Number
  least x y = if at_most x y then x else y

  abbrev pub greatest : Number → Number → Number
  greatest x y = if at_most y x then x else y

-- Fixed-point numbers in thousandths.
abbrev scaled_mul : ℕ → ℕ → ℕ
scaled_mul x y = x * y / 1000

pub scaled_half : (x : ℕ) → leb (scaled_mul x 500) x ≡ true
scaled_half x = ground arith

abbrev pub thousandths : Numbers
thousandths = record {
  Number = ℕ;
  zero = 0;
  one = 1000;
  half = 500;
  tenth = 100;
  add = λ x y. x + y;
  sub = λ x y. x - y;
  mul = scaled_mul;
  lifetime = λ capacity rate. 2000 * ((capacity + rate - 1) / rate);
  at_most = leb;
  refl = λ x. ground arith;
  trans = λ x y z p q. ground arith;
  total = λ x y p. ground arith;
  tenth-le-one = ground arith;
  add_nonneg = λ x y p q. ground arith;
  mul_nonneg = λ x y p q. ground arith;
  sub_nonneg = λ x y p. ground arith;
  sub-le = λ x y p. ground arith;
  half-le = λ x p. scaled_half x;
  zero-le-tenth = ground arith;
  zero-le-one = ground arith;
}
