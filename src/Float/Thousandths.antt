-- ===== src/Float/Thousandths.antt =====
-- Fixed-point numbers, in thousandths, in place of `f64`, for examples.
use native.Mathlib.Nat.{mul_comm, mul-le-mul_right}
use rpceth.Base.{ℕ, ◌+◌, ◌-◌, ◌*◌, ◌/◌, ◌^◌, max, ◌≡◌, refl, true, ap, ◌≤◌, arith, leb, ltb}
use rpceth.Float.{Float, IsIeee}

abbrev pub thousandths : Float
thousandths = record {
  F = ℕ;
  le = leb;
  lt = ltb;
  is_finite = λ x. true;
  add = λ x y. x + y;
  sub = λ x y. x - y;
  mul = λ x y. x * y / 1_000;
  div = λ x y. x * 1_000 / y;
  max = max;
  of_nat = λ n. n * 1_000;
  lit = λ m e. m * 1_000 / 10 ^ e;
}

scaled_mono : (a b c : ℕ) → leb a b ≡ true → leb (a * c / 1_000) (b * c / 1_000) ≡ true
scaled_mono a b c h =
    let below : a ≤ b = ground arith in
    let scaled : a * c / 1_000 ≤ b * c / 1_000 = omega (arith, mul-le-mul_right c below) in
    ground arith

pub thousandths-IsIeee : IsIeee thousandths
thousandths-IsIeee = record {
  refl_of_le = λ x y h. ground arith;
  le_trans = λ x y z h k. ground arith;
  le_total = λ x y h k. ground arith;
  lt-eq-not-le = λ x y h k. ground arith;
  number_of_finite = λ x h. ground arith;
  finite_of_le = λ x h k. refl;
  of_nat_nonneg = λ n. ground arith;
  of_nat_finite = λ n h. refl;
  zero-le-one = refl;
  constants_positive = ground arith;
  add_mono = λ a b c d h k p q. ground arith;
  mul_mono = λ a b c h k p. scaled_mono a b c p;
  mul_comm = λ a b. ap (λ n. n / 1_000) (mul_comm a b);
  add_zero_zero = refl;
  zero_mul = λ c h. ground arith;
  one_mul = λ x h. ground arith;
  sub_self = λ x h. ground arith;
  div_nonneg = λ x y h k p. ground arith;
  max_cases = λ x y h k. ground arith;
  le-max_right = λ x y h. ground arith;
  score_weights = refl;
  smoothing_weights = refl;
  decay-le-one = refl;
  thresholds = (refl, refl);
}
