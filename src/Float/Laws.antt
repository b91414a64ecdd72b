-- ===== src/Float/Laws.antt =====
-- Consequences of the facts about `f64`.
use rpceth.Base.{◌≡◌, true, arith}
use rpceth.Float.{Float, IsIeee, IsNumber, IsNonNegative, IsPositive, IsBetween, clamp}

module _ (fl : Float) (ieee : IsIeee fl) where
  open fl use {F, le, lt, is_finite, add, sub, mul, div, max, of_nat}
  open ieee use {
    refl_of_le, le_trans, le_total, lt-eq-not-le, add_mono, mul_mono, mul_comm, one_mul, zero_mul,
  }

  pub zero-IsNumber : IsNumber fl (of_nat 0)
  zero-IsNumber = (refl_of_le _ _ ieee.zero-le-one).0

  pub one-IsNumber : IsNumber fl (of_nat 1)
  one-IsNumber = (refl_of_le _ _ ieee.zero-le-one).1

  -- Clamping a number to [0, 1] gives a value between 0 and 1.
  pub clamp_bounds :
      (x : F)
      → IsNumber fl x
      → (le (of_nat 0) (clamp fl x (of_nat 0) (of_nat 1)) ≡ true)
        × (le (clamp fl x (of_nat 0) (of_nat 1)) (of_nat 1) ≡ true)
  unfolding clamp
  clamp_bounds x n = ground (
    arith,
    zero-IsNumber,
    one-IsNumber,
    ieee.zero-le-one,
    lt-eq-not-le x (of_nat 0) n zero-IsNumber,
    lt-eq-not-le (of_nat 1) x one-IsNumber n,
    lt-eq-not-le (of_nat 1) (of_nat 0) one-IsNumber zero-IsNumber,
    le_total x (of_nat 0) n zero-IsNumber,
    le_total x (of_nat 1) n one-IsNumber,
  )

  -- A value between 0 and 1, scaled by a positive constant, lies between 0 and the constant.
  pub scaled_bounds :
      (x c : F)
      → IsPositive fl c
      → le (of_nat 0) x ≡ true
      → le x (of_nat 1) ≡ true
      → (le (of_nat 0) (mul x c) ≡ true) × (le (mul x c) c ≡ true)
  scaled_bounds x c p low high = ground (
    arith,
    mul_mono (of_nat 0) x c p zero-IsNumber low,
    mul_mono x (of_nat 1) c p low high,
    zero_mul c p,
    one_mul c (ieee.number_of_finite c p.0),
  )

  pub add_nonneg : (x y : F) → IsNonNegative fl x → IsNonNegative fl y → IsNonNegative fl (add x y)
  add_nonneg x y p q = ground (
    arith,
    add_mono (of_nat 0) x (of_nat 0) y zero-IsNumber zero-IsNumber p q,
    ieee.add_zero_zero,
  )

  pub mul_nonneg : (x c : F) → IsPositive fl c → IsNonNegative fl x → IsNonNegative fl (mul x c)
  mul_nonneg x c p q = ground (arith, mul_mono (of_nat 0) x c p zero-IsNumber q, zero_mul c p)

  pub add_bounds :
      (x y a b : F) → IsBetween fl x a → IsBetween fl y b → IsBetween fl (add x y) (add a b)
  add_bounds x y a b (p, q) (r, s) = (add_nonneg x y p r, add_mono x a y b p r q s)

  pub lit1-IsPositive : IsPositive fl (fl.lit 1 1)
  lit1-IsPositive = ieee.constants_positive.0

  pub lit2-IsPositive : IsPositive fl (fl.lit 2 1)
  lit2-IsPositive = ieee.constants_positive.1.0

  pub lit3-IsPositive : IsPositive fl (fl.lit 3 1)
  lit3-IsPositive = ieee.constants_positive.1.1.0

  pub lit4-IsPositive : IsPositive fl (fl.lit 4 1)
  lit4-IsPositive = ieee.constants_positive.1.1.1.0

  pub lit5-IsPositive : IsPositive fl (fl.lit 5 1)
  lit5-IsPositive = ieee.constants_positive.1.1.1.1.0

  pub decay-IsPositive : IsPositive fl (fl.sub (of_nat 1) (fl.lit 3 1))
  decay-IsPositive = ieee.constants_positive.1.1.1.1.1.0

  pub thousand-IsPositive : IsPositive fl (of_nat 1_000)
  thousand-IsPositive = ieee.constants_positive.1.1.1.1.1.1.0

  pub two_thousand-IsPositive : IsPositive fl (of_nat 2_000)
  two_thousand-IsPositive = ieee.constants_positive.1.1.1.1.1.1.1.0

  pub billion-IsPositive : IsPositive fl (of_nat 1_000_000_000)
  billion-IsPositive = ieee.constants_positive.1.1.1.1.1.1.1.1.0
