-- ===== src/Float.antt =====
-- `f64` as the program uses it: an abstract type with the operations that the code calls, and the
-- facts of IEEE 754 arithmetic that the theorems rely on. The facts are kept apart, so that the
-- definitions take the operations alone.
pub mod Laws
pub mod Thousandths
use rpceth.Base.{
  ℕ, ◌+◌, ◌/◌, ◌%◌, ◌^◌, ◌<◌, ◌≡◌, ◌⊎◌, Bool, true, false, not, List, [], ◌∷◌, All, if◌then◌else◌,
}

pub record Float : Type 1 where
  pub F : Type 0
  pub le : F → F → Bool
  pub lt : F → F → Bool
  pub is_finite : F → Bool
  pub add : F → F → F
  pub sub : F → F → F
  pub mul : F → F → F
  pub div : F → F → F
  pub max : F → F → F  -- `f64::max`
  pub of_nat : ℕ → F  -- `as f64`, `f64::from`
  pub lit : ℕ → ℕ → F  -- the literal `m` with `e` digits behind the point

module _ (fl : Float) where
  open fl use {F, le, lt, add, div, of_nat, lit}

  abbrev pub zero_f : F
  zero_f = of_nat 0

  abbrev pub one_f : F
  one_f = of_nat 1

  -- `x == 0.0`
  abbrev pub is_zero : F → Bool
  is_zero x = if le x zero_f then le zero_f x else false

  -- `f64::clamp`
  unfoldable pub clamp : F → F → F → F
  clamp x low high = let y : F = if lt x low then low else x in if lt high y then high else y

  -- `Duration::as_secs_f64`, of a number of nanoseconds
  unfoldable pub as_secs_f64 : ℕ → F
  as_secs_f64 d =
      add (of_nat (d / 1_000_000_000)) (div (of_nat (d % 1_000_000_000)) (of_nat 1_000_000_000))

  abbrev pub IsPositive : F → Type 0
  IsPositive c = (fl.is_finite c ≡ true) × (lt zero_f c ≡ true)

  -- NaN is the value that is not `<=` itself.
  abbrev pub IsNumber : F → Type 0
  IsNumber x = le x x ≡ true

  abbrev pub IsNonNegative : F → Type 0
  IsNonNegative x = le zero_f x ≡ true

  abbrev pub IsBetween : F → F → Type 0
  IsBetween x high = (le zero_f x ≡ true) × (le x high ≡ true)

  -- The constants of the program that others are multiplied with or divided by.
  abbrev pub constants : List F
  constants =
      lit 1 1
      ∷ lit 2 1
      ∷ lit 3 1
      ∷ lit 4 1
      ∷ lit 5 1
      ∷ fl.sub one_f (lit 3 1)
      ∷ of_nat 1_000
      ∷ of_nat 2_000
      ∷ of_nat 1_000_000_000
      ∷ []

module _ (fl : Float) where
  open fl use {F, le, lt, is_finite, add, sub, mul, div, max, of_nat, lit}

  pub record IsIeee : Type 0 where
    pub refl_of_le : (x y : F) → le x y ≡ true → IsNumber fl x × IsNumber fl y
    pub le_trans : (x y z : F) → le x y ≡ true → le y z ≡ true → le x z ≡ true
    pub le_total : (x y : F) → IsNumber fl x → IsNumber fl y → (le x y ≡ true) ⊎ (le y x ≡ true)
    pub lt-eq-not-le : (x y : F) → IsNumber fl x → IsNumber fl y → lt x y ≡ not (le y x)
    pub number_of_finite : (x : F) → is_finite x ≡ true → IsNumber fl x
    -- What lies between 0 and 1 is neither infinite nor NaN.
    pub finite_of_le : (x : F) → IsNonNegative fl x → le x (one_f fl) ≡ true → is_finite x ≡ true
    pub of_nat_nonneg : (n : ℕ) → IsNonNegative fl (of_nat n)
    -- Every integer that the program converts is below 2^64, far from the largest finite value.
    pub of_nat_finite : (n : ℕ) → n < 2 ^ 64 → is_finite (of_nat n) ≡ true
    pub zero-le-one : le (of_nat 0) (of_nat 1) ≡ true
    pub constants_positive : All (IsPositive fl) (constants fl)
    -- Rounding is monotone.
    pub add_mono :
        (a b c d : F)
        → IsNonNegative fl a
        → IsNonNegative fl c
        → le a b ≡ true
        → le c d ≡ true
        → le (add a c) (add b d) ≡ true
    pub mul_mono :
        (a b c : F)
        → IsPositive fl c
        → IsNonNegative fl a
        → le a b ≡ true
        → le (mul a c) (mul b c) ≡ true
    pub mul_comm : (a b : F) → mul a b ≡ mul b a
    pub add_zero_zero : add (of_nat 0) (of_nat 0) ≡ of_nat 0
    pub zero_mul : (c : F) → IsPositive fl c → mul (of_nat 0) c ≡ of_nat 0
    pub one_mul : (x : F) → IsNumber fl x → mul (of_nat 1) x ≡ x
    pub sub_self : (x : F) → is_finite x ≡ true → sub x x ≡ of_nat 0
    pub div_nonneg :
        (x y : F)
        → is_finite x ≡ true
        → IsNonNegative fl x
        → lt (of_nat 0) y ≡ true
        → IsNonNegative fl (div x y)
    -- The larger of two numbers; beside NaN, the other operand.
    pub max_cases :
        (x y : F)
        → IsNumber fl x
        → IsNumber fl y
        → ((max x y ≡ x) × (le y x ≡ true)) ⊎ ((max x y ≡ y) × (le x y ≡ true))
    pub le-max_right : (x y : F) → IsNumber fl y → le y (max x y) ≡ true
    -- Two sums of the program's constants, as rounded.
    pub score_weights :
        le (add (add (add (lit 4 1) (lit 3 1)) (lit 2 1)) (lit 1 1)) (of_nat 1) ≡ true
    pub smoothing_weights : le (add (sub (of_nat 1) (lit 3 1)) (lit 3 1)) (of_nat 1) ≡ true
    pub decay-le-one : le (sub (of_nat 1) (lit 3 1)) (of_nat 1) ≡ true
    pub thresholds : (le (lit 1 1) (lit 3 1) ≡ true) × (le (lit 3 1) (lit 5 1) ≡ true)
