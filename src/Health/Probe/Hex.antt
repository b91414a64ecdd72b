-- ===== src/Health/Probe/Hex.antt =====
-- The quantities of a node's replies: what crates/proxy-core/src/health/probe.rs reads back of the
-- hexadecimal form that the Ethereum JSON-RPC prescribes.
use rpceth.Base.{
  ℕ, zero, suc, ◌+◌, ◌-◌, ◌*◌, ◌/◌, ◌%◌, ◌^◌, ◌<◌, ◌≡◌, refl, ◌∙◌, ap, Option, none, some, [], ◌∷◌,
  ◌++◌, Text, codes, ltb, if◌then◌else◌, arith, Bool-cases, inl, inr,
}
use rpceth.Health.Probe.{
  hex_digit, push_digit, push_digits, from_str_radix, trim_start_0x, quantity,
}

-- The digit of a number below 16, in lower case.
abbrev pub digit : ℕ → ℕ
digit n = if ltb n 10 then b'0' + n else b'a' + (n - 10)

-- The digits of a number below 16 ^ (k + 1), without leading zeros.
unfoldable pub hex_digits : ℕ → ℕ → Text
hex_digits zero n = digit n ∷ []
hex_digits (suc k) n =
    let front = hex_digits k (n / 16) in
    if ltb n 16 then digit n ∷ [] else front ++ digit (n % 16) ∷ []

-- A 64-bit quantity as nodes write it.
unfoldable pub encode_quantity : ℕ → Text
encode_quantity n = codes "0x" ++ hex_digits 15 n

hex_digit-digit : (n : ℕ) → n < 16 → hex_digit (digit n) ≡ some n
unfolding hex_digit
hex_digit-digit n h = ground arith

push_digits-append :
    (acc : Option ℕ) (s t : Text) → push_digits acc (s ++ t) ≡ push_digits (push_digits acc s) t
unfolding push_digits
push_digits-append acc [] t = refl
push_digits-append acc (c ∷ s) t = push_digits-append (push_digit acc c) s t

push_digit-digit :
    (acc d : ℕ)
    → d < 16
    → acc * 16 + d < 2 ^ 64
    → push_digit (some acc) (digit d) ≡ some (acc * 16 + d)
unfolding push_digit
push_digit-digit acc d small fits = rw (push_digit, hex_digit-digit d small) (ground arith)

single_digit : (n : ℕ) → n < 16 → push_digits (some 0) (digit n ∷ []) ≡ some n
unfolding push_digits
single_digit n h = push_digit-digit 0 n h (omega arith) ∙ ap some (omega arith)

push_digit-bad : (acc : Option ℕ) (c : ℕ) → hex_digit c ≡ none → push_digit acc c ≡ none
unfolding push_digit
push_digit-bad none c bad = refl
push_digit-bad (some acc) c bad = rw (push_digit, bad)

push_digits-none : (s : Text) → push_digits none s ≡ none
unfolding push_digits push_digit
push_digits-none [] = refl
push_digits-none (c ∷ s) = push_digits-none s

push_digits-hex_digits :
    (k n : ℕ) → n < 16 ^ suc k → n < 2 ^ 64 → push_digits (some 0) (hex_digits k n) ≡ some n
unfolding push_digits hex_digits
push_digits-hex_digits zero n few fits = single_digit n few
push_digits-hex_digits (suc k) n few fits =
    let front = push_digits-hex_digits k (n / 16) (omega arith) (omega arith) in
    let last = push_digit-digit (n / 16) (n % 16) (omega arith) (omega arith) in
    let whole : n / 16 * 16 + n % 16 ≡ n = omega arith in
    elim (Bool-cases (ltb n 16)) [
      | inl single ↦ rw single (single_digit n (ground arith))
      | inr longer ↦
          rw
            (
              longer,
              push_digits-append (some 0) (hex_digits k (n / 16)) (digit (n % 16) ∷ []),
              front,
              last,
            )
            (ap some whole)
    ]

push_digits-bad :
    (acc : Option ℕ) (c : ℕ) (s : Text) → hex_digit c ≡ none → push_digits acc (c ∷ s) ≡ none
unfolding push_digits
push_digits-bad acc c s bad =
    ap (λ acc. push_digits acc s) (push_digit-bad acc c bad) ∙ push_digits-none s

letter_x : hex_digit b'x' ≡ none
unfolding hex_digit
letter_x = refl

plus_sign : hex_digit b'+' ≡ none
unfolding hex_digit
plus_sign = refl

trim_start_0x-digits : (s : Text) (n : ℕ) → push_digits (some 0) s ≡ some n → trim_start_0x s ≡ s
unfolding trim_start_0x push_digits
trim_start_0x-digits [] n valid = refl
trim_start_0x-digits (c ∷ []) n valid = refl
trim_start_0x-digits (c ∷ d ∷ s) n valid =
    let bad = push_digits-bad (push_digit (some 0) c) d s in ground (arith, letter_x)

from_str_radix-digits :
    (c : ℕ) (s : Text) (n : ℕ)
    → push_digits (some 0) (c ∷ s) ≡ some n
    → from_str_radix (c ∷ s) ≡ some n
unfolding from_str_radix
from_str_radix-digits c [] n valid = valid
from_str_radix-digits c (d ∷ s) n valid =
    let bad = push_digits-bad (some 0) c (d ∷ s) in ground (arith, plus_sign)

quantity-digits :
    (s : Text) (n : ℕ) → push_digits (some 0) s ≡ some n → quantity (codes "0x" ++ s) ≡ n
unfolding quantity trim_start_0x from_str_radix push_digits
quantity-digits [] n valid = ground arith
quantity-digits (c ∷ s) n valid =
    rw (trim_start_0x-digits (c ∷ s) n valid, from_str_radix-digits c s n valid)

-- A 64-bit number that a node writes as a hexadecimal quantity (`0x`, then digits in lower case
-- without leading zeros) is read back by a probe as that number.
pub quantity-encode_quantity : (n : ℕ) → n < 2 ^ 64 → quantity (encode_quantity n) ≡ n
unfolding encode_quantity
quantity-encode_quantity n fits =
    quantity-digits (hex_digits 15 n) n (push_digits-hex_digits 15 n fits fits)
