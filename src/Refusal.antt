-- ===== src/Refusal.antt =====
-- `ConfigError` of crates/proxy-core/src/config.rs, and the results of checks: the first refusal ends
-- a chain of them.
use rpceth.Base.{Bool, true, false, ◌≡◌, ◌↔◌, refl, Text, arith, ◌⊎◌, inl, inr}

pub data ConfigError : Type 0 where
  missing_file read_failed deserialize_failed validation : Text → ConfigError

-- `Result<A, ConfigError>`
pub data Result (A : Type 0) : Type 0 where
  err : ConfigError → Result A
  ok : (value : A) → Result A

-- `if bad { return Err(ConfigError::Validation(message)) }`
abbrev pub refuse_if : Bool → Text → Result (Unit {0})
refuse_if true message = err (validation message)
refuse_if false message = ok tt

infixl 5 ◌>>◌ ◌>>=◌
abbrev pub ◌>>◌ : {A : Type 0} → Result (Unit {0}) → Result A → Result A
ok passed >> next = next
err refusal >> next = err refusal

-- The `?` operator.
abbrev pub ◌>>=◌ : {A B : Type 0} → Result A → (A → Result B) → Result B
ok value >>= next = next value
err refusal >>= next = err refusal

-- The code returns nothing but "no refusal".
abbrev pub Accepted : Result (Unit {0}) → Type 0
Accepted r = r ≡ ok tt

-- A refusal is left out exactly if its test fails, which is what `P` says.
pub refuse_if_iff {ℓ} :
    {P : Type ℓ} (bad : Bool) (message : Text)
    → ((bad ≡ false) ↔ P)
    → Accepted (refuse_if bad message) ↔ P
refuse_if_iff true message (f, g) = (λ e. cc, λ p. ground (arith, g p))
refuse_if_iff false message (f, g) = (λ e. f refl, λ p. refl)

-- A chain is accepted if and only if both parts are.
pub >>_iff {ℓ κ} :
    {P : Type ℓ} {Q : Type κ} {m k : Result (Unit {0})}
    → (Accepted m ↔ P)
    → (Accepted k ↔ Q)
    → Accepted (m >> k) ↔ (P × Q)
>>_iff {m = ok u} (f, g) (h, k) = (λ e. (f refl, h e), λ p. k p.1)
>>_iff {m = err x} (f, g) (h, k) = (λ e. cc, λ p. let e = g p.0 in cc)

-- The same where the chain goes on with what its last part returns.
pub refuse_if-bind_iff {ℓ κ} :
    {A : Type 0} {P : Type ℓ} {Q : Type κ} (bad : Bool) (message : Text) (k : Result A)
    (f : A → Result (Unit {0}))
    → ((bad ≡ false) ↔ P)
    → (Accepted (k >>= f) ↔ Q)
    → Accepted ((refuse_if bad message >> k) >>= f) ↔ (P × Q)
refuse_if-bind_iff true message m n (f, g) (h, k) = (λ e. cc, λ p. let e = g p.0 in cc)
refuse_if-bind_iff false message m n (f, g) (h, k) = (λ e. (f refl, h e), λ p. k p.1)

pub ok_or_err :
    {A : Type 0} (r : Result A)
    → ((refusal : ConfigError) × (r ≡ err refusal)) ⊎ ((a : A) × (r ≡ ok a))
ok_or_err (err refusal) = inl (refusal, refl)
ok_or_err (ok a) = inr (a, refl)

-- A check before a value that is returned.
pub >>-ok :
    {A : Type 0} (m : Result (Unit {0})) (a b : A) → (m >> ok a) ≡ ok b → Accepted m × (a ≡ b)
>>-ok (err refusal) a b e = cc
>>-ok (ok passed) a b e = (refl, cc)
