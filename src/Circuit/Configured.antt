-- ===== src/Circuit/Configured.antt =====
-- The settings of the circuits that crates/proxy-core/src/circuit.rs builds from settings that
-- crates/proxy-core/src/config.rs accepts.
use rpceth.Base.{
  ℕ, ◌<◌, ◌≡◌, ◌↔◌, refl, ap, ◌⊎◌, inl, inr, Bool-cases, Option, none, some, or_option, unwrap_or,
  List, [], ◌∷◌, Member, here, there, Member-cons, get, insert, get-insert, same, same_iff, arith,
}
use rpceth.Settings.{CircuitBreakerConfig}
use rpceth.Provider.{ProviderHandle}
use rpceth.Float.{Float}
use rpceth.Refusal.{Accepted}
use rpceth.Config.{ProxyConfig}
use rpceth.Config.Validation.{validate}
use rpceth.Config.Valid.{Given, Positive, ValidCircuit}
use rpceth.Config.Accepts.{validate_iff}
use rpceth.Circuit.{
  CircuitBreaker, ProviderCircuit, ResolvedCircuitBreaker, closed, from_configs, fresh_entry,
  new_from, new,
}

abbrev pub IsPositive : ResolvedCircuitBreaker → Type 0
IsPositive r = (0 < r.failure_threshold) × ((0 < r.reset_timeout) × (0 < r.half_open_probe))

-- The other handles of the list have other ids.
abbrev pub IsOnlyOne : ProviderHandle → List ProviderHandle → Type 0
IsOnlyOne h hs = (q : ProviderHandle) → Member q hs → q.id ≡ h.id → q ≡ h

own-Positive :
    (own whole : Option ℕ) (last : ℕ)
    → Given Positive whole
    → 0 < last
    → (0 < unwrap_or last (or_option own whole)) ↔ Given Positive own
own-Positive none none last w l = (λ p. tt, λ p. l)
own-Positive none (some n) last w l = (λ p. tt, λ p. w)
own-Positive (some m) whole last w l = (λ p. p, λ p. p)

from_configs-IsPositive :
    (global own : CircuitBreakerConfig)
    → ValidCircuit global
    → IsPositive (from_configs global own) ↔ ValidCircuit own
unfolding from_configs
from_configs-IsPositive global own (threshold, (reset, probe)) =
    let (t, t') =
      own-Positive own.failure_threshold global.failure_threshold 3 threshold (omega arith) in
    let (r, r') =
      own-Positive own.reset_timeout_ms global.reset_timeout_ms 30_000 reset (omega arith) in
    let (p, p') = own-Positive own.half_open_probe global.half_open_probe 1 probe (omega arith) in
    (
      λ v. (t v.0, (r (omega (arith, v.1.0)), p v.1.1)),
      λ v. (t' v.0, (let wait = r' v.1.0 in omega arith, p' v.1.1)),
    )

module _ (global : CircuitBreakerConfig) (h : ProviderHandle) where
  get-new_from :
      (hs : List ProviderHandle) (entries : CircuitBreaker)
      → IsOnlyOne h hs
      → ((get h.id entries ≡ some (fresh_entry global h)) ⊎ Member h hs)
      → get h.id (new_from global hs entries) ≡ some (fresh_entry global h)
  unfolding new_from
  get-new_from [] entries only (inl e) = e
  get-new_from [] entries only (inr at) = elim at [ ]
  get-new_from (q ∷ hs) entries only known =
      get-new_from hs (insert q.id (fresh_entry global q) entries) (λ r at. only r (there at))
        (elim (Bool-cases (same q.id h.id)) [
          | inl hit ↦
              let one = only q here ((same_iff q.id h.id).0 hit) in
              inl (
                rw (get-insert q.id h.id (fresh_entry global q) entries, hit)
                  (ap (λ r. some (fresh_entry global r)) one))
          | inr miss ↦ elim known [
            | inl e ↦ inl (rw (get-insert q.id h.id (fresh_entry global q) entries, miss) e)
            | inr at ↦ elim (Member-cons at) [
              | inl one ↦ let hit = (same_iff q.id h.id).1 (ap (λ r. r.id) one) in cc
              | inr later ↦ inr later
            ]
          ]
        ])

module _ (fl : Float) where
  -- For the settings of a configuration that `validate` accepts, and handles of which no other has
  -- the provider's id: `CircuitBreaker::new` gives the provider a circuit that is closed with no
  -- failures, and whose threshold, reset timeout and number of probes are all positive if and only
  -- if those that the provider itself gives are.
  pub new-IsPositive :
      (config : ProxyConfig fl.F) (hs : List ProviderHandle) (h : ProviderHandle)
      → Accepted (validate fl config)
      → Member h hs
      → IsOnlyOne h hs
      → (entry : ProviderCircuit) × (get h.id (new hs config.circuit_breaker) ≡ some entry)
        × (entry.state ≡ closed 0)
        × (IsPositive entry.config ↔ ValidCircuit h.circuit_breaker)
  unfolding new fresh_entry
  new-IsPositive config hs h accepted at only =
      let (timeout, (retries, (key, (circuit, rest)))) = (validate_iff fl config).0 accepted in
      (
        fresh_entry config.circuit_breaker h,
        get-new_from config.circuit_breaker h hs [] only (inr at),
        refl,
        from_configs-IsPositive config.circuit_breaker h.circuit_breaker circuit,
      )
