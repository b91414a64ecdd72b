-- ===== src/Circuit/Bounds.antt =====
-- The counters of the circuits of crates/proxy-core/src/circuit.rs, and what a call does not change.
use rpceth.Base.{
  ℕ, ◌≤◌, ◌<◌, ◌≡◌, refl, ◌∙◌, ◌⊎◌, inl, inr, List, [], ◌∷◌, map, Text, modify, same, AllValues,
  AllValues-insert, AllValues-modify, Bool-cases, leb, arith,
}
use rpceth.Settings.{u32_max, saturating_suc, CircuitBreakerConfig}
use rpceth.Provider.{ProviderId, ProviderHandle}
use rpceth.Circuit.{
  CircuitBreaker, ProviderCircuit, ResolvedCircuitBreaker, InnerState, closed, opened, half_open,
  start_state, fail_state, start_entry, fail_entry, succeed_entry, fresh_entry, new_from, new,
  on_request_start, on_success, on_failure,
}

-- A closed circuit has no failures or fewer than the threshold, any other has some; the counters
-- fit into 32 bits.
abbrev pub IsCounting : ResolvedCircuitBreaker → InnerState → Type 0
IsCounting config (closed failures) =
    ((failures ≡ 0) ⊎ (failures < config.failure_threshold)) × (failures ≤ u32_max)
IsCounting config (opened failures retry_at) = (0 < failures) × (failures ≤ u32_max)
IsCounting config (half_open failures attempts) =
    (0 < failures) × (failures ≤ u32_max) × (attempts ≤ u32_max)

module _ (config : ResolvedCircuitBreaker) (now : ℕ) where
  start_state-IsCounting :
      (s : InnerState) → IsCounting config s → IsCounting config (start_state config now s)
  unfolding start_state
  start_state-IsCounting (closed failures) h = h
  start_state-IsCounting (opened failures retry_at) (h, k) = elim (Bool-cases (leb retry_at now)) [
    | inl due ↦ rw due (h, k, omega arith)
    | inr early ↦ rw early (h, k)
  ]
  start_state-IsCounting (half_open failures attempts) (h, k, l) = (h, k, omega arith)

  fail_state-IsCounting :
      (s : InnerState) → IsCounting config s → IsCounting config (fail_state config now s)
  unfolding fail_state
  fail_state-IsCounting (closed failures) (h, k) =
      elim (Bool-cases (leb config.failure_threshold (saturating_suc failures))) [
        | inl trips ↦ rw trips (omega arith, omega arith)
        | inr stays ↦ rw stays (inr (ground arith), omega arith)
      ]
  fail_state-IsCounting (opened failures retry_at) (h, k) = (omega arith, omega arith)
  fail_state-IsCounting (half_open failures attempts) (h, k, l) = (omega arith, omega arith)

abbrev pub AllCounting : CircuitBreaker → Type 0
AllCounting breaker = AllValues (λ e. IsCounting e.config e.state) breaker

new_from-AllCounting :
    (global : CircuitBreakerConfig) (ps : List ProviderHandle) (breaker : CircuitBreaker)
    → AllCounting breaker
    → AllCounting (new_from global ps breaker)
unfolding new_from fresh_entry
new_from-AllCounting global [] breaker h = h
new_from-AllCounting global (p ∷ ps) breaker h = new_from-AllCounting global ps _ (
    AllValues-insert (λ (e : ProviderCircuit). IsCounting e.config e.state) p.id _ breaker
      (inl refl, omega arith) h)

pub new-AllCounting :
    (ps : List ProviderHandle) (global : CircuitBreakerConfig) → AllCounting (new ps global)
unfolding new
new-AllCounting ps global = new_from-AllCounting global ps [] tt

-- The settings of each circuit.
abbrev pub settings : CircuitBreaker → List (Text × ResolvedCircuitBreaker)
settings breaker = map (λ e. (e.0, e.1.config)) breaker

settings-modify :
    (id : ProviderId) (f : ProviderCircuit → ProviderCircuit) (breaker : CircuitBreaker)
    → ((e : ProviderCircuit) → (f e).config ≡ e.config)
    → settings (modify id f breaker) ≡ settings breaker
unfolding modify
settings-modify id f [] same_config = refl
settings-modify id f ((j, e) ∷ m) same_config = elim (Bool-cases (same j id)) [
  | inl hit ↦ rw (hit, same_config e)
  | inr miss ↦ rw (miss, settings-modify id f m same_config)
]

-- The counters are in their bounds, and the settings of the circuits are the given ones.
pub record IsRunning (given : List (Text × ResolvedCircuitBreaker)) (breaker : CircuitBreaker)
    : Type 0 where
  pub counting : AllCounting breaker
  pub unchanged : settings breaker ≡ given

module _ (given : List (Text × ResolvedCircuitBreaker)) (id : ProviderId) (breaker : CircuitBreaker)
    (h : IsRunning given breaker) where
  modify-IsRunning :
      (f : ProviderCircuit → ProviderCircuit)
      → ((e : ProviderCircuit) → (f e).config ≡ e.config)
      → ((e : ProviderCircuit) → IsCounting e.config e.state → IsCounting (f e).config (f e).state)
      → IsRunning given (modify id f breaker)
  modify-IsRunning f same_config step = record {
    counting =
        AllValues-modify (λ (e : ProviderCircuit). IsCounting e.config e.state) id f breaker step
          h.counting;
    unchanged = settings-modify id f breaker same_config ∙ h.unchanged;
  }

  pub on_request_start-IsRunning : (now : ℕ) → IsRunning given (on_request_start now id breaker)
  unfolding on_request_start start_entry
  on_request_start-IsRunning now =
      modify-IsRunning (start_entry now) (λ e. refl)
        (λ e. start_state-IsCounting e.config now e.state)

  pub on_success-IsRunning : IsRunning given (on_success id breaker)
  unfolding on_success succeed_entry
  on_success-IsRunning = modify-IsRunning succeed_entry (λ e. refl) (λ e k. (inl refl, omega arith))

  pub on_failure-IsRunning : (now : ℕ) → IsRunning given (on_failure now id breaker)
  unfolding on_failure fail_entry
  on_failure-IsRunning now =
      modify-IsRunning (fail_entry now) (λ e. refl)
        (λ e. fail_state-IsCounting e.config now e.state)
