-- ===== src/Circuit.antt =====
-- crates/proxy-core/src/circuit.rs. `Instant::now()` is an argument of each operation that reads
-- it; the `DashMap` of circuits is a dictionary, and a method returns the new one.
pub mod History
pub mod Recovery
pub mod Bounds
pub mod Configured
use rpceth.Base.{
  ℕ, ◌+◌, Bool, true, Option, none, some, List, [], ◌∷◌, Dict, get, insert, modify, leb, ltb,
  if◌then◌else◌, or_option, unwrap_or, map_option, ◌-◌,
}
use rpceth.Settings.{CircuitBreakerConfig, from_millis, saturating_suc}
use rpceth.Provider.{ProviderId, ProviderHandle}

pub record ResolvedCircuitBreaker : Type 0 where
  pub failure_threshold : ℕ
  pub reset_timeout : ℕ
  pub half_open_probe : ℕ

-- The provider's setting, else the global one, else the default.
unfoldable pub from_configs : CircuitBreakerConfig → CircuitBreakerConfig → ResolvedCircuitBreaker
from_configs global provider = record {
  failure_threshold = unwrap_or 3 (or_option provider.failure_threshold global.failure_threshold);
  reset_timeout =
      from_millis (unwrap_or 30_000 (or_option provider.reset_timeout_ms global.reset_timeout_ms));
  half_open_probe = unwrap_or 1 (or_option provider.half_open_probe global.half_open_probe);
}

pub data CircuitStateKind : Type 0 where
  closed_kind open_kind half_open_kind : CircuitStateKind

pub record CircuitSnapshot : Type 0 where
  pub state : CircuitStateKind
  pub failures : ℕ
  pub next_retry_in : Option ℕ

-- `Closed { failures }`, `Open { failures, retry_at }`, `HalfOpen { failures, attempts }`.
pub data InnerState : Type 0 where
  closed : (failures : ℕ) → InnerState
  opened : (failures retry_at : ℕ) → InnerState
  half_open : (failures attempts : ℕ) → InnerState

pub record ProviderCircuit : Type 0 where
  pub config : ResolvedCircuitBreaker
  pub state : InnerState

abbrev pub CircuitBreaker : Type 0
CircuitBreaker = Dict ProviderCircuit

-- The `match` of each method on the state of one entry.
module _ (config : ResolvedCircuitBreaker) (now : ℕ) where
  unfoldable pub available_state : InnerState → Bool
  available_state (closed failures) = true
  available_state (opened failures retry_at) = leb retry_at now
  available_state (half_open failures attempts) = ltb attempts config.half_open_probe

  unfoldable pub start_state : InnerState → InnerState
  start_state (closed failures) = closed failures
  start_state (opened failures retry_at) =
      if leb retry_at now then half_open failures 0 else opened failures retry_at
  start_state (half_open failures attempts) = half_open failures (saturating_suc attempts)

  unfoldable pub fail_state : InnerState → InnerState
  fail_state (closed failures) =
      let more = saturating_suc failures in
      if leb config.failure_threshold more
      then opened more (now + config.reset_timeout)
      else closed more
  fail_state (half_open failures attempts) =
      opened (saturating_suc failures) (now + config.reset_timeout)
  fail_state (opened failures retry_at) =
      opened (saturating_suc failures) (now + config.reset_timeout)

-- What each method writes into the provider's entry.
module _ (now : ℕ) where
  unfoldable pub start_entry : ProviderCircuit → ProviderCircuit
  unfolding start_state
  start_entry entry = record entry { state = start_state entry.config now entry.state }

  unfoldable pub fail_entry : ProviderCircuit → ProviderCircuit
  unfolding fail_state
  fail_entry entry = record entry { state = fail_state entry.config now entry.state }

unfoldable pub succeed_entry : ProviderCircuit → ProviderCircuit
succeed_entry entry = record entry { state = closed 0 }

unfoldable pub fresh_entry : CircuitBreakerConfig → ProviderHandle → ProviderCircuit
unfolding from_configs
fresh_entry global handle = record {
  config = from_configs global handle.circuit_breaker;
  state = closed 0;
}

-- The loop of `new`.
unfoldable pub new_from :
    CircuitBreakerConfig → List ProviderHandle → CircuitBreaker → CircuitBreaker
new_from global [] entries = entries
new_from global (handle ∷ handles) entries =
    new_from global handles (insert handle.id (fresh_entry global handle) entries)

unfoldable pub new : List ProviderHandle → CircuitBreakerConfig → CircuitBreaker
unfolding new_from
new handles global = new_from global handles []

unfoldable pub is_available : ℕ → ProviderId → CircuitBreaker → Bool
unfolding available_state
is_available now provider breaker = elim (get provider breaker) [
  | none ↦ true
  | some entry ↦ available_state entry.config now entry.state
]

unfoldable pub on_request_start : ℕ → ProviderId → CircuitBreaker → CircuitBreaker
on_request_start now provider breaker = modify provider (start_entry now) breaker

unfoldable pub on_success : ProviderId → CircuitBreaker → CircuitBreaker
on_success provider breaker = modify provider succeed_entry breaker

unfoldable pub on_failure : ℕ → ProviderId → CircuitBreaker → CircuitBreaker
on_failure now provider breaker = modify provider (fail_entry now) breaker

-- `saturating_duration_since` stops at zero, as `-` does.
unfoldable pub snapshot_state : ℕ → InnerState → CircuitSnapshot
snapshot_state now (closed failures) = record {
  state = closed_kind;
  failures = failures;
  next_retry_in = none;
}
snapshot_state now (opened failures retry_at) = record {
  state = open_kind;
  failures = failures;
  next_retry_in = some (retry_at - now);
}
snapshot_state now (half_open failures attempts) = record {
  state = half_open_kind;
  failures = failures;
  next_retry_in = none;
}

unfoldable pub snapshot : ℕ → ProviderId → CircuitBreaker → Option CircuitSnapshot
unfolding snapshot_state
snapshot now provider breaker =
    map_option (λ entry. snapshot_state now entry.state) (get provider breaker)
