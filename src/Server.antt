-- ===== src/Server.antt =====
-- crates/proxy-server/src/lib.rs: the state that the requests of one chain share, and the world in
-- which a request runs. Other requests and the health probes run between two accesses of a request
-- to the shared state; what they do there is an argument, `interfere`.
pub mod Select
pub mod Forward
pub mod Handler
pub mod Runtime
pub mod Gateway
pub mod Admin
pub mod Router
pub mod Recording
pub mod Metrics
pub mod Steps
pub mod Process
use rpceth.Base.{ℕ, suc, ◌+◌, Option, List, Text}
use rpceth.Provider.{ProviderId}
use rpceth.Circuit.{CircuitBreaker}
use rpceth.Health.{HealthService}
use rpceth.Balancer.{BalancerState}

-- The mutable parts of a `ChainRuntime`.
pub record Shared (F Rng : Type 0) : Type 0 where
  pub circuit_breaker : CircuitBreaker
  pub balancer_state : BalancerState Rng
  pub health_service : Option (HealthService F)

pub record RequestContext : Type 0 where
  pub provider_override : Option ProviderId

-- `instant k` is what `Instant::now()` returns at the k-th access, and `interfere k` what the other
-- tasks have made of the shared state when the request comes to it.
pub record Surroundings (S : Type 0) : Type 0 where
  pub instant : ℕ → ℕ
  pub interfere : ℕ → S → S

-- The shared state and the number of accesses of the request so far.
pub record World (S : Type 0) : Type 0 where
  pub shared : S
  pub accesses : ℕ

module _ {S : Type 0} (around : Surroundings S) where
  -- The next access of the request to the shared state: the other tasks have run.
  unfoldable pub access : World S → World S
  access w = record w { shared = around.interfere w.accesses w.shared; accesses = suc w.accesses }

  unfoldable pub now : World S → ℕ
  now w = around.instant w.accesses
