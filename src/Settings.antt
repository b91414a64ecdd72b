-- ===== src/Settings.antt =====
-- The plain settings of crates/proxy-core/src/config.rs and of health/model.rs that several
-- components read. Durations and instants are numbers of nanoseconds.
use rpceth.Base.{ℕ, ◌*◌, ◌+◌, min, Option}

pub data ToleranceLevel : Type 0 where
  strict balanced relaxed : ToleranceLevel

pub data BalancerStrategy : Type 0 where
  round_robin weighted_random : BalancerStrategy

pub record CircuitBreakerConfig : Type 0 where
  pub failure_threshold : Option ℕ  -- u32
  pub reset_timeout_ms : Option ℕ  -- u64
  pub half_open_probe : Option ℕ  -- u32

-- `Duration::from_millis`
abbrev pub from_millis : ℕ → ℕ
from_millis ms = ms * 1_000_000

abbrev pub u32_max : ℕ
u32_max = 4_294_967_295

-- `u32::saturating_add(1)`
abbrev pub saturating_suc : ℕ → ℕ
saturating_suc n = min (n + 1) u32_max
