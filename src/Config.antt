-- ===== src/Config.antt =====
-- The configuration of crates/proxy-core/src/config.rs. Reading the file and YAML are the work of
-- `std::fs` and `serde_yaml`, arguments of the loader.
pub mod Given
pub mod Checks
pub mod Chains
pub mod Validation
pub mod Valid
pub mod Names
pub mod Accepts
pub mod Order
pub mod Defaults
use rpceth.Base.{ℕ, Option, none, List, [], Text, Dict}
use rpceth.Settings.{
  ToleranceLevel, balanced, BalancerStrategy, weighted_random, CircuitBreakerConfig,
}
use rpceth.Provider.{ProviderId, ProviderConfig}

pub record BackoffConfig (F : Type 0) : Type 0 where
  pub min_ms : Option ℕ  -- u64
  pub max_ms : Option ℕ  -- u64
  pub jitter : Option F

pub record MethodDefaults (F : Type 0) : Type 0 where
  pub tolerance : Option ToleranceLevel
  pub timeout_ms : Option ℕ  -- u64
  pub weight_multiplier : Option F
  pub max_retries : Option ℕ  -- u8
  pub backoff : Option (BackoffConfig F)
  pub provider_weights : Dict ℕ  -- u16

pub record MethodGroupConfig (F : Type 0) : Type 0 where
  pub tolerance : Option ToleranceLevel
  pub timeout_ms : Option ℕ
  pub weight_multiplier : Option F
  pub max_retries : Option ℕ
  pub backoff : Option (BackoffConfig F)
  pub provider_weights : Dict ℕ

pub record MethodOverrideConfig (F : Type 0) : Type 0 where
  pub pattern : Text
  pub group : Option Text
  pub tolerance : Option ToleranceLevel
  pub timeout_ms : Option ℕ
  pub weight_multiplier : Option F
  pub max_retries : Option ℕ
  pub backoff : Option (BackoffConfig F)
  pub provider_weights : Dict ℕ

pub record MethodConfig (F : Type 0) : Type 0 where
  pub default : MethodDefaults F
  pub groups : Dict (MethodGroupConfig F)
  pub overrides : List (MethodOverrideConfig F)

pub record ChainConfig : Type 0 where
  pub providers : List ProviderId
  pub aliases : List Text
  pub tolerance : Option ToleranceLevel

pub record AuthConfig : Type 0 where
  pub api_key : Text

pub record ProxyConfig (F : Type 0) : Type 0 where
  pub strategy : BalancerStrategy
  pub default_timeout_ms : ℕ  -- u64
  pub max_retries : ℕ  -- u8
  pub default_tolerance : ToleranceLevel
  pub methods : MethodConfig F
  pub circuit_breaker : CircuitBreakerConfig
  pub auth : AuthConfig
  pub providers : List ProviderConfig
  pub chains : Dict ChainConfig
  pub default_chain : Option Text

-- `Default::default()` of the settings, and the `default` functions of fields that may be left out.
abbrev pub default_circuit_breaker : CircuitBreakerConfig
default_circuit_breaker = record {
  failure_threshold = none;
  reset_timeout_ms = none;
  half_open_probe = none;
}

abbrev pub default_methods : {F : Type 0} → MethodConfig F
default_methods = record {
  default = record {
    tolerance = none;
    timeout_ms = none;
    weight_multiplier = none;
    max_retries = none;
    backoff = none;
    provider_weights = [];
  };
  groups = [];
  overrides = [];
}

abbrev pub default_strategy : BalancerStrategy
default_strategy = weighted_random

abbrev pub default_timeout_ms : ℕ
default_timeout_ms = 5_000

abbrev pub default_max_retries : ℕ
default_max_retries = 3

abbrev pub default_tolerance_level : ToleranceLevel
default_tolerance_level = balanced
