-- ===== src/Config/Given.antt =====
-- A configuration as it is written: the attributes `serde(default)` of the fields of `ProxyConfig` and
-- `ProviderConfig` (crates/proxy-core/src/config.rs and provider.rs). The other types of these files
-- are filled with `Default::default()`, which leaves out what is not given.
use rpceth.Base.{ℕ, Option, unwrap_or, List, [], map, Text, Dict}
use rpceth.Settings.{ToleranceLevel, BalancerStrategy, CircuitBreakerConfig}
use rpceth.Provider
use rpceth.Provider.{ProviderId, ProviderConfig}
use rpceth.Config
use rpceth.Config.{AuthConfig, ChainConfig, MethodConfig, ProxyConfig}

pub record GivenProvider : Type 0 where
  pub id : ProviderId
  pub url : Text
  pub base_weight : Option ℕ
  pub max_connections : Option ℕ
  pub timeout_ms : Option ℕ
  pub circuit_breaker : Option CircuitBreakerConfig

pub record GivenConfig (F : Type 0) : Type 0 where
  pub strategy : Option BalancerStrategy
  pub default_timeout_ms : Option ℕ
  pub max_retries : Option ℕ
  pub default_tolerance : Option ToleranceLevel
  pub methods : Option (MethodConfig F)
  pub circuit_breaker : Option CircuitBreakerConfig
  pub auth : AuthConfig
  pub providers : List GivenProvider
  pub chains : Option (Dict ChainConfig)
  pub default_chain : Option Text

unfoldable pub fill_provider : GivenProvider → ProviderConfig
fill_provider g = record {
  id = g.id;
  url = g.url;
  base_weight = unwrap_or Provider.default_base_weight g.base_weight;
  max_connections = unwrap_or Provider.default_max_connections g.max_connections;
  timeout_ms = unwrap_or Provider.default_timeout_ms g.timeout_ms;
  circuit_breaker = unwrap_or Config.default_circuit_breaker g.circuit_breaker;
}

unfoldable pub fill : {F : Type 0} → GivenConfig F → ProxyConfig F
unfolding fill_provider
fill g = record {
  strategy = unwrap_or Config.default_strategy g.strategy;
  default_timeout_ms = unwrap_or Config.default_timeout_ms g.default_timeout_ms;
  max_retries = unwrap_or Config.default_max_retries g.max_retries;
  default_tolerance = unwrap_or Config.default_tolerance_level g.default_tolerance;
  methods = unwrap_or Config.default_methods g.methods;
  circuit_breaker = unwrap_or Config.default_circuit_breaker g.circuit_breaker;
  auth = g.auth;
  providers = map fill_provider g.providers;
  chains = unwrap_or [] g.chains;
  default_chain = g.default_chain;
}
