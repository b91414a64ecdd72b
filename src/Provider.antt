-- ===== src/Provider.antt =====
-- crates/proxy-core/src/provider.rs. A URL, a type of the `url` crate, is kept as its text: the
-- program only copies it.
use rpceth.Base.{ℕ, Text, codes, leb, ◌==◌, ◌&&◌, not, ◌++◌}
use rpceth.Refusal.{Result, ◌>>◌, refuse_if}
use rpceth.Settings.{CircuitBreakerConfig, from_millis}

-- The newtype `ProviderId(String)`.
abbrev pub ProviderId : Type 0
ProviderId = Text

pub record ProviderConfig : Type 0 where
  pub id : ProviderId
  pub url : Text
  pub base_weight : ℕ  -- u16
  pub max_connections : ℕ  -- u32
  pub timeout_ms : ℕ  -- u64
  pub circuit_breaker : CircuitBreakerConfig

-- The `default` functions of the fields that may be left out.
abbrev pub default_base_weight : ℕ
default_base_weight = 100

abbrev pub default_max_connections : ℕ
default_max_connections = 32

abbrev pub default_timeout_ms : ℕ
default_timeout_ms = 5_000

pub record ProviderHandle : Type 0 where
  pub id : ProviderId
  pub url : Text
  pub base_weight : ℕ
  pub max_connections : ℕ
  pub timeout : ℕ
  pub circuit_breaker : CircuitBreakerConfig

unfoldable pub into_handle : ProviderConfig → ProviderHandle
into_handle c = record {
  id = c.id;
  url = c.url;
  base_weight = c.base_weight;
  max_connections = c.max_connections;
  timeout = from_millis c.timeout_ms;
  circuit_breaker = c.circuit_breaker;
}

-- The range of weights is that of the code's range expression.
unfoldable pub validate : ProviderConfig → Result (Unit {0})
validate c = do
  refuse_if (not (leb 1 c.base_weight && leb c.base_weight 1_000))
      (codes "provider `" ++ c.id ++ codes "` base_weight must be between 1 and 1000")
  refuse_if (c.max_connections == 0)
      (codes "provider `" ++ c.id ++ codes "` max_connections must be greater than zero")
  refuse_if (c.timeout_ms == 0)
      (codes "provider `" ++ c.id ++ codes "` timeout_ms must be greater than zero")
