-- ===== src/Config/Validation.antt =====
-- `validate` of crates/proxy-core/src/config.rs, and the ways to a configuration that call it.
use rpceth.Base.{
  ℕ, none, List, [], ◌∷◌, ◌++◌, Text, codes, is_empty, contains, add, ◌==◌, trim, ◌⊎◌, inl, inr,
}
use rpceth.Settings.{BalancerStrategy}
use rpceth.Provider
use rpceth.Provider.{ProviderId, ProviderConfig}
use rpceth.Float.{Float}
use rpceth.Refusal.{Result, ok, err, deserialize_failed, read_failed, ◌>>◌, refuse_if}
use rpceth.Config.{
  AuthConfig, ProxyConfig, default_methods, default_circuit_breaker, default_tolerance_level,
}
use rpceth.Config.Given.{GivenConfig, fill}
use rpceth.Config.Checks.{validate_circuit_breaker, validate_methods}
use rpceth.Config.Chains.{validate_chains}

-- The loop over the providers, with the ids seen so far.
unfoldable pub validate_providers : List ProviderId → List ProviderConfig → Result (Unit {0})
validate_providers ids [] = ok tt
validate_providers ids (provider ∷ more) = do
  Provider.validate provider
  refuse_if (contains ids provider.id) (codes "duplicate provider id `" ++ provider.id ++ codes "`")
  validate_providers (add provider.id ids) more

module _ (fl : Float) where
  open fl use {F}

  unfoldable pub validate : ProxyConfig F → Result (Unit {0})
  unfolding validate_circuit_breaker validate_methods validate_providers validate_chains
  validate config = do
    refuse_if (config.default_timeout_ms == 0)
        (codes "default_timeout_ms must be greater than zero")
    refuse_if (config.max_retries == 0) (codes "max_retries must be greater than zero")
    refuse_if (is_empty (trim config.auth.api_key))
        (codes "auth.api_key must be provided and not be empty")
    validate_circuit_breaker config.circuit_breaker
    refuse_if (is_empty config.providers) (codes "at least one provider must be configured")
    validate_providers [] config.providers
    validate_methods fl config.methods
    validate_chains config

  -- `from_str` is what `serde_yaml` reads of a text: the fields that are given, or an error's text.
  unfoldable pub load_from_str : (Text → Text ⊎ GivenConfig F) → Text → Result (ProxyConfig F)
  unfolding validate fill
  load_from_str from_str body = elim (from_str body) [
    | inl message ↦ err (deserialize_failed message)
    | inr given ↦ do validate (fill given); ok (fill given)
  ]

  -- `file` is what `std::fs::read_to_string` makes of the path: the text, or an error's text.
  unfoldable pub from_path : (Text → Text ⊎ GivenConfig F) → Text ⊎ Text → Result (ProxyConfig F)
  unfolding load_from_str
  from_path from_str file = elim file [
    | inl message ↦ err (read_failed message)
    | inr body ↦ load_from_str from_str body
  ]

  unfoldable pub try_new :
      BalancerStrategy → ℕ → ℕ → List ProviderConfig → AuthConfig → Result (ProxyConfig F)
  unfolding validate
  try_new strategy default_timeout_ms max_retries providers auth =
      let config : ProxyConfig F = record {
        strategy = strategy;
        default_timeout_ms = default_timeout_ms;
        max_retries = max_retries;
        default_tolerance = default_tolerance_level;
        methods = default_methods;
        circuit_breaker = default_circuit_breaker;
        auth = auth;
        providers = providers;
        chains = [];
        default_chain = none;
      } in
      do validate config; ok config
