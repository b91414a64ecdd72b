-- ===== src/Server/Admin/Reports.antt =====
-- The handlers of crates/proxy-server/src/admin.rs that report on the providers and the configuration.
use rpceth.Base.{
  ℕ, true, Option, none, some, List, [], ◌∷◌, map, Text, codes, Dict, get, length, any,
}
use rpceth.Settings.{
  ToleranceLevel, strict, balanced, relaxed, BalancerStrategy, round_robin, weighted_random,
}
use rpceth.Provider.{ProviderId, ProviderHandle}
use rpceth.Circuit.{CircuitBreaker}
use rpceth.Float.{Float}
use rpceth.Json.{Json, null, bool, natural, string, object_of, array_of}
use rpceth.Methods.{Globs}
use rpceth.Balancer.{Rand}
use rpceth.Server.Forward.{Response, raw}
use rpceth.Server.Runtime.{ChainKey, ChainRuntime, ProxyState}
use rpceth.Server.Admin.{json_response, as_millis, optional, health_enabled, available}

-- `format!("{:?}", _)` of the two enums.
unfoldable pub debug_tolerance : ToleranceLevel → Text
debug_tolerance strict = codes "Strict"
debug_tolerance balanced = codes "Balanced"
debug_tolerance relaxed = codes "Relaxed"

unfoldable pub debug_strategy : BalancerStrategy → Text
debug_strategy round_robin = codes "RoundRobin"
debug_strategy weighted_random = codes "WeightedRandom"

module _ (fl : Float) (rand : Rand fl.F) (globs : Globs) (decode : Text → Text) where
  abbrev Runtime : Type 0
  Runtime = ChainRuntime fl rand globs decode

  abbrev State : Type 0
  State = ProxyState fl rand globs decode

  module _ (observe : ChainKey → ProviderId → ℕ × CircuitBreaker) where
    -- The inner loop of `providers_handler`: unknown providers are passed over.
    unfoldable pub provider_infos :
        Dict ProviderHandle → Text → Runtime → List ProviderId → List Json
    unfolding health_enabled
    provider_infos table chain_id runtime [] = []
    provider_infos table chain_id runtime (id ∷ more) =
        let rest = provider_infos table chain_id runtime more in
        elim (get id table) [
          | none ↦ rest
          | some provider ↦
              object_of (
                (codes "id", string id)
                ∷ (codes "url", string provider.url)
                ∷ (codes "weight", natural provider.base_weight)
                ∷ (codes "timeout_ms", natural (as_millis provider.timeout))
                ∷ (codes "available", bool (available fl rand globs decode observe chain_id id))
                ∷ (
                  codes "health",
                  object_of (
                      (
                        codes "health_check_enabled",
                        bool (health_enabled fl rand globs decode runtime),
                      )
                      ∷ []),
                )
                ∷ [])
              ∷ rest
        ]

    unfoldable pub chain_info : Dict ProviderHandle → Text × Runtime → Json
    unfolding provider_infos debug_tolerance
    chain_info table (chain_id, runtime) =
        let providers_info = provider_infos table chain_id runtime runtime.providers in
        object_of (
          (codes "chain", string chain_id)
          ∷ (codes "aliases", array_of (map string runtime.aliases))
          ∷ (codes "tolerance", string (debug_tolerance runtime.tolerance))
          ∷ (codes "provider_count", natural (length providers_info))
          ∷ (codes "providers", array_of providers_info)
          ∷ [])

    unfoldable pub providers_handler : Text → State → Response
    unfolding chain_info debug_strategy
    providers_handler timestamp state =
        let chains_info = map (chain_info state.providers_by_id) state.chains in
        json_response 200 (
          object_of (
            (codes "timestamp", string timestamp)
            ∷ (codes "total_chains", natural (length chains_info))
            ∷ (codes "strategy", string (debug_strategy state.config.strategy))
            ∷ (codes "chains", array_of chains_info)
            ∷ (codes "default_chain", optional state.default_chain)
            ∷ []))

  abbrev optional_natural : Option ℕ → Json
  optional_natural none = null
  optional_natural (some n) = natural n

  unfoldable pub config_handler : Text → Text → State → Response
  unfolding health_enabled debug_strategy
  config_handler timestamp version state =
      let breaker = state.config.circuit_breaker in
      json_response 200 (
        object_of (
          (codes "timestamp", string timestamp)
          ∷ (
            codes "service",
            object_of (
                (codes "name", string (codes "proxy-server"))
                ∷ (codes "version", string version)
                ∷ []),
          )
          ∷ (
            codes "load_balancing",
            object_of (
                (codes "strategy", string (debug_strategy state.config.strategy))
                ∷ (codes "total_providers", natural (length state.config.providers))
                ∷ []),
          )
          ∷ (
            codes "circuit_breaker",
            object_of (
                (codes "enabled", bool true)
                ∷ (codes "failure_threshold", optional_natural breaker.failure_threshold)
                ∷ (codes "reset_timeout_ms", optional_natural breaker.reset_timeout_ms)
                ∷ (codes "half_open_probe", optional_natural breaker.half_open_probe)
                ∷ []),
          )
          ∷ (
            codes "health_monitoring",
            object_of (
                (
                  codes "enabled",
                  bool (any (λ c. health_enabled fl rand globs decode c.1) state.chains),
                )
                ∷ []),
          )
          ∷ []))

-- The placeholder of admin.rs, which no route leads to.
unfoldable pub metrics_handler : Response
metrics_handler = record {
  status = 200;
  headers = (codes "content-type", codes "text/plain; version=0.0.4") ∷ [];
  body =
      raw (codes "# Metrics endpoint placeholder\n# TODO: Implement actual metrics collection\n");
}
