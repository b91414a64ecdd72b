-- ===== src/Server/Metrics.antt =====
-- One tick of `health_metrics_task` (crates/proxy-server/src/lib.rs). `observe key id` is the time and the
-- shared state of the chain `key` when the task comes to its provider `id`.
pub mod Gauges
use rpceth.Base.{
  ℕ, Bool, Option, none, some, List, [], ◌∷◌, ◌++◌, Text, codes, Dict, get, length, find, same,
  is_some, map_option, unwrap_or, if◌then◌else◌,
}
use rpceth.Settings.{
  ToleranceLevel, strict, balanced, relaxed, BalancerStrategy, round_robin, weighted_random,
}
use rpceth.Provider.{ProviderId, ProviderHandle}
use rpceth.Circuit
use rpceth.Float.{Float, zero_f, one_f, as_secs_f64}
use rpceth.Health.{HealthService, ProviderHealthSnapshot, snapshots}
use rpceth.Config.{ProxyConfig}
use rpceth.Methods.{Globs}
use rpceth.Balancer.{Rand}
use rpceth.Server.{Shared}
use rpceth.Server.Recording.{Labels, Metric, gauge}
use rpceth.Server.Runtime.{ChainKey, ChainRuntime, ProxyState, new}
use rpceth.Server.Admin.{health_enabled}

unfoldable pub concat_map {ℓ κ} : {A : Type ℓ} {B : Type κ} → (A → List B) → List A → List B
concat_map f [] = []
concat_map f (x ∷ xs) = f x ++ concat_map f xs

module _ (fl : Float) where
  open fl use {F, of_nat}

  abbrev pub as_flag : Bool → F
  as_flag b = if b then one_f fl else zero_f fl

  unfoldable pub tolerance_level : ToleranceLevel → F
  tolerance_level strict = of_nat 1
  tolerance_level balanced = of_nat 2
  tolerance_level relaxed = of_nat 3

  unfoldable pub strategy_level : BalancerStrategy → F
  strategy_level round_robin = of_nat 1
  strategy_level weighted_random = of_nat 2

  abbrev pub optional_gauge : Text → Labels → Option ℕ → List (Metric F)
  optional_gauge name labels none = []
  optional_gauge name labels (some n) = gauge name (of_nat n) labels ∷ []

  unfoldable pub snapshot_gauges : Labels → ProviderHealthSnapshot F → List (Metric F)
  snapshot_gauges labels s =
      gauge (codes "rpc_provider_health_score") s.score labels
      ∷ gauge (codes "rpc_provider_sync_score") s.sync_score labels
      ∷ gauge (codes "rpc_provider_latency_score") s.latency_score labels
      ∷ gauge (codes "rpc_provider_success_score") s.success_score labels
      ∷ gauge (codes "rpc_provider_method_support_score") s.method_support_score labels
      ∷ gauge (codes "rpc_provider_consecutive_failures") (of_nat s.consecutive_failures) labels
      ∷ (optional_gauge (codes "rpc_provider_latest_block") labels s.latest_block
          ++ optional_gauge (codes "rpc_provider_chain_id") labels s.chain_id)

  unfoldable pub health_gauges : Labels → ProviderId → Option (HealthService F) → List (Metric F)
  unfolding snapshot_gauges
  health_gauges labels id none = []
  health_gauges labels id (some health) =
      elim (find (λ s. same s.provider id) (snapshots fl health)) [
        | none ↦ []
        | some s ↦ snapshot_gauges labels s
      ]

  unfoldable pub provider_gauges :
      Labels → ProviderId → ProviderHandle → Bool → Option (HealthService F) → List (Metric F)
  unfolding health_gauges
  provider_gauges labels id provider is_available health =
      gauge (codes "rpc_provider_base_weight") (of_nat provider.base_weight) labels
      ∷ gauge (codes "rpc_provider_timeout_seconds") (as_secs_f64 fl provider.timeout) labels
      ∷ gauge (codes "rpc_provider_available") (as_flag is_available) labels
      ∷ health_gauges labels id health

  unfoldable pub config_gauges : ProxyConfig F → ℕ → List (Metric F)
  unfolding strategy_level
  config_gauges config total_chains =
      let breaker = config.circuit_breaker in
      gauge (codes "rpc_config_total_providers") (of_nat (length config.providers)) []
      ∷ gauge (codes "rpc_config_total_chains") (of_nat total_chains) []
      ∷ gauge (codes "rpc_config_strategy") (strategy_level config.strategy) []
      ∷ gauge (codes "rpc_config_circuit_breaker_failure_threshold")
          (of_nat (unwrap_or 5 breaker.failure_threshold)) []
      ∷ gauge (codes "rpc_config_circuit_breaker_reset_timeout_ms")
          (of_nat (unwrap_or 30_000 breaker.reset_timeout_ms)) []
      ∷ []

module _ (fl : Float) (rand : Rand fl.F) (globs : Globs) (decode : Text → Text) where
  open fl use {F, of_nat}
  open rand use {Rng}

  abbrev Runtime : Type 0
  Runtime = ChainRuntime fl rand globs decode

  module _ (observe : ChainKey → ProviderId → ℕ × Shared F Rng) where
    -- What is exported for one provider of a chain: nothing if its handle is not known.
    unfoldable pub gauges_of : Dict ProviderHandle → ChainKey → ProviderId → List (Metric F)
    unfolding provider_gauges
    gauges_of table key id =
        let (now, shared) = observe key id in
        elim (get id table) [
          | none ↦ []
          | some provider ↦
              provider_gauges fl ((codes "provider", id) ∷ (codes "chain", key) ∷ []) id provider
                (Circuit.is_available now id shared.circuit_breaker) shared.health_service
        ]

    unfoldable pub chain_gauges : Dict ProviderHandle → Text × Runtime → List (Metric F)
    unfolding gauges_of tolerance_level concat_map health_enabled
    chain_gauges table (key, runtime) =
        let labels : Labels = (codes "chain", key) ∷ [] in
        gauge (codes "rpc_chain_provider_count") (of_nat (length runtime.providers)) labels
        ∷ gauge (codes "rpc_chain_health_enabled")
            (as_flag fl (health_enabled fl rand globs decode runtime)) labels
        ∷ gauge (codes "rpc_chain_tolerance_level") (tolerance_level fl runtime.tolerance) labels
        ∷ concat_map (gauges_of table key) runtime.providers

    -- One round of the loop of `health_metrics_task`.
    unfoldable pub metrics_tick : ProxyState fl rand globs decode → List (Metric F)
    unfolding chain_gauges config_gauges concat_map
    metrics_tick state =
        concat_map (chain_gauges state.providers_by_id) state.chains
        ++ config_gauges fl state.config (length state.chains)

  -- `main` of crates/proxy-server/src/main.rs: the state that `build_router` makes for the requests,
  -- and one of its own for `health_metrics_task`, from the same configuration.
  unfoldable pub start_states :
      ProxyConfig F → Option (ProxyState fl rand globs decode × ProxyState fl rand globs decode)
  start_states config = elim (new fl rand globs decode config) [
    | none ↦ none
    | some app ↦
        map_option (λ state_for_metrics. (app, state_for_metrics)) (new fl rand globs decode config)
  ]
