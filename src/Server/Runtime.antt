-- ===== src/Server/Runtime.antt =====
-- `ChainRuntime` and `ProxyState` of crates/proxy-server/src/lib.rs. `decode` is the percent
-- decoding of the `percent_encoding` crate, with lossy UTF-8. The `reqwest` clients are left out.
pub mod Built
pub mod Interface
pub mod Aliases
pub mod Handles
pub mod Validated
use rpceth.Base.{
  inl, inr, ℕ, Bool, true, false, Option, none, some, List, [], ◌∷◌, map, Text, codes, Dict, get,
  insert, to_set, contains, is_empty, is_some, unwrap_or, map_option, to_ascii_lowercase, trim,
  if◌then◌else◌,
}
use rpceth.Settings.{ToleranceLevel, balanced, BalancerStrategy}
use rpceth.Provider.{ProviderId, ProviderConfig, ProviderHandle, into_handle}
use rpceth.Circuit
use rpceth.Float.{Float}
use rpceth.Health
use rpceth.Health.{HealthService}
use rpceth.Config.{ProxyConfig, ChainConfig}
use rpceth.Methods
use rpceth.Methods.{Globs, MethodRegistry}
use rpceth.Balancer.{Rand, LoadBalancer, BalancerState, new_balancer_state, provider_ids}
use rpceth.Server.{Shared}

-- The newtype `ChainKey(String)`.
abbrev pub ChainKey : Type 0
ChainKey = Text

-- `ChainError::Unsupported`, with the chain that it names.
pub data Resolved (A : Type 0) : Type 0 where
  found : A → Resolved A
  unsupported : Text → Resolved A

module _ (decode : Text → Text) where
  unfoldable pub normalize_chain_id : Text → Text
  normalize_chain_id value = to_ascii_lowercase (trim (decode value))

  unfoldable pub register_alias : ChainKey → List Text → Dict ChainKey → Dict ChainKey
  register_alias key [] aliases = aliases
  register_alias key (alias ∷ more) aliases =
      register_alias key more (insert (normalize_chain_id alias) key aliases)

-- `collect` of the handles by id.
unfoldable pub by_id : List ProviderHandle → Dict ProviderHandle → Dict ProviderHandle
by_id [] table = table
by_id (handle ∷ handles) table = by_id handles (insert handle.id handle table)

-- `filter_map` with a lookup: unknown ids are passed over.
unfoldable pub provider_subset : Dict ProviderHandle → List ProviderId → List ProviderHandle
provider_subset table [] = []
provider_subset table (id ∷ more) =
    let rest = provider_subset table more in
    elim (get id table) [ none ↦ rest | some handle ↦ handle ∷ rest ]

module _ (fl : Float) (rand : Rand fl.F) (globs : Globs) (decode : Text → Text) where
  open fl use {F}
  open rand use {Rng}

  -- `shared` holds the three parts that change; the other fields do not.
  pub record ChainRuntime : Type 0 where
    pub id : ChainKey
    pub aliases : List Text
    pub tolerance : ToleranceLevel
    pub load_balancer : LoadBalancer
    pub shared : Shared F Rng
    pub method_registry : MethodRegistry fl globs
    pub providers : List ProviderId

  pub record ProxyState : Type 0 where
    pub config : ProxyConfig F
    pub providers_by_id : Dict ProviderHandle
    pub chains : Dict ChainRuntime
    pub alias_map : Dict ChainKey
    pub default_chain : Option ChainKey

  unfoldable pub build_chain_runtime :
      ChainKey
      → List Text
      → BalancerStrategy
      → ToleranceLevel
      → List ProviderHandle
      → ProxyConfig F
      → MethodRegistry fl globs
      → ChainRuntime
  build_chain_runtime key aliases strategy tolerance providers config registry = record {
    id = key;
    aliases = to_set (map (normalize_chain_id decode) aliases);
    tolerance = tolerance;
    load_balancer = record { pool = providers; strategy = strategy };
    shared = record {
      circuit_breaker = Circuit.new providers config.circuit_breaker;
      balancer_state = new_balancer_state fl rand;
      health_service =
          if is_empty providers then none else some (Health.new fl providers tolerance);
    };
    method_registry = registry;
    providers = to_set (provider_ids providers);
  }

  -- The runtime of a configured chain.
  unfoldable pub chain_runtime :
      ProxyConfig F
      → Dict ProviderHandle
      → MethodRegistry fl globs
      → ChainKey
      → ChainConfig
      → ChainRuntime
  unfolding build_chain_runtime
  chain_runtime config providers_by_id registry chain_id chain =
      build_chain_runtime chain_id chain.aliases config.strategy
        (unwrap_or config.default_tolerance chain.tolerance)
        (provider_subset providers_by_id chain.providers) config registry

  -- The loop over the configured chains.
  unfoldable pub add_chains :
      (ChainKey → ChainConfig → ChainRuntime)
      → Dict ChainConfig
      → Dict ChainRuntime
      → Dict ChainKey
      → Dict ChainRuntime × Dict ChainKey
  add_chains build [] chains alias_map = (chains, alias_map)
  add_chains build ((chain_id, chain) ∷ more) chains alias_map =
      add_chains build more (insert chain_id (build chain_id chain) chains) (
        register_alias decode chain_id chain.aliases
          (register_alias decode chain_id (chain_id ∷ []) alias_map))

  -- `chains.keys().find(|key| key.0 == *id)`
  unfoldable pub known_chain : Dict ChainRuntime → Text → Option ChainKey
  known_chain chains id = if is_some (get id chains) then some id else none

  -- The state with its method registry built.
  unfoldable pub new_state : ProxyConfig F → MethodRegistry fl globs → ProxyState
  unfolding build_chain_runtime chain_runtime add_chains known_chain
  new_state config registry =
      let handles = map into_handle config.providers in
      let table = by_id handles [] in
      if is_empty config.chains
      then (let chains : Dict ChainRuntime =
            insert (codes "default")
              (build_chain_runtime (codes "default") [] config.strategy balanced handles config
                registry)
              [] in
          record {
            config = record config { default_chain = some (codes "default") };
            providers_by_id = table;
            chains = chains;
            alias_map = [];
            default_chain = known_chain chains (codes "default");
          })
      else (let (chains, alias_map) =
            add_chains (chain_runtime config table registry) config.chains [] [] in
          record {
            config = config;
            providers_by_id = table;
            chains = chains;
            alias_map = alias_map;
            default_chain = elim config.default_chain [
              | none ↦ none
              | some id ↦ known_chain chains id
            ];
          })

  -- `ProxyState::new`; `none` is its panic on an invalid glob pattern.
  unfoldable pub new : ProxyConfig F → Option ProxyState
  unfolding new_state
  new config = elim (Methods.new fl globs config) [
    | inl invalid ↦ none
    | inr registry ↦ some (new_state config registry)
  ]

  unfoldable pub find_chain : ProxyState → ChainKey → Resolved ChainRuntime
  find_chain state key = elim (get key state.chains) [
    | none ↦ unsupported key
    | some runtime ↦ found runtime
  ]

  unfoldable pub find_default : ProxyState → Resolved ChainRuntime
  unfolding find_chain
  find_default state = elim state.default_chain [
    | none ↦ unsupported (codes "default")
    | some key ↦ find_chain state key
  ]

  unfoldable pub resolve_chain : ProxyState → Option Text → Resolved ChainRuntime
  unfolding find_chain find_default
  resolve_chain state none = find_default state
  resolve_chain state (some []) = find_default state
  resolve_chain state (some (c ∷ value)) =
      elim (get (normalize_chain_id decode (c ∷ value)) state.alias_map) [
        | none ↦ unsupported (c ∷ value)
        | some key ↦ find_chain state key
      ]
