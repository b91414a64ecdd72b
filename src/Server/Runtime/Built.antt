-- ===== src/Server/Runtime/Built.antt =====
-- The runtimes that `ProxyState::new` (crates/proxy-server/src/lib.rs) builds, with chains or without.
use rpceth.Base.{
  List, [], ◌∷◌, Text, Dict, AllValues, AllValues-insert, is_empty, Bool-cases, inl, inr,
}
use rpceth.Settings.{ToleranceLevel, BalancerStrategy}
use rpceth.Provider.{ProviderHandle}
use rpceth.Float.{Float}
use rpceth.Config.{ProxyConfig, ChainConfig}
use rpceth.Methods.{Globs, MethodRegistry}
use rpceth.Balancer.{Rand}
use rpceth.Server.Runtime.{
  ChainKey, ChainRuntime, build_chain_runtime, chain_runtime, add_chains, new_state,
}

module _ (fl : Float) (rand : Rand fl.F) (globs : Globs) (decode : Text → Text) where
  open fl use {F}

  abbrev Runtime : Type 0
  Runtime = ChainRuntime fl rand globs decode

  module _ (config : ProxyConfig F) (registry : MethodRegistry fl globs) (P : Runtime → Type 0)
      (built : (key : ChainKey) (aliases : List Text) (strategy : BalancerStrategy)
          (t : ToleranceLevel) (ps : List ProviderHandle)
        → P (
            build_chain_runtime fl rand globs decode key aliases strategy t ps config
              registry)) where
    add_chains-AllValues :
        (build : ChainKey → ChainConfig → Runtime) (configs : Dict ChainConfig)
        (chains : Dict Runtime) (alias_map : Dict ChainKey)
        → ((k : ChainKey) (c : ChainConfig) → P (build k c))
        → AllValues P chains
        → AllValues P (add_chains fl rand globs decode build configs chains alias_map).0
    unfolding add_chains
    add_chains-AllValues build [] chains alias_map b h = h
    add_chains-AllValues build ((k, c) ∷ more) chains alias_map b h =
        add_chains-AllValues build more _ _ b (AllValues-insert P k (build k c) chains (b k c) h)

    chain_runtime-built :
        (table : Dict ProviderHandle) (k : ChainKey) (c : ChainConfig)
        → P (chain_runtime fl rand globs decode config table registry k c)
    unfolding chain_runtime
    chain_runtime-built table k c = built k c.aliases config.strategy _ _

    -- What holds of each runtime that `build_chain_runtime` makes of a configuration and a registry
    -- holds of each of the new state.
    pub new_state-AllValues : AllValues P (new_state fl rand globs decode config registry).chains
    unfolding new_state
    new_state-AllValues = elim (Bool-cases (is_empty config.chains)) [
      | inl legacy ↦
          rw (legacy, new_state) (AllValues-insert P _ _ [] (built _ [] config.strategy _ _) tt)
      | inr named ↦
          rw (named, new_state)
            (add_chains-AllValues _ config.chains [] [] (chain_runtime-built _) tt)
    ]
