-- ===== src/Server/Runtime/Interface.antt =====
-- The chain that a request works with (crates/proxy-server/src/lib.rs): its load balancer and its
-- circuit breaker behind the interface of `select_provider`.
use rpceth.Base.{
  ◌≡◌, refl, none, Option, some, List, [], ◌∷◌, Text, Dict, get, insert, get-insert, same_iff, map,
  AllValues, AllValues-get, to_set, contains-to_set, is_empty, Bool-cases, Option-cases, inl, inr,
  arith,
}
use rpceth.Provider.{ProviderHandle, into_handle}
use rpceth.Circuit
use rpceth.Float.{Float}
use rpceth.Config.{ProxyConfig}
use rpceth.Methods.{Globs, MethodPolicy, MethodRegistry}
use rpceth.Balancer
use rpceth.Balancer.{Rand, provider_ids}
use rpceth.Balancer.Choice.{select-passes, provider_ids-contains}
use rpceth.Server.{Shared}
use rpceth.Server.Select.{Chain, IsSelecting}
use rpceth.Server.Select.Laws.{IsKeyed}
use rpceth.Server.Runtime.Built.{new_state-AllValues}
use rpceth.Server.Runtime.{
  ChainKey, ChainRuntime, ProxyState, found, by_id, build_chain_runtime, new_state, find_chain,
  find_default, resolve_chain, normalize_chain_id,
}

module _ (fl : Float) (rand : Rand fl.F) (globs : Globs) (decode : Text → Text) where
  open fl use {F}
  open rand use {Rng}

  abbrev Runtime : Type 0
  Runtime = ChainRuntime fl rand globs decode

  unfoldable pub chain_of : Runtime → MethodPolicy F → Chain (Shared F Rng)
  chain_of runtime policy = record {
    pool = runtime.load_balancer.pool;
    providers = runtime.providers;
    select = λ exclude s.
        let (chosen, balancer) =
          Balancer.select fl rand runtime.load_balancer s.health_service exclude (some policy)
            s.balancer_state in
        (chosen, record s { balancer_state = balancer });
    is_available = λ now id s. Circuit.is_available now id s.circuit_breaker;
    on_request_start = λ now id s. record s {
      circuit_breaker = Circuit.on_request_start now id s.circuit_breaker;
    };
    on_success = λ id s. record s { circuit_breaker = Circuit.on_success id s.circuit_breaker };
    on_failure =
        λ now id s. record s { circuit_breaker = Circuit.on_failure now id s.circuit_breaker };
  }

  -- The set of a runtime's providers is that of its pool.
  abbrev pub IsListed : Runtime → Type 0
  IsListed runtime = runtime.providers ≡ to_set (provider_ids runtime.load_balancer.pool)

  -- The load balancer and the circuit breaker of a runtime fill the interface of
  -- `select_provider`: a selected provider is of the pool and not excluded, and the pool's
  -- providers are those of the chain, if the runtime's set of providers is that of its pool.
  pub chain_of-IsSelecting :
      (runtime : Runtime) (policy : MethodPolicy F)
      → IsListed runtime
      → IsSelecting (chain_of runtime policy)
  unfolding chain_of
  chain_of-IsSelecting runtime policy same_ids = record {
    selected = λ exclude s p e.
        let (at, free, healthy) =
          select-passes fl rand runtime.load_balancer s.health_service exclude (some policy)
            s.balancer_state p e in
        (at, free);
    listed = λ p at.
        rw (same_ids, contains-to_set) (provider_ids-contains runtime.load_balancer.pool p at);
  }

  pub new_state-IsListed :
      (config : ProxyConfig F) (registry : MethodRegistry fl globs)
      → AllValues IsListed (new_state fl rand globs decode config registry).chains
  unfolding build_chain_runtime
  new_state-IsListed config registry =
      new_state-AllValues fl rand globs decode config registry (λ r. IsListed r)
        (λ key aliases strategy t ps. refl)

  find_chain-get :
      (state : ProxyState fl rand globs decode) (key : ChainKey) (runtime : Runtime)
      → find_chain fl rand globs decode state key ≡ found runtime
      → get key state.chains ≡ some runtime
  unfolding find_chain
  find_chain-get state key runtime e = ground arith

  find_default-get :
      (state : ProxyState fl rand globs decode) (runtime : Runtime)
      → find_default fl rand globs decode state ≡ found runtime
      → (key : ChainKey) × (get key state.chains ≡ some runtime)
  unfolding find_default
  find_default-get state runtime e = elim (Option-cases state.default_chain) [
    | inl unset ↦ let e' = rw (unset, find_default) at e in cc
    | inr (key, set_to) ↦ (key, find_chain-get state key runtime (rw (set_to, find_default) at e))
  ]

  resolve_chain-get :
      (state : ProxyState fl rand globs decode) (chain_id : Option Text) (runtime : Runtime)
      → resolve_chain fl rand globs decode state chain_id ≡ found runtime
      → (key : ChainKey) × (get key state.chains ≡ some runtime)
  unfolding resolve_chain
  resolve_chain-get state none runtime e = find_default-get state runtime e
  resolve_chain-get state (some []) runtime e = find_default-get state runtime e
  resolve_chain-get state (some (c ∷ v)) runtime e =
      elim (Option-cases (get (normalize_chain_id decode (c ∷ v)) state.alias_map)) [
        | inl unknown ↦ let e' = rw (unknown, resolve_chain) at e in cc
        | inr (key, at) ↦ (key, find_chain-get state key runtime (rw (at, resolve_chain) at e))
      ]

  -- What holds of all runtimes of a state holds of the one that a request resolves to.
  pub resolve_chain-AllValues :
      (P : Runtime → Type 0) (state : ProxyState fl rand globs decode) (chain_id : Option Text)
      (runtime : Runtime)
      → AllValues P state.chains
      → resolve_chain fl rand globs decode state chain_id ≡ found runtime
      → P runtime
  resolve_chain-AllValues P state chain_id runtime h e =
      let (key, at) = resolve_chain-get state chain_id runtime e in
      AllValues-get P state.chains key runtime at h

pub by_id-IsKeyed :
    (hs : List ProviderHandle) (table : Dict ProviderHandle)
    → IsKeyed table
    → IsKeyed (by_id hs table)
unfolding by_id
by_id-IsKeyed [] table h = h
by_id-IsKeyed (x ∷ hs) table h =
    by_id-IsKeyed hs (insert x.id x table)
      (λ id p e. ground (arith, get-insert x.id id x table, same_iff x.id id, h id p))

pub empty-IsKeyed : IsKeyed []
unfolding get
empty-IsKeyed id h e = cc

module _ (fl : Float) (rand : Rand fl.F) (globs : Globs) (decode : Text → Text) where
  -- The table of a new state lists each provider under its id.
  pub new_state-IsKeyed :
      (config : ProxyConfig fl.F) (registry : MethodRegistry fl globs)
      → IsKeyed (new_state fl rand globs decode config registry).providers_by_id
  unfolding new_state
  new_state-IsKeyed config registry =
      let keyed = by_id-IsKeyed (map into_handle config.providers) [] empty-IsKeyed in
      elim (Bool-cases (is_empty config.chains)) [
        | inl legacy ↦ rw (legacy, new_state) keyed
        | inr named ↦ rw (named, new_state) keyed
      ]
