-- ===== src/Server/Select.antt =====
-- `select_provider` of crates/proxy-server/src/lib.rs, over an interface to the load balancer and
-- to the circuit breaker of the chain.
pub mod Laws
pub mod Keeps
pub mod Finds
use rpceth.Base.{
  ℕ, zero, suc, ◌≡◌, Bool, true, false, Option, none, some, List, [], ◌∷◌, Dict, get, Member,
  contains, add, length, unwrap_or, if◌then◌else◌,
}
use rpceth.Provider.{ProviderId, ProviderHandle}
use rpceth.Server.{RequestContext, World, Surroundings, access, now}

-- What a request uses of a chain, over the shared state `S`.
pub record Chain (S : Type 0) : Type 0 where
  pub pool : List ProviderHandle
  pub providers : List ProviderId
  -- `load_balancer.select(&excluded, Some(policy))`
  pub select : List ProviderId → S → Option ProviderHandle × S
  -- `circuit_breaker.is_available`, at a time
  pub is_available : ℕ → ProviderId → S → Bool
  -- The calls that report an attempt to the circuit breaker, at a time.
  pub on_request_start : ℕ → ProviderId → S → S
  pub on_success : ProviderId → S → S
  pub on_failure : ℕ → ProviderId → S → S

-- What a request relies on: a selected provider is of the pool and not excluded, and the pool's
-- providers are those of the chain.
pub record IsSelecting {S : Type 0} (chain : Chain S) : Type 0 where
  pub selected :
      (exclude : List ProviderId) (s : S) (p : ProviderHandle)
      → (chain.select exclude s).0 ≡ some p
      → Member p chain.pool × (contains exclude p.id ≡ false)
  pub listed : (p : ProviderHandle) → Member p chain.pool → contains chain.providers p.id ≡ true

module _ {S : Type 0} (chain : Chain S) (around : Surroundings S) where
  -- The `loop`. `none` means that the fuel ran out.
  unfoldable pub select_loop :
      ℕ → List ProviderId → World S → Option (Option ProviderHandle × World S)
  select_loop zero excluded w = none
  select_loop (suc fuel) excluded w =
      let w₁ = access around w in
      let (chosen, shared) = chain.select excluded w₁.shared in
      let w₂ = record w₁ { shared = shared } in
      elim chosen [
        | none ↦ some (none, w₂)
        | some provider ↦
            let w₃ = access around w₂ in
            let rest = select_loop fuel (add provider.id excluded) w₃ in
            if chain.is_available (now around w₃) provider.id w₃.shared
            then some (some provider, w₃)
            else rest
      ]

  -- The loop with a round for each provider of the pool and one more: each round but the last
  -- excludes another provider of the pool.
  unfoldable pub select_excluding : List ProviderId → World S → Option ProviderHandle × World S
  unfolding select_loop
  select_excluding excluded w =
      unwrap_or (none, w) (select_loop (suc (length chain.pool)) excluded w)

  -- The provider that the request names, if the breaker lets it through; `none` to go on to the
  -- load balancer with it excluded.
  unfoldable pub take_override :
      ProviderId → Option ProviderHandle → World S → Option ProviderHandle × World S
  take_override id none w = (none, w)
  take_override id (some handle) w =
      let w₁ = access around w in
      if chain.is_available (now around w₁) id w₁.shared then (some handle, w₁) else (none, w₁)

  -- A request that names the provider `id`. `providers_by_id` is looked up for it alone.
  unfoldable pub select_named :
      Dict ProviderHandle → ProviderId → List ProviderId → World S → Option ProviderHandle × World S
  unfolding select_excluding take_override
  select_named providers_by_id id tried w =
      if contains tried id
      then select_excluding (add id tried) w
      else (if contains chain.providers id
          then (let (taken, w₁) = take_override id (get id providers_by_id) w in
              elim taken [
                | none ↦ select_excluding (add id tried) w₁
                | some handle ↦ (some handle, w₁)
              ])
          else (none, w))

  unfoldable pub select_provider :
      Dict ProviderHandle
      → RequestContext
      → List ProviderId
      → World S
      → Option ProviderHandle × World S
  unfolding select_excluding select_named
  select_provider providers_by_id ctx tried w = elim ctx.provider_override [
    | none ↦ select_excluding tried w
    | some id ↦ select_named providers_by_id id tried w
  ]
