-- ===== src/Server/Runtime/Validated.antt =====
-- The state that `ProxyState::new` (crates/proxy-server/src/lib.rs) builds from a configuration that
-- `validate` (crates/proxy-core/src/config.rs) accepts.
use rpceth.Base.{
  get-Member, ℕ, ◌≡◌, ◌≢◌, refl, sym, ap, ◌∙◌, true, false, Option-cases, some, none, List, [], ◌∷◌,
  Text, codes, Dict, get, insert, same, contains, map, Member, Member-is_empty, is_empty, All,
  All-Member, All-weaken, trim, trim_idem, to_ascii_lowercase, inl, inr, arith,
}
use rpceth.Float.{Float}
use rpceth.Settings.{balanced}
use rpceth.Refusal.{Accepted}
use rpceth.Config.{ProxyConfig, ChainConfig}
use rpceth.Config.Chains.{normalize_chain_alias}
use rpceth.Config.Validation.{validate}
use rpceth.Config.Accepts.{validate_iff}
use rpceth.Config.Names
use rpceth.Config.Names.{ValidChain}
use rpceth.Provider.{into_handle}
use rpceth.Methods.{Globs, MethodRegistry}
use rpceth.Balancer.{Rand, provider_ids}
use rpceth.Server.Runtime.{
  ChainKey, ChainRuntime, ProxyState, found, by_id, build_chain_runtime, chain_runtime, new_state,
  find_chain, find_default, known_chain, resolve_chain, normalize_chain_id,
}
use rpceth.Server.Runtime.Interface.{by_id-IsKeyed, empty-IsKeyed}
use rpceth.Server.Runtime.Aliases
use rpceth.Server.Runtime.Aliases.{resolve_chain-named, get-new_state}
use rpceth.Server.Runtime.Handles.{by_id-known, known_id, provider_subset-ids, map-ne-nil}

module _ (fl : Float) (rand : Rand fl.F) (globs : Globs) (decode : Text → Text) where
  open fl use {F}

  -- Percent decoding leaves the ids and aliases of the configured chains as they are.
  abbrev pub IsPlain : Text × ChainConfig → Type 0
  IsPlain e = (decode e.0 ≡ e.0) × All (λ a. decode a ≡ a) e.1.aliases

  normalize-plain :
      (a : Text) → decode a ≡ a → normalize_chain_id decode a ≡ normalize_chain_alias (trim a)
  unfolding normalize_chain_id normalize_chain_alias
  normalize-plain a plain =
      ap (λ s. to_ascii_lowercase (trim s)) plain ∙ ap to_ascii_lowercase (sym (trim_idem a))

  normalize-aliases :
      (aliases : List Text)
      → All (λ a. decode a ≡ a) aliases
      → map (normalize_chain_id decode) aliases ≡ map (λ a. normalize_chain_alias (trim a)) aliases
  normalize-aliases [] plain = refl
  normalize-aliases (a ∷ aliases) (p, plain) =
      rw (normalize-plain a p, normalize-aliases aliases plain) refl

  names-plain :
      (chains : Dict ChainConfig)
      → All IsPlain chains
      → Aliases.names decode chains ≡ Names.names chains
  names-plain [] plain = refl
  names-plain (e ∷ chains) ((p, q), plain) =
      rw (normalize-plain e.0 p, normalize-aliases e.1.aliases q, names-plain chains plain) refl

  legacy_default :
      (config : ProxyConfig F) (registry : MethodRegistry fl globs)
      → is_empty config.chains ≡ true
      → resolve_chain fl rand globs decode (new_state fl rand globs decode config registry) none
        ≡ found (
            build_chain_runtime fl rand globs decode
              (codes "default")
              []
              config.strategy
              balanced
              (map into_handle config.providers)
              config
              registry)
  unfolding resolve_chain find_default find_chain known_chain new_state insert get same
  legacy_default config registry empty = rw (empty, new_state) refl

  known_chain-get :
      (chains : Dict (ChainRuntime fl rand globs decode)) (d : Text)
      (runtime : ChainRuntime fl rand globs decode)
      → get d chains ≡ some runtime
      → known_chain fl rand globs decode chains d ≡ some d
  unfolding known_chain
  known_chain-get chains d runtime stands = rw stands refl

  default_of-new_state :
      (config : ProxyConfig F) (registry : MethodRegistry fl globs) (d : Text)
      (runtime : ChainRuntime fl rand globs decode)
      → is_empty config.chains ≡ false
      → config.default_chain ≡ some d
      → get d (new_state fl rand globs decode config registry).chains ≡ some runtime
      → (new_state fl rand globs decode config registry).default_chain ≡ some d
  unfolding new_state
  default_of-new_state config registry d runtime some_chains default stands =
      rw (some_chains, new_state, default)
        (known_chain-get _ d runtime (rw (some_chains, new_state) at stands))

  found_default :
      (state : ProxyState fl rand globs decode) (d : Text)
      (runtime : ChainRuntime fl rand globs decode)
      → state.default_chain ≡ some d
      → get d state.chains ≡ some runtime
      → resolve_chain fl rand globs decode state none ≡ found runtime
  unfolding resolve_chain find_default find_chain
  found_default state d runtime default stands = ground arith

  chain_runtime-ids :
      (config : ProxyConfig F) (registry : MethodRegistry fl globs) (k : ChainKey) (c : ChainConfig)
      → All (λ id. contains (map (λ p. p.id) config.providers) id ≡ true) c.providers
      → provider_ids
          (chain_runtime fl rand globs decode config
            (by_id (map into_handle config.providers) [])
            registry
            k
            c).load_balancer.pool
        ≡ c.providers
  unfolding chain_runtime build_chain_runtime
  chain_runtime-ids config registry k c listed =
      let handles = map into_handle config.providers in
      provider_subset-ids _ c.providers (by_id-IsKeyed handles [] empty-IsKeyed) (
        All-weaken c.providers (λ id p. by_id-known handles [] id (known_id config.providers id p))
          listed)

  -- In the state built from a configuration that `validate` accepts and whose chain ids and
  -- aliases percent decoding leaves as they are: a request that names a configured chain by its id
  -- or an alias, in any spelling that is normalized to the same and is not empty, resolves to a
  -- runtime with that id whose pool has the chain's configured providers, in their order, and at
  -- least one.
  pub resolve_chain-validated :
      (config : ProxyConfig F) (registry : MethodRegistry fl globs) (k : Text) (c : ChainConfig)
      (alias : Text) (ch : ℕ) (given : Text)
      → Accepted (validate fl config)
      → All IsPlain config.chains
      → Member {A = Text × ChainConfig} (k, c) config.chains
      → Member alias (k ∷ c.aliases)
      → normalize_chain_id decode (ch ∷ given) ≡ normalize_chain_id decode alias
      → (runtime : ChainRuntime fl rand globs decode) × (resolve_chain fl rand globs decode
            (new_state fl rand globs decode config registry)
            (some (ch ∷ given))
          ≡ found runtime)
        × (runtime.id ≡ k)
        × (provider_ids runtime.load_balancer.pool ≡ c.providers)
        × (c.providers ≢ [])
  unfolding chain_runtime build_chain_runtime
  resolve_chain-validated config registry k c alias ch given accepted plain at named e =
      let (
        timeout,
        (retries, (key, (circuit, (some_one, ((providers, ids), (methods, chains)))))),
      ) =
        (validate_iff fl config).0 accepted in
      elim chains [
        | inl (nil, blank) ↦ ground (arith, Member-is_empty at)
        | inr (ne, (d, default, (full, (known, (valid, distinct))))) ↦
            let (chain_named, (some_providers, (listed, aliases))) =
              All-Member (ValidChain (map (λ p. p.id) config.providers)) config.chains (k, c) at
                valid in
            (
              _,
              resolve_chain-named fl rand globs decode config registry k c alias ch given
                  (rw (names-plain config.chains plain) distinct) at named e,
              refl,
              chain_runtime-ids config registry k c listed,
              some_providers,
            )
      ]

  -- In the state built from a configuration that `validate` accepts and whose chain ids and
  -- aliases percent decoding leaves as they are, a request that names no chain resolves to a
  -- runtime whose pool is not empty, whether chains are configured or not.
  pub resolve_chain-default :
      (config : ProxyConfig F) (registry : MethodRegistry fl globs)
      → Accepted (validate fl config)
      → All IsPlain config.chains
      → (runtime : ChainRuntime fl rand globs decode) × (resolve_chain fl rand globs decode
            (new_state fl rand globs decode config registry)
            none
          ≡ found runtime)
        × (runtime.load_balancer.pool ≢ [])
  unfolding build_chain_runtime chain_runtime provider_ids
  resolve_chain-default config registry accepted plain =
      let (
        timeout,
        (retries, (key, (circuit, (some_one, ((providers, ids), (methods, chains)))))),
      ) =
        (validate_iff fl config).0 accepted in
      elim chains [
        | inl (nil, blank) ↦
            let empty : is_empty config.chains ≡ true = rw nil refl in
            (_, legacy_default config registry empty, map-ne-nil config.providers some_one)
        | inr (ne, (d, default, (full, (known, (valid, distinct))))) ↦
            elim (Option-cases (get d config.chains)) [
              | inl unknown ↦ ground arith
              | inr (c, e) ↦
                  let at = get-Member config.chains d c e in
                  let (named, (some_providers, (listed, aliases))) =
                    All-Member (ValidChain (map (λ p. p.id) config.providers)) config.chains (d, c)
                      at valid in
                  let stands =
                    get-new_state fl rand globs decode config registry d c
                      (rw (names-plain config.chains plain) distinct) at in
                  (
                    _,
                    found_default (new_state fl rand globs decode config registry) d _
                        (default_of-new_state config registry d _ (Member-is_empty at) default
                          stands)
                        stands,
                    λ nobody. some_providers (
                        sym (chain_runtime-ids config registry d c listed)
                        ∙ ap provider_ids nobody),
                  )
            ]
      ]
