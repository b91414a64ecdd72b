-- ===== src/Server/Runtime/Aliases.antt =====
-- The alias map of `ProxyState::new` (crates/proxy-server/src/lib.rs) and the names of the
-- chains.
use rpceth.Base.{
  contains-append, absent-append, AllDistinct-append, map-contains, or-false, ℕ, Member-is_empty,
  ◌≡◌, refl, same, ap, ◌∙◌, true, false, some, List, [], ◌∷◌, ◌++◌, Text, Dict, get, insert,
  get-insert, keys, same_iff, same_self, contains, map, Member, Member-cons, AllDistinct, inl, inr,
  if◌then◌else◌, arith,
}
use rpceth.Float.{Float}
use rpceth.Config.{ProxyConfig, ChainConfig}
use rpceth.Provider.{into_handle}
use rpceth.Methods.{Globs, MethodRegistry}
use rpceth.Balancer.{Rand}
use rpceth.Server.Runtime.{
  ChainKey, ChainRuntime, ProxyState, found, by_id, chain_runtime, register_alias, add_chains,
  new_state, find_chain, resolve_chain, normalize_chain_id,
}

module _ (decode : Text → Text) where
  -- The names that a configured chain goes by, as requests are looked up.
  abbrev pub names_of : Text × ChainConfig → List Text
  names_of e = normalize_chain_id decode e.0 ∷ map (normalize_chain_id decode) e.1.aliases

  abbrev pub names : Dict ChainConfig → List Text
  names [] = []
  names (e ∷ more) = names_of e ++ names more

  get-register_alias :
      (key : ChainKey) (aliases : List Text) (m : Dict ChainKey) (n : Text)
      → get n (register_alias decode key aliases m)
        ≡ (if contains (map (normalize_chain_id decode) aliases) n then some key else get n m)
  unfolding register_alias contains
  get-register_alias key [] m n = refl
  get-register_alias key (a ∷ aliases) m n =
      let m' = insert (normalize_chain_id decode a) key m in
      ground (
        arith,
        get-register_alias key aliases m' n,
        get-insert (normalize_chain_id decode a) n key m,
      )

  -- What registering the id of a chain and its aliases makes of a lookup.
  get-names :
      (k : ChainKey) (c : ChainConfig) (m : Dict ChainKey) (n : Text)
      → get n (register_alias decode k c.aliases (register_alias decode k (k ∷ []) m))
        ≡ (if contains (names_of (k, c)) n then some k else get n m)
  unfolding contains
  get-names k c m n = ground (
    arith,
    get-register_alias k c.aliases (register_alias decode k (k ∷ []) m) n,
    get-register_alias k (k ∷ []) m n,
  )

  keys-names :
      (chains : Dict ChainConfig) (k : Text)
      → contains (names chains) (normalize_chain_id decode k) ≡ false
      → contains (keys chains) k ≡ false
  unfolding contains
  keys-names [] k h = refl
  keys-names ((j, c) ∷ more) k h =
      let n = normalize_chain_id decode k in
      let ih = keys-names more k in
      ground (
        arith,
        ih,
        h,
        contains-append (map (normalize_chain_id decode) c.aliases) (names more) n,
        same_iff j k,
        same_self n,
      )

module _ (fl : Float) (rand : Rand fl.F) (globs : Globs) (decode : Text → Text) where
  open fl use {F}

  abbrev Runtime : Type 0
  Runtime = ChainRuntime fl rand globs decode

  module _ (build : ChainKey → ChainConfig → Runtime) where
    abbrev added : Dict ChainConfig → Dict Runtime → Dict ChainKey → Dict Runtime × Dict ChainKey
    added = add_chains fl rand globs decode build

    get-added_alias :
        (configs : Dict ChainConfig) (chains : Dict Runtime) (m : Dict ChainKey) (n : Text)
        → contains (names decode configs) n ≡ false
        → get n (added configs chains m).1 ≡ get n m
    unfolding add_chains
    get-added_alias [] chains m n h = refl
    get-added_alias ((k, c) ∷ more) chains m n h =
        let (own, later) = absent-append (names_of decode (k, c)) (names decode more) n h in
        get-added_alias more _ _ n later ∙ get-names decode k c m n ∙ rw own refl

    get-added_chain :
        (configs : Dict ChainConfig) (chains : Dict Runtime) (m : Dict ChainKey) (k : Text)
        → contains (keys configs) k ≡ false
        → get k (added configs chains m).0 ≡ get k chains
    unfolding add_chains contains
    get-added_chain [] chains m k h = refl
    get-added_chain ((j, c) ∷ more) chains m k h =
        let (other, later) = or-false (same j k) (contains (keys more) k) h in
        get-added_chain more _ _ k later ∙ get-insert j k (build j c) chains ∙ rw other refl

    names_of-own :
        (k : Text) (c : ChainConfig)
        → contains (names_of decode (k, c)) (normalize_chain_id decode k) ≡ true
    unfolding contains
    names_of-own k c = ground (arith, same_self (normalize_chain_id decode k))

    -- Each chain stands under its key, and each of its names is an alias of the key.
    added-finds :
        (configs : Dict ChainConfig) (chains : Dict Runtime) (m : Dict ChainKey) (k : Text)
        (c : ChainConfig) (n : Text)
        → AllDistinct (names decode configs)
        → Member {A = Text × ChainConfig} (k, c) configs
        → contains (names_of decode (k, c)) n ≡ true
        → (get n (added configs chains m).1 ≡ some k)
          × (get k (added configs chains m).0 ≡ some (build k c))
    unfolding add_chains
    added-finds [] chains m k c n d at named = elim at [ ]
    added-finds ((j, b) ∷ more) chains m k c n d at named =
        let (later, apart) = AllDistinct-append (names_of decode (j, b)) (names decode more) d in
        elim (Member-cons at) [
          | inr rest ↦ added-finds more _ _ k c n later rest named
          | inl first ↦
              let key : j ≡ k = ap (λ e. e.0) first in
              let config : b ≡ c = ap (λ e. e.1) first in
              let gone = apart n (rw (key, config) named) in
              let alone =
                keys-names decode more k
                  (apart (normalize_chain_id decode k) (rw key (names_of-own k b))) in
              (
                get-added_alias more _ _ n gone
                    ∙ get-names decode j b m n
                    ∙ rw (key, config) (rw named refl),
                get-added_chain more _ _ k alone
                    ∙ get-insert j k (build j b) chains
                    ∙ rw (key, config) (rw (same_self k) refl),
              )
        ]

  names_of-Member :
      (k : Text) (c : ChainConfig) (v : Text)
      → Member v (k ∷ c.aliases)
      → contains (names_of decode (k, c)) (normalize_chain_id decode v) ≡ true
  names_of-Member k c v at = map-contains (normalize_chain_id decode) (k ∷ c.aliases) v at

  resolve_chain-alias :
      (state : ProxyState fl rand globs decode) (key : ChainKey) (runtime : Runtime) (ch : ℕ)
      (given : Text)
      → get (normalize_chain_id decode (ch ∷ given)) state.alias_map ≡ some key
      → get key state.chains ≡ some runtime
      → resolve_chain fl rand globs decode state (some (ch ∷ given)) ≡ found runtime
  unfolding resolve_chain find_chain
  resolve_chain-alias state key runtime ch given listed stands = ground (arith, listed, stands)

  -- Each chain stands under its id.
  pub get-new_state :
      (config : ProxyConfig F) (registry : MethodRegistry fl globs) (k : Text) (c : ChainConfig)
      → AllDistinct (names decode config.chains)
      → Member {A = Text × ChainConfig} (k, c) config.chains
      → get k (new_state fl rand globs decode config registry).chains
        ≡ some (
            chain_runtime fl rand globs decode config
              (by_id (map into_handle config.providers) [])
              registry
              k
              c)
  unfolding new_state
  get-new_state config registry k c d at =
      let build =
        chain_runtime fl rand globs decode config (by_id (map into_handle config.providers) [])
          registry in
      rw (Member-is_empty at, new_state)
        (added-finds build config.chains [] [] k c (normalize_chain_id decode k) d at
          (names_of-own build k c)).1

  -- In the state that is built from a configuration with chains whose ids and aliases, normalized
  -- as requests are, are all distinct, a request that gives the id of a chain or one of its
  -- aliases, in any spelling that normalizes to it, resolves to the runtime of that chain.
  pub resolve_chain-named :
      (config : ProxyConfig F) (registry : MethodRegistry fl globs) (k : Text) (c : ChainConfig)
      (alias : Text) (ch : ℕ) (given : Text)
      → AllDistinct (names decode config.chains)
      → Member {A = Text × ChainConfig} (k, c) config.chains
      → Member alias (k ∷ c.aliases)
      → normalize_chain_id decode (ch ∷ given) ≡ normalize_chain_id decode alias
      → resolve_chain fl rand globs decode
          (new_state fl rand globs decode config registry)
          (some (ch ∷ given))
        ≡ found (
            chain_runtime fl rand globs decode config
              (by_id (map into_handle config.providers) [])
              registry
              k
              c)
  unfolding new_state
  resolve_chain-named config registry k c alias ch given d at named e =
      let build =
        chain_runtime fl rand globs decode config (by_id (map into_handle config.providers) [])
          registry in
      let (listed, stands) =
        added-finds build config.chains [] [] k c (normalize_chain_id decode alias) d at
          (names_of-Member k c alias named) in
      resolve_chain-alias (new_state fl rand globs decode config registry) k _ ch given
        (rw (Member-is_empty at, new_state) (rw e listed))
        (rw (Member-is_empty at, new_state) stands)
