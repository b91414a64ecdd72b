-- ===== src/Server/Metrics/Gauges.antt =====
-- The availability that `health_metrics_task` exports (crates/proxy-server/src/lib.rs).
use rpceth.Base.{
  ℕ, ◌≡◌, ◌↔◌, refl, true, false, arith, Option, Option-cases, none, some, List, [], ◌∷◌, ◌++◌,
  Text, codes, get, find, same, same_self, All, All-Member, Member, here, there, inl, inr,
}
use rpceth.Provider.{ProviderId, ProviderHandle}
use rpceth.Circuit
use rpceth.Float.{Float}
use rpceth.Health.{HealthService, snapshots}
use rpceth.Config.{ProxyConfig}
use rpceth.Methods.{Globs}
use rpceth.Balancer.{Rand}
use rpceth.Server.{Shared}
use rpceth.Server.Recording.{Labels, Metric, gauge}
use rpceth.Server.Runtime.{ChainKey, ChainRuntime, ProxyState}
use rpceth.Server.Metrics.{
  concat_map, as_flag, optional_gauge, snapshot_gauges, health_gauges, provider_gauges,
  config_gauges, gauges_of, chain_gauges, metrics_tick,
}

module _ {κ μ} {B : Type κ} (P : B → Type μ) where
  All-append : (xs ys : List B) → All P xs → All P ys → All P (xs ++ ys)
  All-append [] ys h k = k
  All-append (x ∷ xs) ys (p, h) k = (p, All-append xs ys h k)

  All-concat_map {ℓ} :
      {A : Type ℓ}
      → (f : A → List B) (xs : List A) → ((x : A) → Member x xs → All P (f x))
      → All P (concat_map f xs)
  unfolding concat_map
  All-concat_map f [] h = tt
  All-concat_map f (x ∷ xs) h =
      All-append (f x) (concat_map f xs) (h x here) (All-concat_map f xs (λ y m. h y (there m)))

module _ {κ} {B : Type κ} {y : B} where
  Member-append_left : {xs : List B} (ys : List B) → Member y xs → Member y (xs ++ ys)
  Member-append_left ys here = here
  Member-append_left ys (there m) = there (Member-append_left ys m)

  Member-append_right : (xs : List B) {ys : List B} → Member y ys → Member y (xs ++ ys)
  Member-append_right [] m = m
  Member-append_right (x ∷ xs) m = there (Member-append_right xs m)

  Member-concat_map {ℓ} :
      {A : Type ℓ} (f : A → List B) {x : A} {xs : List A}
      → Member x xs
      → Member y (f x)
      → Member y (concat_map f xs)
  unfolding concat_map
  Member-concat_map f here m = Member-append_left _ m
  Member-concat_map f (there {x = z} at) m = Member-append_right (f z) (Member-concat_map f at m)

-- A sample of another metric has nothing to say of availability.
other {ℓ} : {A : Type ℓ} → false ≡ true → A
other e = cc

abbrev available : Text
available = codes "rpc_provider_available"

module _ (fl : Float) (Q : fl.F → Labels → Type 0) where
  -- A sample of the availability of a provider has such a value and such labels.
  abbrev Says : Metric fl.F → Type 0
  Says (gauge name v labels) = same name available ≡ true → Q v labels
  Says _ = Unit

  optional_gauge-Says :
      (name : Text) (labels : Labels) (n : Option ℕ)
      → same name available ≡ false
      → All Says (optional_gauge fl name labels n)
  optional_gauge-Says name labels none different = tt
  optional_gauge-Says name labels (some n) different = (λ e. ground arith, tt)

  health_gauges-Says :
      (labels : Labels) (id : ProviderId) (health : Option (HealthService fl.F))
      → All Says (health_gauges fl labels id health)
  unfolding health_gauges snapshot_gauges same
  health_gauges-Says labels id none = tt
  health_gauges-Says labels id (some health) =
      elim (Option-cases (find (λ s. same s.provider id) (snapshots fl health))) [
        | inl unknown ↦ rw (unknown, health_gauges) tt
        | inr (s, known) ↦
            let optional =
              All-append Says _ _ (optional_gauge-Says _ labels s.latest_block refl)
                (optional_gauge-Says _ labels s.chain_id refl) in
            rw (known, health_gauges) (other, (other, (other, (other, (other, (other, optional))))))
      ]

  config_gauges-Says : (config : ProxyConfig fl.F) (n : ℕ) → All Says (config_gauges fl config n)
  unfolding config_gauges same
  config_gauges-Says config n = (other, (other, (other, (other, (other, tt)))))

module _ (fl : Float) (rand : Rand fl.F) (globs : Globs) (decode : Text → Text) where
  open fl use {F}
  open rand use {Rng}

  module _ (observe : ChainKey → ProviderId → ℕ × Shared F Rng) where
    -- A provider of a chain whose handle is known, its labels, and 1 or 0 for whether its circuit
    -- breaker lets requests through when the task comes to it.
    pub record IsAvailability (state : ProxyState fl rand globs decode) (v : F) (labels : Labels)
        : Type 0 where
      pub chain : Text × ChainRuntime fl rand globs decode
      pub configured : Member chain state.chains
      pub id : ProviderId
      pub listed : Member id chain.1.providers
      pub handle : ProviderHandle
      pub known : get id state.providers_by_id ≡ some handle
      pub value :
          v
          ≡ as_flag fl (
              let (now, shared) = observe chain.0 id in
              Circuit.is_available now id shared.circuit_breaker)
      pub labelled : labels ≡ (codes "provider", id) ∷ (codes "chain", chain.0) ∷ []

    gauges_of-Says :
        (state : ProxyState fl rand globs decode) (c : Text × ChainRuntime fl rand globs decode)
        (id : ProviderId)
        → Member c state.chains
        → Member id c.1.providers
        → All
            (λ m. Says fl (IsAvailability state) m)
            (gauges_of fl rand globs decode observe state.providers_by_id c.0 id)
    unfolding gauges_of provider_gauges same
    gauges_of-Says state c id at listed = elim (Option-cases (get id state.providers_by_id)) [
      | inl unknown ↦ rw (unknown, gauges_of) tt
      | inr (p, known) ↦
          let found : IsAvailability state _ _ = record {
            chain = c;
            configured = at;
            id = id;
            listed = listed;
            handle = p;
            known = known;
            value = refl;
            labelled = refl;
          } in
          rw (known, gauges_of)
            (other, (other, (λ e. found, health_gauges-Says fl (IsAvailability state) _ id _)))
    ]

    chain_gauges-Says :
        (state : ProxyState fl rand globs decode) (c : Text × ChainRuntime fl rand globs decode)
        → Member c state.chains
        → All
            (λ m. Says fl (IsAvailability state) m)
            (chain_gauges fl rand globs decode observe state.providers_by_id c)
    unfolding chain_gauges same
    chain_gauges-Says state (key, runtime) at = (
      other,
      (
        other,
        (
          other,
          All-concat_map (λ m. Says fl (IsAvailability state) m)
              (gauges_of fl rand globs decode observe state.providers_by_id key) runtime.providers
              (λ id m. gauges_of-Says state (key, runtime) id at m),
        ),
      ),
    )

    metrics_tick-Says :
        (state : ProxyState fl rand globs decode)
        → All
            (λ m. Says fl (IsAvailability state) m)
            (metrics_tick fl rand globs decode observe state)
    unfolding metrics_tick
    metrics_tick-Says state =
        All-append (λ m. Says fl (IsAvailability state) m) _ _
          (All-concat_map (λ m. Says fl (IsAvailability state) m)
            (chain_gauges fl rand globs decode observe state.providers_by_id) state.chains
            (λ c m. chain_gauges-Says state c m))
          (config_gauges-Says fl (IsAvailability state) state.config _)

    Member-gauges_of :
        (state : ProxyState fl rand globs decode) (v : F) (labels : Labels)
        (a : IsAvailability state v labels)
        → Member
            (gauge available v labels)
            (gauges_of fl rand globs decode observe state.providers_by_id a.chain.0 a.id)
    unfolding gauges_of provider_gauges
    Member-gauges_of state v labels a =
        rw (a.known, gauges_of, a.value, a.labelled) (there (there here))

    -- A tick of the metrics task exports `rpc_provider_available` with a value and labels if and
    -- only if these are the id of a provider that stands in the set of a chain and has a known
    -- handle, the key of that chain, and 1 or 0 for whether the chain's circuit breaker lets
    -- requests to the provider through when the task comes to it.
    pub metrics_tick-available_iff :
        (state : ProxyState fl rand globs decode) (v : F) (labels : Labels)
        → Member
            (gauge (codes "rpc_provider_available") v labels)
            (metrics_tick fl rand globs decode observe state)
          ↔ IsAvailability state v labels
    unfolding metrics_tick chain_gauges
    metrics_tick-available_iff state v labels = (
      λ m.
          All-Member (λ m. Says fl (IsAvailability state) m) _ _ m (metrics_tick-Says state)
            (same_self available),
      λ a. Member-append_left _ (
          Member-concat_map (chain_gauges fl rand globs decode observe state.providers_by_id)
            a.configured
            (there (
              there (
                there (
                  Member-concat_map
                    (gauges_of fl rand globs decode observe state.providers_by_id a.chain.0)
                    a.listed (Member-gauges_of state v labels a)))))),
    )
