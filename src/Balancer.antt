-- ===== src/Balancer.antt =====
-- crates/proxy-core/src/routing/load_balancer.rs. The pool and the strategy do not change; the
-- cursor and the generator, which stand behind mutexes, are a state that `select` returns anew.
-- The health service is read once for a selection. The `rand` crate is an argument: `weighted` is
-- `WeightedIndex::new`, and `sample` draws an index; it draws one of the weights' indices (`draws`), as
-- its documentation says, so `eligible[index]` does not panic.
pub mod Choice
pub mod Rotation
pub mod Healthy
pub mod Cursor
pub mod Turns
use rpceth.Base.{
  refl, ◌≡◌, ◌<◌, arith, length-map, ℕ, zero, suc, ◌+◌, ◌%◌, Bool, true, false, Option, none, some,
  List, [], ◌∷◌, map, Dict, get, insert, contains, length, get_elem?, is_empty, filter, unwrap_or,
  map_option, if◌then◌else◌,
}
use rpceth.Settings.{ToleranceLevel, balanced, BalancerStrategy, round_robin, weighted_random}
use rpceth.Provider.{ProviderId, ProviderHandle}
use rpceth.Float.{Float, zero_f, one_f}
use rpceth.Health.{
  HealthService, ProviderHealthSnapshot, filtered_snapshots, best_score, is_within_tolerance,
}
use rpceth.Methods.{MethodPolicy, provider_weight}

pub record Rand (F : Type 0) : Type 1 where
  pub Rng : Type 0
  pub Distribution : Type 0
  pub weighted : List F → Option Distribution
  pub sample : Distribution → Rng → ℕ × Rng
  pub seed_from : ℕ → Rng
  pub draws :
      (ws : List F) (d : Distribution) (r : Rng) → weighted ws ≡ some d → (sample d r).0 < length ws

-- `xs[i]`, with the proof that it does not panic.
unfoldable pub at_index {ℓ} : {A : Type ℓ} (xs : List A) (i : ℕ) → i < length xs → A
at_index [] i h = absurd (omega (arith, h))
at_index (x ∷ xs) zero h = x
at_index (x ∷ xs) (suc i) h = at_index xs i (omega (arith, h))

-- The immutable half of `LoadBalancerInner`, with the pool as its list.
pub record LoadBalancer : Type 0 where
  pub pool : List ProviderHandle
  pub strategy : BalancerStrategy

-- The mutable half.
pub record BalancerState (Rng : Type 0) : Type 0 where
  pub round_robin_cursor : ℕ
  pub rng : Rng

-- What a selection takes from the health service and the policy.
pub record HealthView (F : Type 0) : Type 0 where
  pub health_scores : Dict (ProviderHealthSnapshot F)
  pub best : F
  pub tolerance : ToleranceLevel
  pub allow_any : Bool

unfoldable pub provider_ids : List ProviderHandle → List ProviderId
provider_ids = map λ p. p.id

-- `collect` into a map by the provider's id.
unfoldable pub by_provider :
    {F : Type 0}
    → List (ProviderHealthSnapshot F)
    → Dict (ProviderHealthSnapshot F)
    → Dict (ProviderHealthSnapshot F)
by_provider [] scores = scores
by_provider (s ∷ snapshots) scores = by_provider snapshots (insert s.provider s scores)

-- The loop of `next_round_robin_filtered`: the rounds left, and the cursor.
unfoldable pub round_robin_from :
    List ProviderHandle → List ProviderId → ℕ → ℕ → Option ProviderHandle × ℕ
round_robin_from pool eligible_ids zero cursor = (none, cursor)
round_robin_from pool eligible_ids (suc rounds) cursor =
    let total = length pool in
    let index = cursor % total in
    let cursor' = (cursor + 1) % total in
    let rest = round_robin_from pool eligible_ids rounds cursor' in
    elim (get_elem? pool index) [
      | none ↦ rest
      | some candidate ↦
          if contains eligible_ids candidate.id then (some candidate, cursor') else rest
    ]

unfoldable pub next_round_robin_filtered :
    List ProviderHandle → List ProviderHandle → ℕ → Option ProviderHandle × ℕ
unfolding round_robin_from provider_ids
next_round_robin_filtered pool eligible cursor =
    if is_empty pool
    then (none, cursor)
    else round_robin_from pool (provider_ids eligible) (length pool) cursor

module _ (fl : Float) where
  open fl use {F, le, mul, max, of_nat}

  unfoldable pub health_view : Option (HealthService F) → Option (MethodPolicy F) → HealthView F
  unfolding by_provider
  health_view none policy = record {
    health_scores = [];
    best = zero_f fl;
    tolerance = unwrap_or balanced (map_option (λ p. p.tolerance) policy);
    allow_any = true;
  }
  health_view (some health) policy =
      let tolerance = unwrap_or health.tolerance (map_option (λ p. p.tolerance) policy) in
      let filtered = filtered_snapshots fl health in
      if is_empty filtered
      then record { health_scores = []; best = zero_f fl; tolerance = tolerance; allow_any = true }
      else record {
        health_scores = by_provider filtered [];
        best = best_score fl health;
        tolerance = tolerance;
        allow_any = false;
      }

  -- The test on a provider that is not excluded.
  unfoldable pub passes_health : HealthView F → ProviderId → Bool
  passes_health view id = if view.allow_any then true else elim (get id view.health_scores) [
    | none ↦ false
    | some snapshot ↦ is_within_tolerance fl snapshot.score view.best view.tolerance
  ]

  -- The body of the loop that collects `eligible`.
  unfoldable pub is_eligible : HealthView F → List ProviderId → ProviderHandle → Bool
  unfolding passes_health
  is_eligible view exclude provider =
      if contains exclude provider.id then false else passes_health view provider.id

  unfoldable pub weight_of :
      Dict (ProviderHealthSnapshot F) → Option (MethodPolicy F) → ProviderHandle → F
  weight_of health_scores policy provider =
      let health_multiplier : F =
        unwrap_or (one_f fl)
          (map_option (λ s. max s.score (zero_f fl)) (get provider.id health_scores)) in
      let base : F = of_nat provider.base_weight in
      let weight : F = elim policy [
        | none ↦ base
        | some p ↦ unwrap_or (mul base p.weight_multiplier) (provider_weight p provider.id)
      ] in
      max (mul weight health_multiplier) (one_f fl)

module _ (fl : Float) (rand : Rand fl.F) where
  open fl use {F}
  open rand use {Rng, Distribution, weighted, sample, seed_from, draws}

  -- From the distribution on, if the weights make one.
  unfoldable pub drawn_from :
      (eligible : List ProviderHandle) (weigh : ProviderHandle → F) (made : Option Distribution)
      → weighted (map weigh eligible) ≡ made
      → Rng
      → Option ProviderHandle × Rng
  unfolding at_index
  drawn_from eligible weigh none e rng = (none, rng)
  drawn_from eligible weigh (some distribution) e rng =
      let in_range : (sample distribution rng).0 < length eligible =
        omega (
          arith,
          draws (map weigh eligible) distribution rng e,
          length-map {0, 0} weigh eligible,
        ) in
      (some (at_index eligible (sample distribution rng).0 in_range), (sample distribution rng).1)

  unfoldable pub weighted_random_from :
      List ProviderHandle
      → Dict (ProviderHealthSnapshot F)
      → Option (MethodPolicy F)
      → Rng
      → Option ProviderHandle × Rng
  unfolding drawn_from
  weighted_random_from [] health_scores policy rng = (none, rng)
  weighted_random_from (only ∷ []) health_scores policy rng = (some only, rng)
  weighted_random_from (p ∷ q ∷ rest) health_scores policy rng =
      drawn_from (p ∷ q ∷ rest) (weight_of fl health_scores policy)
        (weighted (map (weight_of fl health_scores policy) (p ∷ q ∷ rest))) refl rng

  -- The `match` on the strategy, with some provider eligible.
  unfoldable pub select_from :
      BalancerStrategy
      → List ProviderHandle
      → List ProviderHandle
      → HealthView F
      → Option (MethodPolicy F)
      → BalancerState Rng
      → Option ProviderHandle × BalancerState Rng
  select_from round_robin pool eligible view policy s =
      let (chosen, cursor) = next_round_robin_filtered pool eligible s.round_robin_cursor in
      (chosen, record s { round_robin_cursor = cursor })
  select_from weighted_random pool eligible view policy s =
      let (chosen, rng) = weighted_random_from eligible view.health_scores policy s.rng in
      (chosen, record s { rng = rng })

  unfoldable pub select :
      LoadBalancer
      → Option (HealthService F)
      → List ProviderId
      → Option (MethodPolicy F)
      → BalancerState Rng
      → Option ProviderHandle × BalancerState Rng
  unfolding select_from
  select balancer health exclude policy s =
      let view = health_view fl health policy in
      let eligible = filter (is_eligible fl view exclude) balancer.pool in
      if is_empty eligible
      then (none, s)
      else select_from balancer.strategy balancer.pool eligible view policy s

  unfoldable pub select_any :
      LoadBalancer
      → Option (HealthService F)
      → BalancerState Rng
      → Option ProviderHandle × BalancerState Rng
  select_any balancer health s = select balancer health [] none s

  -- The state of `LoadBalancer::new`.
  unfoldable pub new_balancer_state : BalancerState Rng
  new_balancer_state = record { round_robin_cursor = 0; rng = seed_from 0xfeedf00d }
