-- ===== src/Balancer/Choice.antt =====
-- What `select` of crates/proxy-core/src/routing/load_balancer.rs chooses.
use rpceth.Base.{
  ℕ, zero, suc, none, ◌<◌, ◌≡◌, refl, sym, ◌∙◌, true, false, Option, some, List, [], ◌∷◌, map,
  Member, here, there, same, same_iff, same_self, contains, length, filter-Member, Member-filter,
  Member-cons, Member-is_empty, Member-ne-nil, is_some, filter, All, Bool-cases, inl, inr, arith,
  ◌≢◌,
}
use rpceth.Settings.{BalancerStrategy, round_robin, weighted_random}
use rpceth.Provider.{ProviderId, ProviderHandle}
use rpceth.Float.{Float, IsIeee, one_f}
use rpceth.Health.{HealthService}
use rpceth.Methods.{MethodPolicy}
use rpceth.Balancer.{
  at_index, drawn_from, Rand, LoadBalancer, BalancerState, HealthView, health_view, passes_health,
  is_eligible, weight_of, provider_ids, next_round_robin_filtered, weighted_random_from,
  select_from, select,
}
use rpceth.Balancer.Rotation.{round_robin_from_sound, round_robin_from-IsSome}

-- The sum of weights, as `WeightedIndex::new` adds them up.
abbrev pub total_weight : (fl : Float) → fl.F → List fl.F → fl.F
total_weight fl total [] = total
total_weight fl total (w ∷ ws) = total_weight fl (fl.add total w) ws

-- What the theorems ask of the `rand` crate: `WeightedIndex::new` accepts one or more weights of
-- at least 1 with a finite sum.
pub record IsWeighted (fl : Float) (rand : Rand fl.F) : Type 0 where
  pub accepts :
      (w : fl.F) (ws : List fl.F)
      → All (λ x. fl.le (one_f fl) x ≡ true) (w ∷ ws)
      → fl.is_finite (total_weight fl w ws) ≡ true
      → is_some (rand.weighted (w ∷ ws)) ≡ true

Member-some :
    {ps : List ProviderHandle} {q p : ProviderHandle} → Member q ps → some q ≡ some p → Member p ps
Member-some {q = q} {p = p} at e = let one : q ≡ p = cc in rw (← one) at

contains-provider_ids :
    (ps : List ProviderHandle) (id : ProviderId)
    → contains (provider_ids ps) id ≡ true
    → (p : ProviderHandle) × Member p ps × (p.id ≡ id)
unfolding contains provider_ids
contains-provider_ids [] id h = cc
contains-provider_ids (p ∷ ps) id h = elim (Bool-cases (same p.id id)) [
  | inl hit ↦ (p, here, (same_iff _ _).0 hit)
  | inr miss ↦ let (q, at, e) = contains-provider_ids ps id (ground arith) in (q, there at, e)
]

pub provider_ids-contains :
    (ps : List ProviderHandle) (p : ProviderHandle)
    → Member p ps
    → contains (provider_ids ps) p.id ≡ true
unfolding contains provider_ids
provider_ids-contains [] p m = elim m [ ]
provider_ids-contains (q ∷ ps) p m = elim (Member-cons m) [
  | inl first ↦ ground (arith, same_self p.id)
  | inr later ↦ ground (arith, provider_ids-contains ps p later)
]

module _ (fl : Float) (rand : Rand fl.F) where
  open fl use {F}
  open rand use {Rng}

  at_index-Member :
      (ps : List ProviderHandle) (i : ℕ) (h : i < length ps) → Member (at_index ps i h) ps
  unfolding at_index
  at_index-Member [] i h = absurd (omega (arith, h))
  at_index-Member (p ∷ ps) zero h = here
  at_index-Member (p ∷ ps) (suc i) h = there (at_index-Member ps i (omega (arith, h)))

  drawn_from-Member :
      (eligible : List ProviderHandle) (weigh : ProviderHandle → F)
      (made : Option rand.Distribution) (e : rand.weighted (map weigh eligible) ≡ made) (rng : Rng)
      (p : ProviderHandle)
      → (drawn_from fl rand eligible weigh made e rng).0 ≡ some p
      → Member p eligible
  unfolding drawn_from
  drawn_from-Member eligible weigh none made rng p e = cc
  drawn_from-Member eligible weigh (some d) made rng p e =
      Member-some (at_index-Member eligible (rand.sample d rng).0 _) e

  drawn_from-IsSome :
      (eligible : List ProviderHandle) (weigh : ProviderHandle → F)
      (made : Option rand.Distribution) (e : rand.weighted (map weigh eligible) ≡ made) (rng : Rng)
      → is_some made ≡ true
      → is_some (drawn_from fl rand eligible weigh made e rng).0 ≡ true
  unfolding drawn_from
  drawn_from-IsSome eligible weigh none made rng e = cc
  drawn_from-IsSome eligible weigh (some d) made rng e = refl

  weighted_random_from-Member :
      (eligible : List ProviderHandle) (view : HealthView F) (policy : Option (MethodPolicy F))
      (rng : Rng) (p : ProviderHandle)
      → (weighted_random_from fl rand eligible view.health_scores policy rng).0 ≡ some p
      → Member p eligible
  unfolding weighted_random_from
  weighted_random_from-Member [] view policy rng p e = cc
  weighted_random_from-Member (only ∷ []) view policy rng p e =
      let one : only ≡ p = cc in rw one here
  weighted_random_from-Member (q ∷ r ∷ rest) view policy rng p e =
      drawn_from-Member (q ∷ r ∷ rest) (weight_of fl view.health_scores policy) _ refl rng p e

  -- What is chosen stands in the pool and is eligible.
  abbrev IsChosen : List ProviderHandle → HealthView F → List ProviderId → ProviderHandle → Type 0
  IsChosen pool view exclude p = Member p pool × (is_eligible fl view exclude p ≡ true)

  is_eligible-id :
      (view : HealthView F) (exclude : List ProviderId) (p q : ProviderHandle)
      → p.id ≡ q.id
      → is_eligible fl view exclude p ≡ is_eligible fl view exclude q
  unfolding is_eligible
  is_eligible-id view exclude p q e = rw e

  select_from-IsChosen :
      (strategy : BalancerStrategy) (pool : List ProviderHandle) (view : HealthView F)
      (exclude : List ProviderId) (policy : Option (MethodPolicy F)) (s : BalancerState Rng)
      (p : ProviderHandle)
      → (select_from fl rand strategy pool
          (filter (is_eligible fl view exclude) pool)
          view
          policy
          s).0
        ≡ some p
      → IsChosen pool view exclude p
  unfolding select_from next_round_robin_filtered
  select_from-IsChosen round_robin pool view exclude policy s p e =
      let (at, listed) =
        round_robin_from_sound pool (provider_ids (filter (is_eligible fl view exclude) pool))
          (length pool) s.round_robin_cursor p (ground arith) in
      let (q, kept, e') = contains-provider_ids _ p.id listed in
      (at, sym (is_eligible-id view exclude q p e') ∙ (filter-Member _ pool kept).1)
  select_from-IsChosen weighted_random pool view exclude policy s p e =
      filter-Member _ pool (weighted_random_from-Member _ view policy s.rng p e)

  -- A selected provider stands in the pool, is not excluded, and passes the health filter.
  pub select-passes :
      (b : LoadBalancer) (health : Option (HealthService F)) (exclude : List ProviderId)
      (policy : Option (MethodPolicy F)) (s : BalancerState Rng) (p : ProviderHandle)
      → (select fl rand b health exclude policy s).0 ≡ some p
      → Member p b.pool
        × (contains exclude p.id ≡ false)
        × (passes_health fl (health_view fl health policy) p.id ≡ true)
  unfolding select is_eligible
  select-passes b health exclude policy s p e =
      let (at, ok) =
        select_from-IsChosen b.strategy b.pool (health_view fl health policy) exclude policy s p
          (ground arith) in
      (at, ground arith, ground arith)

  abbrev pub weights : HealthView F → Option (MethodPolicy F) → List ProviderHandle → List F
  weights view policy = map (weight_of fl view.health_scores policy)

  -- The weights of the providers sum up to a finite number.
  abbrev pub HasFiniteTotal : List F → Type 0
  HasFiniteTotal [] = Unit
  HasFiniteTotal (w ∷ ws) = fl.is_finite (total_weight fl w ws) ≡ true

module _ (fl : Float) (ieee : IsIeee fl) where
  -- No provider's weight is below 1, whatever its health score, its base weight and the policy's
  -- override or multiplier: an override of 0 does not take a provider out. The facts of IEEE 754
  -- arithmetic are assumed.
  pub one-le-weight_of :
      (view : HealthView fl.F) (policy : Option (MethodPolicy fl.F)) (p : ProviderHandle)
      → fl.le (one_f fl) (weight_of fl view.health_scores policy p) ≡ true
  unfolding weight_of
  one-le-weight_of view policy p = ieee.le-max_right _ _ (ieee.refl_of_le _ _ ieee.zero-le-one).1

  one-le-weights :
      (view : HealthView fl.F) (policy : Option (MethodPolicy fl.F)) (ps : List ProviderHandle)
      → All (λ x. fl.le (one_f fl) x ≡ true) (map (weight_of fl view.health_scores policy) ps)
  one-le-weights view policy [] = tt
  one-le-weights view policy (p ∷ ps) =
      (one-le-weight_of view policy p, one-le-weights view policy ps)

module _ (fl : Float) (ieee : IsIeee fl) (rand : Rand fl.F) (fair : IsWeighted fl rand) where
  open fl use {F}
  open rand use {Rng}

  weighted_random_from-IsSome :
      (eligible : List ProviderHandle) (view : HealthView F) (policy : Option (MethodPolicy F))
      (rng : Rng)
      → eligible ≢ []
      → HasFiniteTotal fl rand (weights fl rand view policy eligible)
      → is_some (weighted_random_from fl rand eligible view.health_scores policy rng).0 ≡ true
  unfolding weighted_random_from
  weighted_random_from-IsSome [] view policy rng ne fin = absurd (ne refl)
  weighted_random_from-IsSome (only ∷ []) view policy rng ne fin = refl
  weighted_random_from-IsSome (q ∷ r ∷ rest) view policy rng ne fin =
      let ps : List ProviderHandle = q ∷ r ∷ rest in
      let weigh = weight_of fl view.health_scores policy in
      let accepted =
        fair.accepts (weigh q) (map weigh (r ∷ rest)) (one-le-weights fl ieee view policy ps) fin in
      drawn_from-IsSome fl rand ps weigh _ refl rng accepted

  select_from-IsSome :
      (strategy : BalancerStrategy) (pool eligible : List ProviderHandle) (view : HealthView F)
      (policy : Option (MethodPolicy F)) (s : BalancerState Rng) (p : ProviderHandle)
      → Member p pool
      → Member p eligible
      → HasFiniteTotal fl rand (weights fl rand view policy eligible)
      → is_some (select_from fl rand strategy pool eligible view policy s).0 ≡ true
  unfolding select_from next_round_robin_filtered
  select_from-IsSome round_robin pool eligible view policy s p at listed fin =
      rw (Member-is_empty at) (
        round_robin_from-IsSome pool (provider_ids eligible) s.round_robin_cursor p at
          (provider_ids-contains eligible p listed))
  select_from-IsSome weighted_random pool eligible view policy s p at listed fin =
      weighted_random_from-IsSome eligible view policy s.rng (Member-ne-nil listed) fin

  -- `select` returns a provider whenever the pool has one that is not excluded and passes the
  -- health filter: round robin from any cursor, weighted random too. The finite sum of the
  -- eligible providers' weights and the facts of IEEE 754 and of WeightedIndex are assumed.
  pub select_complete :
      (b : LoadBalancer) (health : Option (HealthService F)) (exclude : List ProviderId)
      (policy : Option (MethodPolicy F)) (s : BalancerState Rng) (p : ProviderHandle)
      → let view = health_view fl health policy in
        Member p b.pool
        → contains exclude p.id ≡ false
        → passes_health fl view p.id ≡ true
        → HasFiniteTotal fl rand
            (weights fl rand view policy (filter (is_eligible fl view exclude) b.pool))
        → is_some (select fl rand b health exclude policy s).0 ≡ true
  unfolding select is_eligible
  select_complete b health exclude policy s p at free healthy fin =
      let listed =
        Member-filter (is_eligible fl (health_view fl health policy) exclude) b.pool at
          (ground arith) in
      rw (Member-is_empty listed) (
        select_from-IsSome b.strategy b.pool _ (health_view fl health policy) policy s p at listed
          fin)
