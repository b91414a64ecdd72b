-- ===== src/Balancer/Healthy.antt =====
-- The health filter of `select` (crates/proxy-core/src/routing/load_balancer.rs), described by the
-- scores of the health service.
use rpceth.Base.{
  ◌↔◌, unwrap_or, map_option, ◌∙◌, ap, sym, subst, ◌≡◌, refl, true, false, Bool, Option, none, some,
  List, [], ◌∷◌, map, Text, Dict, get, get-insert, insert, same, same_iff, Member, here, there,
  Member-cons, filter-Member, Member-filter, is_empty, Member-is_empty, contains, Bool-cases,
  Option-cases, ◌⊎◌, inl, inr, arith,
}
use rpceth.Settings.{ToleranceLevel, strict, balanced, relaxed}
use rpceth.Provider.{ProviderId, ProviderHandle}
use rpceth.Float.{Float, zero_f}
use rpceth.Health.{
  HealthService, ProviderHealthState, ProviderHealthSnapshot, best_score, score, snapshot,
  snapshots, filtered_snapshots, is_within_tolerance, threshold,
}
use rpceth.Methods.{MethodPolicy}
use rpceth.Balancer.{
  HealthView, Rand, LoadBalancer, BalancerState, by_provider, health_view, passes_health, select,
}
use rpceth.Balancer.Choice.{select-passes}

module _ (fl : Float) where
  open fl use {F, le, sub, mul, lit}

  -- How far below the best score a provider may be, as a part of the best score.
  abbrev pub slack : ToleranceLevel → F
  slack strict = lit 1 1
  slack balanced = lit 3 1
  slack relaxed = lit 5 1

  -- The score lies within a tolerance of the best one, or the best one is not positive.
  abbrev pub IsNear : HealthService F → ToleranceLevel → ProviderHealthState F → Type 0
  IsNear h tolerance s =
      (le (best_score fl h) (zero_f fl) ≡ true)
      ⊎ (le (sub (best_score fl h) (score fl s)) (mul (slack tolerance) (best_score fl h)) ≡ true)

  -- The policy's tolerance, or without a policy that of the service.
  abbrev pub tolerance_of : HealthService F → Option (MethodPolicy F) → ToleranceLevel
  tolerance_of h none = h.tolerance
  tolerance_of h (some policy) = policy.tolerance

  -- Without a service any provider will do, and also if the service has none within its own
  -- tolerance; otherwise the service must have the provider within its own and the policy's.
  abbrev pub IsHealthy : Option (HealthService F) → Option (MethodPolicy F) → ProviderId → Type 0
  IsHealthy none policy id = Unit
  IsHealthy (some h) policy id =
      ((e : Text × ProviderHealthState F) → Member e h.state → IsNear h h.tolerance e.1 → ⊥)
      ⊎ ((e : Text × ProviderHealthState F) × Member e h.state
          × (e.1.provider.id ≡ id)
          × IsNear h h.tolerance e.1
          × IsNear h (tolerance_of h policy) e.1)

  is_within_tolerance-IsNear :
      (h : HealthService F) (t : ToleranceLevel) (s : ProviderHealthState F)
      → (is_within_tolerance fl (score fl s) (best_score fl h) t ≡ true) ↔ IsNear h t s
  unfolding is_within_tolerance threshold
  is_within_tolerance-IsNear h strict s = (λ e. ground arith, λ near. ground (arith, near))
  is_within_tolerance-IsNear h balanced s = (λ e. ground arith, λ near. ground (arith, near))
  is_within_tolerance-IsNear h relaxed s = (λ e. ground arith, λ near. ground (arith, near))

  -- A snapshot of the map is one of the list, under its provider's id.
  get-by_provider :
      (ss : List (ProviderHealthSnapshot F)) (scores : Dict (ProviderHealthSnapshot F)) (id : Text)
      (s : ProviderHealthSnapshot F)
      → get id (by_provider ss scores) ≡ some s
      → (Member s ss × (s.provider ≡ id)) ⊎ (get id scores ≡ some s)
  unfolding by_provider
  get-by_provider [] scores id s e = inr e
  get-by_provider (x ∷ ss) scores id s e =
      elim (get-by_provider ss (insert x.provider x scores) id s e) [
        | inl (at, named) ↦ inl (there at, named)
        | inr older ↦
            let e' = rw (get-insert x.provider id x scores) at older in
            elim (Bool-cases (same x.provider id)) [
              | inl hit ↦
                  let one : x ≡ s = let e'' = rw hit at e' in cc in
                  inl (rw (← one) here, rw (← one) ((same_iff _ _).0 hit))
              | inr miss ↦ inr (rw miss at e')
            ]
      ]

  snapshots-Member :
      (m : Dict (ProviderHealthState F)) (s : ProviderHealthSnapshot F)
      → Member s (map (λ entry. snapshot fl entry.1) m)
      → (e : Text × ProviderHealthState F) × Member e m × (snapshot fl e.1 ≡ s)
  snapshots-Member [] s at = elim at [ ]
  snapshots-Member (x ∷ m) s at = elim (Member-cons at) [
    | inl first ↦ (x, here, first)
    | inr later ↦ let (e, at', shot) = snapshots-Member m s later in (e, there at', shot)
  ]

  Member-snapshots :
      (m : Dict (ProviderHealthState F)) (e : Text × ProviderHealthState F)
      → Member e m
      → Member (snapshot fl e.1) (map (λ entry. snapshot fl entry.1) m)
  Member-snapshots (x ∷ m) _ here = here
  Member-snapshots (x ∷ m) e (there at) = there (Member-snapshots m e at)
  Member-snapshots [] e at = elim at [ ]

  tolerance_of-policy :
      (h : HealthService F) (policy : Option (MethodPolicy F))
      → unwrap_or h.tolerance (map_option (λ p. p.tolerance) policy) ≡ tolerance_of h policy
  tolerance_of-policy h none = refl
  tolerance_of-policy h (some p) = refl

  within : HealthService F → ToleranceLevel → ProviderHealthSnapshot F → Bool
  within h t s = is_within_tolerance fl s.score (best_score fl h) t

  -- A snapshot that is listed and passes both filters.
  listed-IsHealthy :
      (h : HealthService F) (policy : Option (MethodPolicy F)) (id : ProviderId)
      (s : ProviderHealthSnapshot F)
      → Member s (filtered_snapshots fl h)
      → s.provider ≡ id
      → within h (unwrap_or h.tolerance (map_option (λ p. p.tolerance) policy)) s ≡ true
      → IsHealthy (some h) policy id
  unfolding filtered_snapshots snapshots snapshot within
  listed-IsHealthy h policy id s at named near =
      let (at', near_own) = filter-Member (within h h.tolerance) (snapshots fl h) at in
      let (e, of_state, shot) = snapshots-Member h.state s at' in
      let in_effect = unwrap_or h.tolerance (map_option (λ p. p.tolerance) policy) in
      inr (
        e,
        of_state,
        ap (λ (s : ProviderHealthSnapshot F). s.provider) shot ∙ named,
        (is_within_tolerance-IsNear h h.tolerance e.1).0
            (subst (λ s. within h h.tolerance s ≡ true) (sym shot) near_own),
        (is_within_tolerance-IsNear h (tolerance_of h policy) e.1).0 (
            subst (λ t. within h t (snapshot fl e.1) ≡ true) (tolerance_of-policy h policy)
              (subst (λ s. within h in_effect s ≡ true) (sym shot) near)),
      )

  passes_health-IsHealthy :
      (health : Option (HealthService F)) (policy : Option (MethodPolicy F)) (id : ProviderId)
      → passes_health fl (health_view fl health policy) id ≡ true
      → IsHealthy health policy id
  unfolding passes_health health_view filtered_snapshots snapshots snapshot within get
  passes_health-IsHealthy none policy id e = tt
  passes_health-IsHealthy (some h) policy id e =
      elim (Bool-cases (is_empty (filtered_snapshots fl h))) [
        | inl empty ↦ inl λ entry at near.
            let kept =
              Member-filter (within h h.tolerance) (snapshots fl h)
                (Member-snapshots h.state entry at)
                ((is_within_tolerance-IsNear h h.tolerance entry.1).1 near) in
            let full = Member-is_empty kept in cc
        | inr full ↦
            let filled : HealthView F = record {
              health_scores = by_provider (filtered_snapshots fl h) [];
              best = best_score fl h;
              tolerance = unwrap_or h.tolerance (map_option (λ p. p.tolerance) policy);
              allow_any = false;
            } in
            let viewed : health_view fl (some h) policy ≡ filled = rw (health_view, full) refl in
            let e' = subst (λ v. passes_health fl v id ≡ true) viewed e in
            elim (Option-cases (get id (by_provider (filtered_snapshots fl h) []))) [
              | inl missing ↦ let e'' = rw (missing, passes_health) at e' in cc
              | inr (s, found) ↦
                  let near = rw (found, passes_health) at e' in
                  elim (get-by_provider (filtered_snapshots fl h) [] id s found) [
                    | inl (at, named) ↦ listed-IsHealthy h policy id s at named near
                    | inr nothing ↦ cc
                  ]
            ]
      ]

module _ (fl : Float) (rand : Rand fl.F) where
  open fl use {F}
  open rand use {Rng}

  -- A selected provider stands in the pool and is not excluded, under either strategy, and if
  -- there is a health service that has any provider within the service's own tolerance of its best
  -- score, then it has the selected one within both its own tolerance and the policy's: the best
  -- score is not positive, or the score is below it by at most 10% of it for strict, 30% for
  -- balanced and 50% for relaxed.
  pub select_sound :
      (b : LoadBalancer) (health : Option (HealthService F)) (exclude : List ProviderId)
      (policy : Option (MethodPolicy F)) (s : BalancerState Rng) (p : ProviderHandle)
      → (select fl rand b health exclude policy s).0 ≡ some p
      → Member p b.pool × (contains exclude p.id ≡ false) × IsHealthy fl health policy p.id
  select_sound b health exclude policy s p e =
      let (at, free, passes) = select-passes fl rand b health exclude policy s p e in
      (at, free, passes_health-IsHealthy fl health policy p.id passes)
