-- ===== src/Balancer/Cursor.antt =====
-- The cursor of the round robin of crates/proxy-core/src/routing/load_balancer.rs.
use native.Mathlib.Nat.{mod-lt}
use rpceth.Base.{
  ℕ, zero, suc, ◌+◌, ◌%◌, ◌<◌, ◌≡◌, ◌⊎◌, inl, inr, Option, Option-cases, Bool-cases, List, [], ◌∷◌,
  length, get_elem?, contains, is_empty, filter, arith,
}
use rpceth.Settings.{BalancerStrategy, round_robin, weighted_random}
use rpceth.Provider.{ProviderId, ProviderHandle}
use rpceth.Float.{Float}
use rpceth.Health.{HealthService}
use rpceth.Methods.{MethodPolicy}
use rpceth.Balancer.{
  Rand, LoadBalancer, BalancerState, HealthView, health_view, is_eligible, provider_ids,
  round_robin_from, next_round_robin_filtered, select_from, select,
}

-- At the start, or an index of the pool.
abbrev pub IsIndex : List ProviderHandle → ℕ → Type 0
IsIndex pool cursor = (cursor ≡ 0) ⊎ (cursor < length pool)

round_robin_from-IsIndex :
    (pool : List ProviderHandle) (ids : List ProviderId) (rounds cursor : ℕ)
    → 0 < length pool
    → IsIndex pool cursor
    → IsIndex pool (round_robin_from pool ids rounds cursor).1
unfolding round_robin_from
round_robin_from-IsIndex pool ids zero cursor some_one h = h
round_robin_from-IsIndex pool ids (suc rounds) cursor some_one h =
    let next : IsIndex pool ((cursor + 1) % length pool) =
      inr (mod-lt (cursor + 1) {m = length pool} some_one) in
    let rest =
      round_robin_from-IsIndex pool ids rounds ((cursor + 1) % length pool) some_one next in
    elim (Option-cases (get_elem? pool (cursor % length pool))) [
      | inl outside ↦ rw (outside, round_robin_from) rest
      | inr (p, at) ↦ elim (Bool-cases (contains ids p.id)) [
        | inl listed ↦ rw (at, listed, round_robin_from) next
        | inr passed ↦ rw (at, passed, round_robin_from) rest
      ]
    ]

next_round_robin_filtered-IsIndex :
    (pool eligible : List ProviderHandle) (cursor : ℕ)
    → IsIndex pool cursor
    → IsIndex pool (next_round_robin_filtered pool eligible cursor).1
unfolding next_round_robin_filtered
next_round_robin_filtered-IsIndex [] eligible cursor h = h
next_round_robin_filtered-IsIndex (p ∷ ps) eligible cursor h =
    round_robin_from-IsIndex (p ∷ ps) (provider_ids eligible) (length (p ∷ ps)) cursor (omega arith)
      h

module _ (fl : Float) (rand : Rand fl.F) where
  select_from-IsIndex :
      (strategy : BalancerStrategy) (pool eligible : List ProviderHandle) (view : HealthView fl.F)
      (policy : Option (MethodPolicy fl.F)) (s : BalancerState rand.Rng)
      → IsIndex pool s.round_robin_cursor
      → IsIndex pool (select_from fl rand strategy pool eligible view policy s).1.round_robin_cursor
  unfolding select_from
  select_from-IsIndex round_robin pool eligible view policy s h =
      next_round_robin_filtered-IsIndex pool eligible s.round_robin_cursor h
  select_from-IsIndex weighted_random pool eligible view policy s h = h

  -- A selection leaves the cursor within the pool.
  pub select-IsIndex :
      (b : LoadBalancer) (health : Option (HealthService fl.F)) (exclude : List ProviderId)
      (policy : Option (MethodPolicy fl.F)) (s : BalancerState rand.Rng)
      → IsIndex b.pool s.round_robin_cursor
      → IsIndex b.pool (select fl rand b health exclude policy s).1.round_robin_cursor
  unfolding select
  select-IsIndex b health exclude policy s h =
      let eligible = filter (is_eligible fl (health_view fl health policy) exclude) b.pool in
      elim (Bool-cases (is_empty eligible)) [
        | inl nobody ↦ rw (nobody, select) h
        | inr some_one ↦
            rw (some_one, select)
              (select_from-IsIndex b.strategy b.pool eligible (health_view fl health policy) policy
                s h)
      ]
