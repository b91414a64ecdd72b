-- ===== src/Balancer/Turns.antt =====
-- The turns of the round robin of crates/proxy-core/src/routing/load_balancer.rs.
use native.Mathlib.Nat.{mod-add-mod, add-zero, mod-lt}
use rpceth.Base.{
  ℕ, zero, suc, ◌+◌, ◌%◌, ◌<◌, ◌≡◌, refl, sym, ap, ◌∙◌, Bool, true, false, Option, Option-cases,
  List, [], ◌∷◌, Member, here, there, length, get_elem?, get_elem?-Member, get_elem?-IsSome,
  is_empty, filter, inl, inr, arith,
}
use rpceth.Settings.{round_robin}
use rpceth.Provider.{ProviderId, ProviderHandle}
use rpceth.Float.{Float}
use rpceth.Health.{HealthService}
use rpceth.Methods.{MethodPolicy}
use rpceth.Balancer.{
  Rand, LoadBalancer, BalancerState, health_view, is_eligible, provider_ids, round_robin_from,
  next_round_robin_filtered, select_from, select,
}
use rpceth.Balancer.Choice.{provider_ids-contains}

nonempty : {A : Type 0} (xs : List A) → 0 < length xs → is_empty xs ≡ false
nonempty [] h = elim h [ ]
nonempty (x ∷ xs) h = refl

filter-all {ℓ} :
    {A : Type ℓ} (f : A → Bool) (xs : List A)
    → ((x : A) → Member x xs → f x ≡ true)
    → filter f xs ≡ xs
filter-all f [] h = refl
filter-all f (x ∷ xs) h = rw (h x here, filter-all f xs (λ y m. h y (there m)))

-- If all are listed, the provider at the cursor has its turn, and the cursor moves on by one.
round_robin_from-all :
    (pool : List ProviderHandle) (rounds cursor : ℕ)
    → 0 < length pool
    → round_robin_from pool (provider_ids pool) (suc rounds) cursor
      ≡ (get_elem? pool (cursor % length pool), (cursor + 1) % length pool)
unfolding round_robin_from
round_robin_from-all pool rounds cursor some_one =
    let inside : cursor % length pool < length pool = mod-lt cursor {m = length pool} some_one in
    let found = get_elem?-IsSome pool (cursor % length pool) inside in
    elim (Option-cases (get_elem? pool (cursor % length pool))) [
      | inl outside ↦ ground arith
      | inr (p, at) ↦
          let listed =
            provider_ids-contains pool p (get_elem?-Member pool (cursor % length pool) at) in
          rw (at, round_robin_from, listed) refl
    ]

next_round_robin_filtered-all :
    (pool : List ProviderHandle) (cursor : ℕ)
    → 0 < length pool
    → next_round_robin_filtered pool pool cursor
      ≡ (get_elem? pool (cursor % length pool), (cursor + 1) % length pool)
unfolding next_round_robin_filtered
next_round_robin_filtered-all [] cursor some_one = elim some_one [ ]
next_round_robin_filtered-all (p ∷ ps) cursor some_one =
    round_robin_from-all (p ∷ ps) (length ps) cursor some_one

module _ (fl : Float) (rand : Rand fl.F) (b : LoadBalancer) (health : Option (HealthService fl.F))
    (exclude : List ProviderId) (policy : Option (MethodPolicy fl.F)) where
  open rand use {Rng}

  -- The state after a number of selections.
  unfoldable pub selections : ℕ → BalancerState Rng → BalancerState Rng
  selections zero s = s
  selections (suc k) s = selections k (select fl rand b health exclude policy s).1

  module _ (turns : b.strategy ≡ round_robin)
      (all_eligible : (p : ProviderHandle)
        → Member p b.pool
        → is_eligible fl (health_view fl health policy) exclude p ≡ true) where
    select-turn :
        (s : BalancerState Rng)
        → 0 < length b.pool
        → select fl rand b health exclude policy s ≡ (
          get_elem? b.pool (s.round_robin_cursor % length b.pool),
          record s { round_robin_cursor = (s.round_robin_cursor + 1) % length b.pool },
        )
    unfolding select select_from
    select-turn s some_one =
        let eligible =
          filter-all (is_eligible fl (health_view fl health policy) exclude) b.pool all_eligible in
        let turn = next_round_robin_filtered-all b.pool s.round_robin_cursor some_one in
        rw (select, eligible, nonempty b.pool some_one, turns, select_from, turn) refl

    -- Under the round robin, if the pool is not empty and each of its providers is eligible, the
    -- selection after k others in a row takes the pool's provider at the index cursor + k, modulo
    -- the size of the pool.
    pub select-selections :
        (k : ℕ) (s : BalancerState Rng)
        → 0 < length b.pool
        → (select fl rand b health exclude policy (selections k s)).0
          ≡ get_elem? b.pool ((s.round_robin_cursor + k) % length b.pool)
    unfolding selections
    select-selections zero s some_one =
        ap (λ r. r.0) (select-turn s some_one)
        ∙ ap (λ i. get_elem? b.pool (i % length b.pool)) (sym (add-zero s.round_robin_cursor))
    select-selections (suc k) s some_one =
        let next = (select fl rand b health exclude policy s).1 in
        let moved : next.round_robin_cursor ≡ (s.round_robin_cursor + 1) % length b.pool =
          ap (λ r. r.1.round_robin_cursor) (select-turn s some_one) in
        let index : (next.round_robin_cursor + k) % length b.pool
            ≡ (s.round_robin_cursor + suc k) % length b.pool =
          rw moved (
            mod-add-mod (s.round_robin_cursor + 1) (length b.pool) k
            ∙ ap (λ n. n % length b.pool) (omega arith)) in
        select-selections k next some_one ∙ ap (λ i. get_elem? b.pool i) index
