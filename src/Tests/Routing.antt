-- ===== src/Tests/Routing.antt =====
-- Examples of the load balancer of crates/proxy-core/src/routing/load_balancer.rs.
use rpceth.Base.{
  ℕ, ◌≡◌, same, refl, true, false, none, some, List, [], ◌∷◌, codes, Member, here, contains, ◌+◌,
  ◌%◌, get_elem?, is_some, arith,
}
use rpceth.Settings.{balanced, round_robin, weighted_random}
use rpceth.Provider.{ProviderId, into_handle}
use rpceth.Float.Thousandths.{thousandths, thousandths-IsIeee}
use rpceth.Methods.{MethodPolicy, provider_weight}
use rpceth.Balancer.{
  LoadBalancer, BalancerState, HealthView, health_view, passes_health, is_eligible, weight_of,
  weighted_random_from, select,
}
use rpceth.Balancer.Choice.{IsWeighted, select_complete}
use rpceth.Balancer.Healthy.{IsHealthy, select_sound}
use rpceth.Health
use rpceth.Health.{
  HealthService, filtered_snapshots, is_within_tolerance, score, best_score, threshold,
  latency_score,
}
use rpceth.Balancer.{by_provider}
use rpceth.Float.{clamp}
use rpceth.Base.{insert, get}
use rpceth.Balancer.Turns.{selections, select-selections}
use rpceth.Tests.{two_providers, alchemy, counting}

abbrev balancer : LoadBalancer
balancer = record { pool = two_providers; strategy = weighted_random }

abbrev at_one : BalancerState ℕ
at_one = record { round_robin_cursor = 1; rng = 3 }

-- "infura" is tried already.
abbrev tried : List ProviderId
tried = codes "infura" ∷ []

abbrev unweighted : HealthView ℕ
unweighted = record { health_scores = []; best = 0; tolerance = balanced; allow_any = true }

abbrev muted : MethodPolicy ℕ
muted = record {
  tolerance = balanced;
  timeout = 1_000;
  weight_multiplier = 1_000;
  max_retries = 2;
  provider_weights = (codes "alchemy", 0) ∷ [];
  backoff = none;
}

pub counting-IsWeighted : IsWeighted thousandths counting
counting-IsWeighted = record { accepts = λ w ws heavy fin. refl }

abbrev watched : HealthService ℕ
watched = Health.new thousandths two_providers balanced

select_sound_example :
    Member alchemy balancer.pool
    × (contains tried alchemy.id ≡ false)
    × IsHealthy thousandths (some watched) (some muted) alchemy.id
unfolding select is_eligible contains same health_view weighted_random_from into_handle Health.new
    filtered_snapshots is_within_tolerance score best_score threshold latency_score Health.snapshots
    Health.snapshot passes_health by_provider Health.new_state Health.new_from insert
    Health.best_score_from clamp get
select_sound_example =
    select_sound thousandths counting balancer (some watched) tried (some muted) at_one alchemy refl

select_complete_example :
    is_some (select thousandths counting balancer none [] (some muted) at_one).0 ≡ true
unfolding is_eligible contains same health_view weight_of provider_weight
select_complete_example =
    select_complete thousandths thousandths-IsIeee counting counting-IsWeighted balancer none []
      (some muted) at_one alchemy here refl refl refl

abbrev rotating : LoadBalancer
rotating = record { pool = two_providers; strategy = round_robin }

select-selections_example :
    (select thousandths counting rotating none [] none
      (selections thousandths counting rotating none [] none 5 at_one)).0
    ≡ get_elem? two_providers ((1 + 5) % 2)
unfolding is_eligible contains passes_health health_view
select-selections_example =
    select-selections thousandths counting rotating none [] none refl (λ p at. refl) 5 at_one
      (omega arith)
