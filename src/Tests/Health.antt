-- ===== src/Tests/Health.antt =====
-- Examples of the health service of crates/proxy-core/src/health/service.rs, in thousandths.
use rpceth.Base.{ℕ, none, ◌≡◌, true, refl, List, [], ◌∷◌, codes, Dict, Member, Text}
use rpceth.Settings.{ToleranceLevel, balanced}
use rpceth.Float.Thousandths.{thousandths, thousandths-IsIeee}
use rpceth.Float.{clamp}
use rpceth.Health.{
  latency_score, ProviderHealthState, HealthService, ProbeResult, ok, err, timeout, new,
  apply_results, score, best_score, is_within_tolerance,
}
use rpceth.Health.Filter.{some_within_tolerance}
use rpceth.Tests.{two_providers, alchemy, infura}

abbrev probes : List (ℕ × ProbeResult ℕ)
probes =
    (
      5,
      ok (record {
        provider = codes "alchemy";
        latency = 4_000_000_000;
        block_number = 7;
        chain_id = 1;
        method_support_score = 1_000;
      }),
    )
    ∷ (6, err (record { provider = codes "infura"; latency = none; reason = timeout }))
    ∷ []

abbrev probed : HealthService ℕ
probed = apply_results thousandths probes (new thousandths two_providers balanced)

abbrev slow : ProviderHealthState ℕ
slow = record {
  provider = alchemy;
  latest_block = none;
  chain_id = none;
  latency_avg = 8_000_000;
  success_rate = 700;
  sync_score = 1_000;
  method_support_score = 1_000;
  last_updated = none;
  consecutive_failures = 1;
}

abbrev others : Dict (ProviderHealthState ℕ)
others = (codes "infura", record slow { provider = infura; latency_avg = 150_000 }) ∷ []

abbrev uneven : HealthService ℕ
uneven = record { state = (codes "alchemy", slow) ∷ others; tolerance = balanced }

some_within_tolerance_example :
    (k : Text × ProviderHealthState ℕ) × Member k uneven.state
    × ((t : ToleranceLevel)
        → is_within_tolerance thousandths (score thousandths k.1) (best_score thousandths uneven) t
          ≡ true)
unfolding score latency_score clamp
some_within_tolerance_example =
    some_within_tolerance thousandths thousandths-IsIeee (codes "alchemy", slow) others uneven refl
      ((refl, refl), ((refl, refl), tt))
