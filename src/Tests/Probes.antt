-- ===== src/Tests/Probes.antt =====
-- Examples of the probes of crates/proxy-core/src/health/probe.rs.
use rpceth.Base.{
  none, ℕ, ◌≡◌, ◌*◌, ◌&&◌, inr, refl, none, some, List, [], ◌∷◌, map, Text, codes, get, insert,
  unwrap_or, if◌then◌else◌, same, arith,
}
use rpceth.Settings.{balanced}
use rpceth.Provider.{into_handle}
use rpceth.Json.{Json, member, as_str, object_of}
use rpceth.Http.{is_success}
use rpceth.Float.Thousandths.{thousandths}
use rpceth.Health.{
  ProviderHealthState, HealthService, new, new_from, new_state, apply_result, apply_results,
}
use rpceth.Health.Probe.{Reply, unreachable, replied, chain_id_req, block_req, probe, quantity}
use rpceth.Health.Probe.Hex.{encode_quantity, quantity-encode_quantity}
use rpceth.Health.Probe.History.{IsCounted, probes-IsCounted, failures_since, last_probe}
use rpceth.Health.Probe.Results.{
  Run, answered, is_ok, reported_by, result_of, probe_lem, apply_result-probe,
}
use rpceth.Tests.{two_providers, alchemy}

quantity-encode_quantity_example : quantity (encode_quantity 21_000_000) ≡ 21_000_000
quantity-encode_quantity_example = quantity-encode_quantity 21_000_000 (omega arith)

-- The k-th reading of the clock of a probe, in milliseconds.
abbrev clock : ℕ → ℕ
clock k = k * 1_000_000

-- A node that answers with its chain 1 and a block; and one that does not answer.
abbrev node : Text → Json → Reply
node url body = replied 200 (
    inr (elim (member (codes "method") body) [
      | none ↦ none
      | some name ↦
          if same (unwrap_or [] (as_str name)) (codes "eth_chainId")
          then some (encode_quantity 1)
          else some (encode_quantity 21_000_000)
    ]))

abbrev nobody : Text → Json → Reply
nobody url body = unreachable (codes "connection refused")

probe_lem_example :
    (is_ok thousandths (probe thousandths alchemy clock node)
      ≡ (answered (node alchemy.url chain_id_req) && answered (node alchemy.url block_req)))
    × (reported_by thousandths (probe thousandths alchemy clock node) ≡ alchemy.id)
probe_lem_example = probe_lem thousandths alchemy clock node

abbrev service : HealthService ℕ
service = new thousandths two_providers balanced

apply_result-probe_example :
    (s' : ProviderHealthState ℕ) × (get
        (codes "alchemy")
        (apply_result thousandths 9 (probe thousandths alchemy clock node) service).state
      ≡ some s')
    × (s'.chain_id ≡ some 1)
    × (s'.latest_block ≡ some 21_000_000)
    × (s'.last_updated ≡ some 9)
    × (s'.consecutive_failures ≡ 0)
unfolding new new_from insert get same is_success into_handle chain_id_req block_req member as_str
    object_of
apply_result-probe_example =
    apply_result-probe thousandths 9 alchemy clock node 200 200 1 21_000_000 service
      (new_state thousandths alchemy) refl refl refl refl (omega arith) (omega arith) refl

abbrev runs : List Run
runs =
    record { now = 5; provider = alchemy; elapsed = clock; post = node }
    ∷ record { now = 6; provider = alchemy; elapsed = clock; post = nobody }
    ∷ []

probes-IsCounted_example :
    IsCounted thousandths
      (codes "alchemy")
      (apply_results thousandths (map (λ r. result_of thousandths r) runs) service)
      1
      (some 6)
unfolding new new_from insert get same new_state into_handle failures_since last_probe is_success
    chain_id_req block_req member as_str object_of
probes-IsCounted_example =
    probes-IsCounted thousandths (codes "alchemy") runs service 0 none (record {
      state = new_state thousandths alchemy;
      known = refl;
      failures = refl;
      updated = refl;
    })
