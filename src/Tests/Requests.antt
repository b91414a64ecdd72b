-- ===== src/Tests/Requests.antt =====
-- Examples of the requests of crates/proxy-server/src/lib.rs, on the configuration with two chains.
use rpceth.Server.Handler.Delays.{delays, failures, run_attempts-delays}
use rpceth.Server.Recording.{Timing, decimal, request_metrics}
use rpceth.Server.Recording.Counts.{Counts}
use rpceth.Server.Recording.Totals.{request_metrics-Counts}
use rpceth.Base.{
  min, ◌-◌, if◌then◌else◌, AllDistinct, ℕ, ◌≤◌, max, ◌≡◌, ◌≢◌, ◌↔◌, refl, true, none, some, List,
  [], ◌∷◌, Text, codes, Dict, All, add, to_set, contains, same, to_ascii_lowercase, trim, length,
  is_some, arith, get, insert,
}
use rpceth.Settings.{balanced}
use rpceth.Provider.{ProviderHandle, into_handle}
use rpceth.Float.Thousandths.{thousandths}
use rpceth.Json.{null}
use rpceth.Methods.{MethodPolicy, MethodRegistry}
use rpceth.Balancer
use rpceth.Health
use rpceth.Circuit
use rpceth.Float.{clamp}
use rpceth.Balancer.{provider_ids}
use rpceth.Server.{access, Shared, World, RequestContext}
use rpceth.Server.Select.{Chain, select_excluding, IsSelecting, select_loop, select_provider}
use rpceth.Server.Select.Laws.{
  remaining, IsUsable, select_loop-IsSome, select_provider_sound, IsKeyed,
}
use rpceth.Server.Handler.{Attempt, Sent, run_attempts, forward_request}
use rpceth.Server.Handler.Attempts.{IsRelayed, ids, Answers, forward_request-Answers}
use rpceth.Server.Runtime.{
  ChainRuntime, by_id, provider_subset, build_chain_runtime, chain_runtime, normalize_chain_id,
  register_alias, new_state, resolve_chain,
}
use rpceth.Server.Runtime.Interface.{chain_of, chain_of-IsSelecting, by_id-IsKeyed, empty-IsKeyed}
use rpceth.Server.Gateway.{attempt_of, authenticate_request, passed}
use rpceth.Server.Gateway.Requests.{attempts_on_chain}
use rpceth.Server.Gateway.Access.{last_value, authenticate_request_iff}
use rpceth.Tests.{
  two_providers, infura, counting, verbatim, undecoded, quiet, outside, anyone, mainnet, two_chains,
}

abbrev pub policy : MethodPolicy ℕ
policy = record {
  tolerance = balanced;
  timeout = 2_000_000_000;
  weight_multiplier = 1_000;
  max_retries = 3;
  provider_weights = [];
  backoff = none;
}

abbrev pub registry : MethodRegistry thousandths verbatim
registry = record {
  defaults = policy;
  groups = [];
  override_set = record { globset = []; entries = [] };
}

abbrev pub table : Dict ProviderHandle
table = by_id two_providers []

abbrev pub runtime : ChainRuntime thousandths counting verbatim undecoded
runtime =
    chain_runtime thousandths counting verbatim undecoded two_chains table registry (codes "1")
      mainnet

abbrev pub world : World (Shared ℕ ℕ)
world = record { shared = runtime.shared; accesses = 0 }

abbrev chain : Chain (Shared ℕ ℕ)
chain = chain_of thousandths counting verbatim undecoded runtime policy

chain-IsSelecting : IsSelecting chain
unfolding chain_runtime build_chain_runtime
chain-IsSelecting = chain_of-IsSelecting thousandths counting verbatim undecoded runtime policy refl

table-IsKeyed : IsKeyed table
table-IsKeyed = by_id-IsKeyed two_providers [] empty-IsKeyed

select_loop-IsSome_example : is_some (select_loop chain quiet 3 (codes "alchemy" ∷ []) world) ≡ true
unfolding chain_of chain_runtime build_chain_runtime provider_subset remaining contains same by_id
    into_handle get insert
select_loop-IsSome_example =
    select_loop-IsSome chain chain-IsSelecting quiet 3 (codes "alchemy" ∷ []) world (omega arith)

select_provider_sound_example :
    IsUsable chain chain-IsSelecting quiet
      (codes "alchemy" ∷ [])
      infura
      (select_provider chain quiet table anyone (codes "alchemy" ∷ []) world).1
unfolding select_provider select_excluding select_loop chain_of Balancer.select chain_runtime
    build_chain_runtime provider_subset to_set add get by_id insert same into_handle
    Balancer.is_eligible contains Balancer.health_view access Health.filtered_snapshots
    Balancer.by_provider Balancer.new_balancer_state Balancer.next_round_robin_filtered
    Balancer.passes_health provider_ids Balancer.round_robin_from Balancer.select_from
    Health.best_score Health.best_score_from Health.is_within_tolerance Health.latency_score
    Health.new Health.new_from Health.new_state Health.score Health.snapshot Health.snapshots
    Health.threshold Circuit.is_available Circuit.available_state Circuit.fresh_entry
    Circuit.from_configs Circuit.new Circuit.new_from clamp
select_provider_sound_example =
    select_provider_sound chain chain-IsSelecting quiet table anyone (codes "alchemy" ∷ []) world
      infura table-IsKeyed refl

abbrev attempt : Attempt (Shared ℕ ℕ)
attempt =
    attempt_of thousandths counting verbatim undecoded outside table anyone null (codes "trace")
      runtime policy

forward_request-Answers_example :
    Answers attempt (run_attempts attempt world).1 (forward_request attempt world).0
unfolding attempt_of
forward_request-Answers_example = forward_request-Answers attempt world

abbrev posts : List Sent
posts =
    (run_attempts
      (attempt_of thousandths counting verbatim undecoded outside
        (new_state thousandths counting verbatim undecoded two_chains registry).providers_by_id
        anyone null (codes "trace") runtime policy)
      world).1.sent

attempts_on_chain_example :
    (length posts ≤ max 3 1)
    × AllDistinct (ids posts)
    × All (λ s. contains (provider_ids runtime.load_balancer.pool) s.provider.id ≡ true) posts
    × All (IsRelayed null (codes "trace") 2_000_000_000) posts
unfolding resolve_chain get new_state register_alias insert same normalize_chain_id
    to_ascii_lowercase trim
attempts_on_chain_example =
    attempts_on_chain thousandths counting verbatim undecoded two_chains registry outside anyone
      null (codes "trace") (some (codes "ETH")) runtime policy world refl

abbrev query : List (Text × Text)
query =
    (codes "apikey", codes "old")
    ∷ (codes "provider_id", codes "infura")
    ∷ (codes "apikey", codes "secret")
    ∷ []

abbrev named : RequestContext
named = record { provider_override = some (codes "infura") }

authenticate_request_iff_example :
    ((authenticate_request (codes "secret") (codes "/") query ≡ passed none)
      ↔ (codes "/" ≡ codes "/metrics"))
    × ((authenticate_request (codes "secret") (codes "/") query ≡ passed (some named)) ↔ (
        (codes "/" ≢ codes "/metrics")
        × (last_value (codes "apikey") query ≡ some (codes "secret"))
        × (some (codes "infura") ≡ last_value (codes "provider_id") query)))
authenticate_request_iff_example = authenticate_request_iff (codes "secret") (codes "/") query named

-- An attempt takes 2 s, of which a second for the selection.
abbrev measured : ℕ → Timing
measured k = record {
  lb_selection = 1_000_000_000;
  provider_request = 1_000_000_000;
  total_request = 2_000_000_000;
}

request_metrics-Counts_example :
    let (end, pr, w') = run_attempts attempt world in
    Counts thousandths
      (codes "eth_call")
      (codes "1")
      measured
      end
      (length pr.sent)
      (request_metrics thousandths (codes "eth_call") (codes "1") measured end pr.events)
request_metrics-Counts_example =
    request_metrics-Counts attempt thousandths (codes "eth_call") (codes "1") measured world

-- With a backoff: "alchemy" fails, and "infura" answers after a delay.
abbrev backing_off : Attempt (Shared ℕ ℕ)
backing_off = record attempt { policy_backs_off = true }

run_attempts-delays_example :
    let (end, pr, w') = run_attempts backing_off world in
    delays pr.events ≡ (
      if true
      then min (failures end (length pr.sent)) (max backing_off.policy_max_retries 1 - 1)
      else 0)
run_attempts-delays_example = run_attempts-delays backing_off world

tenth : decimal 10 ≡ codes "10"
unfolding decimal
tenth = refl
