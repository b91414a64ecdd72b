-- ===== src/Tests/Interleavings.antt =====
-- Examples of requests among other tasks (crates/proxy-server/src/lib.rs).
use rpceth.Base.{
  Member, Member-cons, ap, ◌∙◌, inl, inr, ℕ, ◌≡◌, refl, some, List, [], ◌∷◌, codes, here, there,
  get, insert, same, to_set, add, to_ascii_lowercase, trim, contains, arith,
}
use rpceth.Provider.{ProviderHandle, into_handle}
use rpceth.Circuit
use rpceth.Circuit.Bounds.{settings}
use rpceth.Http.{is_success}
use rpceth.Methods
use rpceth.Balancer
use rpceth.Health
use rpceth.Float.{clamp}
use rpceth.Balancer.Choice.{HasFiniteTotal}
use rpceth.Float.Thousandths.{thousandths, thousandths-IsIeee}
use rpceth.Json.{null}
use rpceth.Server.{Shared}
use rpceth.Server.Forward.{ProviderResponse, ok, forward_to_provider, build_success_response}
use rpceth.Server.Handler.{Attempt, max_attempts, success, forward_request}
use rpceth.Server.Runtime.{
  ChainRuntime, chain_runtime, build_chain_runtime, provider_subset, by_id, add_chains,
  register_alias, normalize_chain_id, new_state, resolve_chain,
}
use rpceth.Server.Gateway.{attempt_of, handle_on_chain, proxy_handler_impl}
use rpceth.Server.Gateway.Liveness.{IsServing, request_succeeds}
use rpceth.Server.Steps.{after_select, Reach, start, later, failed, selected}
use rpceth.Server.Steps.Invariant.{IsInBounds, Reach-IsInBounds}
use rpceth.Server.Steps.Requests.{Run, calls_for, proxy_handler_impl-Run}
use rpceth.Tests.{replies, infura, counting, verbatim, undecoded, outside, anyone, two_chains}
use rpceth.Tests.Requests.{policy, registry, table, runtime, world}
use rpceth.Tests.Routing.{counting-IsWeighted}

abbrev Runtime : Type 0
Runtime = ChainRuntime thousandths counting verbatim undecoded

-- A failed request to "alchemy", and a selection.
abbrev failed_once : Shared ℕ ℕ
failed_once = record runtime.shared {
  circuit_breaker = Circuit.on_failure 3 (codes "alchemy") runtime.shared.circuit_breaker;
}

abbrev selected_then : Shared ℕ ℕ
selected_then = after_select thousandths counting runtime.load_balancer [] (some policy) failed_once

Reach-IsInBounds_example :
    IsInBounds thousandths thousandths-IsIeee counting runtime.load_balancer
      (settings runtime.shared.circuit_breaker)
      selected_then
unfolding new_state insert by_id add_chains same
Reach-IsInBounds_example =
    Reach-IsInBounds thousandths thousandths-IsIeee counting verbatim undecoded two_chains registry
      (codes "1", runtime) selected_then here
      (later (later start (failed 3 (codes "alchemy"))) (selected [] (some policy)))

abbrev handler : Attempt (Shared ℕ ℕ)
handler =
    attempt_of thousandths counting verbatim undecoded outside
      (new_state thousandths counting verbatim undecoded two_chains registry).providers_by_id anyone
      null (codes "trace") runtime
      (Methods.resolve thousandths verbatim registry (some (codes "<unknown>")))

proxy_handler_impl-Run_example :
    Run thousandths counting runtime.load_balancer handler.around world.shared
      (calls_for thousandths counting verbatim undecoded handler world)
      (forward_request handler world).1.shared
    × Reach thousandths counting runtime.load_balancer world.shared
        (forward_request handler world).1.shared
unfolding resolve_chain get new_state register_alias insert same normalize_chain_id
    to_ascii_lowercase trim proxy_handler_impl handle_on_chain Methods.resolve
proxy_handler_impl-Run_example =
    proxy_handler_impl-Run thousandths counting verbatim undecoded outside
      (new_state thousandths counting verbatim undecoded two_chains registry) anyone
      (some (codes "ETH")) null (codes "trace") (λ r. record { shared = r.shared; accesses = 0 })
      runtime (forward_request handler world).0 (forward_request handler world).1 (λ k s. start)
      refl refl

finite_total : (ws : List ℕ) → HasFiniteTotal thousandths counting ws
finite_total [] = tt
finite_total (w ∷ ws) = refl

infura-answers :
    (k : ℕ) (q : ProviderHandle) (timeout : ℕ)
    → Member q runtime.load_balancer.pool
    → q.id ≡ infura.id
    → (r : ProviderResponse) × (forward_to_provider
          (outside {S = Unit {0}}).status_text
          (replies k)
          q
          null
          (codes "trace")
          timeout
        ≡ ok r)
unfolding forward_to_provider is_success into_handle same chain_runtime build_chain_runtime
    provider_subset get by_id insert
infura-answers k q timeout at e = elim (Member-cons at) [
  | inl first ↦ let differ : codes "alchemy" ≡ codes "infura" = ap (λ p. p.id) first ∙ e in cc
  | inr more ↦ elim (Member-cons more) [
    | inl second ↦ (record { status = 200; headers = []; body = 1 ∷ [] }, rw (← second) refl)
    | inr no_more ↦ elim no_more [ ]
  ]
]

infura-IsServing :
    IsServing thousandths thousandths-IsIeee counting counting-IsWeighted verbatim undecoded runtime
      policy infura world.shared
unfolding chain_runtime build_chain_runtime provider_subset to_set add get by_id insert same
    into_handle contains Balancer.health_view Balancer.by_provider Balancer.passes_health
    Health.filtered_snapshots Health.best_score Health.best_score_from Health.is_within_tolerance
    Health.latency_score Health.new Health.new_from Health.new_state Health.score Health.snapshot
    Health.snapshots Health.threshold Circuit.fresh_entry Circuit.from_configs Circuit.new
    Circuit.new_from clamp
infura-IsServing = record { shut = tt; healthy = refl; finite = λ exclude. finite_total _ }

request_succeeds_example :
    (r : ProviderResponse) × ((forward_request
        (attempt_of thousandths counting verbatim undecoded outside table anyone null
          (codes "trace")
          runtime
          policy)
        world).0
      ≡ success (build_success_response r (codes "trace")))
unfolding chain_runtime build_chain_runtime provider_subset get by_id insert same into_handle
    max_attempts
request_succeeds_example =
    request_succeeds thousandths thousandths-IsIeee counting counting-IsWeighted verbatim undecoded
      runtime policy infura outside table anyone null (codes "trace") world refl (there here) refl
      infura-IsServing (λ k s h. h) infura-answers (omega arith)
