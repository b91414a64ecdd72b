-- ===== src/Server/Gateway/Liveness.antt =====
-- Requests that succeed (crates/proxy-server/src/lib.rs), by the completeness of the load balancer.
use rpceth.Base.{
  ℕ, ◌≤◌, max, ◌≡◌, refl, true, false, Option, none, some, List, Text, Dict, Member, filter, get,
  get-modify, same, same_iff, length, map_option, Bool-cases, Option-cases, inl, inr, arith,
}
use rpceth.Provider.{ProviderId, ProviderHandle}
use rpceth.Circuit
use rpceth.Circuit.{
  ResolvedCircuitBreaker, ProviderCircuit, InnerState, closed, opened, half_open, CircuitBreaker,
  start_entry, fail_entry, start_state, available_state,
}
use rpceth.Float.{Float, IsIeee}
use rpceth.Json.{Json}
use rpceth.Methods.{Globs, MethodPolicy}
use rpceth.Balancer.{Rand, health_view, passes_health, is_eligible}
use rpceth.Balancer.Choice.{IsWeighted, weights, HasFiniteTotal, select_complete}
use rpceth.Server.{Shared, RequestContext, World, Surroundings}
use rpceth.Server.Select.Finds.{IsReady}
use rpceth.Server.Forward.{ProviderResponse, ok, forward_to_provider, build_success_response}
use rpceth.Server.Handler.{success, forward_request, max_attempts}
use rpceth.Server.Handler.Succeeds.{forward_request-succeeds}
use rpceth.Server.Runtime.{ChainRuntime}
use rpceth.Server.Runtime.Interface.{IsListed, chain_of, chain_of-IsSelecting}
use rpceth.Server.Gateway.{Outside, attempt_of}

abbrev IsClosedState : InnerState → Type 0
IsClosedState (closed failures) = Unit
IsClosedState _ = ⊥

-- The provider's circuit is closed, if it has one.
abbrev pub IsShut : Option ProviderCircuit → Type 0
IsShut none = Unit
IsShut (some entry) = IsClosedState entry.state

module _ (config : ResolvedCircuitBreaker) (now : ℕ) where
  closed_starts : (s : InnerState) → IsClosedState s → IsClosedState (start_state config now s)
  unfolding start_state
  closed_starts (closed failures) h = tt
  closed_starts (opened failures retry_at) h = elim h [ ]
  closed_starts (half_open failures attempts) h = elim h [ ]

  closed_available : (s : InnerState) → IsClosedState s → available_state config now s ≡ true
  unfolding available_state
  closed_available (closed failures) h = refl
  closed_available (opened failures retry_at) h = elim h [ ]
  closed_available (half_open failures attempts) h = elim h [ ]

IsShut-started :
    (now : ℕ) (o : Option ProviderCircuit) → IsShut o → IsShut (map_option (start_entry now) o)
unfolding start_entry
IsShut-started now none h = tt
IsShut-started now (some e) h = closed_starts e.config now e.state h

IsShut-available :
    (now : ℕ) (id : ProviderId) (breaker : CircuitBreaker)
    → IsShut (get id breaker)
    → Circuit.is_available now id breaker ≡ true
unfolding Circuit.is_available available_state
IsShut-available now id breaker h = elim (Option-cases (get id breaker)) [
  | inl unknown ↦ rw (unknown, Circuit.is_available)
  | inr (e, known) ↦
      let h' : IsClosedState e.state = rw known at h in
      rw (known, Circuit.is_available) (closed_available e.config now e.state h')
]

module _ (fl : Float) (ieee : IsIeee fl) (rand : Rand fl.F) (fair : IsWeighted fl rand)
    (globs : Globs) (decode : Text → Text) where
  open fl use {F}
  open rand use {Rng}

  module _ (runtime : ChainRuntime fl rand globs decode) (policy : MethodPolicy F)
      (p : ProviderHandle) where
    -- The provider's circuit is closed and the provider passes the health filter; the weights of
    -- the eligible providers have a finite sum.
    pub record IsServing (s : Shared F Rng) : Type 0 where
      pub shut : IsShut (get p.id s.circuit_breaker)
      pub healthy : passes_health fl (health_view fl s.health_service (some policy)) p.id ≡ true
      pub finite :
          (exclude : List ProviderId)
          → let view = health_view fl s.health_service (some policy) in
            HasFiniteTotal fl rand (
              weights fl rand view
                (some policy)
                (filter (is_eligible fl view exclude) runtime.load_balancer.pool))

    chain_of-IsReady :
        (around : Surroundings (Shared F Rng))
        → ((k : ℕ) (s : Shared F Rng) → IsServing s → IsServing (around.interfere k s))
        → Member p runtime.load_balancer.pool
        → IsReady (chain_of fl rand globs decode runtime policy) around (λ s. IsServing s) p
    unfolding chain_of Circuit.on_request_start Circuit.on_failure
    chain_of-IsReady around others at = record {
      finds = λ exclude s h free.
          select_complete fl ieee rand fair runtime.load_balancer s.health_service exclude
            (some policy) s.balancer_state p at free h.healthy (h.finite exclude);
      available = λ now s h. IsShut-available now p.id s.circuit_breaker h.shut;
      selected = λ exclude s h. record { shut = h.shut; healthy = h.healthy; finite = h.finite };
      started = λ now id s h. record {
        shut =
            rw (get-modify id p.id (start_entry now) s.circuit_breaker)
              (elim (Bool-cases (same id p.id)) [
                | inl hit ↦ rw hit (IsShut-started now (get p.id s.circuit_breaker) h.shut)
                | inr miss ↦ rw miss h.shut
              ]);
        healthy = h.healthy;
        finite = h.finite;
      };
      failed = λ now id s other h. record {
        shut =
            let miss : same id p.id ≡ false = ground (arith, same_iff id p.id) in
            rw (get-modify id p.id (fail_entry now) s.circuit_breaker, miss) h.shut;
        healthy = h.healthy;
        finite = h.finite;
      };
      interfered = others;
    }

    -- A request that names no provider succeeds, with the response of a provider, if some provider
    -- of the chain's pool answers each POST of the request with a success, has a closed circuit
    -- and passes the health filter, and goes on to have and to pass, whatever the other tasks do;
    -- and the policy allows as many attempts as the pool has providers. All other providers may
    -- fail. The runtime's set of providers is that of its pool; the finite sum of the weights and
    -- the facts of IEEE 754 and of WeightedIndex are assumed.
    pub request_succeeds :
        (out : Outside F (Shared F Rng)) (table : Dict ProviderHandle) (ctx : RequestContext)
        (body : Json) (trace_id : Text) (w : World (Shared F Rng))
        → let attempt =
            attempt_of fl rand globs decode out table ctx body trace_id runtime policy in
          IsListed fl rand globs decode runtime
          → Member p runtime.load_balancer.pool
          → ctx.provider_override ≡ none
          → IsServing w.shared
          → ((k : ℕ) (s : Shared F Rng) → IsServing s → IsServing (out.around.interfere k s))
          → ((k : ℕ) (q : ProviderHandle) (timeout : ℕ)
              → Member q runtime.load_balancer.pool
              → q.id ≡ p.id
              → (r : ProviderResponse) × (forward_to_provider out.status_text
                    (out.upstream k)
                    q
                    body
                    trace_id
                    timeout
                  ≡ ok r))
          → length runtime.load_balancer.pool ≤ max policy.max_retries 1
          → (r : ProviderResponse) × ((forward_request attempt w).0
              ≡ success (build_success_response r trace_id))
    unfolding attempt_of chain_of max_attempts
    request_succeeds out table ctx body trace_id w listed at unnamed h others answering enough =
        let attempt = attempt_of fl rand globs decode out table ctx body trace_id runtime policy in
        forward_request-succeeds attempt
          (chain_of-IsSelecting fl rand globs decode runtime policy listed) (λ s. IsServing s) p
          (chain_of-IsReady out.around others at) answering unnamed at w h enough
