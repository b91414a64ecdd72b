-- ===== src/Server/Steps/Requests.antt =====
-- A request of crates/proxy-server/src/lib.rs as steps on the state that it shares with the others.
use rpceth.Base.{List, [], ◌∷◌, ℕ, Text, Dict, Option, some, ◌≡◌, Bool-cases, inl, inr}
use rpceth.Provider.{ProviderId, ProviderHandle}
use rpceth.Circuit
use rpceth.Float.{Float}
use rpceth.Json.{Json}
use rpceth.Methods
use rpceth.Methods.{Globs, MethodPolicy}
use rpceth.Balancer.{Rand, LoadBalancer}
use rpceth.Server.{Shared, RequestContext, World, Surroundings}
use rpceth.Server.Handler.{Attempt, ProxyOutcome, run_attempts, forward_request}
use rpceth.Server.Handler.Keeps.{
  Call, start, succeed, fail, calls_of, IsFollowed, forward_request-follows,
}
use rpceth.Server.Runtime.{ChainRuntime, ProxyState, found, resolve_chain}
use rpceth.Server.Runtime.Interface.{chain_of}
use rpceth.Server.Gateway.{
  Outside, attempt_of, responded, handle_on_chain, backoff_accepted, method_name,
  proxy_handler_impl,
}
use rpceth.Server.Steps.{after_select, Step, selected, started, succeeded, failed, Reach, later}

module _ (fl : Float) (rand : Rand fl.F) where
  open fl use {F}
  open rand use {Rng}

  -- The other tasks, too, only take steps.
  abbrev pub TakesSteps : LoadBalancer → Surroundings (Shared F Rng) → Type 0
  TakesSteps balancer around =
      (k : ℕ) (s : Shared F Rng) → Reach fl rand balancer s (around.interfere k s)

  Reach-trans :
      {balancer : LoadBalancer} (s t u : Shared F Rng)
      → Reach fl rand balancer s t
      → Reach fl rand balancer t u
      → Reach fl rand balancer s u
  Reach-trans s t _ before Reach.start = before
  Reach-trans s t u before (later {t = v} more step) = later (Reach-trans s t v before more) step

  -- What a call of the circuit breaker makes of the state.
  abbrev pub after_call : ℕ → Call → Shared F Rng → Shared F Rng
  after_call now (start id) s = record s {
    circuit_breaker = Circuit.on_request_start now id s.circuit_breaker;
  }
  after_call now (succeed id) s = record s {
    circuit_breaker = Circuit.on_success id s.circuit_breaker;
  }
  after_call now (fail id) s = record s {
    circuit_breaker = Circuit.on_failure now id s.circuit_breaker;
  }

  -- From a state to another by these calls of the circuit breaker, the newest first, and by nothing
  -- else but selections and what the other tasks do before an access.
  pub data Run (balancer : LoadBalancer) (around : Surroundings (Shared F Rng)) (s : Shared F Rng)
      : List Call → Shared F Rng → Type 0 where
    begin : Run balancer around s [] s
    aside :
        {calls : List Call} {t : Shared F Rng} (k : ℕ)
        → Run balancer around s calls t
        → Run balancer around s calls (around.interfere k t)
    selects :
        {calls : List Call} {t : Shared F Rng} (exclude : List ProviderId)
        (policy : Option (MethodPolicy F))
        → Run balancer around s calls t
        → Run balancer around s calls (after_select fl rand balancer exclude policy t)
    calls :
        {calls : List Call} {t : Shared F Rng} (now : ℕ) (call : Call)
        → Run balancer around s calls t
        → Run balancer around s (call ∷ calls) (after_call now call t)

  after_call-Step :
      (balancer : LoadBalancer) (now : ℕ) (call : Call) (s : Shared F Rng)
      → Step fl rand balancer s (after_call now call s)
  after_call-Step balancer now (start id) s = started now id
  after_call-Step balancer now (succeed id) s = succeeded id
  after_call-Step balancer now (fail id) s = failed now id

  Run-Reach :
      {balancer : LoadBalancer} {around : Surroundings (Shared F Rng)} {s t : Shared F Rng}
      {made : List Call}
      → TakesSteps balancer around
      → Run balancer around s made t
      → Reach fl rand balancer s t
  Run-Reach others begin = Reach.start
  Run-Reach others (aside k run) = Reach-trans _ _ _ (Run-Reach others run) (others k _)
  Run-Reach others (selects exclude policy run) =
      later (Run-Reach others run) (selected exclude policy)
  Run-Reach others (calls now call run) =
      later (Run-Reach others run) (after_call-Step _ now call _)

  module _ (globs : Globs) (decode : Text → Text) where
    chain_of-IsFollowed :
        (runtime : ChainRuntime fl rand globs decode) (policy : MethodPolicy F)
        (around : Surroundings (Shared F Rng)) (s : Shared F Rng)
        → IsFollowed
            (chain_of fl rand globs decode runtime policy)
            around
            (Run runtime.load_balancer around s)
    unfolding chain_of
    chain_of-IsFollowed runtime policy around s = record {
      kept = λ made. record {
        selected = λ exclude t run. selects exclude (some policy) run;
        interfered = λ k t run. aside k run;
      };
      started = λ now id made t run. calls now (Call.start id) run;
      succeeded = λ id made t run. calls 0 (Call.succeed id) run;
      failed = λ now id made t run. calls now (Call.fail id) run;
    }

    -- The attempts of a request on a chain, with the policy of its method.
    abbrev pub attempt_on :
        Outside F (Shared F Rng)
        → Dict ProviderHandle
        → RequestContext
        → Json
        → Text
        → ChainRuntime fl rand globs decode
        → Attempt (Shared F Rng)
    attempt_on out table ctx body trace_id runtime =
        attempt_of fl rand globs decode out table ctx body trace_id runtime (
          Methods.resolve fl globs runtime.method_registry
            (some (method_name fl rand globs decode body)))

    -- The calls of the circuit breaker for the POSTs of a request.
    abbrev pub calls_for : Attempt (Shared F Rng) → World (Shared F Rng) → List Call
    calls_for attempt w = calls_of attempt (run_attempts attempt w).1.sent

    handle_on_chain-Run :
        (out : Outside F (Shared F Rng)) (table : Dict ProviderHandle) (ctx : RequestContext)
        (body : Json) (trace_id : Text) (runtime : ChainRuntime fl rand globs decode)
        (w : World (Shared F Rng)) (outcome : ProxyOutcome) (w' : World (Shared F Rng))
        → handle_on_chain fl rand globs decode out table ctx body trace_id runtime w
          ≡ responded outcome (some w')
        → Run runtime.load_balancer out.around w.shared
            (calls_for (attempt_on out table ctx body trace_id runtime) w)
            w'.shared
    unfolding handle_on_chain attempt_of
    handle_on_chain-Run out table ctx body trace_id runtime w outcome w' e =
        let policy =
          Methods.resolve fl globs runtime.method_registry
            (some (method_name fl rand globs decode body)) in
        let attempt = attempt_on out table ctx body trace_id runtime in
        let run =
          forward_request-follows attempt (Run runtime.load_balancer out.around w.shared)
            (chain_of-IsFollowed runtime policy out.around w.shared) w begin in
        elim (Bool-cases (backoff_accepted fl rand globs decode out policy)) [
          | inl accepted ↦
              let e' = rw accepted at e in
              let after : (forward_request attempt w).1 ≡ w' = cc in rw (← after) run
          | inr refused ↦ let e' = rw refused at e in cc
        ]

    -- If the other tasks only take the steps of the process (selections, calls of the circuit
    -- breaker and probes), this is what a request that the handler answers on a chain does to the
    -- state of the chain: for each of its POSTs, in order, one start of its provider in the
    -- circuit breaker, and then the report of a success if the provider answered and of a failure
    -- if not; and nothing else but selections and what the other tasks do before its accesses. So
    -- all of it is a sequence of such steps.
    pub proxy_handler_impl-Run :
        (out : Outside F (Shared F Rng)) (state : ProxyState fl rand globs decode)
        (ctx : RequestContext) (chain_id : Option Text) (body : Json) (trace_id : Text)
        (world : ChainRuntime fl rand globs decode → World (Shared F Rng))
        (runtime : ChainRuntime fl rand globs decode) (outcome : ProxyOutcome)
        (w' : World (Shared F Rng))
        → TakesSteps runtime.load_balancer out.around
        → resolve_chain fl rand globs decode state chain_id ≡ found runtime
        → proxy_handler_impl fl rand globs decode out state ctx chain_id body trace_id world
          ≡ responded outcome (some w')
        → let attempt = attempt_on out state.providers_by_id ctx body trace_id runtime in
          Run runtime.load_balancer out.around
            (world runtime).shared
            (calls_for attempt (world runtime))
            w'.shared
          × Reach fl rand runtime.load_balancer (world runtime).shared w'.shared
    unfolding proxy_handler_impl
    proxy_handler_impl-Run out state ctx chain_id body trace_id world runtime outcome w' others
          resolved e =
        let run =
          handle_on_chain-Run out state.providers_by_id ctx body trace_id runtime (world runtime)
            outcome w' (rw (resolved, proxy_handler_impl) at e) in
        (run, Run-Reach others run)
