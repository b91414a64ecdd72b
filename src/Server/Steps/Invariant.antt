-- ===== src/Server/Steps/Invariant.antt =====
-- What stays true of the state that the requests of one chain share, whatever the tasks do to it
-- (crates/proxy-server/src/lib.rs).
use rpceth.Base.{
  ℕ, refl, Option, none, some, map_option, List, [], ◌∷◌, Text, AllValues, AllValues-Member, Member,
  inl,
}
use rpceth.Settings.{ToleranceLevel, BalancerStrategy}
use rpceth.Provider.{ProviderHandle}
use rpceth.Circuit.{ResolvedCircuitBreaker}
use rpceth.Circuit.Bounds.{
  settings, IsRunning, new-AllCounting, on_request_start-IsRunning, on_success-IsRunning,
  on_failure-IsRunning,
}
use rpceth.Json.{Json}
use rpceth.Float.{Float, IsIeee}
use rpceth.Health
use rpceth.Health.{HealthService, apply_result}
use rpceth.Health.Range.{
  IsSound, apply_result-IsSound, new_from-IsSound, HasScores, IsSound-HasScores,
}
use rpceth.Health.Probe.{Reply, probe}
use rpceth.Health.Probe.Results.{probe-IsReported}
use rpceth.Config.{ProxyConfig}
use rpceth.Methods.{Globs, MethodRegistry}
use rpceth.Balancer.{Rand, LoadBalancer, new_balancer_state}
use rpceth.Balancer.Cursor.{IsIndex, select-IsIndex}
use rpceth.Server.{Shared}
use rpceth.Server.Steps.{Step, selected, started, succeeded, failed, probed, Reach, start, later}
use rpceth.Server.Runtime.{ChainRuntime, new_state, build_chain_runtime}
use rpceth.Server.Runtime.Built.{new_state-AllValues}

module _ (fl : Float) (ieee : IsIeee fl) (rand : Rand fl.F) where
  open fl use {F}
  open rand use {Rng}

  -- What holds of the health service, if there is one.
  abbrev WhenEnabled : (HealthService F → Type 0) → Option (HealthService F) → Type 0
  WhenEnabled P none = Unit
  WhenEnabled P (some h) = P h

  -- The breaker counts within its bounds and keeps its settings, the cursor is an index of the
  -- pool, and the states of the health service are sound.
  record IsSteady (balancer : LoadBalancer) (given : List (Text × ResolvedCircuitBreaker))
      (s : Shared F Rng) : Type 0 where
    running : IsRunning given s.circuit_breaker
    cursor : IsIndex balancer.pool s.balancer_state.round_robin_cursor
    healthy : WhenEnabled (λ h. AllValues (λ e. IsSound fl ieee e) h.state) s.health_service

  after_probe-IsSound :
      (now : ℕ) (p : ProviderHandle) (elapsed : ℕ → ℕ) (post : Text → Json → Reply)
      (health : Option (HealthService F))
      → WhenEnabled (λ h. AllValues (λ e. IsSound fl ieee e) h.state) health
      → WhenEnabled
          (λ h. AllValues (λ e. IsSound fl ieee e) h.state)
          (map_option (apply_result fl now (probe fl p elapsed post)) health)
  after_probe-IsSound now p elapsed post none h = tt
  after_probe-IsSound now p elapsed post (some health) h =
      apply_result-IsSound fl ieee now (probe fl p elapsed post) health
        (probe-IsReported fl ieee p elapsed post) h

  scored :
      (health : Option (HealthService F))
      → WhenEnabled (λ h. AllValues (λ e. IsSound fl ieee e) h.state) health
      → WhenEnabled (λ h. HasScores fl ieee h) health
  scored none h = tt
  scored (some health) h = IsSound-HasScores fl ieee health.state h

  module _ (balancer : LoadBalancer) (given : List (Text × ResolvedCircuitBreaker)) where
    Step-IsSteady :
        (s t : Shared F Rng)
        → Step fl rand balancer s t
        → IsSteady balancer given s
        → IsSteady balancer given t
    Step-IsSteady s _ (selected exclude policy) h = record {
      running = h.running;
      cursor =
          select-IsIndex fl rand balancer s.health_service exclude policy s.balancer_state h.cursor;
      healthy = h.healthy;
    }
    Step-IsSteady s _ (started now id) h = record {
      running = on_request_start-IsRunning given id s.circuit_breaker h.running now;
      cursor = h.cursor;
      healthy = h.healthy;
    }
    Step-IsSteady s _ (succeeded id) h = record {
      running = on_success-IsRunning given id s.circuit_breaker h.running;
      cursor = h.cursor;
      healthy = h.healthy;
    }
    Step-IsSteady s _ (failed now id) h = record {
      running = on_failure-IsRunning given id s.circuit_breaker h.running now;
      cursor = h.cursor;
      healthy = h.healthy;
    }
    Step-IsSteady s _ (probed now p elapsed post) h = record {
      running = h.running;
      cursor = h.cursor;
      healthy = after_probe-IsSound now p elapsed post s.health_service h.healthy;
    }

    Reach-IsSteady :
        (s t : Shared F Rng)
        → IsSteady balancer given s
        → Reach fl rand balancer s t
        → IsSteady balancer given t
    Reach-IsSteady s _ h start = h
    Reach-IsSteady s _ h (later {t = t} {u = u} before step) =
        Step-IsSteady t u step (Reach-IsSteady s t h before)

  -- The circuits count within their bounds and keep their settings, the cursor is an index of the
  -- pool, and every score is a number between 0 and 1.
  pub record IsInBounds (balancer : LoadBalancer) (given : List (Text × ResolvedCircuitBreaker))
      (s : Shared F Rng) : Type 0 where
    pub running : IsRunning given s.circuit_breaker
    pub cursor : IsIndex balancer.pool s.balancer_state.round_robin_cursor
    pub scores : WhenEnabled (λ h. HasScores fl ieee h) s.health_service

  IsSteady-IsInBounds :
      (balancer : LoadBalancer) (given : List (Text × ResolvedCircuitBreaker)) (s : Shared F Rng)
      → IsSteady balancer given s
      → IsInBounds balancer given s
  IsSteady-IsInBounds balancer given s h = record {
    running = h.running;
    cursor = h.cursor;
    scores = scored s.health_service h.healthy;
  }

module _ (fl : Float) (ieee : IsIeee fl) (rand : Rand fl.F) (globs : Globs)
    (decode : Text → Text) where
  open fl use {F}

  abbrev Runtime : Type 0
  Runtime = ChainRuntime fl rand globs decode

  abbrev StartsSteady : Runtime → Type 0
  StartsSteady r =
      IsSteady fl ieee rand r.load_balancer (settings r.shared.circuit_breaker) r.shared

  build_chain_runtime-StartsSteady :
      (key : Text) (aliases : List Text) (strategy : BalancerStrategy) (t : ToleranceLevel)
      (ps : List ProviderHandle) (config : ProxyConfig F) (registry : MethodRegistry fl globs)
      → StartsSteady
          (build_chain_runtime fl rand globs decode key aliases strategy t ps config registry)
  unfolding build_chain_runtime new_balancer_state Health.new
  build_chain_runtime-StartsSteady key aliases strategy t [] config registry = record {
    running = record { counting = new-AllCounting [] config.circuit_breaker; unchanged = refl };
    cursor = inl refl;
    healthy = tt;
  }
  build_chain_runtime-StartsSteady key aliases strategy t (p ∷ ps) config registry = record {
    running = record {
      counting = new-AllCounting (p ∷ ps) config.circuit_breaker;
      unchanged = refl;
    };
    cursor = inl refl;
    healthy = new_from-IsSound fl ieee (p ∷ ps) [] tt;
  }

  -- On a chain of a newly built state, after any selections, calls of the circuit breaker and
  -- probes, in any order and interleaving: a closed circuit has no failures or fewer than its
  -- threshold and any other has some, the counters fit into 32 bits, no circuit's settings have
  -- changed and no circuit has come or gone, the round-robin cursor is 0 or an index of the pool,
  -- and each health score is a number between 0 and 1, given the facts of IEEE 754 arithmetic.
  pub Reach-IsInBounds :
      (config : ProxyConfig F) (registry : MethodRegistry fl globs) (c : Text × Runtime)
      (s : Shared F rand.Rng)
      → Member c (new_state fl rand globs decode config registry).chains
      → Reach fl rand c.1.load_balancer c.1.shared s
      → IsInBounds fl ieee rand c.1.load_balancer (settings c.1.shared.circuit_breaker) s
  Reach-IsInBounds config registry c s at reach =
      let begins =
        AllValues-Member (λ r. StartsSteady r) _ c at
          (new_state-AllValues fl rand globs decode config registry (λ r. StartsSteady r)
            (λ key aliases strategy t ps.
              build_chain_runtime-StartsSteady key aliases strategy t ps config registry)) in
      IsSteady-IsInBounds fl ieee rand c.1.load_balancer _ s (
        Reach-IsSteady fl ieee rand c.1.load_balancer (settings c.1.shared.circuit_breaker)
          c.1.shared s begins reach)
