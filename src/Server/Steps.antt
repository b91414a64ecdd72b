-- ===== src/Server/Steps.antt =====
-- What the tasks of the process do to the state that the requests of one chain share
-- (crates/proxy-server/src/lib.rs and crates/proxy-core/src): a selection of the load balancer, the
-- three calls of the circuit breaker, and a probe of the health service that finishes. Requests and
-- probes interleave: any of these may come after any other.
pub mod Invariant
pub mod Requests
use rpceth.Base.{ℕ, List, Option, map_option, Text}
use rpceth.Provider.{ProviderId, ProviderHandle}
use rpceth.Circuit
use rpceth.Json.{Json}
use rpceth.Float.{Float}
use rpceth.Health.{apply_result}
use rpceth.Health.Probe.{Reply, probe}
use rpceth.Methods.{MethodPolicy}
use rpceth.Balancer
use rpceth.Balancer.{Rand, LoadBalancer}
use rpceth.Server.{Shared}

module _ (fl : Float) (rand : Rand fl.F) (balancer : LoadBalancer) where
  open fl use {F}
  open rand use {Rng}

  abbrev pub after_select : List ProviderId → Option (MethodPolicy F) → Shared F Rng → Shared F Rng
  after_select exclude policy s = record s {
    balancer_state =
        (Balancer.select fl rand balancer s.health_service exclude policy s.balancer_state).1;
  }

  abbrev pub after_probe :
      ℕ → ProviderHandle → (ℕ → ℕ) → (Text → Json → Reply) → Shared F Rng → Shared F Rng
  after_probe now p elapsed post s = record s {
    health_service = map_option (apply_result fl now (probe fl p elapsed post)) s.health_service;
  }

  pub data Step (s : Shared F Rng) : Shared F Rng → Type 0 where
    selected :
        (exclude : List ProviderId) (policy : Option (MethodPolicy F))
        → Step s (after_select exclude policy s)
    started :
        (now : ℕ) (id : ProviderId)
        → Step s (record s { circuit_breaker = Circuit.on_request_start now id s.circuit_breaker })
    succeeded :
        (id : ProviderId)
        → Step s (record s { circuit_breaker = Circuit.on_success id s.circuit_breaker })
    failed :
        (now : ℕ) (id : ProviderId)
        → Step s (record s { circuit_breaker = Circuit.on_failure now id s.circuit_breaker })
    probed :
        (now : ℕ) (p : ProviderHandle) (elapsed : ℕ → ℕ) (post : Text → Json → Reply)
        → Step s (after_probe now p elapsed post s)

  -- Any number of steps.
  pub data Reach (s : Shared F Rng) : Shared F Rng → Type 0 where
    start : Reach s s
    later : {t u : Shared F Rng} → Reach s t → Step t u → Reach s u
