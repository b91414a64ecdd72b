-- ===== src/Tests/Operations.antt =====
-- Examples of the routes, of the readiness check of crates/proxy-server/src/admin.rs and of the metrics
-- task of crates/proxy-server/src/lib.rs.
use rpceth.Base.{
  none, get, leb, ltb, ◌&&◌, arith, trim, contains, add, same, to_ascii_lowercase, ◌≢◌,
}
use rpceth.Provider
use rpceth.Refusal.{Accepted}
use rpceth.Config.Validation.{validate}
use rpceth.Config.Checks.{
  validate_backoff, validate_timeout, validate_max_retries, validate_multiplier, validate_groups,
  validate_overrides,
}
use rpceth.Server.Gateway.{Outside, panicked, proxy_handler_impl}
use rpceth.Server.Gateway.Responds.{AcceptsOrdinary, proxy_handler_impl-responds}
use rpceth.Tests.{plain_methods, anyone}
use rpceth.Base.{
  ok_or, is_some, true, ℕ, ◌≡◌, ◌↔◌, ◌⊎◌, inr, refl, some, [], ◌∷◌, Text, codes, map, Member,
}
use rpceth.Server.Process.{hangup, interrupt, shutdown_signal}
use rpceth.Settings.{balanced}
use rpceth.Provider.{ProviderId, into_handle}
use rpceth.Circuit.{CircuitBreaker}
use rpceth.Float.Thousandths.{thousandths}
use rpceth.Json.{null}
use rpceth.Config.{ProxyConfig}
use rpceth.Methods
use rpceth.Methods.{MethodRegistry}
use rpceth.Server.{Shared, World}
use rpceth.Server.Forward.{raw}
use rpceth.Server.Runtime.{ChainKey, ChainRuntime, ProxyState, new_state, build_chain_runtime}
use rpceth.Server.Admin.{readiness, readiness_handler}
use rpceth.Server.Admin.Verdict.{IsServing, readiness_handler_iff}
use rpceth.Server.Router.{Incoming, Moment, proxy_with_chain, serve}
use rpceth.Server.Router.Guard.{IsGuarded, serve-IsGuarded}
use rpceth.Server.Metrics.{metrics_tick}
use rpceth.Server.Recording.{gauge}
use rpceth.Server.Metrics.Gauges.{IsAvailability, metrics_tick-available_iff}
use rpceth.Tests.{counting, verbatim, undecoded, outside, two_chains}
use rpceth.Tests.Requests.{registry}

abbrev state : ProxyState thousandths counting verbatim undecoded
state = new_state thousandths counting verbatim undecoded two_chains registry

abbrev no_circuits : ChainKey → ProviderId → ℕ × CircuitBreaker
no_circuits key id = (7, [])

abbrev noon : Text
noon = codes "2025-01-01T12:00:00+00:00"

readiness_handler_iff_example :
    let status =
      (readiness_handler thousandths counting verbatim undecoded no_circuits noon state).status in
    ((status ≡ 200) ↔ (
      (c : Text × ChainRuntime thousandths counting verbatim undecoded)
      → Member c state.chains
      → IsServing thousandths counting verbatim undecoded no_circuits state.providers_by_id c))
    × ((status ≡ 200)
        ↔ ((readiness thousandths counting verbatim undecoded no_circuits state).issues ≡ []))
    × ((status ≡ 200) ⊎ (status ≡ 503))
readiness_handler_iff_example =
    readiness_handler_iff thousandths counting verbatim undecoded no_circuits noon state

abbrev moment : Moment
moment = record { timestamp = noon; version = codes "0.1.0"; rendered = []; observe = no_circuits }

abbrev world_of : ChainRuntime thousandths counting verbatim undecoded → World (Shared ℕ ℕ)
world_of runtime = record { shared = runtime.shared; accesses = 0 }

abbrev incoming : Incoming
incoming = record {
  path = codes "/eth";
  query = (codes "apikey", codes "secret") ∷ [];
  body = inr null;
  trace_id = codes "trace";
  missing_extension = record { status = 500; headers = []; body = raw [] };
}

serve-IsGuarded_example :
    IsGuarded thousandths counting verbatim undecoded outside state world_of
      (some (codes "eth"))
      incoming
      (serve thousandths counting verbatim undecoded outside state moment world_of
        (proxy_with_chain (codes "eth"))
        incoming)
serve-IsGuarded_example =
    serve-IsGuarded thousandths counting verbatim undecoded outside state world_of moment
      (proxy_with_chain (codes "eth")) (some (codes "eth")) incoming refl (λ e. cc)

-- Without chains there is one, called "default".
abbrev unchained : ProxyConfig ℕ
unchained = record two_chains { chains = [] }

abbrev own_registry : MethodRegistry thousandths verbatim
own_registry = ok_or registry (Methods.new thousandths verbatim unchained)

abbrev started : ProxyState thousandths counting verbatim undecoded
started = new_state thousandths counting verbatim undecoded unchained own_registry

abbrev untouched : ChainKey → ProviderId → ℕ × Shared ℕ ℕ
untouched key id = (
  7,
  (build_chain_runtime thousandths counting verbatim undecoded (codes "default") []
      unchained.strategy balanced (map into_handle unchained.providers) unchained
      own_registry).shared,
)

metrics_tick-available_iff_example :
    Member
      (gauge
        (codes "rpc_provider_available")
        1_000
        ((codes "provider", codes "infura") ∷ (codes "chain", codes "default") ∷ []))
      (metrics_tick thousandths counting verbatim undecoded untouched started)
    ↔ IsAvailability thousandths counting verbatim undecoded untouched started 1_000
        ((codes "provider", codes "infura") ∷ (codes "chain", codes "default") ∷ [])
metrics_tick-available_iff_example =
    metrics_tick-available_iff thousandths counting verbatim undecoded untouched started 1_000
      ((codes "provider", codes "infura") ∷ (codes "chain", codes "default") ∷ [])

-- A hangup ends the serving.
hangup_ends : is_some (shutdown_signal (hangup ∷ interrupt ∷ [])) ≡ true
unfolding shutdown_signal
hangup_ends = refl

-- A backoff of which both bounds are given.
abbrev patient : ProxyConfig ℕ
patient = record two_chains {
  methods = record plain_methods {
    default = record plain_methods.default {
      backoff = some (record { min_ms = some 300; max_ms = some 3_000; jitter = none });
    };
  };
}

patient-Accepted : Accepted (validate thousandths patient)
unfolding validate trim Provider.validate contains add same validate_backoff validate_timeout
    validate_max_retries validate_multiplier validate_groups validate_overrides get
    to_ascii_lowercase
patient-Accepted = refl

abbrev patient_registry : MethodRegistry thousandths verbatim
patient_registry = ok_or registry (Methods.new thousandths verbatim patient)

abbrev particular : Outside ℕ (Shared ℕ ℕ)
particular = record outside { accepts = λ b. leb b.min b.max && ltb 0 b.max }

particular-AcceptsOrdinary : AcceptsOrdinary thousandths counting verbatim undecoded particular
particular-AcceptsOrdinary b (low, high, jitter) = ground arith

proxy_handler_impl-responds_example :
    proxy_handler_impl thousandths counting verbatim undecoded particular
      (new_state thousandths counting verbatim undecoded patient patient_registry)
      anyone
      (some (codes "eth"))
      null
      []
      world_of
    ≢ panicked
unfolding Methods.new
proxy_handler_impl-responds_example =
    proxy_handler_impl-responds thousandths counting verbatim undecoded patient patient_registry
      particular anyone (some (codes "eth")) null [] world_of patient-Accepted refl (tt, tt, tt)
      particular-AcceptsOrdinary
