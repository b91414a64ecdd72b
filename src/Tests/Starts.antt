-- ===== src/Tests/Starts.antt =====
-- Examples of a configuration as it is written, and of the start of crates/proxy-server/src/main.rs with it.
use rpceth.Base.{true, ℕ, inr, ◌≡◌, ◌↔◌, refl, codes, [], ◌∷◌, some, none}
use rpceth.Settings.{round_robin}
use rpceth.Float.Thousandths.{thousandths}
use rpceth.Refusal.{Accepted}
use rpceth.Config.Given.{GivenConfig, fill}
use rpceth.Config.Defaults.{ValidGiven, validate-fill}
use rpceth.Config.Validation.{validate}
use rpceth.Server.Process.{Platform, start}
use rpceth.Server.Process.Starts.{IsServable, start_iff}
use rpceth.Server.Runtime.{ProxyState}
use rpceth.Tests.{counting, verbatim, undecoded, two_chains}
use rpceth.Tests.Configs.{two_chains-Accepted}

-- The configuration with two chains as it is written, with some fields left out.
abbrev written : GivenConfig ℕ
written = record {
  strategy = some round_robin;
  default_timeout_ms = some 2_000;
  max_retries = none;
  default_tolerance = none;
  methods = none;
  circuit_breaker = none;
  auth = two_chains.auth;
  providers =
      record {
        id = codes "alchemy";
        url = codes "https://alchemy.test/";
        base_weight = some 2;
        max_connections = some 16;
        timeout_ms = some 1_500;
        circuit_breaker = none;
      }
      ∷ record {
        id = codes "infura";
        url = codes "https://infura.test/";
        base_weight = some 1;
        max_connections = some 16;
        timeout_ms = some 3_000;
        circuit_breaker = none;
      }
      ∷ [];
  chains = some two_chains.chains;
  default_chain = some (codes "1");
}

written_lem : fill written ≡ two_chains
unfolding fill
written_lem = refl

validate-fill_example :
    Accepted (validate thousandths (fill written)) ↔ ValidGiven thousandths written
validate-fill_example = validate-fill thousandths written

-- All that `main` calls succeeds.
abbrev platform : Platform
platform = record {
  installs_metrics_exporter = true;
  installs_tracing = true;
  installs_otel_metrics = true;
  builds_clients = true;
  builds_routes = true;
  binds_listener = true;
}

-- A file whose text stands for it.
written-IsServable :
    IsServable thousandths counting verbatim undecoded platform (λ body. inr written) (inr [])
unfolding fill
written-IsServable = record {
  recorder = refl;
  tracing = refl;
  otel = refl;
  clients = refl;
  routes = refl;
  listener = refl;
  body = [];
  given = written;
  read = refl;
  parsed = refl;
  accepted = two_chains-Accepted;
  added = [];
  set = [];
  valid = refl;
  built = refl;
}

start_iff_example :
    ((states : ProxyState thousandths counting verbatim undecoded
        × ProxyState thousandths counting verbatim undecoded)
      × (start thousandths counting verbatim undecoded platform (λ body. inr written) (inr [])
          ≡ some states))
    ↔ IsServable thousandths counting verbatim undecoded platform (λ body. inr written) (inr [])
start_iff_example =
    start_iff thousandths counting verbatim undecoded platform (λ body. inr written) (inr [])
