-- ===== src/Lib.antt =====
-- A model of the RPC proxy of crates/proxy-core and crates/proxy-server: it forwards JSON-RPC
-- requests to one of several upstream providers, with health scores, circuit breakers, load
-- balancing, retries and policies per method.
--
-- The parts, and the file of each (with children of the same name for its theorems):
-- - Base: Booleans, lists, strings and dictionaries, shared by all. A `HashMap` or `DashMap` is an
--   association list with one entry for a key (`Dict`); a string is the list of its scalar values.
-- - Settings, Config, Provider: the types of crates/proxy-core/src/config.rs and provider.rs, and the
--   validation: Config/Checks, Config/Chains and Config/Validation are `validate` and its parts, with
--   the messages of the errors; Config/Accepts is about what is accepted,
--   Config/Order about the order of the maps. Config/Given is a configuration as it is written, with
--   the defaults of the fields that are left out. Refusal has the errors.
-- - Float: `f64` as an abstract type with the operations the code calls (`Float`), and the facts of
--   IEEE 754 that theorems assume (`IsIeee`); Float/Thousandths has numbers for examples.
-- - Circuit: crates/proxy-core/src/circuit.rs. `on_request_start`, `on_success`, `on_failure` return the
--   new dictionary of circuits; time is an argument, in nanoseconds.
-- - Health: crates/proxy-core/src/health/model.rs and service.rs. Health/Probe is probe.rs, over what
--   its two POSTs come to; Health/Probe/Hex has the quantities as nodes write them, and
--   Health/Probe/History the probes that a service has made.
-- - Http: what both crates use of the `http` crate's status.
-- - Methods: crates/proxy-core/src/methods.rs, over the `globset` crate as a parameter (`Globs`).
--   Methods/Patterns and Methods/Registry are about the building of the registry, Methods/Layers, Weights and Precedence
--   about where its settings come from, Methods/Sound about the backoffs of accepted configurations.
-- - Balancer: crates/proxy-core/src/routing/load_balancer.rs, over the `rand` crate as a parameter
--   (`Rand`), with the law that a sampled index is one of the weights, so that indexing the eligible
--   providers by it does not panic. Balancer/Healthy describes the health filter by the scores of the
--   health service.
-- - Json: the part of `serde_json::Value` that the server reads and builds.
-- - Server: crates/proxy-server/src/lib.rs. Server/Runtime builds the state of the chains (`ProxyState::new`)
--   and resolves a chain; Server/Select is `select_provider`; Server/Forward the upstream reply and
--   the responses; Server/Handler the attempts of a request, Server/Recording what they report to the
--   metrics; Server/Gateway authentication and the whole handler. `select_provider` works through the interface `Chain` with the law `IsSelecting`,
--   which Server/Runtime/Interface fills with the load balancer and the circuit breaker.
--   Server/Router is `build_router` behind axum's matching of a route; Server/Admin is
--   crates/proxy-server/src/admin.rs, with its reports in Server/Admin/Reports; Server/Metrics are the samples that are recorded and exported,
--   and the two states that `main` builds; Server/Process is `main` up to its call of
--   `axum::serve`, and the signals that end the serving.
--   Server/Steps is what the tasks of the process do to the state of one chain, as a step relation;
--   Server/Select/Keeps and Server/Handler/Keeps carry a property of that state, and of the calls of
--   the circuit breaker so far, through a request; Server/Steps/Requests has a request as the calls
--   for its POSTs.
-- - Tests: concrete data, and each theorem at a concrete input.
--
-- Concurrency: a request is a sequence of accesses to the state that it shares with other requests
-- and with the health probes. Before each access the others may do anything to that state
-- (`Surroundings.interfere`), and the clock is an arbitrary function of the access (`instant`), so
-- the delays of a backoff need no model of their own.
--
-- Bounds: integers are natural numbers; the u32 counters of the breaker saturate and that of the
-- health state wraps, as in the code. Additions of a `Duration` to an `Instant` do not overflow in
-- the model. The loop of `select_provider` runs on fuel, one round more than the pool has providers,
-- since each round but the last excludes another one. The other loops are structural.
--
-- Not modelled: the network (what `reqwest` and the timeout make of a POST is an argument), axum's
-- matching of routes and its extractors, reading the file and YAML (`from_path` takes the text and
-- the parser as arguments), the tracing spans, the exporters of metrics and traces and
-- the listener: all of this is done by other crates. Whether they, the HTTP clients and the routes can
-- be set up is an argument of `start` (`Platform`); what `axum::serve` comes to, and its panic, are
-- left out. Of the panics of the handler there is that of `make_backoff`.
pub mod Base
pub mod Settings
pub mod Refusal
pub mod Provider
pub mod Http
pub mod Float
pub mod Health
pub mod Config
pub mod Methods
pub mod Balancer
pub mod Json
pub mod Server
pub mod Circuit
pub mod Tests
