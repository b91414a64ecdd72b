-- ===== src/Server/Gateway.antt =====
-- The handlers of crates/proxy-server/src/lib.rs: authentication and `proxy_handler_impl`, whole.
-- The query string arrives as the pairs that `form_urlencoded::parse` gives. `accepts` says whether
-- `ExponentialBackoffMaker::new` of the `tower` crate accepts a backoff: the handler panics if not.
pub mod Requests
pub mod Responds
pub mod Liveness
pub mod Access
use rpceth.Base.{
  is_some, ℕ, Bool, true, false, Option, none, some, List, [], ◌∷◌, Text, codes, Dict, same,
  unwrap_or, map_option, if◌then◌else◌,
}
use rpceth.Provider.{ProviderId, ProviderHandle}
use rpceth.Float.{Float}
use rpceth.Json.{Json, member, as_str}
use rpceth.Methods.{Globs, MethodPolicy, ResolvedBackoff}
use rpceth.Methods
use rpceth.Balancer.{Rand}
use rpceth.Server.{Shared, RequestContext, World, Surroundings}
use rpceth.Server.Forward.{SendResult, Post, Response, build_chain_error_response}
use rpceth.Server.Handler.{Attempt, ProxyOutcome, failure, forward_request}
use rpceth.Server.Runtime.{ChainRuntime, ProxyState, Resolved, found, unsupported, resolve_chain}
use rpceth.Server.Runtime.Interface.{chain_of}

-- The two variables of the loop over the query: the key and the provider, the last of each.
unfoldable pub read_query :
    List (Text × Text) → Option Text → Option ProviderId → Option Text × Option ProviderId
read_query [] key provider = (key, provider)
read_query ((name, value) ∷ more) key provider =
    let keyed = same name (codes "apikey") in
    let named = same name (codes "provider_id") in
    read_query more (if keyed then some value else key)
      (if keyed then provider else (if named then some value else provider))

-- The request goes on, with its context or (for `/metrics`) without one, or it is answered 401.
pub data Authenticated : Type 0 where
  passed : Option RequestContext → Authenticated
  unauthorized : Authenticated

unfoldable pub check_key : Text → Option Text → Option ProviderId → Authenticated
check_key api_key none provider = unauthorized
check_key api_key (some key) provider =
    if same key api_key
    then passed (some (record { provider_override = provider }))
    else unauthorized

-- A request without a query is one without pairs.
unfoldable pub authenticate_request : Text → Text → List (Text × Text) → Authenticated
unfolding read_query check_key
authenticate_request api_key path query =
    if same path (codes "/metrics")
    then passed none
    else (let (key, provider) = read_query query none none in check_key api_key key provider)

-- What surrounds a request: the other tasks and the clock, the providers, `StatusCode`'s text, and
-- the test of the backoff.
pub record Outside (F S : Type 0) : Type 0 where
  pub around : Surroundings S
  pub upstream : ℕ → Post → ℕ → SendResult
  pub status_text : ℕ → Text
  pub accepts : ResolvedBackoff F → Bool

module _ (fl : Float) (rand : Rand fl.F) (globs : Globs) (decode : Text → Text) where
  open fl use {F}
  open rand use {Rng}

  abbrev Runtime : Type 0
  Runtime = ChainRuntime fl rand globs decode

  -- An answer, with the chain's world after it if the request came to a chain; or the panic of
  -- `make_backoff` on a backoff that tower refuses. The handler's index into the eligible
  -- providers needs no panic: `Rand` has the law that a sampled index is one of the weights.
  pub data Handled : Type 0 where
    responded : ProxyOutcome → Option (World (Shared F Rng)) → Handled
    panicked : Handled

  -- `body.get("method").and_then(as_str)`
  unfoldable pub method_name : Json → Text
  method_name body = elim (member (codes "method") body) [
    | none ↦ codes "<unknown>"
    | some v ↦ unwrap_or (codes "<unknown>") (as_str v)
  ]

  unfoldable pub attempt_of :
      Outside F (Shared F Rng)
      → Dict ProviderHandle
      → RequestContext
      → Json
      → Text
      → Runtime
      → MethodPolicy F
      → Attempt (Shared F Rng)
  attempt_of out providers_by_id ctx body trace_id runtime policy = record {
    chain = chain_of fl rand globs decode runtime policy;
    around = out.around;
    providers_by_id = providers_by_id;
    ctx = ctx;
    request = body;
    trace_id = trace_id;
    policy_timeout = policy.timeout;
    policy_max_retries = policy.max_retries;
    policy_backs_off = is_some policy.backoff;
    status_text = out.status_text;
    upstream = out.upstream;
  }

  -- `method_policy.backoff.as_ref().map(make_backoff)` succeeds.
  unfoldable pub backoff_accepted : Outside F (Shared F Rng) → MethodPolicy F → Bool
  backoff_accepted out policy = unwrap_or true (map_option out.accepts policy.backoff)

  -- On the chain that the request resolves to, in the chain's present world.
  unfoldable pub handle_on_chain :
      Outside F (Shared F Rng)
      → Dict ProviderHandle
      → RequestContext
      → Json
      → Text
      → Runtime
      → World (Shared F Rng)
      → Handled
  unfolding method_name backoff_accepted attempt_of
  handle_on_chain out providers_by_id ctx body trace_id runtime w =
      let policy = Methods.resolve fl globs runtime.method_registry (some (method_name body)) in
      if backoff_accepted out policy
      then (let (outcome, w') =
            forward_request (attempt_of out providers_by_id ctx body trace_id runtime policy) w in
          responded outcome (some w'))
      else panicked

  unfoldable pub proxy_handler_impl :
      Outside F (Shared F Rng)
      → ProxyState fl rand globs decode
      → RequestContext
      → Option Text
      → Json
      → Text
      → (Runtime → World (Shared F Rng))
      → Handled
  unfolding handle_on_chain
  proxy_handler_impl out state ctx chain_id body trace_id world =
      elim (resolve_chain fl rand globs decode state chain_id) [
        | unsupported name ↦
            responded (failure (build_chain_error_response body trace_id name)) none
        | found runtime ↦
            handle_on_chain out state.providers_by_id ctx body trace_id runtime (world runtime)
      ]
