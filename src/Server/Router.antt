-- ===== src/Server/Router.antt =====
-- `build_router` of crates/proxy-server/src/lib.rs and the routes that crates/proxy-server/src/main.rs
-- merges. axum finds the route of a request and extracts the handler's arguments: the `Endpoint`,
-- the extracted body or axum's answer to a body that is not JSON, and its answer to a request
-- without the extension are arguments.
pub mod Guard
use rpceth.Base.{ℕ, Option, none, some, List, [], ◌∷◌, Text, codes, ◌⊎◌, inl, inr}
use rpceth.Circuit.{CircuitBreaker}
use rpceth.Float.{Float}
use rpceth.Json.{Json, number, string, object_of}
use rpceth.Methods.{Globs}
use rpceth.Balancer.{Rand}
use rpceth.Server.{Shared, RequestContext, World}
use rpceth.Server.Forward.{Response, raw, json}
use rpceth.Server.Handler.{success, failure}
use rpceth.Server.Runtime.{ChainKey, ChainRuntime, ProxyState}
use rpceth.Server.Gateway.{
  Outside, Authenticated, passed, unauthorized, authenticate_request, Handled, responded, panicked,
  proxy_handler_impl,
}
use rpceth.Server.Admin.{json_response, health_handler, readiness_handler}
use rpceth.Server.Admin.Reports.{providers_handler, config_handler}

unfoldable pub unauthorized_response : Response
unauthorized_response = json_response 401 (
    object_of (
      (
        codes "error",
        object_of (
            (codes "code", number (codes "-32000"))
            ∷ (codes "message", string (codes "unauthorized"))
            ∷ []),
      )
      ∷ []))

-- "/healthz", "/readyz", "/admin/providers" and "/admin/config".
pub data AdminRoute : Type 0 where
  healthz readyz admin_providers admin_config : AdminRoute

-- The routes: "/", "/:chain_id" with the decoded segment, those of admin.rs, and "/metrics".
pub data Endpoint : Type 0 where
  proxy_default : Endpoint
  proxy_with_chain : (chain_id : Text) → Endpoint
  admin : AdminRoute → Endpoint
  metrics : Endpoint

-- `missing_extension` and the left of `body` are answers of axum's extractors.
pub record Incoming : Type 0 where
  pub path : Text
  pub query : List (Text × Text)
  pub body : Response ⊎ Json
  pub trace_id : Text
  pub missing_extension : Response

-- What the process knows when it answers an admin request.
pub record Moment : Type 0 where
  pub timestamp : Text
  pub version : Text
  pub rendered : Text  -- `PrometheusHandle::render`
  pub observe : ChainKey → Text → ℕ × CircuitBreaker

-- What `/metrics` answers: `PrometheusHandle::render`, as a string.
unfoldable pub observability_response : Text → Response
observability_response rendered = record {
  status = 200;
  headers = (codes "content-type", codes "text/plain; charset=utf-8") ∷ [];
  body = raw rendered;
}

module _ (fl : Float) (rand : Rand fl.F) (globs : Globs) (decode : Text → Text) where
  open fl use {F}
  open rand use {Rng}

  abbrev Runtime : Type 0
  Runtime = ChainRuntime fl rand globs decode

  -- An answer given before the handler of the proxy runs, or what that handler does.
  pub data Served : Type 0 where
    answered : Response → Served
    handled : Handled fl rand globs decode → Served

  -- `proxy_handler_default` and `proxy_handler_with_chain`, with their extractors.
  unfoldable pub proxy_handler :
      Outside F (Shared F Rng)
      → ProxyState fl rand globs decode
      → Option Text
      → Incoming
      → (Runtime → World (Shared F Rng))
      → Option RequestContext
      → Served
  proxy_handler out state chain_id request world none = answered request.missing_extension
  proxy_handler out state chain_id request world (some ctx) = elim request.body [
    | inl rejection ↦ answered rejection
    | inr body ↦
        handled (
          proxy_handler_impl fl rand globs decode out state ctx chain_id body request.trace_id
            world)
  ]

  -- A route behind the layer of `authenticate_request`.
  unfoldable pub behind_layer :
      Outside F (Shared F Rng)
      → ProxyState fl rand globs decode
      → Option Text
      → Incoming
      → (Runtime → World (Shared F Rng))
      → Served
  unfolding proxy_handler unauthorized_response
  behind_layer out state chain_id request world =
      elim (authenticate_request state.config.auth.api_key request.path request.query) [
        | unauthorized ↦ answered unauthorized_response
        | passed ctx ↦ proxy_handler out state chain_id request world ctx
      ]

  -- The handlers of `admin_routes`.
  unfoldable pub admin_response : Moment → ProxyState fl rand globs decode → AdminRoute → Response
  admin_response moment state healthz = health_handler moment.timestamp moment.version
  admin_response moment state readyz =
      readiness_handler fl rand globs decode moment.observe moment.timestamp state
  admin_response moment state admin_providers =
      providers_handler fl rand globs decode moment.observe moment.timestamp state
  admin_response moment state admin_config =
      config_handler fl rand globs decode moment.timestamp moment.version state

  unfoldable pub serve :
      Outside F (Shared F Rng)
      → ProxyState fl rand globs decode
      → Moment
      → (Runtime → World (Shared F Rng))
      → Endpoint
      → Incoming
      → Served
  unfolding behind_layer admin_response observability_response
  serve out state moment world proxy_default request = behind_layer out state none request world
  serve out state moment world (proxy_with_chain chain_id) request =
      behind_layer out state (some chain_id) request world
  serve out state moment world (admin route) request = answered (admin_response moment state route)
  serve out state moment world metrics request = answered (observability_response moment.rendered)
