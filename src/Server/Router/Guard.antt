-- ===== src/Server/Router/Guard.antt =====
-- What the layer of `authenticate_request` guards (crates/proxy-server/src/lib.rs).
use rpceth.Base.{◌≡◌, ◌≢◌, refl, Option, none, some, Text, codes, ◌⊎◌, inl, inr, arith}
use rpceth.Float.{Float}
use rpceth.Json.{Json}
use rpceth.Methods.{Globs}
use rpceth.Balancer.{Rand}
use rpceth.Server.{Shared, RequestContext, World}
use rpceth.Server.Runtime.{ChainRuntime, ProxyState}
use rpceth.Server.Gateway.{
  Outside, Authenticated, passed, unauthorized, authenticate_request, proxy_handler_impl,
}
use rpceth.Server.Gateway.Access.{last_value, authenticate_request_iff}
use rpceth.Server.Router.{
  unauthorized_response, Endpoint, proxy_default, proxy_with_chain, Incoming, Moment, Served,
  answered, handled, proxy_handler, behind_layer, serve,
}

Authenticated-cases :
    (a : Authenticated)
    → (a ≡ unauthorized) ⊎ ((a ≡ passed none) ⊎ ((ctx : RequestContext) × (a ≡ passed (some ctx))))
Authenticated-cases unauthorized = inl refl
Authenticated-cases (passed none) = inr (inl refl)
Authenticated-cases (passed (some ctx)) = inr (inr (ctx, refl))

-- The chain that a proxy route names.
abbrev pub chain_named : Endpoint → Option (Option Text)
chain_named proxy_default = some none
chain_named (proxy_with_chain chain_id) = some (some chain_id)
chain_named _ = none

module _ (fl : Float) (rand : Rand fl.F) (globs : Globs) (decode : Text → Text) where
  open fl use {F}
  open rand use {Rng}

  module _ (out : Outside F (Shared F Rng)) (state : ProxyState fl rand globs decode)
      (world : ChainRuntime fl rand globs decode → World (Shared F Rng)) where
    -- Without the server's key a request is answered 401, and nothing else happens; with it, it is
    -- handled with the provider that its query names.
    abbrev pub IsGuarded : Option Text → Incoming → Served fl rand globs decode → Type 0
    IsGuarded chain_id request served =
        (last_value (codes "apikey") request.query ≢ some state.config.auth.api_key
          → served ≡ answered unauthorized_response)
        × ((body : Json)
            → request.body ≡ inr body
            → last_value (codes "apikey") request.query ≡ some state.config.auth.api_key
            → served
              ≡ handled (
                  proxy_handler_impl fl rand globs decode out state
                    (record { provider_override = last_value (codes "provider_id") request.query })
                    chain_id body request.trace_id world))

    behind_layer-IsGuarded :
        (chain_id : Option Text) (request : Incoming)
        → request.path ≢ codes "/metrics"
        → IsGuarded chain_id request
            (behind_layer fl rand globs decode out state chain_id request world)
    unfolding behind_layer proxy_handler
    behind_layer-IsGuarded chain_id request path =
        let passes =
          authenticate_request_iff state.config.auth.api_key request.path request.query in
        let named : RequestContext = record {
          provider_override = last_value (codes "provider_id") request.query;
        } in
        (
          λ wrong.
              elim (Authenticated-cases
                (authenticate_request state.config.auth.api_key request.path request.query)) [
                  | inl refused ↦ rw (refused, behind_layer)
                  | inr (inl open_path) ↦ absurd (path ((passes named).0.0 open_path))
                  | inr (inr (ctx, through)) ↦ absurd (wrong (((passes ctx).1.0 through).1))
                ],
          λ body extracted keyed.
              rw ((passes named).1.1 (path, keyed, refl), behind_layer)
                (rw (extracted, proxy_handler)),
        )

    -- A request on one of the two proxy routes, on a path other than `/metrics`: if the last pair
    -- named `apikey` of its query has not the server's key as its value, the answer is the 401 of
    -- `unauthorized_response`, and the handler does not run; if it has and the body is JSON, the
    -- answer is what the handler makes of the body, of the chain that the route names and of the
    -- last pair named `provider_id`.
    pub serve-IsGuarded :
        (moment : Moment) (endpoint : Endpoint) (chain_id : Option Text) (request : Incoming)
        → chain_named endpoint ≡ some chain_id
        → request.path ≢ codes "/metrics"
        → IsGuarded chain_id request
            (serve fl rand globs decode out state moment world endpoint request)
    unfolding serve
    serve-IsGuarded moment proxy_default chain_id request e path =
        let one : none ≡ chain_id = ground (arith, e) in
        rw (← one) (behind_layer-IsGuarded none request path)
    serve-IsGuarded moment (proxy_with_chain named) chain_id request e path =
        let one : some named ≡ chain_id = ground (arith, e) in
        rw (← one) (behind_layer-IsGuarded (some named) request path)
    serve-IsGuarded moment _ chain_id request e path = cc
