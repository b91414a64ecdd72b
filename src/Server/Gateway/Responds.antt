-- ===== src/Server/Gateway/Responds.antt =====
-- The panic of `make_backoff` in `proxy_handler_impl` (crates/proxy-server/src/lib.rs), for the policies
-- of crates/proxy-core/src/methods.rs.
use rpceth.Base.{◌≡◌, ◌≢◌, refl, sym, subst, true, Option, some, Text, ◌⊎◌, inl, inr, Option-cases}
use rpceth.Float.{Float}
use rpceth.Json.{Json}
use rpceth.Refusal.{Accepted}
use rpceth.Config.{ProxyConfig}
use rpceth.Config.Validation.{validate}
use rpceth.Config.Valid.{Given}
use rpceth.Config.Accepts.{validate_iff}
use rpceth.Methods
use rpceth.Methods.{Globs, MethodRegistry, MethodPolicy, ResolvedBackoff}
use rpceth.Methods.Sound.{PairedMethods, IsOrdinary, resolve-IsOrdinary}
use rpceth.Balancer.{Rand}
use rpceth.Server.{Shared, RequestContext, World}
use rpceth.Server.Runtime.{
  ChainRuntime, Resolved, found, unsupported, new_state, resolve_chain, build_chain_runtime,
}
use rpceth.Server.Runtime.Built.{new_state-AllValues}
use rpceth.Server.Runtime.Interface.{resolve_chain-AllValues}
use rpceth.Server.Gateway.{
  Outside, panicked, backoff_accepted, handle_on_chain, proxy_handler_impl, method_name,
}

resolved_cases :
    {R : Type 0} (r : Resolved R)
    → ((name : Text) × (r ≡ unsupported name)) ⊎ ((runtime : R) × (r ≡ found runtime))
resolved_cases (unsupported name) = inl (name, refl)
resolved_cases (found runtime) = inr (runtime, refl)

module _ (fl : Float) (rand : Rand fl.F) (globs : Globs) (decode : Text → Text) where
  open fl use {F}
  open rand use {Rng}

  abbrev Runtime : Type 0
  Runtime = ChainRuntime fl rand globs decode

  -- What `ExponentialBackoffMaker::new` of the `tower` crate accepts at least.
  abbrev pub AcceptsOrdinary : Outside F (Shared F Rng) → Type 0
  AcceptsOrdinary out = (b : ResolvedBackoff F) → IsOrdinary fl b → out.accepts b ≡ true

  ordinary-accepted :
      (out : Outside F (Shared F Rng)) (policy : MethodPolicy F)
      → AcceptsOrdinary out
      → Given (IsOrdinary fl) policy.backoff
      → backoff_accepted fl rand globs decode out policy ≡ true
  unfolding backoff_accepted
  ordinary-accepted out policy accepts ordinary = elim (Option-cases policy.backoff) [
    | inl unset ↦ rw unset refl
    | inr (b, e) ↦ rw e (accepts b (subst (Given (IsOrdinary fl)) e ordinary))
  ]

  new_state-registry :
      (config : ProxyConfig F) (registry : MethodRegistry fl globs) (chain_id : Option Text)
      (runtime : Runtime)
      → resolve_chain fl rand globs decode (new_state fl rand globs decode config registry) chain_id
        ≡ found runtime
      → runtime.method_registry ≡ registry
  unfolding build_chain_runtime
  new_state-registry config registry chain_id runtime e =
      resolve_chain-AllValues fl rand globs decode (λ r. r.method_registry ≡ registry) _ chain_id
        runtime
        (new_state-AllValues fl rand globs decode config registry
          (λ r. r.method_registry ≡ registry) (λ key aliases strategy t ps. refl))
        e

  -- On no request to a newly built state does the handler's `make_backoff` panic, whatever the
  -- request's chain, method and body, its provider and the state of the chain, if `validate`
  -- accepts the configuration, its method registry is built, each backoff of its methods gives
  -- both `min_ms` and `max_ms` or neither, and tower accepts a backoff whose minimum is at most
  -- its maximum, whose maximum is positive and whose jitter is 0.3 or between 0 and 1. This is the
  -- only panic of the handler in the model: that an index drawn by `WeightedIndex` is in range is
  -- a law of `Rand`, and the additions to an `Instant` do not overflow in it.
  pub proxy_handler_impl-responds :
      (config : ProxyConfig F) (registry : MethodRegistry fl globs) (out : Outside F (Shared F Rng))
      (ctx : RequestContext) (chain_id : Option Text) (body : Json) (trace_id : Text)
      (world : Runtime → World (Shared F Rng))
      → Accepted (validate fl config)
      → Methods.new fl globs config ≡ inr registry
      → PairedMethods fl config.methods
      → AcceptsOrdinary out
      → proxy_handler_impl fl rand globs decode out
          (new_state fl rand globs decode config registry)
          ctx
          chain_id
          body
          trace_id
          world
        ≢ panicked
  unfolding proxy_handler_impl handle_on_chain
  proxy_handler_impl-responds config registry out ctx chain_id body trace_id world valid made paired
        accepts e =
      let state = new_state fl rand globs decode config registry in
      let (c0, (c1, (c2, (c3, (c4, (c5, (methods, chains))))))) =
        (validate_iff fl config).0 valid in
      elim (resolved_cases (resolve_chain fl rand globs decode state chain_id)) [
        | inl (name, unknown) ↦ let now = rw (unknown, proxy_handler_impl) at e in cc
        | inr (runtime, at) ↦
            let same_registry = new_state-registry config registry chain_id runtime at in
            let method = some (method_name fl rand globs decode body) in
            let accepted =
              ordinary-accepted out (Methods.resolve fl globs runtime.method_registry method)
                accepts
                (subst (λ r. Given (IsOrdinary fl) (Methods.resolve fl globs r method).backoff)
                  (sym same_registry)
                  (resolve-IsOrdinary fl globs config registry method made methods paired)) in
            let now = rw (at, proxy_handler_impl, handle_on_chain, accepted) at e in cc
      ]
