-- ===== src/Server/Gateway/Requests.antt =====
-- The requests of a started server (crates/proxy-server/src/lib.rs) on the chains of its state.
use rpceth.Base.{
  AllDistinct, ◌≤◌, max, ◌≡◌, true, Option, Text, All, All-weaken, contains, contains-to_set,
  length,
}
use rpceth.Float.{Float}
use rpceth.Json.{Json}
use rpceth.Config.{ProxyConfig}
use rpceth.Methods.{Globs, MethodPolicy, MethodRegistry}
use rpceth.Balancer.{Rand, provider_ids}
use rpceth.Server.{Shared, RequestContext, World}
use rpceth.Server.Handler.{run_attempts}
use rpceth.Server.Handler.Attempts.{IsRelayed, ids, run_attempts-IsOrderly}
use rpceth.Server.Runtime.{ChainRuntime, found, new_state, resolve_chain}
use rpceth.Server.Runtime.Interface.{
  chain_of, chain_of-IsSelecting, new_state-IsListed, new_state-IsKeyed, resolve_chain-AllValues,
  IsListed,
}
use rpceth.Server.Gateway.{Outside, attempt_of}

module _ (fl : Float) (rand : Rand fl.F) (globs : Globs) (decode : Text → Text) where
  open fl use {F}
  open rand use {Rng}

  -- On a chain that a request to a newly built state resolves to, with any policy, any named
  -- provider, any world, any behaviour of the other tasks and of the providers: the attempts send
  -- at most max(1, max_retries) POSTs, no two of them to one provider, all of them to providers of
  -- that chain's pool; each goes to the provider's URL with the client's body unchanged, as JSON
  -- and with the trace id, and has the larger of the provider's and the policy's timeout.
  pub attempts_on_chain :
      (config : ProxyConfig F) (registry : MethodRegistry fl globs) (out : Outside F (Shared F Rng))
      (ctx : RequestContext) (body : Json) (trace_id : Text) (chain_id : Option Text)
      (runtime : ChainRuntime fl rand globs decode) (policy : MethodPolicy F)
      (w : World (Shared F Rng))
      → let state = new_state fl rand globs decode config registry in
        resolve_chain fl rand globs decode state chain_id ≡ found runtime
        → let sent =
            (run_attempts
              (attempt_of fl rand globs decode out state.providers_by_id ctx body trace_id runtime
                policy)
              w).1.sent in
          (length sent ≤ max policy.max_retries 1)
          × AllDistinct (ids sent)
          × All (λ s. contains (provider_ids runtime.load_balancer.pool) s.provider.id ≡ true) sent
          × All (IsRelayed body trace_id policy.timeout) sent
  unfolding attempt_of chain_of
  attempts_on_chain config registry out ctx body trace_id chain_id runtime policy w e =
      let state = new_state fl rand globs decode config registry in
      let listed =
        resolve_chain-AllValues fl rand globs decode (λ r. IsListed fl rand globs decode r) state
          chain_id runtime (new_state-IsListed fl rand globs decode config registry) e in
      let (few, distinct, of_chain, posted) =
        run_attempts-IsOrderly
          (attempt_of fl rand globs decode out state.providers_by_id ctx body trace_id runtime
            policy)
          (chain_of-IsSelecting fl rand globs decode runtime policy listed)
          (new_state-IsKeyed fl rand globs decode config registry) w in
      let in_pool = contains-to_set (provider_ids runtime.load_balancer.pool) in
      (
        few,
        distinct,
        All-weaken _ (λ s h. rw (← in_pool s.provider.id, ← listed) h) of_chain,
        posted,
      )
