-- ===== src/Server/Handler.antt =====
-- `proxy_handler_impl` of crates/proxy-server/src/lib.rs: the attempts of one request. What it
-- records in tracing spans and logs is left out.
pub mod Attempts
pub mod Keeps
pub mod Succeeds
pub mod Delays
use rpceth.Base.{
  ℕ, zero, suc, ◌+◌, max, Bool, true, false, Option, none, some, List, [], ◌∷◌, Text, codes, Dict,
  map, contains, add, ltb, ◌&&◌, if◌then◌else◌,
}
use rpceth.Provider.{ProviderId, ProviderHandle}
use rpceth.Json.{Json, member, as_str}
use rpceth.Server.{RequestContext, World, Surroundings, access, now}
use rpceth.Server.Select.{Chain, select_provider}
use rpceth.Server.Forward.{
  SendResult, Post, post_to, ProviderResponse, Forwarded, ok, err, forward_to_provider, Response,
  build_success_response, build_error_response,
}

-- A POST to a provider, with its timeout and the number of the access at which it is sent.
pub record Sent : Type 0 where
  pub provider : ProviderHandle
  pub post : Post
  pub timeout : ℕ
  pub instant : ℕ

-- What an attempt, by its number, reports to the metrics; and a delay before the next attempt.
pub data Event : Type 0 where
  selected succeeded : (attempt : ℕ) → (provider : ProviderId) → Event
  failed : (attempt : ℕ) → (provider : ProviderId) → (error : Text) → Event
  delayed : Event

-- The variables of the loop; and the POSTs and the events so far, the newest first, which the loop
-- does not read.
pub record Progress : Type 0 where
  pub attempt : ℕ
  pub tried : List ProviderId
  pub last_error : Option Text
  pub sent : List Sent
  pub events : List Event

pub data LoopEnd : Type 0 where
  answered : ProviderResponse → LoopEnd
  gave_up : LoopEnd

pub data ProxyOutcome : Type 0 where
  success failure : Response → ProxyOutcome

-- Of the method's policy, the loop reads the timeout, the number of attempts and whether there is a
-- backoff. What a POST with a timeout comes to at the k-th access is `upstream`.
pub record Attempt (S : Type 0) : Type 0 where
  pub chain : Chain S
  pub around : Surroundings S
  pub providers_by_id : Dict ProviderHandle
  pub ctx : RequestContext
  pub request : Json
  pub trace_id : Text
  pub policy_timeout : ℕ
  pub policy_max_retries : ℕ
  pub policy_backs_off : Bool
  pub status_text : ℕ → Text
  pub upstream : ℕ → Post → ℕ → SendResult

module _ {S : Type 0} (a : Attempt S) where
  open a use {chain, around}

  -- An access that changes the shared state.
  abbrev pub update : (ℕ → S → S) → World S → World S
  update f w = let w₁ = access around w in record w₁ { shared = f (now around w₁) w₁.shared }

  abbrev pub timeout_for : ProviderHandle → ℕ
  timeout_for provider = max provider.timeout a.policy_timeout

  -- `max_retries.max(1)`
  unfoldable pub max_attempts : ℕ
  max_attempts = max a.policy_max_retries 1

  abbrev pub sent_to : ProviderHandle → ℕ → Progress → Progress
  sent_to provider instant pr = record pr {
    tried = add provider.id pr.tried;
    sent =
        record {
          provider = provider;
          post = post_to provider a.request a.trace_id;
          timeout = timeout_for provider;
          instant = instant;
        }
        ∷ pr.sent;
    events = selected pr.attempt provider.id ∷ pr.events;
  }

  abbrev pub succeeded_with : ProviderHandle → Progress → Progress
  succeeded_with provider pr = record pr { events = succeeded pr.attempt provider.id ∷ pr.events }

  -- A delay follows if another attempt does, and the policy has a backoff.
  abbrev pub delay_after : ℕ → List Event → List Event
  delay_after attempt events =
      if ltb (attempt + 1) max_attempts && a.policy_backs_off then delayed ∷ events else events

  abbrev pub failed_with : ProviderHandle → Text → Progress → Progress
  failed_with provider message pr = record pr {
    attempt = pr.attempt + 1;
    last_error = some message;
    events = delay_after pr.attempt (failed pr.attempt provider.id message ∷ pr.events);
  }

  abbrev pub reply_at : World S → ProviderHandle → Forwarded
  reply_at w provider =
      forward_to_provider a.status_text (a.upstream w.accesses) provider a.request a.trace_id
        (timeout_for provider)

  unfoldable pub attempt_loop : ℕ → Progress → World S → LoopEnd × Progress × World S
  attempt_loop zero pr w = (gave_up, pr, w)
  attempt_loop (suc left) pr w =
      let (chosen, w₁) = select_provider chain around a.providers_by_id a.ctx pr.tried w in
      elim chosen [
        | none ↦ (gave_up, pr, w₁)
        | some provider ↦
            let w₂ = update (λ t. chain.on_request_start t provider.id) w₁ in
            let pr₁ = sent_to provider w₂.accesses pr in
            let go_on = λ (message : Text).
              attempt_loop left (failed_with provider message pr₁)
                (update (λ t. chain.on_failure t provider.id) w₂) in
            elim (reply_at w₂ provider) [
              | ok response ↦ (
                answered response,
                succeeded_with provider pr₁,
                update (λ t. chain.on_success provider.id) w₂,
              )
              | err message ↦ go_on message
            ]
      ]

  abbrev pub no_progress : Progress
  no_progress = record { attempt = 0; tried = []; last_error = none; sent = []; events = [] }

  unfoldable pub run_attempts : World S → LoopEnd × Progress × World S
  unfolding attempt_loop max_attempts
  run_attempts w = attempt_loop max_attempts no_progress w

  unfoldable pub outcome_of : LoopEnd → Progress → ProxyOutcome
  outcome_of (answered response) pr = success (build_success_response response a.trace_id)
  outcome_of gave_up pr = failure (build_error_response a.request a.trace_id pr.last_error)

  -- The handler from the resolved chain and policy on.
  unfoldable pub forward_request : World S → ProxyOutcome × World S
  unfolding run_attempts outcome_of
  forward_request w = let (end, pr, w') = run_attempts w in (outcome_of end pr, w')
