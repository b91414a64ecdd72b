-- ===== src/Server/Handler/Attempts.antt =====
-- The attempts of one request (`proxy_handler_impl` of crates/proxy-server/src/lib.rs).
use rpceth.Base.{
  AllDistinct, ℕ, zero, suc, ◌+◌, ◌≤◌, max, ◌≡◌, refl, sym, ◌∙◌, true, Option, none, some, List, [],
  ◌∷◌, Text, codes, map, All, length, contains, contains-add, Option-cases, ◌⊎◌, inl, inr, arith,
}
use rpceth.Provider.{ProviderId, ProviderHandle}
use rpceth.Json.{Json}
use rpceth.Server.{World}
use rpceth.Server.Select.{IsSelecting, select_provider}
use rpceth.Server.Select.Laws.{IsKeyed, select_provider_sound}
use rpceth.Server.Forward.{
  SendResult, timed_out, send_failed, bytes, read_failed, ProviderResponse, Forwarded, ok, err, raw,
  forward_to_provider, receive, post_to, json, error_payload, build_success_response,
  build_error_response,
}
use rpceth.Http.{is_success}
use rpceth.Server.Handler.{
  Progress, LoopEnd, answered, gave_up, Attempt, Sent, Event, update, sent_to, succeeded_with,
  failed_with, reply_at, ProxyOutcome, success, failure, attempt_loop, no_progress, run_attempts,
  outcome_of, forward_request,
}

-- A POST of the client's body, unchanged, to the provider's URL, as JSON and with the trace id; its
-- timeout is the larger of the provider's and the policy's.
abbrev pub IsRelayed : Json → Text → ℕ → Sent → Type 0
IsRelayed body trace_id timeout s =
    (s.post.url ≡ s.provider.url)
    × (s.post.body ≡ body)
    × (s.post.headers
        ≡ (codes "content-type", codes "application/json") ∷ (codes "x-xray-id", trace_id) ∷ [])
    × (s.timeout ≡ max s.provider.timeout timeout)

abbrev pub ids : List Sent → List ProviderId
ids = map λ s. s.provider.id

pub Forwarded-cases :
    (f : Forwarded) → ((r : ProviderResponse) × (f ≡ ok r)) ⊎ ((m : Text) × (f ≡ err m))
Forwarded-cases (ok r) = inl (r, refl)
Forwarded-cases (err m) = inr (m, refl)

module _ {S : Type 0} (a : Attempt S) where
  open a use {chain, around}

  -- What holds in each of the three ways out of a round holds of the loop.
  pub attempt_loop_cases {ℓ} :
      (P : LoopEnd × Progress × World S → Type ℓ) (left : ℕ) (pr : Progress) (w : World S)
      → ((w' : World S) → P (gave_up, pr, w'))
      → ((p : ProviderHandle) (r : ProviderResponse) (w₂ w' : World S)
          → (select_provider chain around a.providers_by_id a.ctx pr.tried w).0 ≡ some p
          → reply_at a w₂ p ≡ ok r
          → P (answered r, succeeded_with a p (sent_to a p w₂.accesses pr), w'))
      → ((p : ProviderHandle) (m : Text) (w₂ w' : World S)
          → (select_provider chain around a.providers_by_id a.ctx pr.tried w).0 ≡ some p
          → reply_at a w₂ p ≡ err m
          → P (attempt_loop a left (failed_with a p m (sent_to a p w₂.accesses pr)) w'))
      → P (attempt_loop a (suc left) pr w)
  unfolding attempt_loop
  attempt_loop_cases P left pr w stopped won lost =
      let picked = select_provider chain around a.providers_by_id a.ctx pr.tried w in
      elim (Option-cases picked.0) [
        | inl nobody ↦ rw (nobody, attempt_loop) (stopped picked.1)
        | inr (p, chosen) ↦
            let w₂ = update a (λ t. chain.on_request_start t p.id) picked.1 in
            elim (Forwarded-cases (reply_at a w₂ p)) [
              | inl (r, good) ↦
                  rw (chosen, attempt_loop) (rw (good, attempt_loop) (won p r w₂ _ chosen good))
              | inr (m, bad) ↦
                  rw (chosen, attempt_loop) (rw (bad, attempt_loop) (lost p m w₂ _ chosen bad))
            ]
      ]

  -- What holds of the requests sent so far.
  pub record IsOrderly (pr : Progress) : Type 0 where
    pub distinct : AllDistinct (ids pr.sent)
    pub tracked : (id : ProviderId) → contains pr.tried id ≡ contains (ids pr.sent) id
    pub of_chain : All (λ s. contains chain.providers s.provider.id ≡ true) pr.sent
    pub posted : All (IsRelayed a.request a.trace_id a.policy_timeout) pr.sent

  no_progress-IsOrderly : IsOrderly (no_progress a)
  unfolding contains
  no_progress-IsOrderly = record { distinct = tt; tracked = λ id. refl; of_chain = tt; posted = tt }

  module _ (selecting : IsSelecting chain) (keyed : IsKeyed a.providers_by_id) where
    sent_to-IsOrderly :
        (pr : Progress) (w : World S) (p : ProviderHandle) (e : Option Text) (k n : ℕ)
        (events : List Event)
        → (select_provider chain around a.providers_by_id a.ctx pr.tried w).0 ≡ some p
        → IsOrderly pr
        → IsOrderly (record (sent_to a p n pr) { last_error = e; attempt = k; events = events })
    unfolding contains post_to
    sent_to-IsOrderly pr w p e k n events chosen v =
        let u =
          select_provider_sound chain selecting around a.providers_by_id a.ctx pr.tried w p keyed
            chosen in
        record {
          distinct = (sym (v.tracked p.id) ∙ u.untried, v.distinct);
          tracked = λ id. ground (arith, contains-add p.id id pr.tried, v.tracked id);
          of_chain = (u.of_chain, v.of_chain);
          posted = ((refl, refl, refl, refl), v.posted);
        }

    attempt_loop-IsOrderly :
        (left : ℕ) (pr : Progress) (w : World S)
        → IsOrderly pr
        → let pr' = (attempt_loop a left pr w).1 in
          IsOrderly pr' × (length pr'.sent ≤ length pr.sent + left)
    unfolding attempt_loop
    attempt_loop-IsOrderly zero pr w v = (v, omega arith)
    attempt_loop-IsOrderly (suc left) pr w v =
        attempt_loop_cases (λ r. IsOrderly r.1 × (length r.1.sent ≤ length pr.sent + suc left)) left
          pr w (λ w'. (v, omega arith))
          (λ p r w₂ w' chosen good.
            (sent_to-IsOrderly pr w p _ _ w₂.accesses _ chosen v, omega arith))
          (λ p m w₂ w' chosen bad.
            let next = failed_with a p m (sent_to a p w₂.accesses pr) in
            let (later, few) =
              attempt_loop-IsOrderly left next w'
                (sent_to-IsOrderly pr w p _ _ w₂.accesses _ chosen v) in
            (later, omega arith))

    -- A request sends at most `max_attempts` POSTs, each to another provider of the chain, with
    -- the larger of the provider's and the policy's timeout, whatever the other tasks and the
    -- providers do, if the chain selects as `IsSelecting` says and the table is keyed by id.
    pub run_attempts-IsOrderly :
        (w : World S)
        → let sent = (run_attempts a w).1.sent in
          (length sent ≤ max a.policy_max_retries 1)
          × AllDistinct (ids sent)
          × All (λ s. contains chain.providers s.provider.id ≡ true) sent
          × All (IsRelayed a.request a.trace_id a.policy_timeout) sent
    unfolding run_attempts
    run_attempts-IsOrderly w =
        let (v, few) =
          attempt_loop-IsOrderly (max a.policy_max_retries 1) (no_progress a) w
            no_progress-IsOrderly in
        (omega arith, v.distinct, v.of_chain, v.posted)

  -- What a POST came to, at the access at which it was sent.
  abbrev pub reply_to : Sent → Forwarded
  reply_to s = receive a.status_text (a.upstream s.instant s.post s.timeout)

  -- Each of these POSTs came to an error.
  abbrev pub AllFailed : List Sent → Type 0
  AllFailed = All λ s. (m : Text) × (reply_to s ≡ err m)

  -- The error that the newest POST came to, if there is one.
  abbrev pub LastError : Progress → Type 0
  LastError pr =
      ((pr.sent ≡ []) × (pr.last_error ≡ none))
      ⊎ ((newest : Sent) × (older : List Sent) × (m : Text) × (pr.sent ≡ newest ∷ older)
          × (reply_to newest ≡ err m)
          × (pr.last_error ≡ some m))

  -- How the loop ends: an answer is what the newest POST came to, and the others have failed;
  -- otherwise all have failed, and the last error is that of the newest, if there is one.
  abbrev pub Ends : LoopEnd → Progress → Type 0
  Ends (answered r) pr =
      (newest : Sent) × (older : List Sent) × (pr.sent ≡ newest ∷ older)
      × (reply_to newest ≡ ok r)
      × AllFailed older
  Ends gave_up pr = AllFailed pr.sent × LastError pr

  attempt_loop-Ends :
      (left : ℕ) (pr : Progress) (w : World S)
      → Ends gave_up pr
      → let (end, pr', w') = attempt_loop a left pr w in Ends end pr'
  unfolding attempt_loop forward_to_provider
  attempt_loop-Ends zero pr w h = h
  attempt_loop-Ends (suc left) pr w (failed, last) =
      attempt_loop_cases (λ r. Ends r.0 r.1) left pr w (λ w'. (failed, last))
        (λ p r w₂ w' chosen good. (_, pr.sent, refl, good, failed))
        (λ p m w₂ w' chosen bad.
          attempt_loop-Ends left (failed_with a p m (sent_to a p w₂.accesses pr)) w'
            (((m, bad), failed), inr (_, pr.sent, m, refl, bad, refl)))

  -- The response to a request: a success is what the newest POST came to, and the others have
  -- failed; if there is none, all POSTs have failed, and the failure tells the error of the newest.
  abbrev pub Answers : Progress → ProxyOutcome → Type 0
  Answers pr (success response) =
      (newest : Sent) × (older : List Sent) × (r : ProviderResponse) × (pr.sent ≡ newest ∷ older)
      × (reply_to newest ≡ ok r)
      × AllFailed older
      × (is_success r.status ≡ true)
      × (response.status ≡ r.status)
      × (response.body ≡ raw r.body)
  Answers pr (failure response) =
      AllFailed pr.sent
      × (response.status ≡ 502)
      × (((pr.sent ≡ [])
            × (response.body
                ≡ json (error_payload a.request (codes "-32001") (codes "all providers failed"))))
          ⊎ ((newest : Sent) × (older : List Sent) × (m : Text) × (pr.sent ≡ newest ∷ older)
              × (reply_to newest ≡ err m)
              × (response.body ≡ json (error_payload a.request (codes "-32001") m))))

  receive-ok :
      (s : SendResult) (r : ProviderResponse)
      → receive a.status_text s ≡ ok r
      → is_success r.status ≡ true
  unfolding receive
  receive-ok timed_out r e = cc
  receive-ok (send_failed m) r e = cc
  receive-ok (SendResult.answered status headers (read_failed m)) r e = ground arith
  receive-ok (SendResult.answered status headers (bytes body)) r e = ground arith

  outcome_of-Answers :
      (end : LoopEnd) (pr : Progress) → Ends end pr → Answers pr (outcome_of a end pr)
  unfolding outcome_of build_success_response build_error_response
  outcome_of-Answers (answered r) pr (newest, older, sent, good, failed) =
      (newest, older, r, sent, good, failed, receive-ok _ r good, refl, refl)
  outcome_of-Answers gave_up pr (failed, inl (none_sent, silent)) =
      (failed, refl, inl (none_sent, rw silent refl))
  outcome_of-Answers gave_up pr (failed, inr (newest, older, m, sent, bad, told)) =
      (failed, refl, inr (newest, older, m, sent, bad, rw told refl))

  -- The response to a request, once its chain and policy are known, by what its POSTs came to,
  -- each at its time: a success has the status, one of success, and the body of the answer to the
  -- newest POST, and all POSTs before it failed; a failure means that all POSTs failed, and has
  -- the status 502 and the error message of the newest POST or, if none was sent, "all providers
  -- failed". Any behaviour of the other tasks and of the providers is allowed.
  pub forward_request-Answers : (w : World S) → Answers (run_attempts a w).1 (forward_request a w).0
  unfolding forward_request run_attempts
  forward_request-Answers w =
      outcome_of-Answers _ _
        (attempt_loop-Ends (max a.policy_max_retries 1) (no_progress a) w (tt, inl (refl, refl)))
