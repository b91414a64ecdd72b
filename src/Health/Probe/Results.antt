-- ===== src/Health/Probe/Results.antt =====
-- What the probes of crates/proxy-core/src/health/probe.rs make of the health service that applies
-- their results.
use rpceth.Base.{
  ℕ, ◌^◌, ◌<◌, ◌≡◌, refl, ap, ◌∙◌, Bool, true, false, ◌&&◌, Option, some, [], Text, get, get-modify,
  same_self, unwrap_or, inl, inr, arith,
}
use rpceth.Provider.{ProviderId, ProviderHandle}
use rpceth.Json.{Json}
use rpceth.Http.{is_success}
use rpceth.Float.{Float, IsIeee, one_f}
use rpceth.Float.Laws.{one-IsNumber}
use rpceth.Health.{
  ProviderHealthState, HealthService, ProbeSuccess, ProbeFailureKind, ProbeResult, ok, err,
  apply_success, apply_failure, apply_success_state, apply_failure_state, apply_result,
}
use rpceth.Health.Range.{IsReported}
use rpceth.Health.Probe.{Reply, unreachable, replied, ask, conclude, chain_id_req, block_req, probe}
use rpceth.Health.Probe.Hex.{encode_quantity, quantity-encode_quantity}

-- A successful status with a body that is a JSON-RPC response.
abbrev pub answered : Reply → Bool
answered (unreachable message) = false
answered (replied status (inl message)) = false
answered (replied status (inr result)) = is_success status

-- A task that a tick of the service started: its provider, its clock and what its POSTs come to.
pub record Run : Type 0 where
  pub now : ℕ
  pub provider : ProviderHandle
  pub elapsed : ℕ → ℕ
  pub post : Text → Json → Reply

ask-inr :
    (id : ProviderId) (elapsed : ℕ → ℕ) (at status : ℕ) (result : Option Text)
    → is_success status ≡ true
    → ask id elapsed at (replied status (inr result)) ≡ inr (unwrap_or [] result)
unfolding ask
ask-inr id elapsed at status result good = rw good

module _ (fl : Float) where
  open fl use {F}

  abbrev pub is_ok : ProbeResult F → Bool
  is_ok (ok success) = true
  is_ok (err failure) = false

  abbrev pub reported_by : ProbeResult F → ProviderId
  reported_by (ok success) = success.provider
  reported_by (err failure) = failure.provider

  abbrev pub result_of : Run → ℕ × ProbeResult F
  result_of r = (r.now, probe fl r.provider r.elapsed r.post)

  conclude_lem :
      (p : ProviderHandle) (elapsed : ℕ → ℕ) (c b : Reply)
      → (is_ok (conclude fl p elapsed c b) ≡ (answered c && answered b))
        × (reported_by (conclude fl p elapsed c b) ≡ p.id)
  unfolding conclude ask
  conclude_lem p elapsed (unreachable m) b = (refl, refl)
  conclude_lem p elapsed (replied status (inl m)) b = ground arith
  conclude_lem p elapsed (replied status (inr result)) (unreachable m) = ground arith
  conclude_lem p elapsed (replied status (inr result)) (replied status' (inl m)) = ground arith
  conclude_lem p elapsed (replied status (inr result)) (replied status' (inr result')) =
      ground arith

  -- A probe succeeds if and only if both of its requests, eth_chainId and eth_blockNumber, are
  -- answered with a status of success and a JSON-RPC body, whatever the result in it; and its
  -- report, good or bad, is about the provider that it probed.
  pub probe_lem :
      (p : ProviderHandle) (elapsed : ℕ → ℕ) (post : Text → Json → Reply)
      → let result = probe fl p elapsed post in
        (is_ok result ≡ (answered (post p.url chain_id_req) && answered (post p.url block_req)))
        × (reported_by result ≡ p.id)
  unfolding probe
  probe_lem p elapsed post = conclude_lem p elapsed (post p.url chain_id_req) (post p.url block_req)

  conclude-full :
      (p : ProviderHandle) (elapsed : ℕ → ℕ) (c b : Reply) (success : ProbeSuccess F)
      → conclude fl p elapsed c b ≡ ok success
      → success.method_support_score ≡ one_f fl
  unfolding conclude ask
  conclude-full p elapsed (unreachable m) b success e = ground arith
  conclude-full p elapsed (replied status (inl m)) b success e = ground arith
  conclude-full p elapsed (replied status (inr result)) (unreachable m) success e = ground arith
  conclude-full p elapsed (replied status (inr result)) (replied status' (inl m)) success e =
      ground arith
  conclude-full p elapsed (replied status (inr result)) (replied status' (inr result')) success e =
      ground arith

  state_after :
      (now : ℕ) (h : HealthService F) (s : ProviderHealthState F) (success : ProbeSuccess F)
      → get success.provider h.state ≡ some s
      → get success.provider (apply_success fl now success h).state
        ≡ some (apply_success_state fl now success s)
  unfolding apply_success
  state_after now h s success known =
      get-modify success.provider success.provider (apply_success_state fl now success) h.state
      ∙ rw (same_self success.provider, known)

  -- If a node answers eth_chainId and eth_blockNumber with 64-bit quantities, then after its probe
  -- the health service has these numbers as the chain id and the latest block of its provider, the
  -- time of the probe, and no consecutive failures, if the service knows the provider.
  pub apply_result-probe :
      (now : ℕ) (p : ProviderHandle) (elapsed : ℕ → ℕ) (post : Text → Json → Reply)
      (status status' c b : ℕ) (h : HealthService F) (s : ProviderHealthState F)
      → post p.url chain_id_req ≡ replied status (inr (some (encode_quantity c)))
      → post p.url block_req ≡ replied status' (inr (some (encode_quantity b)))
      → is_success status ≡ true
      → is_success status' ≡ true
      → c < 2 ^ 64
      → b < 2 ^ 64
      → get p.id h.state ≡ some s
      → (s' : ProviderHealthState F) × (get p.id
            (apply_result fl now (probe fl p elapsed post) h).state
          ≡ some s')
        × (s'.chain_id ≡ some c)
        × (s'.latest_block ≡ some b)
        × (s'.last_updated ≡ some now)
        × (s'.consecutive_failures ≡ 0)
  unfolding probe conclude apply_result apply_success_state
  apply_result-probe now p elapsed post status status' c b h s first second good good' fits fits'
        known =
      let asked = ask-inr p.id elapsed 0 status (some (encode_quantity c)) good in
      let asked' = ask-inr p.id elapsed 3 status' (some (encode_quantity b)) good' in
      rw (probe, first, conclude, asked, second, asked')
        (
          _,
          state_after now h s _ known,
          ap some (quantity-encode_quantity c fits),
          ap some (quantity-encode_quantity b fits'),
          refl,
          refl,
        )

  failed :
      (r : ProbeResult F)
      → is_ok r ≡ false
      → (failure : ProbeFailureKind) × (r ≡ err failure) × (failure.provider ≡ reported_by r)
  failed (ok success) e = ground arith
  failed (err failure) e = (failure, refl, refl)

  -- If one of a probe's two requests is not answered with a status of success and a JSON-RPC body,
  -- then the health service counts one failure for its provider, if the service knows the
  -- provider.
  apply_result-failed_probe :
      (now : ℕ) (p : ProviderHandle) (elapsed : ℕ → ℕ) (post : Text → Json → Reply)
      (h : HealthService F) (s : ProviderHealthState F)
      → (answered (post p.url chain_id_req) && answered (post p.url block_req)) ≡ false
      → get p.id h.state ≡ some s
      → get p.id (apply_result fl now (probe fl p elapsed post) h).state
        ≡ some (apply_failure_state fl now s)
  unfolding apply_result apply_failure
  apply_result-failed_probe now p elapsed post h s bad known =
      let (verdict, name) = probe_lem p elapsed post in
      let (failure, e, same_id) = failed (probe fl p elapsed post) (verdict ∙ bad) in
      rw (e, same_id ∙ name)
        (get-modify p.id p.id (apply_failure_state fl now) h.state ∙ rw (same_self p.id, known))

  module _ (ieee : IsIeee fl) where
    ok-IsReported :
        (r : ProbeResult F)
        → ((success : ProbeSuccess F) → r ≡ ok success → success.method_support_score ≡ one_f fl)
        → IsReported fl ieee r
    ok-IsReported (ok success) full = rw (full success refl) (one-IsNumber fl ieee)
    ok-IsReported (err failure) full = tt

    pub probe-IsReported :
        (p : ProviderHandle) (elapsed : ℕ → ℕ) (post : Text → Json → Reply)
        → IsReported fl ieee (probe fl p elapsed post)
    unfolding probe
    probe-IsReported p elapsed post = ok-IsReported _ (conclude-full p elapsed _ _)
