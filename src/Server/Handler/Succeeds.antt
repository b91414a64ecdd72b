-- ===== src/Server/Handler/Succeeds.antt =====
-- When a request succeeds (`proxy_handler_impl` of crates/proxy-server/src/lib.rs).
use rpceth.Base.{
  ℕ, zero, suc, ◌≤◌, ◌≡◌, ◌≢◌, refl, false, none, [], Member, contains, contains-add, add, same,
  same_iff, length, inl, inr, arith,
}
use rpceth.Provider.{ProviderHandle}
use rpceth.Server.{World, access, now}
use rpceth.Server.Select.{IsSelecting, select_provider}
use rpceth.Server.Select.Laws.{remaining, remaining-add-lt, remaining-le-length}
use rpceth.Server.Select.Finds.{IsReady, select_provider-IsFound}
use rpceth.Server.Forward.{ProviderResponse, ok, forward_to_provider, build_success_response}
use rpceth.Server.Handler.{
  Progress, answered, Attempt, update, sent_to, timeout_for, failed_with, reply_at, success,
  attempt_loop, no_progress, max_attempts, run_attempts, outcome_of, forward_request,
}
use rpceth.Server.Handler.Attempts.{Forwarded-cases}

module _ {S : Type 0} (a : Attempt S) (selecting : IsSelecting a.chain) (P : S → Type 0)
    (p : ProviderHandle) (ready : IsReady a.chain a.around P p) where
  open a use {chain, around}

  -- Each POST to the provider `p` is answered with a success.
  abbrev pub Answering : Type 0
  Answering =
      (k : ℕ) (q : ProviderHandle) (timeout : ℕ)
      → Member q chain.pool
      → q.id ≡ p.id
      → (r : ProviderResponse) × (forward_to_provider a.status_text (a.upstream k) q a.request
            a.trace_id timeout
          ≡ ok r)

  module _ (answering : Answering) (unnamed : a.ctx.provider_override ≡ none)
      (at : Member p chain.pool) where
    attempt_loop-answered :
        (left : ℕ) (pr : Progress) (w : World S)
        → P w.shared
        → contains pr.tried p.id ≡ false
        → remaining chain.pool pr.tried ≤ left
        → (r : ProviderResponse) × ((attempt_loop a left pr w).0 ≡ answered r)
    unfolding attempt_loop access
    attempt_loop-answered zero pr w h fresh enough =
        let untried = remaining-add-lt chain.pool p pr.tried at fresh in absurd (omega arith)
    attempt_loop-answered (suc left) pr w h fresh enough =
        let picked = select_provider chain around a.providers_by_id a.ctx pr.tried w in
        let found =
          select_provider-IsFound chain selecting around P p ready a.providers_by_id a.ctx pr.tried
            w unnamed h fresh in
        let q : ProviderHandle = found.chosen in
        let w₁ = access around picked.1 in
        let h₁ : P w₁.shared = ready.interfered picked.1.accesses picked.1.shared found.holds in
        let w₂ = update a (λ t. chain.on_request_start t q.id) picked.1 in
        let h₂ : P w₂.shared = ready.started (now around w₁) q.id w₁.shared h₁ in
        elim (Forwarded-cases (reply_at a w₂ q)) [
          | inl (r, good) ↦ (r, rw (found.result, attempt_loop) (rw (good, attempt_loop) refl))
          | inr (m, bad) ↦
              let other : q.id ≢ p.id = λ one.
                let (r, good) = answering w₂.accesses q (timeout_for a q) found.of_pool one in
                ground arith in
              let w₃ = access around w₂ in
              let h₃ : P w₃.shared = ready.interfered w₂.accesses w₂.shared h₂ in
              let w₄ = update a (λ t. chain.on_failure t q.id) w₂ in
              let h₄ : P w₄.shared = ready.failed (now around w₃) q.id w₃.shared other h₃ in
              let unlike : same q.id p.id ≡ false = ground (arith, same_iff q.id p.id) in
              let still : contains (add q.id pr.tried) p.id ≡ false =
                ground (arith, contains-add q.id p.id pr.tried) in
              let fewer = remaining-add-lt chain.pool q pr.tried found.of_pool found.fresh in
              let (r, later) =
                attempt_loop-answered left (failed_with a q m (sent_to a q w₂.accesses pr)) w₄ h₄
                  still (omega arith) in
              (r, rw (found.result, attempt_loop) (rw (bad, attempt_loop) later))
        ]

    -- x
    pub forward_request-succeeds :
        (w : World S)
        → P w.shared
        → length chain.pool ≤ max_attempts a
        → (r : ProviderResponse) × ((forward_request a w).0
            ≡ success (build_success_response r a.trace_id))
    unfolding forward_request run_attempts outcome_of contains
    forward_request-succeeds w h enough =
        let (r, e) =
          attempt_loop-answered (max_attempts a) (no_progress a) w h refl
            (omega (arith, remaining-le-length chain.pool [])) in
        (r, rw (e, outcome_of) refl)
