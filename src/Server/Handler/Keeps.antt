-- ===== src/Server/Handler/Keeps.antt =====
-- The calls of the circuit breaker that the attempts of a request make
-- (crates/proxy-server/src/lib.rs).
use rpceth.Base.{ℕ, zero, suc, List, [], ◌∷◌, Option-cases, inl, inr}
use rpceth.Provider.{ProviderId}
use rpceth.Server.{World, Surroundings}
use rpceth.Server.Select.{Chain, select_provider}
use rpceth.Server.Select.Keeps.{IsKept, access-keeps, select_provider-keeps}
use rpceth.Server.Forward.{Forwarded, ok, err, forward_to_provider}
use rpceth.Server.Handler.{
  Progress, Attempt, Sent, update, sent_to, failed_with, reply_at, attempt_loop, no_progress,
  max_attempts, run_attempts, forward_request,
}
use rpceth.Server.Handler.Attempts.{Forwarded-cases, reply_to}

-- A call of the circuit breaker.
pub data Call : Type 0 where
  start succeed fail : ProviderId → Call

-- The call that reports what a POST came to.
abbrev pub report : ProviderId → Forwarded → Call
report id (ok response) = succeed id
report id (err message) = fail id

-- What holds of the calls so far, the newest first, and the shared state: a selection and the other
-- tasks make no calls.
pub record IsFollowed {S : Type 0} (chain : Chain S) (around : Surroundings S)
    (P : List Call → S → Type 0) : Type 0 where
  pub kept : (calls : List Call) → IsKept chain around (P calls)
  pub started :
      (now : ℕ) (id : ProviderId) (calls : List Call) (s : S)
      → P calls s
      → P (start id ∷ calls) (chain.on_request_start now id s)
  pub succeeded :
      (id : ProviderId) (calls : List Call) (s : S)
      → P calls s
      → P (succeed id ∷ calls) (chain.on_success id s)
  pub failed :
      (now : ℕ) (id : ProviderId) (calls : List Call) (s : S)
      → P calls s
      → P (fail id ∷ calls) (chain.on_failure now id s)

module _ {S : Type 0} (a : Attempt S) where
  -- For each POST, its start and the report of what it came to, the newest first.
  abbrev pub calls_of : List Sent → List Call
  calls_of [] = []
  calls_of (s ∷ older) = report s.provider.id (reply_to a s) ∷ start s.provider.id ∷ calls_of older

module _ {S : Type 0} (a : Attempt S) (P : List Call → S → Type 0)
    (followed : IsFollowed a.chain a.around P) where
  open a use {chain, around}

  update-follows :
      (f : ℕ → S → S) (calls : List Call) (call : Call) (w : World S)
      → ((now : ℕ) (s : S) → P calls s → P (call ∷ calls) (f now s))
      → P calls w.shared
      → P (call ∷ calls) (update a f w).shared
  update-follows f calls call w step h =
      step _ _ (access-keeps chain around (P calls) (followed.kept calls) w h)

  attempt_loop-follows :
      (left : ℕ) (pr : Progress) (w : World S)
      → P (calls_of a pr.sent) w.shared
      → let (end, pr', w') = attempt_loop a left pr w in P (calls_of a pr'.sent) w'.shared
  unfolding attempt_loop forward_to_provider
  attempt_loop-follows zero pr w h = h
  attempt_loop-follows (suc left) pr w h =
      let calls = calls_of a pr.sent in
      let picked = select_provider chain around a.providers_by_id a.ctx pr.tried w in
      let h₁ =
        select_provider-keeps chain around (P calls) (followed.kept calls) a.providers_by_id a.ctx
          pr.tried w h in
      elim (Option-cases picked.0) [
        | inl nobody ↦ rw (nobody, attempt_loop) h₁
        | inr (p, chosen) ↦
            let w₂ = update a (λ t. chain.on_request_start t p.id) picked.1 in
            let h₂ =
              update-follows (λ t. chain.on_request_start t p.id) calls (start p.id) picked.1
                (λ t. followed.started t p.id calls) h₁ in
            elim (Forwarded-cases (reply_at a w₂ p)) [
              | inl (r, good) ↦
                  let h₃ =
                    update-follows (λ t. chain.on_success p.id) (start p.id ∷ calls) (succeed p.id)
                      w₂ (λ t. followed.succeeded p.id (start p.id ∷ calls)) h₂ in
                  let told : P (report p.id (reply_at a w₂ p) ∷ start p.id ∷ calls) _ =
                    rw good h₃ in
                  rw (chosen, attempt_loop) (rw (good, attempt_loop) told)
              | inr (m, bad) ↦
                  let h₃ =
                    update-follows (λ t. chain.on_failure t p.id) (start p.id ∷ calls) (fail p.id)
                      w₂ (λ t. followed.failed t p.id (start p.id ∷ calls)) h₂ in
                  let told : P (report p.id (reply_at a w₂ p) ∷ start p.id ∷ calls) _ = rw bad h₃ in
                  rw (chosen, attempt_loop)
                    (rw (bad, attempt_loop)
                      (attempt_loop-follows left (failed_with a p m (sent_to a p w₂.accesses pr)) _
                        told))
            ]
      ]

  -- What follows the calls of the circuit breaker holds after a request of the calls for its POSTs.
  pub forward_request-follows :
      (w : World S)
      → P [] w.shared
      → P (calls_of a (run_attempts a w).1.sent) (forward_request a w).1.shared
  unfolding forward_request run_attempts
  forward_request-follows w h = attempt_loop-follows (max_attempts a) (no_progress a) w h
