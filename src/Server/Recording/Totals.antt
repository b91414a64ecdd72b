-- ===== src/Server/Recording/Totals.antt =====
-- The counters of a whole request of crates/proxy-server/src/lib.rs.
use rpceth.Base.{ℕ, zero, suc, ◌+◌, refl, Text, List, [], Bool-cases, inl, inr, ltb, ◌&&◌, length}
use rpceth.Provider.{ProviderHandle}
use rpceth.Float.{Float}
use rpceth.Server.{World}
use rpceth.Server.Handler.{
  Progress, Event, Attempt, attempt_loop, no_progress, max_attempts, run_attempts, sent_to,
  failed_with, delay_after,
}
use rpceth.Server.Handler.Attempts.{attempt_loop_cases}
use rpceth.Server.Runtime.{ChainKey}
use rpceth.Server.Recording.{Timing, request_metrics, recorded}
use rpceth.Server.Recording.Counts.{Tells, Tells-failed, Tells-delayed, Ends, Ends-Counts, Counts}

module _ {S : Type 0} (a : Attempt S) (fl : Float) (method : Text) (chain : ChainKey)
    (timing : ℕ → Timing) where
  abbrev Told : ℕ → List Event → Type 0
  Told = Tells fl method chain timing

  delay_after-Tells :
      (n k : ℕ) (events : List Event) → Told n events → Told n (delay_after a k events)
  delay_after-Tells n k events t =
      elim (Bool-cases (ltb (k + 1) (max_attempts a) && a.policy_backs_off)) [
        | inl waits ↦ rw waits (Tells-delayed fl method chain timing n events t)
        | inr goes_on ↦ rw goes_on t
      ]

  failed_with-Tells :
      (pr : Progress) (p : ProviderHandle) (m : Text) (n : ℕ)
      → Told (length pr.sent) pr.events
      → Told (suc (length pr.sent)) (failed_with a p m (sent_to a p n pr)).events
  failed_with-Tells pr p m n t =
      delay_after-Tells _ pr.attempt _
        (Tells-failed fl method chain timing (length pr.sent) pr.attempt p.id m pr.events t)

  attempt_loop-Ends :
      (left : ℕ) (pr : Progress) (w : World S)
      → Told (length pr.sent) pr.events
      → let (end, pr', w') = attempt_loop a left pr w in
        Ends fl method chain timing end (length pr'.sent) pr'.events
  unfolding attempt_loop
  attempt_loop-Ends zero pr w t = t
  attempt_loop-Ends (suc left) pr w t =
      attempt_loop_cases a (λ r. Ends fl method chain timing r.0 (length r.1.sent) r.1.events) left
        pr w (λ w'. t)
        (λ p r w₂ w' chosen good. (length pr.sent, pr.attempt, p.id, pr.events, refl, refl, t))
        (λ p m w₂ w' chosen bad.
          attempt_loop-Ends left (failed_with a p m (sent_to a p w₂.accesses pr)) w'
            (failed_with-Tells pr p m w₂.accesses t))

  no_progress-Tells : Told 0 []
  unfolding recorded
  no_progress-Tells = record {
    requests = refl;
    completions = refl;
    selections = refl;
    errors = refl;
    volume = refl;
  }

  -- What the counters say of a request, on any chain and whatever the other tasks and the
  -- providers do, if it ends after n POSTs: `rpc_requests_total` says `started`, then, if a
  -- provider answered, n - 1 times `failure` and `success`, and otherwise n + 1 times `failure`;
  -- `rpc_request_completions_total` says `success` or `failure` once;
  -- `rpc_provider_selections_total` is n, `rpc_errors_total` is n - 1 or n + 1, and
  -- `rpc_request_volume_total` is 1.
  pub request_metrics-Counts :
      (w : World S)
      → let (end, pr, w') = run_attempts a w in
        Counts fl method chain timing end
          (length pr.sent)
          (request_metrics fl method chain timing end pr.events)
  unfolding run_attempts
  request_metrics-Counts w =
      let (end, pr, w') = run_attempts a w in
      Ends-Counts fl method chain timing end (length pr.sent) pr.events
        (attempt_loop-Ends (max_attempts a) (no_progress a) w no_progress-Tells)
