-- ===== src/Server/Handler/Delays.antt =====
-- The delays between the attempts of a request (`proxy_handler_impl` of crates/proxy-server/src/lib.rs).
use rpceth.Base.{
  ℕ, zero, suc, ◌+◌, ◌-◌, min, max, ◌≡◌, refl, sym, List, [], ◌∷◌, length, if◌then◌else◌, arith,
}
use rpceth.Server.{World}
use rpceth.Server.Handler.{
  Progress, LoopEnd, answered, gave_up, Event, selected, succeeded, failed, delayed, Attempt,
  attempt_loop, no_progress, max_attempts, run_attempts, sent_to, failed_with, delay_after,
}
use rpceth.Server.Handler.Attempts.{attempt_loop_cases}

abbrev pub delays : List Event → ℕ
delays [] = 0
delays (delayed ∷ events) = suc (delays events)
delays (selected k id ∷ events) = delays events
delays (succeeded k id ∷ events) = delays events
delays (failed k id m ∷ events) = delays events

-- Of the POSTs of a request, those that failed.
abbrev pub failures : LoopEnd → ℕ → ℕ
failures (answered response) posts = posts - 1
failures gave_up posts = posts

module _ {S : Type 0} (a : Attempt S) where
  -- The delays after `n` failed attempts.
  abbrev pub delays_after : ℕ → ℕ
  delays_after n = if a.policy_backs_off then min n (max_attempts a - 1) else 0

  abbrev Delays : Progress → Type 0
  Delays pr = (pr.attempt ≡ length pr.sent) × (delays pr.events ≡ delays_after pr.attempt)

  one_more_delay :
      (k : ℕ) (events : List Event)
      → delays events ≡ delays_after k
      → delays (delay_after a k events) ≡ delays_after (k + 1)
  one_more_delay k events h = ground arith

  attempt_loop-Delays :
      (left : ℕ) (pr : Progress) (w : World S)
      → Delays pr
      → let (end, pr', w') = attempt_loop a left pr w in
        delays pr'.events ≡ delays_after (failures end (length pr'.sent))
  unfolding attempt_loop
  attempt_loop-Delays zero pr w (k, h) = rw (← k) h
  attempt_loop-Delays (suc left) pr w (k, h) =
      attempt_loop_cases a (λ r. delays r.1.events ≡ delays_after (failures r.0 (length r.1.sent)))
        left pr w (λ w'. rw (← k) h)
        (λ p r w₂ w' chosen good.
          let less : suc pr.attempt - 1 ≡ pr.attempt = omega arith in rw (← k) (rw less h))
        (λ p m w₂ w' chosen bad.
          attempt_loop-Delays left (failed_with a p m (sent_to a p w₂.accesses pr)) w' (
            omega (arith, k),
            one_more_delay pr.attempt
                (failed pr.attempt p.id m ∷ selected pr.attempt p.id ∷ pr.events) h,
          ))

  no_delays : delays_after 0 ≡ 0
  no_delays = ground arith

  -- A request is delayed once for each of its failed POSTs but the one of its last attempt, and
  -- only if the policy has a backoff: the delays are the smaller of the number of failed POSTs and
  -- max(1, max_retries) - 1, whatever the other tasks and the providers do.
  pub run_attempts-delays :
      (w : World S)
      → let (end, pr, w') = run_attempts a w in
        delays pr.events ≡ (
          if a.policy_backs_off
          then min (failures end (length pr.sent)) (max a.policy_max_retries 1 - 1)
          else 0)
  unfolding run_attempts
  run_attempts-delays w =
      unfold max_attempts in
      attempt_loop-Delays (max_attempts a) (no_progress a) w (refl, sym no_delays)
