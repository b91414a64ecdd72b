-- ===== src/Health/Range.antt =====
-- The range of the scores of crates/proxy-core/src/health/service.rs.
use rpceth.Base.{
  ℕ, ◌≡◌, true, List, [], ◌∷◌, Dict, AllValues, AllValues-insert, AllValues-modify, Bool-cases, inl,
  inr, arith,
}
use rpceth.Provider.{ProviderHandle}
use rpceth.Float.{IsBetween, Float, IsIeee, IsNumber, IsNonNegative, as_secs_f64}
use rpceth.Float.Laws.{
  clamp_bounds, scaled_bounds, add_nonneg, mul_nonneg, zero-IsNumber, one-IsNumber, add_bounds,
  lit1-IsPositive, lit2-IsPositive, lit3-IsPositive, lit4-IsPositive, decay-IsPositive,
  thousand-IsPositive, two_thousand-IsPositive, billion-IsPositive,
}
use rpceth.Health.{
  ProviderHealthState, HealthService, ProbeSuccess, ProbeResult, ok, err, new_state,
  smoothed_latency, apply_success_state, apply_failure_state, latency_score, score, new_from,
  apply_success, apply_failure, apply_result,
}

module _ (fl : Float) (ieee : IsIeee fl) where
  open fl use {F, le, add, sub, mul, div, of_nat, lit}

  pub record IsSound (s : ProviderHealthState F) : Type 0 where
    latency : IsNonNegative fl s.latency_avg
    success_low : IsNonNegative fl s.success_rate
    success_high : le s.success_rate (of_nat 1) ≡ true
    sync : IsNumber fl s.sync_score
    method_support : IsNumber fl s.method_support_score

  -- What a probe reports of method support is a number, not NaN.
  abbrev pub IsReported : ProbeResult F → Type 0
  IsReported (ok success) = IsNumber fl success.method_support_score
  IsReported (err failure) = Unit

  new_state-IsSound : (p : ProviderHandle) → IsSound (new_state fl p)
  unfolding new_state
  new_state-IsSound p = record {
    latency = zero-IsNumber fl ieee;
    success_low = ieee.zero-le-one;
    success_high = one-IsNumber fl ieee;
    sync = one-IsNumber fl ieee;
    method_support = one-IsNumber fl ieee;
  }

  as_secs-nonneg : (d : ℕ) → IsNonNegative fl (as_secs_f64 fl d)
  unfolding as_secs_f64
  as_secs-nonneg d =
      let (finite, positive) = billion-IsPositive fl ieee in
      add_nonneg fl ieee _ _ (ieee.of_nat_nonneg _)
        (ieee.div_nonneg _ _ (ieee.of_nat_finite _ (omega arith)) (ieee.of_nat_nonneg _) positive)

  smoothed_latency-nonneg :
      (avg ms : F)
      → IsNonNegative fl avg
      → IsNonNegative fl ms
      → IsNonNegative fl (smoothed_latency fl avg ms)
  unfolding smoothed_latency
  smoothed_latency-nonneg avg ms p q =
      let old : IsNonNegative fl (mul (sub (of_nat 1) (lit 3 1)) avg) =
        rw (ieee.mul_comm (sub (of_nat 1) (lit 3 1)) avg)
          (mul_nonneg fl ieee avg _ (decay-IsPositive fl ieee) p) in
      let fresh : IsNonNegative fl (mul (lit 3 1) ms) =
        rw (ieee.mul_comm (lit 3 1) ms) (mul_nonneg fl ieee ms _ (lit3-IsPositive fl ieee) q) in
      ground (arith, add_nonneg fl ieee _ _ old fresh)

  -- The success rate after a success is at most (1 - alpha) + alpha.
  smoothed_success_bounds :
      (rate : F)
      → IsBetween fl rate (of_nat 1)
      → IsBetween fl (add (mul (sub (of_nat 1) (lit 3 1)) rate) (lit 3 1)) (of_nat 1)
  smoothed_success_bounds rate (low, high) =
      let plus = add_bounds fl ieee (mul rate (sub (of_nat 1) (lit 3 1))) (lit 3 1) _ (lit 3 1) in
      let decayed = scaled_bounds fl ieee rate _ (decay-IsPositive fl ieee) low high in
      let (finite, positive) = lit3-IsPositive fl ieee in
      let number = ieee.number_of_finite (lit 3 1) finite in
      let order = ieee.lt-eq-not-le (of_nat 0) (lit 3 1) (zero-IsNumber fl ieee) number in
      let total = ieee.le_total (of_nat 0) (lit 3 1) (zero-IsNumber fl ieee) number in
      let (sum_low, sum_high) = plus decayed (ground arith, number) in
      rw (ieee.mul_comm (sub (of_nat 1) (lit 3 1)) rate)
        (sum_low, ieee.le_trans _ _ _ sum_high ieee.smoothing_weights)

  apply_success_state-IsSound :
      (now : ℕ) (r : ProbeSuccess F) (s : ProviderHealthState F)
      → IsNumber fl r.method_support_score
      → IsSound s
      → IsSound (apply_success_state fl now r s)
  unfolding apply_success_state
  apply_success_state-IsSound now r s n v =
      let rate = smoothed_success_bounds s.success_rate (v.success_low, v.success_high) in
      record {
        latency =
            smoothed_latency-nonneg s.latency_avg _ v.latency
              (mul_nonneg fl ieee _ _ (thousand-IsPositive fl ieee) (as_secs-nonneg r.latency));
        success_low = rate.0;
        success_high = rate.1;
        sync = one-IsNumber fl ieee;
        method_support = n;
      }

  apply_failure_state-IsSound :
      (now : ℕ) (s : ProviderHealthState F) → IsSound s → IsSound (apply_failure_state fl now s)
  unfolding apply_failure_state
  apply_failure_state-IsSound now s v =
      let (low, high) =
        scaled_bounds fl ieee s.success_rate _ (decay-IsPositive fl ieee) v.success_low
          v.success_high in
      record {
        latency = v.latency;
        success_low = low;
        success_high = ieee.le_trans _ _ _ high ieee.decay-le-one;
        sync = v.sync;
        method_support = v.method_support;
      }

  latency_score_bounds :
      (avg : F) → IsNonNegative fl avg → IsBetween fl (latency_score fl avg) (of_nat 1)
  unfolding latency_score
  latency_score_bounds avg p =
      let number : IsNumber fl avg = (ieee.refl_of_le _ _ p).1 in
      let order = ieee.lt-eq-not-le (of_nat 0) avg (zero-IsNumber fl ieee) number in
      let (finite, positive) = two_thousand-IsPositive fl ieee in
      elim (Bool-cases (le avg (of_nat 0))) [
        | inl none_yet ↦ rw none_yet (ieee.zero-le-one, one-IsNumber fl ieee)
        | inr measured ↦ rw measured (
            clamp_bounds fl ieee (div (of_nat 2_000) avg)
              (ieee.refl_of_le _ _ (
                ieee.div_nonneg (of_nat 2_000) avg finite (ieee.of_nat_nonneg _) (ground arith))).1)
      ]

  score_bounds : (s : ProviderHealthState F) → IsSound s → IsBetween fl (score fl s) (of_nat 1)
  unfolding score
  score_bounds s v =
      let weigh = scaled_bounds fl ieee in
      let (l0, l1) = latency_score_bounds s.latency_avg v.latency in
      let (y0, y1) = clamp_bounds fl ieee s.sync_score v.sync in
      let (r0, r1) = clamp_bounds fl ieee s.success_rate (ieee.refl_of_le _ _ v.success_low).1 in
      let (m0, m1) = clamp_bounds fl ieee s.method_support_score v.method_support in
      let plus = add_bounds fl ieee in
      let (low, high) =
        plus _ _ _ _
          (plus _ _ _ _
            (plus _ _ _ _ (weigh _ _ (lit4-IsPositive fl ieee) y0 y1)
              (weigh _ _ (lit3-IsPositive fl ieee) l0 l1))
            (weigh _ _ (lit2-IsPositive fl ieee) r0 r1))
          (weigh _ _ (lit1-IsPositive fl ieee) m0 m1) in
      (low, ieee.le_trans _ _ _ high ieee.score_weights)

  pub new_from-IsSound :
      (ps : List ProviderHandle) (state : Dict (ProviderHealthState F))
      → AllValues IsSound state
      → AllValues IsSound (new_from fl ps state)
  unfolding new_from
  new_from-IsSound [] state h = h
  new_from-IsSound (p ∷ ps) state h =
      new_from-IsSound ps _ (AllValues-insert IsSound p.id _ state (new_state-IsSound p) h)

  pub apply_result-IsSound :
      (now : ℕ) (r : ProbeResult F) (h : HealthService F)
      → IsReported r
      → AllValues IsSound h.state
      → AllValues IsSound (apply_result fl now r h).state
  unfolding apply_result apply_success apply_failure
  apply_result-IsSound now (ok success) h n v =
      AllValues-modify IsSound success.provider _ h.state
        (λ s. apply_success_state-IsSound now success s n) v
  apply_result-IsSound now (err failure) h n v =
      AllValues-modify IsSound failure.provider _ h.state (apply_failure_state-IsSound now) v

  -- The states of a service, from its start through any probe results in any order.
  abbrev pub HasScores : HealthService F → Type 0
  HasScores h = AllValues (λ s. IsBetween fl (score fl s) (of_nat 1)) h.state

  pub IsSound-HasScores :
      (m : Dict (ProviderHealthState F))
      → AllValues IsSound m
      → AllValues (λ s. IsBetween fl (score fl s) (of_nat 1)) m
  IsSound-HasScores [] h = tt
  IsSound-HasScores (e ∷ m) (v, h) = (score_bounds e.1 v, IsSound-HasScores m h)
