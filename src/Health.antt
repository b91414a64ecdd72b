-- ===== src/Health.antt =====
-- crates/proxy-core/src/health/model.rs and health/service.rs. The `DashMap` of states is a
-- dictionary; `Instant::now()` is an argument. A probe, which does the network calls, is the
-- `HealthProbe` of the program: what it returns is an argument of a round.
pub mod Range
pub mod Probe
pub mod Filter
use rpceth.Base.{
  ℕ, ◌+◌, ◌%◌, ◌^◌, Bool, true, Option, none, some, List, [], ◌∷◌, map, Text, Dict, insert, modify,
  filter, if◌then◌else◌,
}
use rpceth.Settings.{ToleranceLevel, strict, balanced, relaxed}
use rpceth.Provider.{ProviderId, ProviderHandle}
use rpceth.Float.{Float, zero_f, one_f, is_zero, clamp, as_secs_f64}

pub record ProviderHealthSnapshot (F : Type 0) : Type 0 where
  pub provider : ProviderId
  pub score : F
  pub sync_score : F
  pub latency_score : F
  pub success_score : F
  pub method_support_score : F
  pub latest_block : Option ℕ
  pub chain_id : Option ℕ
  pub last_updated : Option ℕ
  pub consecutive_failures : ℕ

pub record ProbeSuccess (F : Type 0) : Type 0 where
  pub provider : ProviderId
  pub latency : ℕ
  pub block_number : ℕ
  pub chain_id : ℕ
  pub method_support_score : F

pub data FailureReason : Type 0 where
  timeout : FailureReason
  http : ℕ → FailureReason
  transport invalid_payload : Text → FailureReason

pub record ProbeFailureKind : Type 0 where
  pub provider : ProviderId
  pub latency : Option ℕ
  pub reason : FailureReason

pub record ProviderHealthState (F : Type 0) : Type 0 where
  pub provider : ProviderHandle
  pub latest_block : Option ℕ
  pub chain_id : Option ℕ
  pub latency_avg : F
  pub success_rate : F
  pub sync_score : F
  pub method_support_score : F
  pub last_updated : Option ℕ
  pub consecutive_failures : ℕ  -- u32, which wraps

-- The probe and the interval of a service only drive its background task.
pub record HealthService (F : Type 0) : Type 0 where
  pub state : Dict (ProviderHealthState F)
  pub tolerance : ToleranceLevel

pub data ProbeResult (F : Type 0) : Type 0 where
  ok : ProbeSuccess F → ProbeResult F
  err : ProbeFailureKind → ProbeResult F

module _ (fl : Float) where
  open fl use {F, le, add, sub, mul, div, max, of_nat, lit}

  unfoldable pub threshold : ToleranceLevel → F
  threshold strict = lit 1 1
  threshold balanced = lit 3 1
  threshold relaxed = lit 5 1

  -- `is_within_tolerance` of the snapshot's score.
  unfoldable pub is_within_tolerance : F → F → ToleranceLevel → Bool
  is_within_tolerance score best_score tolerance =
      if le best_score (zero_f fl)
      then true
      else le (sub best_score score) (mul (threshold tolerance) best_score)

  unfoldable pub new_state : ProviderHandle → ProviderHealthState F
  new_state provider = record {
    provider = provider;
    latest_block = none;
    chain_id = none;
    latency_avg = zero_f fl;
    success_rate = one_f fl;
    sync_score = one_f fl;
    method_support_score = one_f fl;
    last_updated = none;
    consecutive_failures = 0;
  }

  -- The smoothing factor of the moving averages.
  abbrev pub alpha : F
  alpha = lit 3 1

  unfoldable pub smoothed_latency : F → F → F
  smoothed_latency latency_avg latency_ms =
      if is_zero fl latency_avg
      then latency_ms
      else add (mul (sub (one_f fl) alpha) latency_avg) (mul alpha latency_ms)

  -- `ProviderHealthState::apply_success`
  unfoldable pub apply_success_state :
      ℕ → ProbeSuccess F → ProviderHealthState F → ProviderHealthState F
  unfolding smoothed_latency
  apply_success_state now success s = record s {
    latency_avg =
        smoothed_latency s.latency_avg (mul (as_secs_f64 fl success.latency) (of_nat 1_000));
    success_rate = add (mul (sub (one_f fl) alpha) s.success_rate) alpha;
    sync_score = one_f fl;
    method_support_score = success.method_support_score;
    latest_block = some success.block_number;
    chain_id = some success.chain_id;
    last_updated = some now;
    consecutive_failures = 0;
  }

  -- `ProviderHealthState::apply_failure`
  unfoldable pub apply_failure_state : ℕ → ProviderHealthState F → ProviderHealthState F
  apply_failure_state now s = record s {
    success_rate = mul s.success_rate (sub (one_f fl) alpha);
    consecutive_failures = (s.consecutive_failures + 1) % 2 ^ 32;
    last_updated = some now;
  }

  unfoldable pub latency_score : F → F
  latency_score latency_avg =
      if le latency_avg (zero_f fl)
      then one_f fl
      else clamp fl (div (of_nat 2_000) latency_avg) (zero_f fl) (one_f fl)

  unfoldable pub score : ProviderHealthState F → F
  score s =
      let sync = clamp fl s.sync_score (zero_f fl) (one_f fl) in
      let latency = latency_score s.latency_avg in
      let success = clamp fl s.success_rate (zero_f fl) (one_f fl) in
      let method_support = clamp fl s.method_support_score (zero_f fl) (one_f fl) in
      add (add (add (mul sync (lit 4 1)) (mul latency (lit 3 1))) (mul success (lit 2 1)))
        (mul method_support (lit 1 1))

  unfoldable pub snapshot : ProviderHealthState F → ProviderHealthSnapshot F
  snapshot s = record {
    provider = s.provider.id;
    score = score s;
    sync_score = s.sync_score;
    latency_score = latency_score s.latency_avg;
    success_score = s.success_rate;
    method_support_score = s.method_support_score;
    latest_block = s.latest_block;
    chain_id = s.chain_id;
    last_updated = s.last_updated;
    consecutive_failures = s.consecutive_failures;
  }

  -- The loop of `HealthService::new`.
  unfoldable pub new_from :
      List ProviderHandle → Dict (ProviderHealthState F) → Dict (ProviderHealthState F)
  new_from [] state = state
  new_from (provider ∷ providers) state =
      new_from providers (insert provider.id (new_state provider) state)

  unfoldable pub new : List ProviderHandle → ToleranceLevel → HealthService F
  unfolding new_from
  new providers tolerance = record { state = new_from providers []; tolerance = tolerance }

  unfoldable pub snapshots : HealthService F → List (ProviderHealthSnapshot F)
  snapshots h = map (λ entry. snapshot entry.1) h.state

  unfoldable pub best_score_from : F → Dict (ProviderHealthState F) → F
  best_score_from best [] = best
  best_score_from best (entry ∷ entries) = best_score_from (max best (score entry.1)) entries

  unfoldable pub best_score : HealthService F → F
  best_score h = best_score_from (zero_f fl) h.state

  unfoldable pub filtered_snapshots : HealthService F → List (ProviderHealthSnapshot F)
  filtered_snapshots h =
      let best = best_score h in
      filter (λ snapshot. is_within_tolerance snapshot.score best h.tolerance) (snapshots h)

  unfoldable pub apply_success : ℕ → ProbeSuccess F → HealthService F → HealthService F
  apply_success now success h = record h {
    state = modify success.provider (apply_success_state now success) h.state;
  }

  unfoldable pub apply_failure : ℕ → ProbeFailureKind → HealthService F → HealthService F
  apply_failure now failure h = record h {
    state = modify failure.provider (apply_failure_state now) h.state;
  }

  -- What a task that `spawn` starts does with its probe's result.
  unfoldable pub apply_result : ℕ → ProbeResult F → HealthService F → HealthService F
  apply_result now (ok success) h = apply_success now success h
  apply_result now (err failure) h = apply_failure now failure h

  -- The providers that a tick of `spawn` probes.
  unfoldable pub to_probe : HealthService F → List ProviderHandle
  to_probe h = map (λ entry. entry.1.provider) h.state

  -- The tasks of any ticks, in the order in which they finish, each with its time.
  unfoldable pub apply_results : List (ℕ × ProbeResult F) → HealthService F → HealthService F
  apply_results [] h = h
  apply_results ((now, result) ∷ results) h = apply_results results (apply_result now result h)
