-- ===== src/Config/Checks.antt =====
-- The checks of crates/proxy-core/src/config.rs on the circuit breaker's settings and on the methods.
-- A `HashMap` is checked in the order of its dictionary.
use rpceth.Base.{
  ℕ, Bool, false, not, ◌&&◌, Option, none, some, List, [], ◌∷◌, ◌++◌, Text, codes, Dict, get,
  is_some, is_empty, unwrap_or, ◌==◌, ltb, trim,
}
use rpceth.Settings.{CircuitBreakerConfig}
use rpceth.Float.{Float, zero_f, one_f}
use rpceth.Refusal.{Result, ok, ◌>>◌, refuse_if}
use rpceth.Config.{BackoffConfig, MethodGroupConfig, MethodOverrideConfig, MethodConfig}

-- `if let Some(x) = value { if x == 0 … }`
abbrev pub is_given_zero : Option ℕ → Bool
is_given_zero none = false
is_given_zero (some n) = n == 0

unfoldable pub validate_circuit_breaker : CircuitBreakerConfig → Result (Unit {0})
validate_circuit_breaker config = do
  refuse_if (is_given_zero config.failure_threshold)
      (codes "circuit_breaker failure_threshold must be greater than zero")
  refuse_if (is_given_zero config.reset_timeout_ms)
      (codes "circuit_breaker reset_timeout_ms must be greater than zero")
  refuse_if (is_given_zero config.half_open_probe)
      (codes "circuit_breaker half_open_probe must be greater than zero")

unfoldable pub validate_timeout : Text → Option ℕ → Result (Unit {0})
validate_timeout label value =
    refuse_if (is_given_zero value) (label ++ codes " must be greater than zero")

unfoldable pub validate_max_retries : Text → Option ℕ → Result (Unit {0})
validate_max_retries label value =
    refuse_if (is_given_zero value) (label ++ codes " must be greater than zero")

-- The `max_ms` and the `min_ms`, if both are given.
abbrev pub is_below : Option ℕ → Option ℕ → Bool
is_below (some max) (some min) = ltb max min
is_below none _ = false
is_below (some max) none = false

module _ (fl : Float) where
  open fl use {F, le, of_nat}

  -- `!(0.0..=high).contains(&x)`
  abbrev pub is_outside : F → Option F → Bool
  is_outside high none = false
  is_outside high (some x) = not (le (zero_f fl) x && le x high)

  unfoldable pub validate_multiplier : Text → Option F → Result (Unit {0})
  validate_multiplier label value =
      refuse_if (is_outside (of_nat 10) value) (label ++ codes " must be between 0 and 10")

  unfoldable pub validate_backoff : Text → Option (BackoffConfig F) → Result (Unit {0})
  validate_backoff label none = ok tt
  validate_backoff label (some cfg) = do
    refuse_if (is_given_zero cfg.min_ms) (label ++ codes " min_ms must be greater than zero")
    refuse_if (is_given_zero cfg.max_ms) (label ++ codes " max_ms must be greater than zero")
    refuse_if (is_below cfg.max_ms cfg.min_ms)
        (label ++ codes " max_ms must be greater than or equal to min_ms")
    refuse_if (is_outside (one_f fl) cfg.jitter)
        (label ++ codes " jitter must be between 0.0 and 1.0")

  unfoldable pub validate_group : Text → MethodGroupConfig F → Result (Unit {0})
  unfolding validate_timeout validate_max_retries validate_multiplier validate_backoff
  validate_group group cfg = do
    validate_timeout (codes "group `" ++ group ++ codes "` timeout") cfg.timeout_ms
    validate_max_retries (codes "group `" ++ group ++ codes "` max_retries") cfg.max_retries
    validate_multiplier (codes "group `" ++ group ++ codes "` weight multiplier")
        cfg.weight_multiplier
    validate_backoff (codes "group `" ++ group ++ codes "` backoff") cfg.backoff

  unfoldable pub validate_groups : Dict (MethodGroupConfig F) → Result (Unit {0})
  validate_groups [] = ok tt
  validate_groups ((group, cfg) ∷ more) = do validate_group group cfg; validate_groups more

  abbrev pub names_unknown : Dict (MethodGroupConfig F) → Option Text → Bool
  names_unknown groups none = false
  names_unknown groups (some name) = not (is_some (get name groups))

  unfoldable pub validate_override :
      Dict (MethodGroupConfig F) → MethodOverrideConfig F → Result (Unit {0})
  validate_override groups cfg = do
    refuse_if (is_empty (trim cfg.pattern)) (codes "method override pattern must not be empty")
    validate_timeout (codes "override `" ++ cfg.pattern ++ codes "` timeout") cfg.timeout_ms
    validate_max_retries (codes "override `" ++ cfg.pattern ++ codes "` max_retries")
        cfg.max_retries
    validate_multiplier (codes "override `" ++ cfg.pattern ++ codes "` weight multiplier")
        cfg.weight_multiplier
    validate_backoff (codes "override `" ++ cfg.pattern ++ codes "` backoff") cfg.backoff
    refuse_if (names_unknown groups cfg.group) (
        codes "override `"
        ++ cfg.pattern
        ++ codes "` references unknown group `"
        ++ unwrap_or [] cfg.group
        ++ codes "`")

  unfoldable pub validate_overrides :
      Dict (MethodGroupConfig F) → List (MethodOverrideConfig F) → Result (Unit {0})
  validate_overrides groups [] = ok tt
  validate_overrides groups (cfg ∷ more) = do
    validate_override groups cfg
    validate_overrides groups more

  unfoldable pub validate_methods : MethodConfig F → Result (Unit {0})
  validate_methods methods = do
    validate_backoff (codes "default backoff") methods.default.backoff
    validate_timeout (codes "default method timeout") methods.default.timeout_ms
    validate_max_retries (codes "default method max_retries") methods.default.max_retries
    validate_multiplier (codes "default method weight multiplier") methods.default.weight_multiplier
    validate_groups methods.groups
    validate_overrides methods.groups methods.overrides
