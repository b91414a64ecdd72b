-- ===== src/Config/Valid.antt =====
-- What the checks on the methods of crates/proxy-core/src/config.rs accept.
use rpceth.Base.{
  codes, ◌++◌, ℕ, ◌≤◌, ◌<◌, ◌≡◌, ◌≢◌, ◌↔◌, refl, true, false, Option, none, some, List, [], ◌∷◌,
  Text, Dict, get, is_some, is_empty, All, AllValues, trim, arith,
}
use rpceth.Settings.{CircuitBreakerConfig}
use rpceth.Float.{Float, IsBetween, one_f}
use rpceth.Refusal.{Accepted, refuse_if_iff, >>_iff}
use rpceth.Config.{BackoffConfig, MethodGroupConfig, MethodOverrideConfig, MethodConfig}
use rpceth.Config.Checks.{
  is_given_zero, is_below, is_outside, names_unknown, validate_circuit_breaker, validate_timeout,
  validate_max_retries, validate_multiplier, validate_backoff, validate_group, validate_groups,
  validate_override, validate_overrides, validate_methods,
}

-- What holds of a value if it is given.
abbrev pub Given {ℓ κ} : {A : Type ℓ} → (A → Type κ) → Option A → Type κ
Given P none = Unit
Given P (some a) = P a

abbrev pub Positive : ℕ → Type 0
Positive n = 0 < n

abbrev pub Ordered : Option ℕ → Option ℕ → Type 0
Ordered (some min) (some max) = min ≤ max
Ordered none _ = Unit
Ordered (some min) none = Unit

abbrev pub ValidCircuit : CircuitBreakerConfig → Type 0
ValidCircuit c =
    Given Positive c.failure_threshold
    × (Given Positive c.reset_timeout_ms × Given Positive c.half_open_probe)

is_given_zero-Given : (o : Option ℕ) → (is_given_zero o ≡ false) ↔ Given Positive o
is_given_zero-Given none = (λ e. tt, λ p. refl)
is_given_zero-Given (some n) = (λ e. ground arith, λ p. ground arith)

is_below-Ordered : (max min : Option ℕ) → (is_below max min ≡ false) ↔ Ordered min max
is_below-Ordered none none = (λ e. tt, λ p. refl)
is_below-Ordered none (some n) = (λ e. tt, λ p. refl)
is_below-Ordered (some m) none = (λ e. tt, λ p. refl)
is_below-Ordered (some m) (some n) = (λ e. ground arith, λ p. ground arith)

pub is_empty-ne {ℓ} : {A : Type ℓ} (xs : List A) → (is_empty xs ≡ false) ↔ (xs ≢ [])
is_empty-ne [] = (λ e. cc, λ p. absurd (p refl))
is_empty-ne (x ∷ xs) = (λ e h. cc, λ p. refl)

pub validate_circuit_breaker-ValidCircuit :
    (c : CircuitBreakerConfig) → Accepted (validate_circuit_breaker c) ↔ ValidCircuit c
unfolding validate_circuit_breaker
validate_circuit_breaker-ValidCircuit c =
    >>_iff (refuse_if_iff _ _ (is_given_zero-Given c.failure_threshold)) (
      >>_iff (refuse_if_iff _ _ (is_given_zero-Given c.reset_timeout_ms))
        (refuse_if_iff _ _ (is_given_zero-Given c.half_open_probe)))

module _ (fl : Float) where
  open fl use {F, le, of_nat}

  abbrev pub ValidBackoff : Option (BackoffConfig F) → Type 0
  ValidBackoff = Given λ cfg.
      Given Positive cfg.min_ms
      × (Given Positive cfg.max_ms
          × (Ordered cfg.min_ms cfg.max_ms × Given (λ j. IsBetween fl j (one_f fl)) cfg.jitter))

  abbrev pub ValidGroup : MethodGroupConfig F → Type 0
  ValidGroup cfg =
      Given Positive cfg.timeout_ms
      × (Given Positive cfg.max_retries
          × (Given (λ x. IsBetween fl x (of_nat 10)) cfg.weight_multiplier
              × ValidBackoff cfg.backoff))

  abbrev pub ValidOverride : Dict (MethodGroupConfig F) → MethodOverrideConfig F → Type 0
  ValidOverride groups cfg =
      (trim cfg.pattern ≢ [])
      × (Given Positive cfg.timeout_ms
          × (Given Positive cfg.max_retries
              × (Given (λ x. IsBetween fl x (of_nat 10)) cfg.weight_multiplier
                  × (ValidBackoff cfg.backoff
                      × Given (λ name. is_some (get name groups) ≡ true) cfg.group))))

  abbrev pub ValidMethods : MethodConfig F → Type 0
  ValidMethods m =
      ValidBackoff m.default.backoff
      × (Given Positive m.default.timeout_ms
          × (Given Positive m.default.max_retries
              × (Given (λ x. IsBetween fl x (of_nat 10)) m.default.weight_multiplier
                  × (AllValues ValidGroup m.groups × All (ValidOverride m.groups) m.overrides))))

  is_outside-IsBetween :
      (high : F) (o : Option F)
      → (is_outside fl high o ≡ false) ↔ Given (λ x. IsBetween fl x high) o
  is_outside-IsBetween high none = (λ e. tt, λ p. refl)
  is_outside-IsBetween high (some x) = (λ e. ground arith, λ p. ground arith)

  pub validate_backoff-ValidBackoff :
      (label : Text) (b : Option (BackoffConfig F))
      → Accepted (validate_backoff fl label b) ↔ ValidBackoff b
  unfolding validate_backoff
  validate_backoff-ValidBackoff label none = (λ e. tt, λ p. refl)
  validate_backoff-ValidBackoff label (some cfg) =
      >>_iff (refuse_if_iff _ _ (is_given_zero-Given cfg.min_ms)) (
        >>_iff (refuse_if_iff _ _ (is_given_zero-Given cfg.max_ms)) (
          >>_iff (refuse_if_iff _ _ (is_below-Ordered cfg.max_ms cfg.min_ms))
            (refuse_if_iff _ _ (is_outside-IsBetween (one_f fl) cfg.jitter))))

  names_unknown-Given :
      (groups : Dict (MethodGroupConfig F)) (o : Option Text)
      → (names_unknown fl groups o ≡ false) ↔ Given (λ name. is_some (get name groups) ≡ true) o
  names_unknown-Given groups none = (λ e. tt, λ p. refl)
  names_unknown-Given groups (some name) = (λ e. ground arith, λ p. ground arith)

  validate_group-ValidGroup :
      (group : Text) (cfg : MethodGroupConfig F)
      → Accepted (validate_group fl group cfg) ↔ ValidGroup cfg
  unfolding validate_group validate_timeout validate_max_retries validate_multiplier
  validate_group-ValidGroup group cfg =
      >>_iff (refuse_if_iff _ _ (is_given_zero-Given cfg.timeout_ms)) (
        >>_iff (refuse_if_iff _ _ (is_given_zero-Given cfg.max_retries)) (
          >>_iff (refuse_if_iff _ _ (is_outside-IsBetween (of_nat 10) cfg.weight_multiplier)) (
            validate_backoff-ValidBackoff (codes "group `" ++ group ++ codes "` backoff")
              cfg.backoff)))

  validate_groups-ValidGroup :
      (groups : Dict (MethodGroupConfig F))
      → Accepted (validate_groups fl groups) ↔ AllValues ValidGroup groups
  unfolding validate_groups
  validate_groups-ValidGroup [] = (λ e. tt, λ p. refl)
  validate_groups-ValidGroup ((group, cfg) ∷ more) =
      >>_iff (validate_group-ValidGroup group cfg) (validate_groups-ValidGroup more)

  validate_override-ValidOverride :
      (groups : Dict (MethodGroupConfig F)) (cfg : MethodOverrideConfig F)
      → Accepted (validate_override fl groups cfg) ↔ ValidOverride groups cfg
  unfolding validate_override validate_timeout validate_max_retries validate_multiplier
  validate_override-ValidOverride groups cfg =
      >>_iff (refuse_if_iff _ _ (is_empty-ne (trim cfg.pattern))) (
        >>_iff (refuse_if_iff _ _ (is_given_zero-Given cfg.timeout_ms)) (
          >>_iff (refuse_if_iff _ _ (is_given_zero-Given cfg.max_retries)) (
            >>_iff (refuse_if_iff _ _ (is_outside-IsBetween (of_nat 10) cfg.weight_multiplier)) (
              >>_iff
                (validate_backoff-ValidBackoff
                  (codes "override `" ++ cfg.pattern ++ codes "` backoff") cfg.backoff)
                (refuse_if_iff _ _ (names_unknown-Given groups cfg.group))))))

  validate_overrides-ValidOverride :
      (groups : Dict (MethodGroupConfig F)) (cfgs : List (MethodOverrideConfig F))
      → Accepted (validate_overrides fl groups cfgs) ↔ All (ValidOverride groups) cfgs
  unfolding validate_overrides
  validate_overrides-ValidOverride groups [] = (λ e. tt, λ p. refl)
  validate_overrides-ValidOverride groups (cfg ∷ more) =
      >>_iff (validate_override-ValidOverride groups cfg)
        (validate_overrides-ValidOverride groups more)

  pub validate_methods-ValidMethods :
      (m : MethodConfig F) → Accepted (validate_methods fl m) ↔ ValidMethods m
  unfolding validate_methods validate_timeout validate_max_retries validate_multiplier
  validate_methods-ValidMethods m =
      >>_iff (validate_backoff-ValidBackoff (codes "default backoff") m.default.backoff) (
        >>_iff (refuse_if_iff _ _ (is_given_zero-Given m.default.timeout_ms)) (
          >>_iff (refuse_if_iff _ _ (is_given_zero-Given m.default.max_retries)) (
            >>_iff
              (refuse_if_iff _ _ (is_outside-IsBetween (of_nat 10) m.default.weight_multiplier))
              (>>_iff (validate_groups-ValidGroup m.groups)
                (validate_overrides-ValidOverride m.groups m.overrides)))))
