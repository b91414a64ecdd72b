-- ===== src/Methods/Backoffs.antt =====
-- The backoff that crates/proxy-core/src/methods.rs resolves from settings that
-- crates/proxy-core/src/config.rs accepts.
use rpceth.Base.{ℕ, ◌≤◌, ◌↔◌, Option, none, some, Text, arith, unwrap_or, map_option}
use rpceth.Settings.{from_millis}
use rpceth.Float.{Float}
use rpceth.Refusal.{Accepted}
use rpceth.Config.{BackoffConfig}
use rpceth.Config.Checks.{validate_backoff}
use rpceth.Config.Valid.{Ordered, validate_backoff-ValidBackoff}
use rpceth.Methods.{resolve_backoff}

-- A bound that is given alone fits the default of the other, in milliseconds.
abbrev pub FitsDefault : Option ℕ → Option ℕ → Type 0
FitsDefault none none = Unit
FitsDefault (some min) none = min ≤ 2_000
FitsDefault none (some max) = 200 ≤ max
FitsDefault (some min) (some max) = Unit

bounds_iff :
    (min max : Option ℕ)
    → Ordered min max
    → (unwrap_or (from_millis 200) (map_option from_millis min)
        ≤ unwrap_or (from_millis 2_000) (map_option from_millis max))
      ↔ FitsDefault min max
bounds_iff none none o = (λ e. tt, λ p. omega arith)
bounds_iff (some m) none o = (λ e. omega arith, λ p. omega arith)
bounds_iff none (some n) o = (λ e. omega arith, λ p. omega arith)
bounds_iff (some m) (some n) o = (λ e. tt, λ p. omega arith)

module _ (fl : Float) where
  -- For a backoff that the validation accepts, and no backoff to inherit from: the resolved
  -- minimum is at most the resolved maximum if and only if a bound that is given alone fits the
  -- default of the other (200 ms for the minimum, 2000 ms for the maximum).
  pub resolve_backoff_ordered :
      (label : Text) (cfg : BackoffConfig fl.F)
      → Accepted (validate_backoff fl label (some cfg))
      → ((resolve_backoff fl cfg none).min ≤ (resolve_backoff fl cfg none).max)
        ↔ FitsDefault cfg.min_ms cfg.max_ms
  unfolding resolve_backoff
  resolve_backoff_ordered label cfg accepted =
      let (low, (high, (ordered, jitter))) =
        (validate_backoff-ValidBackoff fl label (some cfg)).0 accepted in
      bounds_iff cfg.min_ms cfg.max_ms ordered
