-- ===== src/Tests/Policies.antt =====
-- An example of the method policies of crates/proxy-core/src/methods.rs.
use rpceth.Base.{
  ℕ, ◌≡◌, ◌≤◌, ◌↔◌, refl, none, some, List, [], ◌∷◌, Text, codes, same, inl, inr, ok_or, unwrap_or,
}
use rpceth.Settings.{strict, relaxed}
use rpceth.Float.Thousandths.{thousandths}
use rpceth.Config.{BackoffConfig, MethodGroupConfig, MethodOverrideConfig, ProxyConfig}
use rpceth.Methods
use rpceth.Methods.{MethodRegistry, invalid_glob, resolve, resolve_backoff}
use rpceth.Methods.Backoffs.{FitsDefault, resolve_backoff_ordered}
use rpceth.Config.Checks.{validate_backoff}
use rpceth.Methods.Patterns.{AreGlobs, Refused}
use rpceth.Methods.Registry.{new_refuses_iff}
use rpceth.Methods.Precedence.{unset, Precedes, group_named}
use rpceth.Methods.Resolution.{deciding, resolve-Precedes}
use rpceth.Tests.{verbatim, plain_methods, two_chains}

abbrev slow_calls : MethodGroupConfig ℕ
slow_calls = record {
  tolerance = some relaxed;
  timeout_ms = some 9_000;
  weight_multiplier = none;
  max_retries = some 2;
  backoff = none;
  provider_weights = [];
}

abbrev calls : MethodOverrideConfig ℕ
calls = record {
  pattern = codes "eth_call";
  group = some (codes "slow");
  tolerance = some strict;
  timeout_ms = none;
  weight_multiplier = none;
  max_retries = none;
  backoff = none;
  provider_weights = [];
}

abbrev configured : ProxyConfig ℕ
configured = record two_chains {
  methods = record plain_methods {
    groups = (codes "slow", slow_calls) ∷ [];
    overrides = calls ∷ [];
  };
}

abbrev empty_registry : MethodRegistry thousandths verbatim
empty_registry = record {
  defaults = Methods.resolve_defaults thousandths configured.methods.default configured;
  groups = [];
  override_set = record { globset = []; entries = [] };
}

abbrev registry : MethodRegistry thousandths verbatim
registry = ok_or empty_registry (Methods.new thousandths verbatim configured)

resolve-Precedes_example :
    (added : List Text) × (set : List Text) × AreGlobs thousandths verbatim
      (codes "eth_call" ∷ [])
      added
    × (verbatim.build added ≡ inr set)
    × (let cfg =
          unwrap_or unset (deciding (calls ∷ []) (verbatim.matches set (codes "eth_call"))) in
        Precedes thousandths configured cfg
          (group_named configured cfg.group)
          (resolve thousandths verbatim registry (some (codes "eth_call"))))
unfolding Methods.new same
resolve-Precedes_example =
    resolve-Precedes thousandths verbatim configured registry (some (codes "eth_call")) refl

-- The second pattern is not a glob.
abbrev unclosed : ProxyConfig ℕ
unclosed = record two_chains {
  methods = record plain_methods { overrides = calls ∷ record calls { pattern = codes "[" } ∷ [] };
}

new_refuses_iff_example :
    (Methods.new thousandths verbatim unclosed
      ≡ inl (invalid_glob (codes "[") (codes "unclosed character class")))
    ↔ Refused thousandths verbatim
        (codes "eth_call" ∷ codes "[" ∷ [])
        (codes "[")
        (codes "unclosed character class")
new_refuses_iff_example =
    new_refuses_iff thousandths verbatim unclosed (codes "[") (codes "unclosed character class")

unclosed_is_refused :
    Methods.new thousandths verbatim unclosed
    ≡ inl (invalid_glob (codes "[") (codes "unclosed character class"))
unfolding Methods.new same
unclosed_is_refused = refl

-- A minimum of three seconds, without a maximum.
abbrev slow_start : BackoffConfig ℕ
slow_start = record { min_ms = some 3_000; max_ms = none; jitter = none }

resolve_backoff_ordered_example :
    ((resolve_backoff thousandths slow_start none).min
      ≤ (resolve_backoff thousandths slow_start none).max)
    ↔ FitsDefault (some 3_000) none
unfolding validate_backoff
resolve_backoff_ordered_example =
    resolve_backoff_ordered thousandths (codes "default backoff") slow_start refl
