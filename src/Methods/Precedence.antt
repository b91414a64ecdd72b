-- ===== src/Methods/Precedence.antt =====
-- Where the settings of a resolved method policy come from (crates/proxy-core/src/methods.rs).
use rpceth.Base.{
  ◌≡◌, refl, ap, subst, sym, Option, none, some, [], ◌∷◌, Text, get, unwrap_or, map_option,
  or_option,
}
use rpceth.Settings.{balanced, from_millis}
use rpceth.Float.{Float, one_f}
use rpceth.Config.{MethodGroupConfig, MethodOverrideConfig, ProxyConfig}
use rpceth.Methods
use rpceth.Methods.Layers.{
  first_given, first_given-unwrap, first_given-map, given_backoff, inherited,
}
use rpceth.Methods.Weights.{latest, get-map, get-merged, get-merged_twice}

-- The group that an override names, if there is one.
abbrev pub group_named : {F : Type 0} → ProxyConfig F → Option Text → Option (MethodGroupConfig F)
group_named config none = none
group_named config (some group) = get group config.methods.groups

-- An override that gives nothing.
abbrev pub unset : {F : Type 0} → MethodOverrideConfig F
unset = record {
  pattern = [];
  group = none;
  tolerance = none;
  timeout_ms = none;
  weight_multiplier = none;
  max_retries = none;
  backoff = none;
  provider_weights = [];
}

-- A setting of an optional group.
abbrev pub of_group {ℓ} :
    {F : Type 0} {A : Type ℓ}
    → (MethodGroupConfig F → Option A)
    → Option (MethodGroupConfig F)
    → Option A
of_group field none = none
of_group field (some cfg) = field cfg

module _ (fl : Float) where
  open fl use {F}

  base_policy_of-group :
      (config : ProxyConfig F) (defaults : Methods.ResolvedDefaults F) (group : Option Text)
      → Methods.base_policy_of fl
          (Methods.build_group_policies fl config.methods.groups defaults)
          defaults
          group
        ≡ unwrap_or defaults
            (map_option (Methods.group_policy_of fl defaults) (group_named config group))
  unfolding Methods.base_policy_of Methods.build_group_policies
  base_policy_of-group config defaults none = refl
  base_policy_of-group config defaults (some group) =
      ap (unwrap_or defaults)
        (get-map (Methods.group_policy_of fl defaults) config.methods.groups group)

  -- The settings of a policy in the order in which they are looked for.
  pub record Precedes (config : ProxyConfig F) (cfg : MethodOverrideConfig F)
      (group : Option (MethodGroupConfig F)) (p : Methods.MethodPolicy F) : Type 0 where
    pub tolerance :
        p.tolerance
        ≡ first_given
            (cfg.tolerance
              ∷ of_group (λ g. g.tolerance) group
              ∷ config.methods.default.tolerance
              ∷ [])
            balanced
    pub timeout :
        p.timeout
        ≡ from_millis (
            first_given
              (cfg.timeout_ms
                ∷ of_group (λ g. g.timeout_ms) group
                ∷ config.methods.default.timeout_ms
                ∷ [])
              config.default_timeout_ms)
    pub max_retries :
        p.max_retries
        ≡ first_given
            (cfg.max_retries
              ∷ of_group (λ g. g.max_retries) group
              ∷ config.methods.default.max_retries
              ∷ [])
            config.max_retries
    pub weight_multiplier :
        p.weight_multiplier
        ≡ first_given
            (cfg.weight_multiplier
              ∷ of_group (λ g. g.weight_multiplier) group
              ∷ config.methods.default.weight_multiplier
              ∷ [])
            (one_f fl)
    pub provider_weight :
        (id : Text)
        → get id p.provider_weights
          ≡ map_option fl.of_nat (
              or_option (latest id cfg.provider_weights) (
                or_option
                  (of_group (λ g. latest id g.provider_weights) group)
                  (get id config.methods.default.provider_weights)))
    pub backoff :
        p.backoff
        ≡ given_backoff fl
            (cfg.backoff ∷ of_group (λ g. g.backoff) group ∷ config.methods.default.backoff ∷ [])

  module _ (config : ProxyConfig F) (cfg : MethodOverrideConfig F) where
    abbrev method_defaults : Methods.ResolvedDefaults F
    method_defaults = Methods.resolve_defaults fl config.methods.default config

    -- What an override makes of the base policy that it starts from.
    abbrev settings_on : Methods.MethodPolicy F → Methods.MethodPolicy F
    settings_on base = record {
      tolerance = unwrap_or base.tolerance cfg.tolerance;
      timeout = unwrap_or base.timeout (map_option from_millis cfg.timeout_ms);
      weight_multiplier = unwrap_or base.weight_multiplier cfg.weight_multiplier;
      max_retries = unwrap_or base.max_retries cfg.max_retries;
      provider_weights =
          Methods.merge_provider_weights fl base.provider_weights cfg.provider_weights;
      backoff = Methods.inherit_backoff fl cfg.backoff base.backoff;
    }

    settings_on-Precedes :
        (group : Option (MethodGroupConfig F))
        → Precedes config cfg group (
            settings_on (
              unwrap_or method_defaults
                (map_option (Methods.group_policy_of fl method_defaults) group)))
    unfolding Methods.group_policy_of Methods.resolve_defaults
    settings_on-Precedes none =
        let d = config.methods.default in
        record {
          tolerance = first_given-unwrap cfg.tolerance none d.tolerance balanced;
          timeout =
              first_given-map from_millis cfg.timeout_ms none d.timeout_ms
                config.default_timeout_ms;
          max_retries = first_given-unwrap cfg.max_retries none d.max_retries config.max_retries;
          weight_multiplier =
              first_given-unwrap cfg.weight_multiplier none d.weight_multiplier (one_f fl);
          provider_weight = λ id. get-merged fl cfg.provider_weights d.provider_weights id;
          backoff = inherited fl cfg.backoff none d.backoff;
        }
    settings_on-Precedes (some g) =
        let d = config.methods.default in
        record {
          tolerance = first_given-unwrap cfg.tolerance g.tolerance d.tolerance balanced;
          timeout =
              first_given-map from_millis cfg.timeout_ms g.timeout_ms d.timeout_ms
                config.default_timeout_ms;
          max_retries =
              first_given-unwrap cfg.max_retries g.max_retries d.max_retries config.max_retries;
          weight_multiplier =
              first_given-unwrap cfg.weight_multiplier g.weight_multiplier d.weight_multiplier
                (one_f fl);
          provider_weight = λ id.
              get-merged_twice fl cfg.provider_weights g.provider_weights d.provider_weights id;
          backoff = inherited fl cfg.backoff g.backoff d.backoff;
        }

    pub override_of-Precedes :
        Precedes config cfg
          (group_named config cfg.group)
          (Methods.override_of fl
            (Methods.build_group_policies fl config.methods.groups method_defaults)
            method_defaults
            cfg).policy
    unfolding Methods.override_of
    override_of-Precedes =
        subst (λ base. Precedes config cfg (group_named config cfg.group) (settings_on base))
          (sym (base_policy_of-group config method_defaults cfg.group))
          (settings_on-Precedes (group_named config cfg.group))

  -- The method defaults, for an override that gives nothing.
  pub method_defaults-Precedes :
      (config : ProxyConfig F)
      → Precedes config unset none (Methods.resolve_defaults fl config.methods.default config)
  unfolding Methods.merge_provider_weights Methods.inherit_backoff
  method_defaults-Precedes config = settings_on-Precedes config unset none
