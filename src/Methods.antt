-- ===== src/Methods.antt =====
-- crates/proxy-core/src/methods.rs: the policy of each JSON-RPC method. Glob patterns are those of
-- the `globset` crate: `glob_new` is `Glob::new`, `build` is `GlobSetBuilder::build` on the globs that
-- were added, in order, and `matches` is `GlobSet::matches`, the indices of the globs that match.
pub mod Weights
pub mod Layers
pub mod Patterns
pub mod Precedence
pub mod Registry
pub mod Backoffs
pub mod Resolution
pub mod Sound
use rpceth.Base.{
  ℕ, Bool, Option, none, some, List, [], ◌∷◌, map, Text, codes, Dict, get, insert, unwrap_or,
  or_option, map_option, get_elem?, is_empty, if◌then◌else◌, is_some, ◌⊎◌, inl, inr, and_then,
}
use rpceth.Settings.{ToleranceLevel, balanced, from_millis}
use rpceth.Provider.{ProviderId}
use rpceth.Float.{Float, one_f}
use rpceth.Config.{
  BackoffConfig, MethodDefaults, MethodGroupConfig, MethodOverrideConfig, ProxyConfig,
}

pub record ResolvedBackoff (F : Type 0) : Type 0 where
  pub min : ℕ
  pub max : ℕ
  pub jitter : F

pub record MethodPolicy (F : Type 0) : Type 0 where
  pub tolerance : ToleranceLevel
  pub timeout : ℕ
  pub weight_multiplier : F
  pub max_retries : ℕ
  pub provider_weights : Dict F
  pub backoff : Option (ResolvedBackoff F)

unfoldable pub provider_weight : {F : Type 0} → MethodPolicy F → ProviderId → Option F
provider_weight policy provider = get provider policy.provider_weights

unfoldable pub has_provider_override : {F : Type 0} → MethodPolicy F → ProviderId → Bool
has_provider_override policy provider = is_some (get provider policy.provider_weights)

-- `ResolvedDefaults` has the fields of a policy.
abbrev pub ResolvedDefaults : Type 0 → Type 0
ResolvedDefaults = MethodPolicy

pub record OverrideEntry (F : Type 0) : Type 0 where
  pub pattern : Text
  pub policy : MethodPolicy F

-- `ResolvedOverride` and `OverrideEntry` have the same two fields.
abbrev pub ResolvedOverride : Type 0 → Type 0
ResolvedOverride = OverrideEntry

pub record Globs : Type 1 where
  pub Error : Type 0
  pub Glob : Type 0
  pub GlobSet : Type 0
  pub glob_new : Text → Error ⊎ Glob
  pub build : List Glob → Error ⊎ GlobSet
  pub matches : GlobSet → Text → List ℕ

module _ (fl : Float) where
  open fl use {F, of_nat, lit}

  unfoldable pub resolve_backoff : BackoffConfig F → Option (ResolvedBackoff F) → ResolvedBackoff F
  resolve_backoff config fall_back =
      let base : ResolvedBackoff F =
        unwrap_or (record { min = from_millis 200; max = from_millis 2_000; jitter = lit 3 1 })
          fall_back in
      record {
        min = unwrap_or base.min (map_option from_millis config.min_ms);
        max = unwrap_or base.max (map_option from_millis config.max_ms);
        jitter = unwrap_or base.jitter config.jitter;
      }

  -- `map(resolve_backoff).or_else(fall_back)`
  unfoldable pub inherit_backoff :
      Option (BackoffConfig F) → Option (ResolvedBackoff F) → Option (ResolvedBackoff F)
  unfolding resolve_backoff
  inherit_backoff config fall_back =
      or_option (map_option (λ cfg. resolve_backoff cfg fall_back) config) fall_back

  unfoldable pub merge_provider_weights : Dict F → Dict ℕ → Dict F
  merge_provider_weights base [] = base
  merge_provider_weights base ((provider, weight) ∷ overrides) =
      merge_provider_weights (insert provider (of_nat weight) base) overrides

  -- `collect` into a map: an entry for each entry.
  unfoldable pub normalize_provider_weights : Dict ℕ → Dict F
  normalize_provider_weights = map λ e. (e.0, of_nat e.1)

  unfoldable pub resolve_defaults : MethodDefaults F → ProxyConfig F → ResolvedDefaults F
  unfolding resolve_backoff normalize_provider_weights
  resolve_defaults defaults config = record {
    timeout =
        unwrap_or (from_millis config.default_timeout_ms)
          (map_option from_millis defaults.timeout_ms);
    tolerance = unwrap_or balanced defaults.tolerance;
    max_retries = unwrap_or config.max_retries defaults.max_retries;
    weight_multiplier = unwrap_or (one_f fl) defaults.weight_multiplier;
    provider_weights = normalize_provider_weights defaults.provider_weights;
    backoff = map_option (λ cfg. resolve_backoff cfg none) defaults.backoff;
  }

  unfoldable pub group_policy_of : ResolvedDefaults F → MethodGroupConfig F → MethodPolicy F
  unfolding inherit_backoff merge_provider_weights
  group_policy_of defaults cfg = record {
    tolerance = unwrap_or defaults.tolerance cfg.tolerance;
    timeout = unwrap_or defaults.timeout (map_option from_millis cfg.timeout_ms);
    weight_multiplier = unwrap_or defaults.weight_multiplier cfg.weight_multiplier;
    max_retries = unwrap_or defaults.max_retries cfg.max_retries;
    provider_weights = merge_provider_weights defaults.provider_weights cfg.provider_weights;
    backoff = inherit_backoff cfg.backoff defaults.backoff;
  }

  unfoldable pub build_group_policies :
      Dict (MethodGroupConfig F) → ResolvedDefaults F → Dict (MethodPolicy F)
  unfolding group_policy_of
  build_group_policies groups defaults = map (λ g. (g.0, group_policy_of defaults g.1)) groups

  -- The group that an override names, if it exists, else the defaults.
  unfoldable pub base_policy_of :
      Dict (MethodPolicy F) → ResolvedDefaults F → Option Text → MethodPolicy F
  base_policy_of groups defaults none = defaults
  base_policy_of groups defaults (some group) = unwrap_or defaults (get group groups)

  unfoldable pub override_of :
      Dict (MethodPolicy F) → ResolvedDefaults F → MethodOverrideConfig F → ResolvedOverride F
  unfolding base_policy_of inherit_backoff merge_provider_weights
  override_of groups defaults cfg =
      let base = base_policy_of groups defaults cfg.group in
      record {
        pattern = cfg.pattern;
        policy = record {
          tolerance = unwrap_or base.tolerance cfg.tolerance;
          timeout = unwrap_or base.timeout (map_option from_millis cfg.timeout_ms);
          weight_multiplier = unwrap_or base.weight_multiplier cfg.weight_multiplier;
          max_retries = unwrap_or base.max_retries cfg.max_retries;
          provider_weights = merge_provider_weights base.provider_weights cfg.provider_weights;
          backoff = inherit_backoff cfg.backoff base.backoff;
        };
      }

  unfoldable pub build_override_policies :
      List (MethodOverrideConfig F)
      → Dict (MethodPolicy F)
      → ResolvedDefaults F
      → List (ResolvedOverride F)
  unfolding override_of
  build_override_policies overrides groups defaults = map (override_of groups defaults) overrides

module _ (fl : Float) (globs : Globs) where
  open fl use {F}
  open globs use {Error, Glob, GlobSet, glob_new, build, matches}

  pub data MethodRegistryError : Type 0 where
    invalid_glob : (pattern : Text) (source : Error) → MethodRegistryError

  pub record OverrideSet : Type 0 where
    pub globset : GlobSet
    pub entries : List (OverrideEntry F)

  pub record MethodRegistry : Type 0 where
    pub defaults : ResolvedDefaults F
    pub groups : Dict (MethodPolicy F)
    pub override_set : OverrideSet

  -- The builder, once the pattern of each override is added to it.
  unfoldable pub add_globs : List (ResolvedOverride F) → MethodRegistryError ⊎ List Glob
  add_globs [] = inr []
  add_globs (resolved ∷ more) =
      let rest = add_globs more in
      elim (glob_new resolved.pattern) [
        | inl source ↦ inl (invalid_glob resolved.pattern source)
        | inr glob ↦ and_then (λ added. inr (glob ∷ added)) rest
      ]

  unfoldable pub new_override_set : List (ResolvedOverride F) → MethodRegistryError ⊎ OverrideSet
  unfolding add_globs
  new_override_set overrides =
      and_then
        (λ added. elim (build added) [
          | inl source ↦ inl (invalid_glob (codes "<set>") source)
          | inr set ↦ inr (record { globset = set; entries = overrides })
        ])
        (add_globs overrides)

  last : List ℕ → Option ℕ
  last [] = none
  last (x ∷ xs) = some (unwrap_or x (last xs))

  -- `OverrideSet::matches`
  unfoldable pub matching_override : OverrideSet → Text → Option (MethodPolicy F)
  unfolding last
  matching_override set method =
      if is_empty set.entries then none else elim (last (matches set.globset method)) [
        | none ↦ none
        | some i ↦ map_option (λ e. e.policy) (get_elem? set.entries i)
      ]

  unfoldable pub new : ProxyConfig F → MethodRegistryError ⊎ MethodRegistry
  unfolding new_override_set resolve_defaults build_group_policies build_override_policies
  new config =
      let defaults = resolve_defaults fl config.methods.default config in
      let groups = build_group_policies fl config.methods.groups defaults in
      let overrides = build_override_policies fl config.methods.overrides groups defaults in
      and_then (λ set. inr (record { defaults = defaults; groups = groups; override_set = set }))
        (new_override_set overrides)

  unfoldable pub resolve : MethodRegistry → Option Text → MethodPolicy F
  unfolding matching_override
  resolve registry method =
      unwrap_or registry.defaults
        (matching_override registry.override_set (unwrap_or (codes "*") method))

  unfoldable pub group_policy : MethodRegistry → Text → Option (MethodPolicy F)
  group_policy registry group = get group registry.groups
