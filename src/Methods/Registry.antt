-- ===== src/Methods/Registry.antt =====
-- When a configuration makes a registry (`MethodRegistry::new` of crates/proxy-core/src/methods.rs).
use rpceth.Base.{
  ◌≡◌, ◌↔◌, refl, ap, sym, subst, ◌∙◌, List, [], ◌∷◌, map, Text, Dict, inl, inr, Result-cases,
}
use rpceth.Float.{Float}
use rpceth.Config.{MethodOverrideConfig, ProxyConfig}
use rpceth.Methods
use rpceth.Methods.Patterns.{
  patterns_of, AreGlobs, Refused, AreGlobs-add_globs, new_override_set-Refused,
  Refused-new_override_set, new_override_set-Built,
}

module _ (fl : Float) (globs : Methods.Globs) where
  open fl use {F}
  open globs use {Error, Glob, GlobSet, glob_new, build, matches}

  module _ (config : ProxyConfig F) where
    abbrev pub defaults_of : Methods.ResolvedDefaults F
    defaults_of = Methods.resolve_defaults fl config.methods.default config

    abbrev pub groups_of : Dict (Methods.MethodPolicy F)
    groups_of = Methods.build_group_policies fl config.methods.groups defaults_of

    overrides_of : List (Methods.ResolvedOverride F)
    overrides_of = Methods.build_override_policies fl config.methods.overrides groups_of defaults_of

    override_of-pattern :
        (cfgs : List (MethodOverrideConfig F))
        → patterns_of fl globs (map (Methods.override_of fl groups_of defaults_of) cfgs)
          ≡ map (λ o. o.pattern) cfgs
    unfolding Methods.override_of
    override_of-pattern [] = refl
    override_of-pattern (cfg ∷ cfgs) = ap (λ ps. cfg.pattern ∷ ps) (override_of-pattern cfgs)

    overrides_of-pattern :
        patterns_of fl globs overrides_of ≡ map (λ o. o.pattern) config.methods.overrides
    unfolding Methods.build_override_policies overrides_of
    overrides_of-pattern = override_of-pattern config.methods.overrides

    -- `MethodRegistry::new` fails with `InvalidGlob` for a pattern and an error if and only if
    -- either the pattern is the first of the overrides' that is not a valid glob, and the error is
    -- that of the pattern, or all of them are valid, the set of their globs does not build, with
    -- that error, and the pattern is `<set>`.
    pub new_refuses_iff :
        (p : Text) (e : Error)
        → (Methods.new fl globs config ≡ inl (Methods.invalid_glob p e))
          ↔ Refused fl globs (map (λ o. o.pattern) config.methods.overrides) p e
    unfolding Methods.new overrides_of
    new_refuses_iff p e = (
      λ refused. elim (Result-cases (Methods.new_override_set fl globs overrides_of)) [
        | inl (Methods.invalid_glob q source, made) ↦
            let now = rw (made, Methods.new) at refused in
            subst (λ ps. Refused fl globs ps p e) overrides_of-pattern
              (new_override_set-Refused fl globs overrides_of p e (made ∙ cc))
        | inr (set, made) ↦ let now = rw (made, Methods.new) at refused in cc
      ],
      λ reason.
          let made =
            Refused-new_override_set fl globs overrides_of p e
              (subst (λ ps. Refused fl globs ps p e) (sym overrides_of-pattern) reason) in
          rw (Methods.new, made) refl,
    )

    -- What a registry is made of: the globs of the patterns, the overrides and the defaults.
    pub record IsBuilt (registry : Methods.MethodRegistry fl globs) : Type 0 where
      pub added : List Glob
      pub valid : AreGlobs fl globs (map (λ o. o.pattern) config.methods.overrides) added
      pub built : build added ≡ inr registry.override_set.globset
      pub entries :
          registry.override_set.entries
          ≡ map (Methods.override_of fl groups_of defaults_of) config.methods.overrides
      pub defaults : registry.defaults ≡ defaults_of

    registry_with : Methods.OverrideSet fl globs → Methods.MethodRegistry fl globs
    registry_with set = record { defaults = defaults_of; groups = groups_of; override_set = set }

    registry_with-IsBuilt :
        (set : Methods.OverrideSet fl globs)
        → Methods.new_override_set fl globs overrides_of ≡ inr set
        → IsBuilt (registry_with set)
    unfolding overrides_of Methods.build_override_policies registry_with
    registry_with-IsBuilt set made =
        let ((added, valid, built), entries) =
          new_override_set-Built fl globs overrides_of set made in
        record {
          added = added;
          valid = subst (λ ps. AreGlobs fl globs ps added) overrides_of-pattern valid;
          built = built;
          entries = entries;
          defaults = refl;
        }

    pub new-IsBuilt :
        (registry : Methods.MethodRegistry fl globs)
        → Methods.new fl globs config ≡ inr registry
        → IsBuilt registry
    unfolding Methods.new overrides_of registry_with
    new-IsBuilt registry made =
        elim (Result-cases (Methods.new_override_set fl globs overrides_of)) [
          | inl (e, failed) ↦ let now = rw (failed, Methods.new) at made in cc
          | inr (set, ready) ↦
              let now = rw (ready, Methods.new) at made in
              let one : registry_with set ≡ registry = cc in
              subst (λ r. IsBuilt r) one (registry_with-IsBuilt set ready)
        ]

    -- Valid patterns whose globs make a set are enough for a registry.
    pub Built-new :
        (added : List Glob) (set : GlobSet)
        → AreGlobs fl globs (map (λ o. o.pattern) config.methods.overrides) added
        → build added ≡ inr set
        → (registry : Methods.MethodRegistry fl globs) × (Methods.new fl globs config
            ≡ inr registry)
    unfolding Methods.new Methods.new_override_set overrides_of registry_with
    Built-new added set valid built =
        let made =
          AreGlobs-add_globs fl globs overrides_of added
            (subst (λ ps. AreGlobs fl globs ps added) (sym overrides_of-pattern) valid) in
        (
          registry_with (record { globset = set; entries = overrides_of }),
          rw (Methods.new, made, built) refl,
        )
