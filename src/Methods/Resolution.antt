-- ===== src/Methods/Resolution.antt =====
-- The override that decides on a method (crates/proxy-core/src/methods.rs).
use rpceth.Base.{
  ℕ, zero, suc, ◌≡◌, refl, ap, subst, sym, ◌∙◌, Option, none, some, List, [], ◌∷◌, map, Text, codes,
  unwrap_or, map_option, get_elem?, inr, is_empty, if◌then◌else◌,
}
use rpceth.Float.{Float}
use rpceth.Config.{MethodOverrideConfig, ProxyConfig}
use rpceth.Methods
use rpceth.Methods.Patterns.{AreGlobs}
use rpceth.Methods.Registry.{IsBuilt, new-IsBuilt, groups_of, defaults_of}
use rpceth.Methods.Precedence.{
  unset, group_named, Precedes, override_of-Precedes, method_defaults-Precedes,
}

get_elem?-map {ℓ κ} :
    {A : Type ℓ} {B : Type κ} (f : A → B) (xs : List A) (i : ℕ)
    → get_elem? (map f xs) i ≡ map_option f (get_elem? xs i)
get_elem?-map f [] i = refl
get_elem?-map f (x ∷ xs) zero = refl
get_elem?-map f (x ∷ xs) (suc i) = get_elem?-map f xs i

-- The override at the last of the indices, if there is one.
abbrev pub deciding {ℓ} : {A : Type ℓ} → List A → List ℕ → Option A
deciding overrides [] = none
deciding overrides (i ∷ []) = get_elem? overrides i
deciding overrides (i ∷ j ∷ more) = deciding overrides (j ∷ more)

deciding-nothing {ℓ} : {A : Type ℓ} (is : List ℕ) → deciding {A = A} [] is ≡ none
deciding-nothing [] = refl
deciding-nothing (i ∷ []) = refl
deciding-nothing (i ∷ j ∷ more) = deciding-nothing (j ∷ more)

deciding-map {ℓ κ} :
    {A : Type ℓ} {B : Type κ} (f : A → B) (xs : List A) (is : List ℕ)
    → deciding (map f xs) is ≡ map_option f (deciding xs is)
deciding-map f xs [] = refl
deciding-map f xs (i ∷ []) = get_elem?-map f xs i
deciding-map f xs (i ∷ j ∷ more) = deciding-map f xs (j ∷ more)

module _ (fl : Float) (globs : Methods.Globs) where
  open fl use {F}
  open globs use {Error, Glob, GlobSet, glob_new, build, matches}

  last-deciding :
      (entries : List (Methods.OverrideEntry F)) (is : List ℕ)
      → elim (Methods.last fl globs is) [
        | none ↦ none
        | some i ↦ map_option (λ e. e.policy) (get_elem? entries i)
      ]
        ≡ map_option (λ e. e.policy) (deciding entries is)
  unfolding Methods.last
  last-deciding entries [] = refl
  last-deciding entries (i ∷ []) = refl
  last-deciding entries (i ∷ j ∷ more) = last-deciding entries (j ∷ more)

  picked-deciding :
      (entries : List (Methods.OverrideEntry F)) (is : List ℕ)
      → (if is_empty entries then none else elim (Methods.last fl globs is) [
        | none ↦ none
        | some i ↦ map_option (λ e. e.policy) (get_elem? entries i)
      ])
        ≡ map_option (λ e. e.policy) (deciding entries is)
  picked-deciding [] is = ap (map_option (λ e. e.policy)) (sym (deciding-nothing is))
  picked-deciding (e ∷ es) is = last-deciding (e ∷ es) is

  matching_override-deciding :
      (set : Methods.OverrideSet fl globs) (method : Text)
      → Methods.matching_override fl globs set method
        ≡ map_option (λ e. e.policy) (deciding set.entries (matches set.globset method))
  unfolding Methods.matching_override
  matching_override-deciding set method = picked-deciding set.entries (matches set.globset method)

  chosen-Precedes :
      (config : ProxyConfig F) (chosen : Option (MethodOverrideConfig F))
      → Precedes fl config
          (unwrap_or unset chosen)
          (group_named config (unwrap_or unset chosen).group)
          (unwrap_or (defaults_of fl globs config) (
            map_option
              (λ e. e.policy)
              (map_option
                (Methods.override_of fl (groups_of fl globs config) (defaults_of fl globs config))
                chosen)))
  chosen-Precedes config none = method_defaults-Precedes fl config
  chosen-Precedes config (some cfg) = override_of-Precedes fl config cfg

  resolve-chosen :
      (config : ProxyConfig F) (registry : Methods.MethodRegistry fl globs) (method : Option Text)
      → IsBuilt fl globs config registry
      → Methods.resolve fl globs registry method
        ≡ unwrap_or (defaults_of fl globs config) (
            map_option
              (λ e. e.policy)
              (map_option
                (Methods.override_of fl (groups_of fl globs config) (defaults_of fl globs config))
                (deciding config.methods.overrides
                  (matches registry.override_set.globset (unwrap_or (codes "*") method)))))
  unfolding Methods.resolve
  resolve-chosen config registry method parts =
      let is = matches registry.override_set.globset (unwrap_or (codes "*") method) in
      let found =
        matching_override-deciding registry.override_set (unwrap_or (codes "*") method)
        ∙ ap (λ es. map_option (λ e. e.policy) (deciding es is)) parts.entries
        ∙ ap (map_option (λ e. e.policy)) (deciding-map _ config.methods.overrides is) in
      rw (found, parts.defaults) refl

  -- A method gets the policy of the last override whose pattern it matches, in a set that is built
  -- of the globs of all overrides' patterns in order, and the method defaults if it matches none;
  -- a request without a method counts as the method `*`. Its tolerance, timeout, number of
  -- attempts and weight multiplier are each the override's own if given, else those of the group
  -- that it names, else the method defaults', else `balanced`, the configuration's timeout and
  -- number of attempts, and 1; its weight of each provider is the override's last for that
  -- provider, else the group's last, else the method defaults', else none; and if any of the three
  -- has backoff settings, its minimum, maximum and jitter are each taken from the first that gives
  -- it, else 200 ms, 2000 ms and 0.3, and otherwise it has no backoff.
  pub resolve-Precedes :
      (config : ProxyConfig F) (registry : Methods.MethodRegistry fl globs) (method : Option Text)
      → Methods.new fl globs config ≡ inr registry
      → (added : List Glob) × (set : GlobSet) × AreGlobs fl globs
          (map (λ o. o.pattern) config.methods.overrides)
          added
        × (build added ≡ inr set)
        × (let cfg =
              unwrap_or unset
                (deciding config.methods.overrides (matches set (unwrap_or (codes "*") method))) in
            Precedes fl config cfg
              (group_named config cfg.group)
              (Methods.resolve fl globs registry method))
  resolve-Precedes config registry method made =
      let parts = new-IsBuilt fl globs config registry made in
      let set = registry.override_set.globset in
      let chosen = deciding config.methods.overrides (matches set (unwrap_or (codes "*") method)) in
      (
        parts.added,
        set,
        parts.valid,
        parts.built,
        subst
            (Precedes fl config (unwrap_or unset chosen)
              (group_named config (unwrap_or unset chosen).group))
            (sym (resolve-chosen config registry method parts)) (chosen-Precedes config chosen),
      )
