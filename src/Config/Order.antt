-- ===== src/Config/Order.antt =====
-- The maps of a configuration have no fixed order of iteration: what `validate` of
-- crates/proxy-core/src/config.rs accepts does not depend on it.
use mathlib.Core.List.{Permᴰ, Perm, append_assoc}
use mathlib.Core.List.Perm
use mathlib.Core.List.Permᴰ
use mathlib.Core.Logic.{∥∥₁_elim}
use rpceth.Base.{
  ◌≡◌, ◌↔◌, sym, subst, ◌∙◌, true, List, ◌++◌, Text, Dict, get, is_some, inl, inr, Option, none,
  some, All-weaken, AllValues-Permᴰ, All-Permᴰ, AllDistinct-Permᴰ, is_some-get-Permᴰ, map,
}
use rpceth.Float.{Float}
use rpceth.Refusal.{Accepted, Result}
use rpceth.Config.{ProxyConfig, ChainConfig, MethodGroupConfig, MethodConfig, MethodOverrideConfig}
use rpceth.Config.Validation.{validate}
use rpceth.Config.Valid.{ValidMethods, ValidGroup, ValidOverride, Given}
use rpceth.Config.Names.{names, names_of, ValidChain}
use rpceth.Config.Accepts.{ValidChains, validate_iff}

Accepted-IsProp : (r : Result (Unit {0})) → IsProp (Accepted r)
Accepted-IsProp r = hlevel

append_swap {ℓ} : {A : Type ℓ} (a b l : List A) → Permᴰ (a ++ (b ++ l)) (b ++ (a ++ l))
append_swap a b l =
    subst (λ left. Permᴰ left (b ++ (a ++ l))) (append_assoc a b l)
      (subst (Permᴰ ((a ++ b) ++ l)) (append_assoc b a l)
        (Permᴰ.append_right l (Permᴰ.append_comm a b)))

names-Permᴰ : {c d : Dict ChainConfig} → Permᴰ c d → Permᴰ (names c) (names d)
names-Permᴰ Permᴰ.nil = Permᴰ.nil
names-Permᴰ (Permᴰ.cons {b} {l₁} {l₂} e d) = rw e (Permᴰ.append_left (names_of b) (names-Permᴰ d))
names-Permᴰ (Permᴰ.swap {a'} {b'} {l} e e') =
    rw (e, e') (append_swap (names_of b') (names_of a') (names l))
names-Permᴰ (Permᴰ.trans p q) = Permᴰ.trans (names-Permᴰ p) (names-Permᴰ q)

module _ (fl : Float) where
  open fl use {F}

  -- A configuration with its maps in other orders.
  unfoldable pub reordered :
      ProxyConfig F → Dict ChainConfig → Dict (MethodGroupConfig F) → ProxyConfig F
  reordered config chains groups = record config {
    chains = chains;
    methods = record config.methods { groups = groups };
  }

  ValidOverride-Permᴰ :
      {groups groups' : Dict (MethodGroupConfig F)}
      → Permᴰ groups groups'
      → (cfg : MethodOverrideConfig F) → ValidOverride fl groups cfg
      → ValidOverride fl groups' cfg
  ValidOverride-Permᴰ {groups} {groups'} d cfg
        (pattern, (timeout, (retries, (weight, (backoff, group))))) =
      (pattern, (timeout, (retries, (weight, (backoff, known cfg.group group)))))
    where
      known :
          (o : Option Text)
          → Given (λ name. is_some (get name groups) ≡ true) o
          → Given (λ name. is_some (get name groups') ≡ true) o
      known none h = h
      known (some name) h = sym (is_some-get-Permᴰ name d) ∙ h

  ValidMethods-Permᴰ :
      (m : MethodConfig F) {groups : Dict (MethodGroupConfig F)}
      → Permᴰ m.groups groups
      → ValidMethods fl m
      → ValidMethods fl (record m { groups = groups })
  ValidMethods-Permᴰ m d (backoff, (timeout, (retries, (weight, (valid, overrides))))) = (
    backoff,
    (
      timeout,
      (
        retries,
        (
          weight,
          (
            AllValues-Permᴰ (ValidGroup fl) d valid,
            All-weaken m.overrides (ValidOverride-Permᴰ d) overrides,
          ),
        ),
      ),
    ),
  )

  ValidChains-Permᴰ :
      (config : ProxyConfig F) {chains : Dict ChainConfig}
      → Permᴰ config.chains chains
      → ValidChains config
      → ValidChains (record config { chains = chains })
  ValidChains-Permᴰ config {chains} d (inl (nil, blank)) =
      inl (sym (Perm.nil-eq (subst (λ c. Perm c chains) nil ∣ d ∣₁)), blank)
  ValidChains-Permᴰ config {chains} d
        (inr (ne, (name, default, (full, (known, (valid, distinct)))))) =
      inr (
        λ nil. ne (Perm.eq-nil (subst (Perm config.chains) nil ∣ d ∣₁)),
        (
          name,
          default,
          (
            full,
            (
              sym (is_some-get-Permᴰ name d) ∙ known,
              (
                All-Permᴰ (ValidChain (map (λ p. p.id) config.providers)) d valid,
                AllDistinct-Permᴰ (names-Permᴰ d) distinct,
              ),
            ),
          ),
        ),
      )

  validate-Permᴰ :
      (config : ProxyConfig F) {chains : Dict ChainConfig} {groups : Dict (MethodGroupConfig F)}
      → Permᴰ config.chains chains
      → Permᴰ config.methods.groups groups
      → Accepted (validate fl config)
      → Accepted (validate fl (reordered config chains groups))
  unfolding reordered
  validate-Permᴰ config {chains} {groups} d e accepted =
      let (timeout, (retries, (key, (circuit, (some_one, (providers, (methods, named))))))) =
        (validate_iff fl config).0 accepted in
      (validate_iff fl (reordered config chains groups)).1 (
        timeout,
        (
          retries,
          (
            key,
            (
              circuit,
              (
                some_one,
                (
                  providers,
                  (ValidMethods-Permᴰ config.methods e methods, ValidChains-Permᴰ config d named),
                ),
              ),
            ),
          ),
        ),
      )

  -- Whether `validate` accepts a configuration does not depend on the order in which its hash maps
  -- of chains and of method groups are iterated: a configuration with both in other orders is
  -- accepted if and only if it is.
  pub validate-reordered :
      (config : ProxyConfig F) (chains : Dict ChainConfig) (groups : Dict (MethodGroupConfig F))
      → Perm config.chains chains
      → Perm config.methods.groups groups
      → Accepted (validate fl config) ↔ Accepted (validate fl (reordered config chains groups))
  unfolding reordered
  validate-reordered config chains groups p q =
      let other = reordered config chains groups in
      (
        λ a. ∥∥₁_elim p (Accepted-IsProp (validate fl other)) (λ d.
            ∥∥₁_elim q (Accepted-IsProp (validate fl other)) (λ e. validate-Permᴰ config d e a)),
        λ a. ∥∥₁_elim p (Accepted-IsProp (validate fl config)) (λ d.
            ∥∥₁_elim q (Accepted-IsProp (validate fl config))
              (λ e. validate-Permᴰ other (Permᴰ.symm d) (Permᴰ.symm e) a)),
      )
