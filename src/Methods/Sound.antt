-- ===== src/Methods/Sound.antt =====
-- The backoffs that crates/proxy-core/src/methods.rs resolves from the layers of a configuration that
-- crates/proxy-core/src/config.rs accepts.
use rpceth.Base.{
  subst, codes, unwrap_or, get_elem?, Option-cases, zero, suc, ℕ, ◌≤◌, ◌<◌, ◌≡◌, refl, Option, none,
  some, List, [], ◌∷◌, Text, get, All, AllValues, AllValues-get, arith, ◌⊎◌, inl, inr, Bool-cases,
}
use rpceth.Float.{Float, IsBetween, one_f}
use rpceth.Config.{BackoffConfig, MethodConfig, ProxyConfig}
use rpceth.Config.Valid.{
  Given, Positive, Ordered, ValidBackoff, ValidGroup, ValidOverride, ValidMethods,
}
use rpceth.Methods
use rpceth.Methods.{ResolvedBackoff, MethodRegistry, Globs}
use rpceth.Methods.Layers.{first_given, any_given, field_of, given_backoff}
use rpceth.Methods.Precedence.{unset, group_named, of_group}
use rpceth.Methods.Resolution.{deciding, resolve-Precedes}

-- Both bounds are given, or neither.
abbrev pub Paired : Option ℕ → Option ℕ → Type 0
Paired none none = Unit
Paired (some min) (some max) = Unit
Paired none (some max) = ⊥
Paired (some min) none = ⊥

-- A layer before bounds that are ordered leaves them so.
bounds_before :
    (min max : Option ℕ) (mins maxs : List (Option ℕ))
    → Paired min max
    → Ordered min max
    → Given Positive max
    → (first_given mins 200 ≤ first_given maxs 2_000) × (0 < first_given maxs 2_000)
    → (first_given (min ∷ mins) 200 ≤ first_given (max ∷ maxs) 2_000)
      × (0 < first_given (max ∷ maxs) 2_000)
bounds_before none none mins maxs paired ordered positive rest = rest
bounds_before none (some n) mins maxs paired ordered positive rest = elim paired [ ]
bounds_before (some m) none mins maxs paired ordered positive rest = elim paired [ ]
bounds_before (some m) (some n) mins maxs paired ordered positive rest = (ordered, positive)

get_elem?-Given {ℓ κ} :
    {A : Type ℓ} (P : A → Type κ) (xs : List A) (i : ℕ) → All P xs → Given P (get_elem? xs i)
get_elem?-Given P [] i h = tt
get_elem?-Given P (x ∷ xs) zero (p, h) = p
get_elem?-Given P (x ∷ xs) (suc i) (p, h) = get_elem?-Given P xs i h

deciding-Given {ℓ κ} :
    {A : Type ℓ} (P : A → Type κ) (xs : List A) (is : List ℕ) → All P xs → Given P (deciding xs is)
deciding-Given P xs [] h = tt
deciding-Given P xs (i ∷ []) h = get_elem?-Given P xs i h
deciding-Given P xs (i ∷ j ∷ more) h = deciding-Given P xs (j ∷ more) h

All-both {ℓ κ μ} :
    {A : Type ℓ} (P : A → Type κ) (Q : A → Type μ) (xs : List A)
    → All P xs
    → All Q xs
    → All (λ x. P x × Q x) xs
All-both P Q [] p q = tt
All-both P Q (x ∷ xs) (p, ps) (q, qs) = ((p, q), All-both P Q xs ps qs)

module _ (fl : Float) where
  open fl use {F, lit}

  abbrev pub PairedBackoff : Option (BackoffConfig F) → Type 0
  PairedBackoff = Given λ b. Paired b.min_ms b.max_ms

  -- Each backoff of the methods gives both of its bounds, or neither.
  abbrev pub PairedMethods : MethodConfig F → Type 0
  PairedMethods m =
      PairedBackoff m.default.backoff
      × AllValues (λ g. PairedBackoff g.backoff) m.groups
      × All (λ o. PairedBackoff o.backoff) m.overrides

  -- The bounds are ordered, the upper one is positive, and the jitter is the default or a fraction.
  abbrev pub IsOrdinary : ResolvedBackoff F → Type 0
  IsOrdinary b =
      (b.min ≤ b.max) × (0 < b.max) × ((b.jitter ≡ lit 3 1) ⊎ IsBetween fl b.jitter (one_f fl))

  abbrev IsGood : Option (BackoffConfig F) → Type 0
  IsGood layer = ValidBackoff fl layer × PairedBackoff layer

  bounds_given :
      (layers : List (Option (BackoffConfig F)))
      → All IsGood layers
      → (first_given (field_of (λ b. b.min_ms) layers) 200
          ≤ first_given (field_of (λ b. b.max_ms) layers) 2_000)
        × (0 < first_given (field_of (λ b. b.max_ms) layers) 2_000)
  bounds_given [] good = (omega arith, omega arith)
  bounds_given (none ∷ more) (good, rest) = bounds_given more rest
  bounds_given (some b ∷ more) (((low, (high, (ordered, jitter))), paired), rest) =
      bounds_before b.min_ms b.max_ms _ _ paired ordered high (bounds_given more rest)

  jitter_before :
      (jitter : Option F) (jitters : List (Option F))
      → Given (λ j. IsBetween fl j (one_f fl)) jitter
      → ((first_given jitters (lit 3 1) ≡ lit 3 1)
          ⊎ IsBetween fl (first_given jitters (lit 3 1)) (one_f fl))
      → (first_given (jitter ∷ jitters) (lit 3 1) ≡ lit 3 1)
        ⊎ IsBetween fl (first_given (jitter ∷ jitters) (lit 3 1)) (one_f fl)
  jitter_before none jitters between rest = rest
  jitter_before (some j) jitters between rest = inr between

  jitter_given :
      (layers : List (Option (BackoffConfig F)))
      → All IsGood layers
      → let j = first_given (field_of (λ b. b.jitter) layers) (lit 3 1) in
        (j ≡ lit 3 1) ⊎ IsBetween fl j (one_f fl)
  jitter_given [] good = inl refl
  jitter_given (none ∷ more) (good, rest) = jitter_given more rest
  jitter_given (some b ∷ more) (((low, (high, (ordered, jitter))), paired), rest) =
      jitter_before b.jitter _ jitter (jitter_given more rest)

  given_backoff-IsOrdinary :
      (layers : List (Option (BackoffConfig F)))
      → All IsGood layers
      → Given IsOrdinary (given_backoff fl layers)
  given_backoff-IsOrdinary layers good = elim (Bool-cases (any_given layers)) [
    | inl given ↦
        let (low, high) = bounds_given layers good in
        rw given (omega arith, omega arith, jitter_given layers good)
    | inr absent ↦ rw absent tt
  ]

  -- The backoffs of groups and overrides that are valid and paired.
  group-IsGood :
      (config : ProxyConfig F) (group : Option Text)
      → ValidMethods fl config.methods
      → PairedMethods config.methods
      → IsGood (of_group (λ g. g.backoff) (group_named config group))
  group-IsGood config none valid paired = (tt, tt)
  group-IsGood config (some name) valid paired =
      elim (Option-cases (get name config.methods.groups)) [
        | inl missing ↦ rw missing (tt, tt)
        | inr (g, at) ↦
            let (v0, (v1, (v2, (v3, (groups, overrides))))) = valid in
            let (timeout, (retries, (multiplier, backoff))) =
              AllValues-get (ValidGroup fl) config.methods.groups name g at groups in
            rw at (
              backoff,
              AllValues-get (λ g. PairedBackoff g.backoff) config.methods.groups name g at paired.1,
            )
      ]

  override-IsGood :
      (config : ProxyConfig F) (is : List ℕ)
      → ValidMethods fl config.methods
      → PairedMethods config.methods
      → IsGood (unwrap_or unset (deciding config.methods.overrides is)).backoff
  override-IsGood config is (v0, (v1, (v2, (v3, (groups, overrides))))) (p0, p1, p2) =
      elim (Option-cases (deciding config.methods.overrides is)) [
        | inl missing ↦ rw missing (tt, tt)
        | inr (cfg, at) ↦
            let found =
              deciding-Given
                (λ o. ValidOverride fl config.methods.groups o × PairedBackoff o.backoff)
                config.methods.overrides is (All-both _ _ config.methods.overrides overrides p2) in
            let ((pattern, (timeout, (retries, (multiplier, (backoff, group))))), both) =
              subst (Given λ o. ValidOverride fl config.methods.groups o × PairedBackoff o.backoff)
                at found in
            rw at (backoff, both)
      ]

  pub resolve-IsOrdinary :
      (globs : Globs) (config : ProxyConfig F) (registry : MethodRegistry fl globs)
      (method : Option Text)
      → Methods.new fl globs config ≡ inr registry
      → ValidMethods fl config.methods
      → PairedMethods config.methods
      → Given IsOrdinary (Methods.resolve fl globs registry method).backoff
  resolve-IsOrdinary globs config registry method made valid paired =
      let (added, set, globs_of, built, settled) =
        resolve-Precedes fl globs config registry method made in
      let is = globs.matches set (unwrap_or (codes "*") method) in
      let cfg = unwrap_or unset (deciding config.methods.overrides is) in
      rw settled.backoff (
        let layers : List (Option (BackoffConfig F)) =
          cfg.backoff
          ∷ of_group (λ g. g.backoff) (group_named config cfg.group)
          ∷ config.methods.default.backoff
          ∷ [] in
        let good : All IsGood layers = (
          override-IsGood config is valid paired,
          (group-IsGood config cfg.group valid paired, ((valid.0, paired.0), tt)),
        ) in
        given_backoff-IsOrdinary layers good)
