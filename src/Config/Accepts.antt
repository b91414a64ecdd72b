-- ===== src/Config/Accepts.antt =====
-- What `validate` of crates/proxy-core/src/config.rs accepts.
use rpceth.Base.{
  ℕ, ◌≤◌, ◌≡◌, ◌≢◌, ◌↔◌, ◌⊎◌, inl, inr, refl, true, false, not, ◌==◌, some, List, [], ◌∷◌, Text,
  get, is_some, is_empty, contains, add, All, AllDistinct, map, trim, arith, Option-cases,
  Bool-cases,
}
use rpceth.Provider
use rpceth.Provider.{ProviderId, ProviderConfig}
use rpceth.Float.{Float}
use rpceth.Refusal.{Accepted, refuse_if_iff, >>_iff}
use rpceth.Config.{ProxyConfig}
use rpceth.Config.Chains.{validate_chains, validate_named_chains}
use rpceth.Config.Validation.{validate_providers, validate}
use rpceth.Config.Valid.{
  Given, Positive, ValidCircuit, ValidMethods, is_empty-ne, validate_circuit_breaker-ValidCircuit,
  validate_methods-ValidMethods,
}
use rpceth.Config.Names.{names, ValidChain, Fresh, Fresh-AllDistinct, validate_chain_entries-Fresh}

abbrev pub ValidProvider : ProviderConfig → Type 0
ValidProvider c =
    ((1 ≤ c.base_weight) × (c.base_weight ≤ 1_000))
    × (Positive c.max_connections × Positive c.timeout_ms)

is_zero-Positive : (n : ℕ) → ((n == 0) ≡ false) ↔ Positive n
is_zero-Positive n = (λ e. ground arith, λ p. ground arith)

validate-ValidProvider : (c : ProviderConfig) → Accepted (Provider.validate c) ↔ ValidProvider c
unfolding Provider.validate
validate-ValidProvider c =
    >>_iff (refuse_if_iff _ _ (λ e. (ground arith, ground arith), λ p. ground (arith, p.0, p.1))) (
      >>_iff (refuse_if_iff _ _ (is_zero-Positive c.max_connections))
        (refuse_if_iff _ _ (is_zero-Positive c.timeout_ms)))

validate_providers-Fresh :
    (ids : List ProviderId) (ps : List ProviderConfig)
    → Accepted (validate_providers ids ps) ↔ (All ValidProvider ps × Fresh ids (map (λ p. p.id) ps))
unfolding validate_providers
validate_providers-Fresh ids [] = (λ e. (tt, tt), λ p. refl)
validate_providers-Fresh ids (c ∷ ps) =
    let (to, from) = >>_iff (validate-ValidProvider c) (
      >>_iff (refuse_if_iff _ _ (λ (e : contains ids c.id ≡ false). e, λ e. e))
        (validate_providers-Fresh (add c.id ids) ps)) in
    (
      λ e. let (valid, (new, (rest, fresh))) = to e in ((valid, rest), (new, fresh)),
      λ p. let ((valid, rest), (new, fresh)) = p in from (valid, (new, (rest, fresh))),
    )

is_empty-nil {ℓ} : {A : Type ℓ} (xs : List A) → is_empty xs ≡ true → xs ≡ []
is_empty-nil [] e = refl
is_empty-nil (x ∷ xs) e = cc

not-is_empty {ℓ} : {A : Type ℓ} (xs : List A) → (not (is_empty xs) ≡ false) ↔ (xs ≡ [])
not-is_empty [] = (λ e. refl, λ p. refl)
not-is_empty (x ∷ xs) = (λ e. cc, λ p. cc)

module _ {F : Type 0} where
  -- With a default chain: it is one of the chains, each chain is valid, and no two names of the
  -- chains are equal.
  abbrev pub ValidNamed : ProxyConfig F → Text → Type 0
  ValidNamed config d =
      (trim d ≢ [])
      × ((is_some (get d config.chains) ≡ true)
          × (All (ValidChain (map (λ p. p.id) config.providers)) config.chains
              × AllDistinct (names config.chains)))

  abbrev pub ValidChains : ProxyConfig F → Type 0
  ValidChains config =
      ((config.chains ≡ []) × Given (λ d. trim d ≡ []) config.default_chain)
      ⊎ ((config.chains ≢ [])
          × ((d : Text) × (config.default_chain ≡ some d) × ValidNamed config d))

  validate_named_chains-ValidNamed :
      (config : ProxyConfig F) (d : Text)
      → Accepted (validate_named_chains config d) ↔ ValidNamed config d
  unfolding validate_named_chains
  validate_named_chains-ValidNamed config d =
      let (f, g) =
        validate_chain_entries-Fresh (map (λ p. p.id) config.providers) [] config.chains in
      let (to, from) = Fresh-AllDistinct (names config.chains) in
      >>_iff (refuse_if_iff _ _ (is_empty-ne (trim d))) (
        >>_iff (refuse_if_iff _ _ (λ e. ground arith, λ p. ground arith))
          (λ e. let (valid, fresh) = f e in (valid, to fresh), λ p. g (p.0, from p.1)))

  validate_chains-ValidChains :
      (config : ProxyConfig F) → Accepted (validate_chains config) ↔ ValidChains config
  unfolding validate_chains
  validate_chains-ValidChains config = elim (Bool-cases (is_empty config.chains)) [
    | inl empty ↦ elim (Option-cases config.default_chain) [
      | inl unset ↦
          rw (empty, unset, validate_chains)
            ((λ e. inl (is_empty-nil config.chains empty, tt)), λ p. refl)
      | inr (d, e) ↦
          rw (empty, e, validate_chains)
            (let (f, g) = refuse_if_iff _ _ (not-is_empty (trim d)) in
              (
                λ a. inl (is_empty-nil config.chains empty, f a),
                λ p. elim p [
                  | inl (nil, blank) ↦ g blank
                  | inr (ne, q) ↦ absurd (ne (is_empty-nil config.chains empty))
                ],
              ))
    ]
    | inr some_chains ↦ elim (Option-cases config.default_chain) [
      | inl unset ↦
          rw (some_chains, unset, validate_chains)
            (
              λ e. cc,
              λ p. elim p [
                | inl (nil, blank) ↦ absurd ((is_empty-ne config.chains).0 some_chains nil)
                | inr (ne, (d, same, v)) ↦ cc
              ],
            )
      | inr (d, e) ↦
          rw (some_chains, e, validate_chains)
            (let (f, g) = validate_named_chains-ValidNamed config d in
              (
                λ a. inr ((is_empty-ne config.chains).0 some_chains, (d, refl, f a)),
                λ p. elim p [
                  | inl (nil, blank) ↦ absurd ((is_empty-ne config.chains).0 some_chains nil)
                  | inr (ne, (d', same, v)) ↦ let one : d ≡ d' = cc in g (rw one v)
                ],
              ))
    ]
  ]

module _ (fl : Float) where
  open fl use {F}

  abbrev pub ValidConfig : ProxyConfig F → Type 0
  ValidConfig config =
      Positive config.default_timeout_ms
      × (Positive config.max_retries
          × ((trim config.auth.api_key ≢ [])
              × (ValidCircuit config.circuit_breaker
                  × ((config.providers ≢ [])
                      × ((All ValidProvider config.providers
                            × AllDistinct (map (λ p. p.id) config.providers))
                          × (ValidMethods fl config.methods × ValidChains config))))))

  -- `validate` accepts a configuration if and only if it is valid: the numbers given are positive
  -- and in their ranges, the API key is not blank, there is a provider and no two have one id, an
  -- override's pattern is not blank and its group exists; and either there are no chains and no
  -- default chain but a blank one, or the default chain is one of the chains and not blank, each
  -- chain has a name and providers, all of them known, and no blank alias, and all names and
  -- aliases of all chains, trimmed and in lower case, are distinct.
  pub validate_iff : (config : ProxyConfig F) → Accepted (validate fl config) ↔ ValidConfig config
  unfolding validate
  validate_iff config =
      let (f, g) = validate_providers-Fresh [] config.providers in
      let (to, from) = Fresh-AllDistinct (map (λ p. p.id) config.providers) in
      >>_iff (refuse_if_iff _ _ (is_zero-Positive config.default_timeout_ms)) (
        >>_iff (refuse_if_iff _ _ (is_zero-Positive config.max_retries)) (
          >>_iff (refuse_if_iff _ _ (is_empty-ne (trim config.auth.api_key))) (
            >>_iff (validate_circuit_breaker-ValidCircuit config.circuit_breaker) (
              >>_iff (refuse_if_iff _ _ (is_empty-ne config.providers)) (
                >>_iff (λ e. let (valid, fresh) = f e in (valid, to fresh), λ p. g (p.0, from p.1))
                  (>>_iff (validate_methods-ValidMethods fl config.methods)
                    (validate_chains-ValidChains config)))))))
