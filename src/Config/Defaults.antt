-- ===== src/Config/Defaults.antt =====
-- What `validate` of crates/proxy-core/src/config.rs accepts of a configuration as it is written: the
-- fields that are left out take their defaults.
use rpceth.Base.{
  ◌≤◌, ◌≡◌, ◌≢◌, ◌↔◌, refl, ap, Option, none, some, unwrap_or, List, [], ◌∷◌, map, All, AllDistinct,
  trim, arith,
}
use rpceth.Float.{Float}
use rpceth.Refusal.{Accepted}
use rpceth.Config.{default_methods}
use rpceth.Config.Given.{GivenProvider, GivenConfig, fill_provider, fill}
use rpceth.Config.Validation.{validate}
use rpceth.Config.Valid.{Given, Positive, ValidCircuit, ValidMethods}
use rpceth.Config.Accepts.{ValidProvider, ValidChains, validate_iff}

-- A field has a valid value if its default is valid, and what is given for it, if anything.
unwrap_or-Given {ℓ κ} :
    {A : Type ℓ} (P : A → Type κ) (default : A) (o : Option A)
    → P default
    → P (unwrap_or default o) ↔ Given P o
unwrap_or-Given P default none h = (λ p. tt, λ p. h)
unwrap_or-Given P default (some a) h = (λ p. p, λ p. p)

abbrev pub ValidGivenProvider : GivenProvider → Type 0
ValidGivenProvider g =
    Given (λ w. (1 ≤ w) × (w ≤ 1_000)) g.base_weight
    × (Given Positive g.max_connections × Given Positive g.timeout_ms)

fill_provider-ValidProvider :
    (g : GivenProvider) → ValidProvider (fill_provider g) ↔ ValidGivenProvider g
unfolding fill_provider
fill_provider-ValidProvider g =
    let (w, w') = unwrap_or-Given (λ w. (1 ≤ w) × (w ≤ 1_000)) 100 g.base_weight (omega arith) in
    let (c, c') = unwrap_or-Given Positive 32 g.max_connections (omega arith) in
    let (t, t') = unwrap_or-Given Positive 5_000 g.timeout_ms (omega arith) in
    (λ p. (w p.0, (c p.1.0, t p.1.1)), λ p. (w' p.0, (c' p.1.0, t' p.1.1)))

fill_provider-All :
    (gs : List GivenProvider) → All ValidProvider (map fill_provider gs) ↔ All ValidGivenProvider gs
fill_provider-All [] = (λ p. tt, λ p. tt)
fill_provider-All (g ∷ gs) =
    let (to, from) = fill_provider-ValidProvider g in
    let (f, h) = fill_provider-All gs in (λ p. (to p.0, f p.1), λ p. (from p.0, h p.1))

ids-fill_provider :
    (gs : List GivenProvider) → map (λ p. p.id) (map fill_provider gs) ≡ map (λ g. g.id) gs
unfolding fill_provider
ids-fill_provider [] = refl
ids-fill_provider (g ∷ gs) = ap (λ ids. g.id ∷ ids) (ids-fill_provider gs)

map-ne-nil {ℓ κ} : {A : Type ℓ} {B : Type κ} (f : A → B) (xs : List A) → (map f xs ≢ []) ↔ (xs ≢ [])
map-ne-nil f [] = (λ h e. h refl, λ h e. h refl)
map-ne-nil f (x ∷ xs) = (λ h e. cc, λ h e. cc)

module _ (fl : Float) where
  open fl use {F}

  -- What is given is valid; of the chains and the default chain, that they fit each other.
  abbrev pub ValidGiven : GivenConfig F → Type 0
  ValidGiven g =
      Given Positive g.default_timeout_ms
      × (Given Positive g.max_retries
          × ((trim g.auth.api_key ≢ [])
              × (Given ValidCircuit g.circuit_breaker
                  × ((g.providers ≢ [])
                      × ((All ValidGivenProvider g.providers
                            × AllDistinct (map (λ p. p.id) g.providers))
                          × (Given (ValidMethods fl) g.methods × ValidChains (fill g)))))))

  -- A configuration as it is written, with fields left out, is accepted by `validate` if and only
  -- if the fields that are given are valid (a field that is left out never has it refused), the
  -- API key is not blank, there is a provider, no two providers have one id, and the chains and
  -- the default chain fit each other.
  pub validate-fill : (g : GivenConfig F) → Accepted (validate fl (fill g)) ↔ ValidGiven g
  unfolding fill
  validate-fill g =
      let (accepts, valid) = validate_iff fl (fill g) in
      let (t, t') = unwrap_or-Given Positive 5_000 g.default_timeout_ms (omega arith) in
      let (r, r') = unwrap_or-Given Positive 3 g.max_retries (omega arith) in
      let (c, c') = unwrap_or-Given ValidCircuit _ g.circuit_breaker (tt, (tt, tt)) in
      let (m, m') =
        unwrap_or-Given (ValidMethods fl) default_methods g.methods
          (tt, (tt, (tt, (tt, (tt, tt))))) in
      let (n, n') = map-ne-nil fill_provider g.providers in
      let (p, p') = fill_provider-All g.providers in
      let ids = ids-fill_provider g.providers in
      (
        λ a.
            let (
              timeout,
              (retries, (key, (circuit, (some_one, ((providers, distinct), (methods, chains)))))),
            ) =
              accepts a in
            (
              t timeout,
              (
                r retries,
                (
                  key,
                  (
                    c circuit,
                    (n some_one, ((p providers, rw ids at distinct), (m methods, chains))),
                  ),
                ),
              ),
            ),
        λ v.
            let (
              timeout,
              (retries, (key, (circuit, (some_one, ((providers, distinct), (methods, chains)))))),
            ) =
              v in
            valid (
              t' timeout,
              (
                r' retries,
                (
                  key,
                  (
                    c' circuit,
                    (n' some_one, ((p' providers, rw ids distinct), (m' methods, chains))),
                  ),
                ),
              ),
            ),
      )
