-- ===== src/Methods/Layers.antt =====
-- Settings that are looked for in layers (crates/proxy-core/src/methods.rs): an override, a group, the
-- method defaults.
use rpceth.Base.{
  ℕ, Bool, true, false, ◌≡◌, refl, ap, ◌∙◌, Option, none, some, List, [], ◌∷◌, unwrap_or,
  map_option, if◌then◌else◌, Bool-cases, inl, inr,
}
use rpceth.Settings.{from_millis}
use rpceth.Float.{Float}
use rpceth.Config.{BackoffConfig}
use rpceth.Methods.{ResolvedBackoff, resolve_backoff, inherit_backoff}

-- The first value that is given, else the last resort.
abbrev pub first_given {ℓ} : {A : Type ℓ} → List (Option A) → A → A
first_given [] resort = resort
first_given (some a ∷ more) resort = a
first_given (none ∷ more) resort = first_given more resort

pub first_given-unwrap {ℓ} :
    {A : Type ℓ} (a b c : Option A) (resort : A)
    → unwrap_or (unwrap_or (unwrap_or resort c) b) a ≡ first_given (a ∷ b ∷ c ∷ []) resort
first_given-unwrap (some x) b c r = refl
first_given-unwrap none (some x) c r = refl
first_given-unwrap none none (some x) r = refl
first_given-unwrap none none none r = refl

pub first_given-map :
    (f : ℕ → ℕ) (a b c : Option ℕ) (resort : ℕ)
    → unwrap_or
        (unwrap_or (unwrap_or (f resort) (map_option f c)) (map_option f b))
        (map_option f a)
      ≡ f (first_given (a ∷ b ∷ c ∷ []) resort)
first_given-map f (some x) b c r = refl
first_given-map f none (some x) c r = refl
first_given-map f none none (some x) r = refl
first_given-map f none none none r = refl

-- Whether a layer has any backoff settings.
abbrev pub any_given {ℓ} : {A : Type ℓ} → List (Option A) → Bool
any_given [] = false
any_given (some a ∷ more) = true
any_given (none ∷ more) = any_given more

-- A field of the settings of each layer.
abbrev pub field_of {ℓ κ} :
    {A : Type ℓ} {B : Type κ} → (A → Option B) → List (Option A) → List (Option B)
field_of f [] = []
field_of f (some a ∷ more) = f a ∷ field_of f more
field_of f (none ∷ more) = none ∷ field_of f more

nothing_given {ℓ κ} :
    {A : Type ℓ} {B : Type κ} (f : A → Option B) (layers : List (Option A)) (resort : B)
    → any_given layers ≡ false
    → first_given (field_of f layers) resort ≡ resort
nothing_given f [] r e = refl
nothing_given f (some a ∷ more) r e = cc
nothing_given f (none ∷ more) r e = nothing_given f more r e

unwrap_or-millis :
    (a : Option ℕ) (fs : List (Option ℕ)) (resort : ℕ)
    → unwrap_or (from_millis (first_given fs resort)) (map_option from_millis a)
      ≡ from_millis (first_given (a ∷ fs) resort)
unwrap_or-millis none fs r = refl
unwrap_or-millis (some x) fs r = refl

unwrap_or-first {ℓ} :
    {A : Type ℓ} (a : Option A) (fs : List (Option A)) (resort : A)
    → unwrap_or (first_given fs resort) a ≡ first_given (a ∷ fs) resort
unwrap_or-first none fs r = refl
unwrap_or-first (some x) fs r = refl

module _ (fl : Float) where
  open fl use {F, lit}

  -- Each setting of the first layer that gives it, else 200 ms, 2000 ms and 0.3.
  abbrev pub settings_given : List (Option (BackoffConfig F)) → ResolvedBackoff F
  settings_given layers = record {
    min = from_millis (first_given (field_of (λ b. b.min_ms) layers) 200);
    max = from_millis (first_given (field_of (λ b. b.max_ms) layers) 2_000);
    jitter = first_given (field_of (λ b. b.jitter) layers) (lit 3 1);
  }

  -- No backoff if no layer has any settings.
  abbrev pub given_backoff : List (Option (BackoffConfig F)) → Option (ResolvedBackoff F)
  given_backoff layers = if any_given layers then some (settings_given layers) else none

  resolve_backoff-given :
      (b : BackoffConfig F) (layers : List (Option (BackoffConfig F)))
      → resolve_backoff fl b (some (settings_given layers)) ≡ settings_given (some b ∷ layers)
  unfolding resolve_backoff
  resolve_backoff-given b layers =
      rw
        (
          unwrap_or-millis b.min_ms (field_of (λ b. b.min_ms) layers) 200,
          unwrap_or-millis b.max_ms (field_of (λ b. b.max_ms) layers) 2_000,
          unwrap_or-first b.jitter (field_of (λ b. b.jitter) layers) (lit 3 1),
        )
        refl

  -- Without settings to inherit, the base is what no layer gives.
  resolve_backoff-none :
      (b : BackoffConfig F) (layers : List (Option (BackoffConfig F)))
      → any_given layers ≡ false
      → resolve_backoff fl b none ≡ resolve_backoff fl b (some (settings_given layers))
  unfolding resolve_backoff
  resolve_backoff-none b layers e =
      rw
        (
          nothing_given (λ b. b.min_ms) layers 200 e,
          nothing_given (λ b. b.max_ms) layers 2_000 e,
          nothing_given (λ b. b.jitter) layers (lit 3 1) e,
        )
        refl

  inherit_backoff-given :
      (a : Option (BackoffConfig F)) (layers : List (Option (BackoffConfig F)))
      → inherit_backoff fl a (given_backoff layers) ≡ given_backoff (a ∷ layers)
  unfolding inherit_backoff
  inherit_backoff-given none layers = refl
  inherit_backoff-given (some b) layers = elim (Bool-cases (any_given layers)) [
    | inl given ↦ rw given (ap some (resolve_backoff-given b layers))
    | inr absent ↦
        rw (absent, resolve_backoff-none b layers absent) (ap some (resolve_backoff-given b layers))
  ]

  only_layer :
      (c : Option (BackoffConfig F))
      → map_option (λ cfg. resolve_backoff fl cfg none) c ≡ given_backoff (c ∷ [])
  only_layer none = refl
  only_layer (some cfg) = ap some (resolve_backoff-none cfg [] refl ∙ resolve_backoff-given cfg [])

  -- Two layers over the method defaults.
  pub inherited :
      (a b c : Option (BackoffConfig F))
      → inherit_backoff fl a
          (inherit_backoff fl b (map_option (λ cfg. resolve_backoff fl cfg none) c))
        ≡ given_backoff (a ∷ b ∷ c ∷ [])
  inherited a b c =
      ap (λ base. inherit_backoff fl a (inherit_backoff fl b base)) (only_layer c)
      ∙ ap (inherit_backoff fl a) (inherit_backoff-given b (c ∷ []))
      ∙ inherit_backoff-given a (b ∷ c ∷ [])
