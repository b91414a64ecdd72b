-- ===== src/Methods/Weights.antt =====
-- The weights that maps of crates/proxy-core/src/methods.rs have for a provider once they are merged.
use rpceth.Base.{
  ℕ, ◌≡◌, refl, sym, Option, none, some, [], ◌∷◌, map, Text, Dict, get, map_option, or_option,
  if◌then◌else◌, get-insert, insert, same, Bool-cases, inl, inr,
}
use rpceth.Float.{Float}
use rpceth.Methods

-- The last entry of a key.
abbrev pub latest : Text → Dict ℕ → Option ℕ
latest k [] = none
latest k ((j, w) ∷ m) = or_option (latest k m) (if same j k then some w else none)

pub get-map {ℓ κ} :
    {A : Type ℓ} {B : Type κ} (f : A → B) (m : Dict A) (k : Text)
    → get k (map (λ e. (e.0, f e.1)) m) ≡ map_option f (get k m)
unfolding get
get-map f [] k = refl
get-map f ((j, a) ∷ m) k = elim (Bool-cases (same j k)) [
  | inl hit ↦ rw hit refl
  | inr miss ↦ rw miss (get-map f m k)
]

module _ {ℓ κ} {A : Type ℓ} {B : Type κ} (f : A → B) where
  map_option-or_option :
      (a b : Option A) → map_option f (or_option a b) ≡ or_option (map_option f a) (map_option f b)
  map_option-or_option none b = refl
  map_option-or_option (some a) b = refl

  or_option-last :
      (a : Option A) (w : A) (b : Option B)
      → or_option (map_option f a) (some (f w)) ≡ or_option (map_option f (or_option a (some w))) b
  or_option-last none w b = refl
  or_option-last (some a) w b = refl

  or_option-nothing :
      (a : Option A) (b : Option B)
      → or_option (map_option f a) b ≡ or_option (map_option f (or_option a none)) b
  or_option-nothing none b = refl
  or_option-nothing (some a) b = refl

module _ (fl : Float) where
  open fl use {F}

  get-merge_provider_weights :
      (base : Dict F) (overrides : Dict ℕ) (id : Text)
      → get id (Methods.merge_provider_weights fl base overrides)
        ≡ or_option (map_option fl.of_nat (latest id overrides)) (get id base)
  unfolding Methods.merge_provider_weights
  get-merge_provider_weights base [] id = refl
  get-merge_provider_weights base ((j, w) ∷ more) id = elim (Bool-cases (same j id)) [
    | inl hit ↦
        rw
          (
            get-merge_provider_weights (insert j (fl.of_nat w) base) more id,
            get-insert j id (fl.of_nat w) base,
            hit,
          )
          (or_option-last fl.of_nat (latest id more) w (get id base))
    | inr miss ↦
        rw
          (
            get-merge_provider_weights (insert j (fl.of_nat w) base) more id,
            get-insert j id (fl.of_nat w) base,
            miss,
          )
          (or_option-nothing fl.of_nat (latest id more) (get id base))
  ]

  -- The weight that a map merged over the defaults has for a provider.
  pub get-merged :
      (overrides defaults : Dict ℕ) (id : Text)
      → get id (
          Methods.merge_provider_weights fl
            (Methods.normalize_provider_weights fl defaults)
            overrides)
        ≡ map_option fl.of_nat (or_option (latest id overrides) (get id defaults))
  unfolding Methods.normalize_provider_weights
  get-merged overrides defaults id =
      rw
        (
          get-merge_provider_weights (map (λ e. (e.0, fl.of_nat e.1)) defaults) overrides id,
          get-map fl.of_nat defaults id,
        )
        (sym (map_option-or_option fl.of_nat (latest id overrides) (get id defaults)))

  pub get-merged_twice :
      (overrides group defaults : Dict ℕ) (id : Text)
      → get id (
          Methods.merge_provider_weights fl
            (Methods.merge_provider_weights fl
              (Methods.normalize_provider_weights fl defaults)
              group)
            overrides)
        ≡ map_option fl.of_nat
            (or_option (latest id overrides) (or_option (latest id group) (get id defaults)))
  get-merged_twice overrides group defaults id =
      rw
        (
          get-merge_provider_weights
              (Methods.merge_provider_weights fl (Methods.normalize_provider_weights fl defaults)
                group)
              overrides id,
          get-merged group defaults id,
        )
        (sym (
          map_option-or_option fl.of_nat (latest id overrides)
            (or_option (latest id group) (get id defaults))))
