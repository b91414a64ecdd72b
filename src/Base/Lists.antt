-- ===== src/Base/Lists.antt =====
-- Lists measured and indexed by native numbers, and predicates on all elements.
use Prim.Native.Nat.{ℕ, zero, suc, ◌<◌}
use mathlib.Core.Path.{◌≡◌, refl, ap}
use mathlib.Core.Bool.{Bool, true, false, ◌&&◌, ◌||◌}
use mathlib.Core.Option.{Option, none, some}
use mathlib.Core.List.{List, [], ◌∷◌, map}
use native.Mathlib.Omega.{arith}
use mathlib.Core.Logic.{◌≢◌, ◌↔◌, ◌⊎◌, inl, inr}
use rpceth.Base.Tests.{if◌then◌else◌, is_some, Bool-cases}

module _ {ℓ} {A : Type ℓ} where
  abbrev pub length : List A → ℕ
  length [] = 0
  length (x ∷ xs) = suc (length xs)

  abbrev pub get_elem? : List A → ℕ → Option A
  get_elem? [] i = none
  get_elem? (x ∷ xs) zero = some x
  get_elem? (x ∷ xs) (suc i) = get_elem? xs i

  abbrev pub is_empty : List A → Bool
  is_empty [] = true
  is_empty (x ∷ xs) = false

  abbrev pub filter : (A → Bool) → List A → List A
  filter p [] = []
  filter p (x ∷ xs) = let rest = filter p xs in if p x then x ∷ rest else rest

  -- `Iterator::find`
  abbrev pub find : (A → Bool) → List A → Option A
  find p [] = none
  find p (x ∷ xs) = let rest = find p xs in if p x then some x else rest

  -- `Iterator::any`
  abbrev pub any : (A → Bool) → List A → Bool
  any p [] = false
  any p (x ∷ xs) = p x || any p xs

  abbrev pub all : (A → Bool) → List A → Bool
  all p [] = true
  all p (x ∷ xs) = p x && all p xs

  abbrev pub All {κ} : (A → Type κ) → List A → Type κ
  All P [] = Unit
  All P (x ∷ xs) = P x × All P xs

  -- Membership as data: the position is kept.
  pub data Member (a : A) : List A → Type ℓ where
    here : {xs : List A} → Member a (a ∷ xs)
    there : {x : A} {xs : List A} → Member a xs → Member a (x ∷ xs)

module _ {ℓ} {A : Type ℓ} where
  pub Member-cons : {x y : A} {xs : List A} → Member x (y ∷ xs) → (y ≡ x) ⊎ Member x xs
  Member-cons here = inl refl
  Member-cons (there m) = inr m

  pub Member-is_empty : {x : A} {xs : List A} → Member x xs → is_empty xs ≡ false
  Member-is_empty here = refl
  Member-is_empty (there m) = refl

  pub Member-ne-nil : {x : A} {xs : List A} → Member x xs → xs ≢ []
  Member-ne-nil here e = cc
  Member-ne-nil (there m) e = cc

  pub get_elem?-Member : (xs : List A) (i : ℕ) {x : A} → get_elem? xs i ≡ some x → Member x xs
  get_elem?-Member [] i e = cc
  get_elem?-Member (y ∷ xs) zero {x} e = let same_one : y ≡ x = cc in rw same_one here
  get_elem?-Member (y ∷ xs) (suc i) e = there (get_elem?-Member xs i e)

  pub get_elem?-IsSome : (xs : List A) (i : ℕ) → i < length xs → is_some (get_elem? xs i) ≡ true
  get_elem?-IsSome [] i h = elim h [ ]
  get_elem?-IsSome (x ∷ xs) zero h = refl
  get_elem?-IsSome (x ∷ xs) (suc i) h = get_elem?-IsSome xs i (omega arith)

  pub length-map {κ} : {B : Type κ} (f : A → B) (xs : List A) → length (map f xs) ≡ length xs
  length-map f [] = refl
  length-map f (x ∷ xs) = ap suc (length-map f xs)

pub All-weaken {ℓ κ μ} :
    {A : Type ℓ} {P : A → Type κ} {Q : A → Type μ} (xs : List A)
    → ((x : A) → P x → Q x)
    → All P xs
    → All Q xs
All-weaken [] step h = tt
All-weaken (x ∷ xs) step (p, h) = (step x p, All-weaken xs step h)

pub All-Member {ℓ κ} :
    {A : Type ℓ} (P : A → Type κ) (xs : List A) (x : A) → Member x xs → All P xs → P x
All-Member P [] x at h = elim at [ ]
All-Member P (y ∷ xs) x here (p, h) = p
All-Member P (y ∷ xs) x (there at) (p, h) = All-Member P xs x at h

module _ {ℓ} {A : Type ℓ} (f : A → Bool) where
  pub filter-Member : (xs : List A) {x : A} → Member x (filter f xs) → Member x xs × (f x ≡ true)
  filter-Member [] m = elim m [ ]
  filter-Member (y ∷ xs) {x} m = elim (Bool-cases (f y)) [
    | inl kept ↦ elim (Member-cons (rw kept at m)) [
      | inl same ↦ rw (← same) (here, kept)
      | inr later ↦ let (at, holds) = filter-Member xs later in (there at, holds)
    ]
    | inr dropped ↦ let (at, holds) = filter-Member xs (rw dropped at m) in (there at, holds)
  ]

  pub Member-filter : (xs : List A) {x : A} → Member x xs → f x ≡ true → Member x (filter f xs)
  Member-filter [] m holds = elim m [ ]
  Member-filter (y ∷ xs) here holds = rw holds here
  Member-filter (y ∷ xs) (there m) holds = elim (Bool-cases (f y)) [
    | inl kept ↦ rw kept (there (Member-filter xs m holds))
    | inr dropped ↦ rw dropped (Member-filter xs m holds)
  ]

  pub any_iff : (xs : List A) → (any f xs ≡ true) ↔ ((x : A) × Member x xs × (f x ≡ true))
  any_iff [] = (λ e. cc, λ found. elim found.1 [ ])
  any_iff (y ∷ xs) = (
    λ e. elim (Bool-cases (f y)) [
      | inl hit ↦ (y, here, hit)
      | inr miss ↦ let (x, at, holds) = (any_iff xs).0 (rw miss at e) in (x, there at, holds)
    ],
    λ found.
        let (x, at, holds) = found in
        elim (Member-cons at) [
          | inl same ↦ ground arith
          | inr later ↦ let rest = (any_iff xs).1 (x, later, holds) in ground arith
        ],
  )

  pub all_iff : (xs : List A) → (all f xs ≡ true) ↔ ((x : A) → Member x xs → f x ≡ true)
  all_iff [] = (λ e x m. elim m [ ], λ h. refl)
  all_iff (y ∷ xs) = (
    λ e x m. elim (Member-cons m) [
      | inl same ↦ ground arith
      | inr later ↦ (all_iff xs).0 (ground arith) x later
    ],
    λ h. let first = h y here in let later = (all_iff xs).1 (λ x m. h x (there m)) in ground arith,
  )
