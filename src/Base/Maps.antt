-- ===== src/Base/Maps.antt =====
-- Hash maps and hash sets as association lists and lists, in the order in which they are iterated.
use mathlib.Core.Path.{◌≡◌, refl, ap, ◌∙◌}
use mathlib.Core.Logic.{inl, inr}
use mathlib.Core.Bool.{Bool, false, ◌||◌}
use mathlib.Core.Option.{Option, none, some}
use mathlib.Core.List.{List, [], ◌∷◌, map}
use native.Mathlib.Omega.{arith}
use rpceth.Base.Tests.{if◌then◌else◌, map_option, Bool-cases}
use rpceth.Base.Lists.{Member, here, there}
use rpceth.Base.Strings.{Text, same, same_iff}

abbrev pub Dict {ℓ} : Type ℓ → Type ℓ
Dict V = List (Text × V)

module _ {ℓ} {V : Type ℓ} where
  unfoldable pub get : Text → Dict V → Option V
  get k [] = none
  get k ((j, v) ∷ m) = if same j k then some v else get k m

  unfoldable pub insert : Text → V → Dict V → Dict V
  insert k v [] = (k, v) ∷ []
  insert k v ((j, w) ∷ m) = if same j k then (j, v) ∷ m else (j, w) ∷ insert k v m

  -- `get_mut` followed by a write: a missing key changes nothing.
  unfoldable pub modify : Text → (V → V) → Dict V → Dict V
  modify k f [] = []
  modify k f ((j, w) ∷ m) = if same j k then (j, f w) ∷ m else (j, w) ∷ modify k f m

  abbrev pub keys : Dict V → List Text
  keys = map λ p. p.0

  pub get-insert :
      (k j : Text) (v : V) (m : Dict V)
      → get j (insert k v m) ≡ (if same k j then some v else get j m)
  unfolding get insert
  get-insert k j v [] = refl
  get-insert k j v ((i, w) ∷ m) =
      ground (arith, same_iff k j, same_iff i k, same_iff i j, get-insert k j v m)

  pub get-modify :
      (k j : Text) (f : V → V) (m : Dict V)
      → get j (modify k f m) ≡ (if same k j then map_option f (get j m) else get j m)
  unfolding get modify
  get-modify k j f [] = ground arith
  get-modify k j f ((i, w) ∷ m) =
      ground (arith, same_iff k j, same_iff i k, same_iff i j, get-modify k j f m)

  pub keys-modify : (k : Text) (f : V → V) (m : Dict V) → keys (modify k f m) ≡ keys m
  unfolding modify
  keys-modify k f [] = refl
  keys-modify k f ((i, w) ∷ m) = ground (arith, keys-modify k f m)

-- What holds of every value of a map.
abbrev pub AllValues {ℓ κ} : {V : Type ℓ} → (V → Type κ) → Dict V → Type κ
AllValues P [] = Unit
AllValues P (e ∷ m) = P e.1 × AllValues P m

module _ {ℓ κ} {V : Type ℓ} (P : V → Type κ) where
  pub AllValues-insert :
      (k : Text) (v : V) (m : Dict V) → P v → AllValues P m → AllValues P (insert k v m)
  unfolding insert
  AllValues-insert k v [] p h = (p, tt)
  AllValues-insert k v ((j, w) ∷ m) p (q, h) = elim (Bool-cases (same j k)) [
    | inl hit ↦ rw (hit, insert) (p, h)
    | inr miss ↦ rw (miss, insert) (q, AllValues-insert k v m p h)
  ]

  pub AllValues-modify :
      (k : Text) (f : V → V) (m : Dict V)
      → ((v : V) → P v → P (f v))
      → AllValues P m
      → AllValues P (modify k f m)
  unfolding modify
  AllValues-modify k f [] step h = tt
  AllValues-modify k f ((j, w) ∷ m) step (q, h) = elim (Bool-cases (same j k)) [
    | inl hit ↦ rw (hit, modify) (step w q, h)
    | inr miss ↦ rw (miss, modify) (q, AllValues-modify k f m step h)
  ]

  pub AllValues-get : (m : Dict V) (k : Text) (v : V) → get k m ≡ some v → AllValues P m → P v
  unfolding get
  AllValues-get [] k v e h = cc
  AllValues-get ((j, x) ∷ m) k v e (p, h) = elim (Bool-cases (same j k)) [
    | inl hit ↦ let e' = rw hit at e in let one : x ≡ v = cc in rw (← one) p
    | inr miss ↦ AllValues-get m k v (rw miss at e) h
  ]

  pub AllValues-Member : (m : Dict V) (e : Text × V) → Member e m → AllValues P m → P e.1
  AllValues-Member [] e at h = elim at [ ]
  AllValues-Member (e' ∷ m) e here (p, h) = p
  AllValues-Member (e' ∷ m) e (there at) (p, h) = AllValues-Member m e at h

pub get-Member :
    {V : Type 0} (m : Dict V) (k : Text) (v : V) → get k m ≡ some v → Member {A = Text × V} (k, v) m
unfolding get
get-Member [] k v e = cc
get-Member {V} ((j, w) ∷ m) k v e = elim (Bool-cases (same j k)) [
  | inl hit ↦
      let key = (same_iff j k).0 hit in
      let found = rw hit at e in let value : w ≡ v = cc in rw (key, value) here
  | inr miss ↦ there (get-Member m k v (rw miss at e))
]

-- A hash set.
unfoldable pub contains : List Text → Text → Bool
contains [] k = false
contains (j ∷ s) k = same j k || contains s k

unfoldable pub add : Text → List Text → List Text
add k s = if contains s k then s else k ∷ s

pub contains-add : (k j : Text) (s : List Text) → contains (add k s) j ≡ (same k j || contains s j)
unfolding add contains
contains-add k j s = ground (arith, same_iff k j)

-- `collect` into a hash set.
unfoldable pub to_set : List Text → List Text
unfolding add
to_set [] = []
to_set (k ∷ s) = add k (to_set s)

pub contains-to_set : (s : List Text) (j : Text) → contains (to_set s) j ≡ contains s j
unfolding to_set contains
contains-to_set [] j = refl
contains-to_set (k ∷ s) j =
    contains-add k j (to_set s) ∙ ap (λ later. same k j || later) (contains-to_set s j)

abbrev pub AllDistinct : List Text → Type 0
AllDistinct [] = Unit
AllDistinct (k ∷ s) = (contains s k ≡ false) × AllDistinct s
