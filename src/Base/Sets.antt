-- ===== src/Base/Sets.antt =====
-- Lemmas on `contains` and on lists without duplicates.
use mathlib.Core.Path.{◌≡◌, refl}
use mathlib.Core.Logic.{inl, inr}
use mathlib.Core.Bool.{Bool, true, false, ◌||◌}
use mathlib.Core.List.{List, [], ◌∷◌, ◌++◌, map}
use native.Mathlib.Omega.{arith}
use rpceth.Base.Lists.{Member, Member-cons}
use rpceth.Base.Strings.{Text, same_iff, same_self}
use rpceth.Base.Maps.{contains, AllDistinct}

pub contains-append :
    (s t : List Text) (k : Text) → contains (s ++ t) k ≡ (contains s k || contains t k)
unfolding contains
contains-append [] t k = refl
contains-append (j ∷ s) t k = ground (arith, contains-append s t k)

pub absent-append :
    (s t : List Text) (k : Text)
    → contains (s ++ t) k ≡ false
    → (contains s k ≡ false) × (contains t k ≡ false)
absent-append s t k h = ground (arith, h, contains-append s t k)

pub AllDistinct-append :
    (s t : List Text)
    → AllDistinct (s ++ t)
    → AllDistinct t × ((k : Text) → contains s k ≡ true → contains t k ≡ false)
unfolding contains
AllDistinct-append [] t h = (h, λ k e. cc)
AllDistinct-append (j ∷ s) t (new, h) =
    let (later, apart) = AllDistinct-append s t h in
    (later, λ k e. ground (arith, new, apart k, contains-append s t j, same_iff j k))

pub map-contains :
    (f : Text → Text) (s : List Text) (v : Text) → Member v s → contains (map f s) (f v) ≡ true
unfolding contains
map-contains f (j ∷ s) v at = elim (Member-cons at) [
  | inl first ↦ rw first (ground (arith, same_self (f v)))
  | inr later ↦ ground (arith, map-contains f s v later)
]
map-contains f [] v at = elim at [ ]

pub or-false : (a b : Bool) → (a || b) ≡ false → (a ≡ false) × (b ≡ false)
or-false a b h = ground arith
