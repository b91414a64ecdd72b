-- ===== src/Base/Orders.antt =====
-- What is the same in each order of a list, for the maps whose order of iteration is not fixed.
use mathlib.Core.List.{Permᴰ}
use mathlib.Core.Path.{◌≡◌, refl, sym, subst, ap, ◌∙◌}
use mathlib.Core.Bool.{Bool, true, false, ◌||◌}
use mathlib.Core.Option.{Option, some}
use mathlib.Core.List.{List, ◌∷◌}
use native.Mathlib.Omega.{arith}
use rpceth.Base.Tests.{if◌then◌else◌, is_some}
use rpceth.Base.Lists.{All}
use rpceth.Base.Strings.{Text, same, same_iff}
use rpceth.Base.Maps.{Dict, get, contains, AllDistinct, AllValues}

pub All-Permᴰ {ℓ κ} :
    {A : Type ℓ} (P : A → Type κ) {xs ys : List A} → Permᴰ xs ys → All P xs → All P ys
All-Permᴰ P Permᴰ.nil h = h
All-Permᴰ P (Permᴰ.cons e d) (p, h) = (subst P e p, All-Permᴰ P d h)
All-Permᴰ P (Permᴰ.swap e e') (p, (q, h)) = (subst P e' q, (subst P e p, h))
All-Permᴰ P (Permᴰ.trans d d') h = All-Permᴰ P d' (All-Permᴰ P d h)

pub AllValues-Permᴰ {κ} :
    {V : Type 0} (P : V → Type κ) {m n : Dict V} → Permᴰ m n → AllValues P m → AllValues P n
AllValues-Permᴰ P Permᴰ.nil h = h
AllValues-Permᴰ P (Permᴰ.cons e d) (p, h) = (subst (λ x. P x.1) e p, AllValues-Permᴰ P d h)
AllValues-Permᴰ P (Permᴰ.swap e e') (p, (q, h)) =
    (subst (λ x. P x.1) e' q, (subst (λ x. P x.1) e p, h))
AllValues-Permᴰ P (Permᴰ.trans d d') h = AllValues-Permᴰ P d' (AllValues-Permᴰ P d h)

pub contains-Permᴰ : (k : Text) {s t : List Text} → Permᴰ s t → contains s k ≡ contains t k
unfolding contains
contains-Permᴰ k Permᴰ.nil = refl
contains-Permᴰ k (Permᴰ.cons e d) = rw (e, contains-Permᴰ k d) refl
contains-Permᴰ k (Permᴰ.swap e e') = rw (e, e') (ground arith)
contains-Permᴰ k (Permᴰ.trans d d') = contains-Permᴰ k d ∙ contains-Permᴰ k d'

AllDistinct-swap : (a b : Text) (l : List Text) → AllDistinct (a ∷ b ∷ l) → AllDistinct (b ∷ a ∷ l)
unfolding contains
AllDistinct-swap a b l (new, (new', h)) =
    (ground (arith, same_iff a b, same_iff b a), (ground arith, h))

pub AllDistinct-Permᴰ : {s t : List Text} → Permᴰ s t → AllDistinct s → AllDistinct t
unfolding contains
AllDistinct-Permᴰ Permᴰ.nil h = h
AllDistinct-Permᴰ (Permᴰ.cons {a} {b} {l₁} {l₂} e d) (new, h) =
    (sym (contains-Permᴰ b d) ∙ ap (λ k. contains l₁ k) (sym e) ∙ new, AllDistinct-Permᴰ d h)
AllDistinct-Permᴰ (Permᴰ.swap {a} {b} {a'} {b'} {l} e e') h =
    rw (sym e, sym e') (AllDistinct-swap a b l h)
AllDistinct-Permᴰ (Permᴰ.trans d d') h = AllDistinct-Permᴰ d' (AllDistinct-Permᴰ d h)

module _ {V : Type 0} where
  is_some-if :
      (t : Bool) (v : V) (o : Option V) → is_some (if t then some v else o) ≡ (t || is_some o)
  is_some-if true v o = refl
  is_some-if false v o = refl

  is_some-if_if :
      (t u : Bool) (v w : V) (o : Option V)
      → is_some (if t then some v else if u then some w else o)
        ≡ is_some (if u then some w else if t then some v else o)
  is_some-if_if true true v w o = refl
  is_some-if_if true false v w o = refl
  is_some-if_if false u v w o = refl

pub is_some-get-Permᴰ :
    {V : Type 0} (k : Text) {m n : Dict V} → Permᴰ m n → is_some (get k m) ≡ is_some (get k n)
unfolding get
is_some-get-Permᴰ k Permᴰ.nil = refl
is_some-get-Permᴰ k (Permᴰ.cons {b} {l₁} {l₂} e d) = rw e (
    is_some-if (same b.0 k) b.1 (get k l₁)
    ∙ ap (λ t. same b.0 k || t) (is_some-get-Permᴰ k d)
    ∙ sym (is_some-if (same b.0 k) b.1 (get k l₂)))
is_some-get-Permᴰ k (Permᴰ.swap {a'} {b'} e e') =
    rw (e, e') (is_some-if_if (same b'.0 k) (same a'.0 k) b'.1 a'.1 _)
is_some-get-Permᴰ k (Permᴰ.trans d d') = is_some-get-Permᴰ k d ∙ is_some-get-Permᴰ k d'
