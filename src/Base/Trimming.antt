-- ===== src/Base/Trimming.antt =====
-- `str::trim` leaves a trimmed string as it is.
use Prim.Native.Nat.{ℕ}
use mathlib.Core.Path.{◌≡◌, refl, ap, ◌∙◌}
use mathlib.Core.Logic.{inl, inr}
use mathlib.Core.Bool.{false}
use mathlib.Core.List.{[], ◌∷◌, ◌++◌, reverse, reverse-reverse, reverse-append}
use native.Mathlib.Omega.{arith}
use rpceth.Base.Tests.{Bool-cases}
use rpceth.Base.Strings.{Text, is_whitespace, trim_start, trim}

trim_start_idem : (s : Text) → trim_start (trim_start s) ≡ trim_start s
unfolding trim_start
trim_start_idem [] = refl
trim_start_idem (c ∷ s) = ground (arith, trim_start_idem s)

trim_start-append :
    (u : Text) (c : ℕ) → is_whitespace c ≡ false → trim_start (u ++ c ∷ []) ≡ trim_start u ++ c ∷ []
unfolding trim_start
trim_start-append [] c solid = ground arith
trim_start-append (d ∷ u) c solid = ground (arith, trim_start-append u c solid)

trim_end : Text → Text
unfolding trim_start
trim_end t = reverse (trim_start (reverse t))

trim_end-cons :
    (c : ℕ) (t : Text)
    → is_whitespace c ≡ false
    → trim_end (c ∷ t) ≡ c ∷ reverse (trim_start (reverse t))
unfolding trim_end
trim_end-cons c t solid =
    ap reverse (ap trim_start (reverse-append (c ∷ []) t) ∙ trim_start-append (reverse t) c solid)
    ∙ reverse-append (trim_start (reverse t)) (c ∷ [])

-- Trimming the end does not bare whitespace at the start.
trim_start-trim_end : (s : Text) → trim_start (trim_end (trim_start s)) ≡ trim_end (trim_start s)
unfolding trim_start trim_end
trim_start-trim_end [] = refl
trim_start-trim_end (c ∷ s) = elim (Bool-cases (is_whitespace c)) [
  | inl blank ↦ rw blank (trim_start-trim_end s)
  | inr solid ↦ rw (solid, trim_end-cons c s solid) (rw solid refl)
]

trim_end_idem : (t : Text) → trim_end (trim_end t) ≡ trim_end t
unfolding trim_end
trim_end_idem t =
    ap reverse
      (ap trim_start (reverse-reverse (trim_start (reverse t))) ∙ trim_start_idem (reverse t))

pub trim_idem : (s : Text) → trim (trim s) ≡ trim s
unfolding trim trim_end
trim_idem s = ap trim_end (trim_start-trim_end s) ∙ trim_end_idem (trim_start s)
