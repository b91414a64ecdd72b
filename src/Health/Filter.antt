-- ===== src/Health/Filter.antt =====
-- The best score and the tolerance filter of crates/proxy-core/src/health/service.rs.
use rpceth.Base.{
  ◌≡◌, refl, true, [], ◌∷◌, Member, here, there, Dict, AllValues, ◌⊎◌, inl, inr, arith, Text,
}
use rpceth.Settings.{ToleranceLevel, strict, balanced, relaxed}
use rpceth.Float.{Float, IsIeee, IsPositive, IsBetween}
use rpceth.Float.Laws.{zero-IsNumber, mul_nonneg, lit1-IsPositive, lit3-IsPositive, lit5-IsPositive}
use rpceth.Health.{
  ProviderHealthState, HealthService, threshold, is_within_tolerance, score, best_score_from,
  best_score,
}
use rpceth.Health.Range.{HasScores}

module _ (fl : Float) (ieee : IsIeee fl) where
  open fl use {F, le, add, sub, mul, div, of_nat, lit}

  abbrev InRange : F → Type 0
  InRange x = IsBetween fl x (of_nat 1)

  threshold-IsPositive : (t : ToleranceLevel) → IsPositive fl (threshold fl t)
  unfolding threshold
  threshold-IsPositive strict = lit1-IsPositive fl ieee
  threshold-IsPositive balanced = lit3-IsPositive fl ieee
  threshold-IsPositive relaxed = lit5-IsPositive fl ieee

  -- The best score lies within every tolerance of itself.
  pub is_within_tolerance_best :
      (x : F) (t : ToleranceLevel) → InRange x → is_within_tolerance fl x x t ≡ true
  unfolding is_within_tolerance
  is_within_tolerance_best x t (low, high) = ground (
    arith,
    ieee.sub_self x (ieee.finite_of_le x low high),
    mul_nonneg fl ieee x (threshold fl t) (threshold-IsPositive t) low,
    ieee.mul_comm x (threshold fl t),
  )

  -- What the fold makes of a start and the entries: a value in range, no smaller than any of
  -- them, and one of them.
  record IsBest (best : F) (m : Dict (ProviderHealthState F)) (result : F) : Type 0 where
    in_range : InRange result
    no_smaller : le best result ≡ true
    above : AllValues (λ s. le (score fl s) result ≡ true) m
    attained :
        (result ≡ best)
        ⊎ ((e : Text × ProviderHealthState F) × Member e m × (result ≡ score fl e.1))

  above_mono :
      (m : Dict (ProviderHealthState F)) (x y : F)
      → le x y ≡ true
      → AllValues (λ s. le (score fl s) x ≡ true) m
      → AllValues (λ s. le (score fl s) y ≡ true) m
  above_mono [] x y h a = tt
  above_mono (e ∷ m) x y h (p, a) = (ieee.le_trans _ _ _ p h, above_mono m x y h a)

  best_score_from-IsBest :
      (best : F) (m : Dict (ProviderHealthState F))
      → InRange best
      → AllValues (λ s. InRange (score fl s)) m
      → IsBest best m (best_score_from fl best m)
  unfolding best_score_from
  best_score_from-IsBest best [] r h = record {
    in_range = r;
    no_smaller = (ieee.refl_of_le _ _ r.0).1;
    above = tt;
    attained = inl refl;
  }
  best_score_from-IsBest best (e ∷ m) r (p, h) =
      let x = score fl e.1 in
      elim (ieee.max_cases best x (ieee.refl_of_le _ _ r.0).1 (ieee.refl_of_le _ _ p.0).1) [
        | inl (kept, below) ↦
            let ih = best_score_from-IsBest best m r h in
            rw (kept, best_score_from)
              (record {
                in_range = ih.in_range;
                no_smaller = ih.no_smaller;
                above = (ieee.le_trans _ _ _ below ih.no_smaller, ih.above);
                attained = elim ih.attained [
                  | inl start ↦ inl start
                  | inr (e', at, same_score) ↦ inr (e', there at, same_score)
                ];
              })
        | inr (taken, above) ↦
            let ih = best_score_from-IsBest x m p h in
            rw (taken, best_score_from)
              (record {
                in_range = ih.in_range;
                no_smaller = ieee.le_trans _ _ _ above ih.no_smaller;
                above = (ih.no_smaller, ih.above);
                attained = elim ih.attained [
                  | inl start ↦ inr (e, here, start)
                  | inr (e', at, same_score) ↦ inr (e', there at, same_score)
                ];
              })
      ]

  -- `best_score` is at least 0 and at least every provider's score, and it is 0 or the score of a
  -- provider, if all scores are numbers between 0 and 1, given the facts of IEEE 754 arithmetic.
  best_score_bounds :
      (h : HealthService F)
      → HasScores fl ieee h
      → (le (of_nat 0) (best_score fl h) ≡ true)
        × AllValues (λ s. le (score fl s) (best_score fl h) ≡ true) h.state
        × ((best_score fl h ≡ of_nat 0)
            ⊎ ((e : Text × ProviderHealthState F) × Member e h.state
                × (best_score fl h ≡ score fl e.1)))
  unfolding best_score
  best_score_bounds h v =
      let zero = zero-IsNumber fl ieee in
      let b = best_score_from-IsBest (of_nat 0) h.state (zero, ieee.zero-le-one) v in
      (b.no_smaller, b.above, b.attained)

  -- Some provider of a service that is not empty lies within every tolerance of the best score, if
  -- all scores are numbers between 0 and 1, given the facts of IEEE 754 arithmetic.
  pub some_within_tolerance :
      (e : Text × ProviderHealthState F) (m : Dict (ProviderHealthState F)) (h : HealthService F)
      → h.state ≡ e ∷ m
      → HasScores fl ieee h
      → (k : Text × ProviderHealthState F) × Member k h.state
        × ((t : ToleranceLevel) → is_within_tolerance fl (score fl k.1) (best_score fl h) t ≡ true)
  unfolding is_within_tolerance best_score
  some_within_tolerance e m h nonempty v =
      let zero = zero-IsNumber fl ieee in
      let b = best_score_from-IsBest (of_nat 0) h.state (zero, ieee.zero-le-one) v in
      elim b.attained [
        | inl start ↦ (e, rw nonempty here, λ t. rw start (ground (arith, zero)))
        | inr (k, at, same_score) ↦ (
          k,
          at,
          λ t. rw (← same_score) (is_within_tolerance_best (best_score fl h) t b.in_range),
        )
      ]
