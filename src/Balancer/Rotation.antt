-- ===== src/Balancer/Rotation.antt =====
-- The round-robin loop of crates/proxy-core/src/routing/load_balancer.rs.
use native.Mathlib.Nat.{mod-add-mod, mod-eq_of_lt, add-mod_right, mod-lt, add-zero}
use native.Mathlib.Decide.{dec_lt}
use rpceth.Base.{
  ℕ, zero, suc, ◌+◌, ◌-◌, ◌%◌, ◌<◌, ◌≡◌, refl, sym, ◌∙◌, ap, true, some, List, [], ◌∷◌, Member,
  here, there, contains, length, get_elem?, get_elem?-Member, is_some, arith,
}
use rpceth.Provider.{ProviderId, ProviderHandle}
use rpceth.Balancer.{round_robin_from}

index_of :
    (pool : List ProviderHandle) (p : ProviderHandle)
    → Member p pool
    → (i : ℕ) × (i < length pool) × (get_elem? pool i ≡ some p)
index_of [] p m = elim m [ ]
index_of (q ∷ pool) p here = (0, omega arith, refl)
index_of (q ∷ pool) p (there m) = let (i, below, e) = index_of pool p m in (suc i, omega arith, e)

-- From any cursor, some number of rounds below the total comes to the index.
rounds_to : (total cursor i : ℕ) → i < total → (k : ℕ) × (k < total) × ((cursor + k) % total ≡ i)
rounds_to total cursor i h =
    let c = cursor % total in
    let c_below : c < total = mod-lt cursor {m = total} (omega arith) in
    let meets =
      λ (k j : ℕ) (e : c + k ≡ j). sym (mod-add-mod cursor total k) ∙ ap (λ n. n % total) e in
    elim (dec_lt i c) [
      | yes before ↦ (
        i + total - c,
        omega arith,
        meets (i + total - c) (i + total) (omega arith) ∙ add-mod_right i total ∙ mod-eq_of_lt h,
      )
      | no after ↦ (i - c, omega arith, meets (i - c) i (omega arith) ∙ mod-eq_of_lt h)
    ]

module _ (pool : List ProviderHandle) (ids : List ProviderId) where
  -- The loop returns a member of the pool whose id is listed.
  pub round_robin_from_sound :
      (rounds cursor : ℕ) (p : ProviderHandle)
      → (round_robin_from pool ids rounds cursor).0 ≡ some p
      → Member p pool × (contains ids p.id ≡ true)
  unfolding round_robin_from
  round_robin_from_sound zero cursor p e = cc
  round_robin_from_sound (suc rounds) cursor p e = ground (
    arith,
    get_elem?-Member pool (cursor % length pool) {x = p},
    round_robin_from_sound rounds ((cursor + 1) % length pool) p,
  )

  -- If one of the next providers is listed, the loop returns one.
  round_robin_from_complete :
      (rounds cursor k : ℕ) (p : ProviderHandle)
      → k < rounds
      → get_elem? pool ((cursor + k) % length pool) ≡ some p
      → contains ids p.id ≡ true
      → is_some (round_robin_from pool ids rounds cursor).0 ≡ true
  unfolding round_robin_from
  round_robin_from_complete zero cursor k p h e listed = elim h [ ]
  round_robin_from_complete (suc rounds) cursor zero p h e listed =
      let first : get_elem? pool (cursor % length pool) ≡ some p = rw add-zero at e in ground arith
  round_robin_from_complete (suc rounds) cursor (suc k) p h e listed =
      let moved : ((cursor + 1) % length pool + k) % length pool ≡ (cursor + suc k) % length pool =
        mod-add-mod (cursor + 1) (length pool) k ∙ ap (λ n. n % length pool) (omega arith) in
      let ih =
        round_robin_from_complete rounds ((cursor + 1) % length pool) k p (omega arith) (rw moved e)
          listed in
      ground arith

  -- One turn round the pool finds a listed provider, if the pool has one, from any cursor.
  pub round_robin_from-IsSome :
      (cursor : ℕ) (p : ProviderHandle)
      → Member p pool
      → contains ids p.id ≡ true
      → is_some (round_robin_from pool ids (length pool) cursor).0 ≡ true
  round_robin_from-IsSome cursor p m listed =
      let (i, below, at) = index_of pool p m in
      let (k, few, comes) = rounds_to (length pool) cursor i below in
      round_robin_from_complete (length pool) cursor k p few (rw comes at) listed
