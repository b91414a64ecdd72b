-- ===== src/Server/Select/Laws.antt =====
-- The end and the result of `select_provider` (crates/proxy-server/src/lib.rs).
use rpceth.Base.{
  ℕ, zero, suc, ◌≤◌, ◌<◌, ◌≡◌, refl, ◌∙◌, ap, true, false, Option, none, some, List, [], ◌∷◌, Dict,
  get, Member, Member-cons, contains, add, contains-add, same_self, length, is_some, Bool-cases,
  Option-cases, inl, inr, if◌then◌else◌, arith,
}
use rpceth.Provider.{ProviderId, ProviderHandle}
use rpceth.Server.{RequestContext, World, Surroundings, access, now}
use rpceth.Server.Select.{
  Chain, IsSelecting, select_loop, select_excluding, take_override, select_named, select_provider,
}

-- How many providers of a pool are not excluded.
unfoldable pub remaining : List ProviderHandle → List ProviderId → ℕ
remaining [] excluded = 0
remaining (p ∷ ps) excluded =
    let rest = remaining ps excluded in if contains excluded p.id then rest else suc rest

pub remaining-le-length :
    (ps : List ProviderHandle) (ex : List ProviderId) → remaining ps ex ≤ length ps
unfolding remaining
remaining-le-length [] ex = omega arith
remaining-le-length (p ∷ ps) ex = ground (arith, remaining-le-length ps ex)

remaining-add-le :
    (ps : List ProviderHandle) (id : ProviderId) (ex : List ProviderId)
    → remaining ps (add id ex) ≤ remaining ps ex
unfolding remaining
remaining-add-le [] id ex = omega arith
remaining-add-le (p ∷ ps) id ex = ground (arith, remaining-add-le ps id ex, contains-add id p.id ex)

pub remaining-add-lt :
    (ps : List ProviderHandle) (q : ProviderHandle) (ex : List ProviderId)
    → Member q ps
    → contains ex q.id ≡ false
    → remaining ps (add q.id ex) < remaining ps ex
unfolding remaining
remaining-add-lt [] q ex m free = elim m [ ]
remaining-add-lt (p ∷ ps) q ex m free = elim (Member-cons m) [
  | inl first ↦
      ground (arith, remaining-add-le ps q.id ex, contains-add q.id q.id ex, same_self q.id)
  | inr later ↦ ground (arith, remaining-add-lt ps q ex later free, contains-add q.id p.id ex)
]

-- A table of providers lists each under its id.
abbrev pub IsKeyed : Dict ProviderHandle → Type 0
IsKeyed table = (id : ProviderId) (h : ProviderHandle) → get id table ≡ some h → h.id ≡ id

module _ {S : Type 0} (chain : Chain S) (selecting : IsSelecting chain)
    (around : Surroundings S) where
  -- The loop of `select_provider` ends within as many rounds as there are providers of the pool
  -- that are not excluded, and one more, whatever the other tasks do to the circuits and to the
  -- balancer between the rounds, if `select` returns members of the pool that are not excluded.
  pub select_loop-IsSome :
      (fuel : ℕ) (excluded : List ProviderId) (w : World S)
      → remaining chain.pool excluded < fuel
      → is_some (select_loop chain around fuel excluded w) ≡ true
  unfolding select_loop
  select_loop-IsSome zero excluded w h = elim h [ ]
  select_loop-IsSome (suc fuel) excluded w h =
      let w₁ = access around w in
      let w₃ = access around (record w₁ { shared = (chain.select excluded w₁.shared).1 }) in
      elim (Option-cases (chain.select excluded w₁.shared).0) [
        | inl done ↦ rw (done, select_loop) refl
        | inr (p, e) ↦
            let (at, free) = selecting.selected excluded w₁.shared p e in
            let fewer = remaining-add-lt chain.pool p excluded at free in
            let rest = select_loop-IsSome fuel (add p.id excluded) w₃ (omega arith) in
            rw (e, select_loop) (ground (arith, rest))
      ]

  -- A provider of the chain that is not among the given ones, and is available at the request's
  -- latest access.
  pub record IsUsable (tried : List ProviderId) (p : ProviderHandle) (w : World S) : Type 0 where
    pub untried : contains tried p.id ≡ false
    pub of_chain : contains chain.providers p.id ≡ true
    pub available : chain.is_available (now around w) p.id w.shared ≡ true

  select_loop_sound :
      (fuel : ℕ) (excluded : List ProviderId) (w : World S) (p : ProviderHandle) (w' : World S)
      → select_loop chain around fuel excluded w ≡ some (some p, w')
      → IsUsable excluded p w'
  unfolding select_loop
  select_loop_sound zero excluded w p w' e = cc
  select_loop_sound (suc fuel) excluded w p w' e =
      let w₁ = access around w in
      let w₃ = access around (record w₁ { shared = (chain.select excluded w₁.shared).1 }) in
      elim (Option-cases (chain.select excluded w₁.shared).0) [
        | inl done ↦ let e' = rw (done, select_loop) at e in cc
        | inr (q, chosen) ↦
            let (at, free) = selecting.selected excluded w₁.shared q chosen in
            let e' = rw (chosen, select_loop) at e in
            elim (Bool-cases (chain.is_available (now around w₃) q.id w₃.shared)) [
              | inl open_now ↦
                  let found = rw open_now at e' in
                  let same_provider : q ≡ p = cc in
                  let same_world : w₃ ≡ w' = cc in
                  rw (← same_provider, ← same_world)
                    (record {
                      untried = free;
                      of_chain = selecting.listed q at;
                      available = open_now;
                    })
              | inr shut ↦
                  let rest = select_loop_sound fuel (add q.id excluded) w₃ p w' (rw shut at e') in
                  record {
                    untried = ground (arith, rest.untried, contains-add q.id p.id excluded);
                    of_chain = rest.of_chain;
                    available = rest.available;
                  }
            ]
      ]

  select_excluding_sound :
      (excluded : List ProviderId) (w : World S) (p : ProviderHandle)
      → (select_excluding chain around excluded w).0 ≡ some p
      → IsUsable excluded p (select_excluding chain around excluded w).1
  unfolding select_excluding
  select_excluding_sound excluded w p e =
      let fuel = suc (length chain.pool) in
      let ended =
        select_loop-IsSome fuel excluded w
          (omega (arith, remaining-le-length chain.pool excluded)) in
      elim (Option-cases (select_loop chain around fuel excluded w)) [
        | inl stopped ↦ ground arith
        | inr ((chosen, w'), found) ↦
            let e' = rw found at e in
            let chosen_one : chosen ≡ some p = e' in
            rw found (select_loop_sound fuel excluded w p w' (rw (← chosen_one) found))
      ]

  IsUsable-add :
      (id : ProviderId) (tried : List ProviderId) (p : ProviderHandle) (w : World S)
      → IsUsable (add id tried) p w
      → IsUsable tried p w
  IsUsable-add id tried p w u = record {
    untried = ground (arith, u.untried, contains-add id p.id tried);
    of_chain = u.of_chain;
    available = u.available;
  }

  select_after-IsUsable :
      (id : ProviderId) (tried : List ProviderId) (w : World S) (p : ProviderHandle)
      → (select_excluding chain around (add id tried) w).0 ≡ some p
      → IsUsable tried p (select_excluding chain around (add id tried) w).1
  select_after-IsUsable id tried w p e =
      IsUsable-add id tried p _ (select_excluding_sound (add id tried) w p e)

  take_override_sound :
      (id : ProviderId) (tried : List ProviderId) (found : Option ProviderHandle) (w : World S)
      (p : ProviderHandle)
      → ((h : ProviderHandle) → found ≡ some h → h.id ≡ id)
      → contains tried id ≡ false
      → contains chain.providers id ≡ true
      → (take_override chain around id found w).0 ≡ some p
      → IsUsable tried p (take_override chain around id found w).1
  unfolding take_override
  take_override_sound id tried none w p keyed fresh of_chain e = cc
  take_override_sound id tried (some h) w p keyed fresh of_chain e =
      let named : h.id ≡ id = keyed h refl in
      let w₁ = access around w in
      elim (Bool-cases (chain.is_available (now around w₁) id w₁.shared)) [
        | inl open_now ↦
            let e' = rw open_now at e in
            let one : h ≡ p = cc in
            rw (open_now, ← one)
              (record {
                untried = rw named fresh;
                of_chain = rw named of_chain;
                available = rw named open_now;
              })
        | inr shut ↦ let e' = rw shut at e in cc
      ]

  select_named_sound :
      (providers_by_id : Dict ProviderHandle) (id : ProviderId) (tried : List ProviderId)
      (w : World S) (p : ProviderHandle)
      → ((h : ProviderHandle) → get id providers_by_id ≡ some h → h.id ≡ id)
      → (select_named chain around providers_by_id id tried w).0 ≡ some p
      → IsUsable tried p (select_named chain around providers_by_id id tried w).1
  unfolding select_named
  select_named_sound by_id id tried w p keyed e = elim (Bool-cases (contains tried id)) [
    | inl old ↦
        rw (old, select_named) (select_after-IsUsable id tried w p (rw (old, select_named) at e))
    | inr fresh ↦ elim (Bool-cases (contains chain.providers id)) [
      | inr foreign ↦ let e' = rw (fresh, foreign, select_named) at e in cc
      | inl of_chain ↦
          let e' = rw (fresh, of_chain, select_named) at e in
          elim (Option-cases (take_override chain around id (get id by_id) w).0) [
            | inl shut ↦
                rw (fresh, of_chain, shut, select_named)
                  (select_after-IsUsable id tried _ p (rw shut at e'))
            | inr (h, taken) ↦
                let e'' = rw taken at e' in
                let one : h ≡ p = cc in
                rw (fresh, of_chain, taken, select_named)
                  (take_override_sound id tried (get id by_id) w p keyed fresh of_chain
                    (taken ∙ ap some one))
          ]
    ]
  ]

  -- If the chain's `select` returns members of the pool that are not excluded, the pool's
  -- providers are those of the chain and the table lists each provider under its id: what
  -- `select_provider` returns has not been tried in this request, is a provider of the chain, and
  -- was available at the time of the request's latest access, whatever other tasks do to the
  -- shared state in between, and whether or not the request names a provider.
  pub select_provider_sound :
      (providers_by_id : Dict ProviderHandle) (ctx : RequestContext) (tried : List ProviderId)
      (w : World S) (p : ProviderHandle)
      → IsKeyed providers_by_id
      → (select_provider chain around providers_by_id ctx tried w).0 ≡ some p
      → IsUsable tried p (select_provider chain around providers_by_id ctx tried w).1
  unfolding select_provider
  select_provider_sound by_id ctx tried w p keyed e = elim (Option-cases ctx.provider_override) [
    | inl free ↦
        rw (free, select_provider)
          (select_excluding_sound tried w p (rw (free, select_provider) at e))
    | inr (id, named) ↦
        rw (named, select_provider)
          (select_named_sound by_id id tried w p (keyed id) (rw (named, select_provider) at e))
  ]
