-- ===== src/Server/Select/Keeps.antt =====
-- What `select_provider` (crates/proxy-server/src/lib.rs) leaves true of the shared state.
use rpceth.Base.{
  ℕ, zero, suc, ◌≡◌, Option, none, some, List, Dict, get, add, contains, length, Bool-cases,
  Option-cases, inl, inr,
}
use rpceth.Provider.{ProviderId, ProviderHandle}
use rpceth.Server.{RequestContext, World, Surroundings, access, now}
use rpceth.Server.Select.{
  Chain, select_loop, select_excluding, take_override, select_named, select_provider,
}

-- A selection, and every thing that the other tasks do, leaves it true.
pub record IsKept {S : Type 0} (chain : Chain S) (around : Surroundings S) (P : S → Type 0)
    : Type 0 where
  pub selected : (exclude : List ProviderId) (s : S) → P s → P (chain.select exclude s).1
  pub interfered : (k : ℕ) (s : S) → P s → P (around.interfere k s)

module _ {S : Type 0} (chain : Chain S) (around : Surroundings S) (P : S → Type 0)
    (kept : IsKept chain around P) where
  pub access-keeps : (w : World S) → P w.shared → P (access around w).shared
  unfolding access
  access-keeps w h = kept.interfered w.accesses w.shared h

  select_loop-keeps :
      (fuel : ℕ) (excluded : List ProviderId) (w : World S) (r : Option ProviderHandle × World S)
      → P w.shared
      → select_loop chain around fuel excluded w ≡ some r
      → P r.1.shared
  unfolding select_loop
  select_loop-keeps zero excluded w r h e = cc
  select_loop-keeps (suc fuel) excluded w r h e =
      let w₁ = access around w in
      let w₂ : World S = record w₁ { shared = (chain.select excluded w₁.shared).1 } in
      let w₃ = access around w₂ in
      let h₂ = kept.selected excluded w₁.shared (access-keeps w h) in
      elim (Option-cases (chain.select excluded w₁.shared).0) [
        | inl nobody ↦
            let done : (none, w₂) ≡ r = let e' = rw (nobody, select_loop) at e in cc in
            rw (← done) h₂
        | inr (p, chosen) ↦
            let e' = rw (chosen, select_loop) at e in
            elim (Bool-cases (chain.is_available (now around w₃) p.id w₃.shared)) [
              | inl open_now ↦
                  let done : (some p, w₃) ≡ r = let e'' = rw open_now at e' in cc in
                  rw (← done) (access-keeps w₂ h₂)
              | inr shut ↦
                  select_loop-keeps fuel (add p.id excluded) w₃ r (access-keeps w₂ h₂)
                    (rw shut at e')
            ]
      ]

  select_excluding-keeps :
      (excluded : List ProviderId) (w : World S)
      → P w.shared
      → P (select_excluding chain around excluded w).1.shared
  unfolding select_excluding
  select_excluding-keeps excluded w h =
      elim (Option-cases (select_loop chain around (suc (length chain.pool)) excluded w)) [
        | inl stopped ↦ rw (stopped, select_excluding) h
        | inr (r, found) ↦
            rw (found, select_excluding)
              (select_loop-keeps (suc (length chain.pool)) excluded w r h found)
      ]

  take_override-keeps :
      (id : ProviderId) (found : Option ProviderHandle) (w : World S)
      → P w.shared
      → P (take_override chain around id found w).1.shared
  unfolding take_override
  take_override-keeps id none w h = h
  take_override-keeps id (some handle) w h =
      let w₁ = access around w in
      elim (Bool-cases (chain.is_available (now around w₁) id w₁.shared)) [
        | inl open_now ↦ rw open_now (access-keeps w h)
        | inr shut ↦ rw shut (access-keeps w h)
      ]

  select_named-keeps :
      (table : Dict ProviderHandle) (id : ProviderId) (tried : List ProviderId) (w : World S)
      → P w.shared
      → P (select_named chain around table id tried w).1.shared
  unfolding select_named
  select_named-keeps table id tried w h = elim (Bool-cases (contains tried id)) [
    | inl old ↦ rw (old, select_named) (select_excluding-keeps _ w h)
    | inr fresh ↦ elim (Bool-cases (contains chain.providers id)) [
      | inr foreign ↦ rw (fresh, foreign, select_named) h
      | inl of_chain ↦
          let h₁ = take_override-keeps id (get id table) w h in
          elim (Option-cases (take_override chain around id (get id table) w).0) [
            | inl shut ↦ rw (fresh, of_chain, shut, select_named) (select_excluding-keeps _ _ h₁)
            | inr (handle, taken) ↦ rw (fresh, of_chain, taken, select_named) h₁
          ]
    ]
  ]

  pub select_provider-keeps :
      (table : Dict ProviderHandle) (ctx : RequestContext) (tried : List ProviderId) (w : World S)
      → P w.shared
      → P (select_provider chain around table ctx tried w).1.shared
  unfolding select_provider
  select_provider-keeps table ctx tried w h = elim (Option-cases ctx.provider_override) [
    | inl free ↦ rw (free, select_provider) (select_excluding-keeps tried w h)
    | inr (id, named) ↦ rw (named, select_provider) (select_named-keeps table id tried w h)
  ]
