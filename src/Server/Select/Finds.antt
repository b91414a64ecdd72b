-- ===== src/Server/Select/Finds.antt =====
-- When `select_provider` (crates/proxy-server/src/lib.rs) returns a provider.
use rpceth.Base.{
  ℕ, zero, suc, ◌<◌, ◌≡◌, ◌≢◌, refl, sym, ◌∙◌, ap, true, false, Option, none, some, List, Dict,
  Member, contains, add, contains-add, same, same_iff, length, is_some, Bool-cases, Option-cases,
  inl, inr, arith,
}
use rpceth.Provider.{ProviderId, ProviderHandle}
use rpceth.Server.{RequestContext, World, Surroundings, access, now}
use rpceth.Server.Select.{Chain, IsSelecting, select_loop, select_excluding, select_provider}
use rpceth.Server.Select.Laws.{remaining, remaining-add-lt, remaining-le-length}

true-ne-false : true ≢ false
true-ne-false e = cc

-- While `P` holds, `p` is available and `select` finds a provider unless `p` is excluded; and `P`
-- goes on to hold, whatever the other tasks do and whatever becomes of requests to other providers.
pub record IsReady {S : Type 0} (chain : Chain S) (around : Surroundings S) (P : S → Type 0)
    (p : ProviderHandle) : Type 0 where
  pub finds :
      (exclude : List ProviderId) (s : S)
      → P s
      → contains exclude p.id ≡ false
      → is_some (chain.select exclude s).0 ≡ true
  pub available : (now : ℕ) (s : S) → P s → chain.is_available now p.id s ≡ true
  pub selected : (exclude : List ProviderId) (s : S) → P s → P (chain.select exclude s).1
  pub started : (now : ℕ) (id : ProviderId) (s : S) → P s → P (chain.on_request_start now id s)
  pub failed : (now : ℕ) (id : ProviderId) (s : S) → id ≢ p.id → P s → P (chain.on_failure now id s)
  pub interfered : (k : ℕ) (s : S) → P s → P (around.interfere k s)

module _ {S : Type 0} (chain : Chain S) (selecting : IsSelecting chain) (around : Surroundings S)
    (P : S → Type 0) (p : ProviderHandle) (ready : IsReady chain around P p) where
  -- A provider of the pool that is not excluded has been found, and `P` holds.
  pub record IsFound (excluded : List ProviderId) (r : Option ProviderHandle × World S)
      : Type 0 where
    pub chosen : ProviderHandle
    pub result : r.0 ≡ some chosen
    pub of_pool : Member chosen chain.pool
    pub fresh : contains excluded chosen.id ≡ false
    pub holds : P r.1.shared

  select_loop-IsFound :
      (fuel : ℕ) (excluded : List ProviderId) (w : World S)
      → P w.shared
      → contains excluded p.id ≡ false
      → remaining chain.pool excluded < fuel
      → (r : Option ProviderHandle × World S) × (select_loop chain around fuel excluded w ≡ some r)
        × IsFound excluded r
  unfolding select_loop access
  select_loop-IsFound zero excluded w h free enough = elim enough [ ]
  select_loop-IsFound (suc fuel) excluded w h free enough =
      let w₁ = access around w in
      let h₁ : P w₁.shared = ready.interfered w.accesses w.shared h in
      let w₂ : World S = record w₁ { shared = (chain.select excluded w₁.shared).1 } in
      let h₂ : P w₂.shared = ready.selected excluded w₁.shared h₁ in
      let w₃ = access around w₂ in
      let h₃ : P w₃.shared = ready.interfered w₂.accesses w₂.shared h₂ in
      elim (Option-cases (chain.select excluded w₁.shared).0) [
        | inl nobody ↦ let found = ready.finds excluded w₁.shared h₁ free in ground arith
        | inr (q, e) ↦
            let (at, fresh) = selecting.selected excluded w₁.shared q e in
            elim (Bool-cases (chain.is_available (now around w₃) q.id w₃.shared)) [
              | inl open_now ↦
                  rw (e, open_now, select_loop)
                    (
                      (some q, w₃),
                      refl,
                      record { chosen = q; result = refl; of_pool = at; fresh = fresh; holds = h₃ },
                    )
              | inr shut ↦
                  let other : same q.id p.id ≡ false = elim (Bool-cases (same q.id p.id)) [
                    | inl one ↦
                        let up = ready.available (now around w₃) w₃.shared h₃ in
                        let id_one = (same_iff q.id p.id).0 one in
                        absurd (
                          true-ne-false (
                            sym up
                            ∙ ap (λ id. chain.is_available (now around w₃) id w₃.shared)
                                (sym id_one)
                            ∙ shut))
                    | inr two ↦ two
                  ] in
                  let still : contains (add q.id excluded) p.id ≡ false =
                    ground (arith, contains-add q.id p.id excluded) in
                  let fewer = remaining-add-lt chain.pool q excluded at fresh in
                  let (r, ended, found) =
                    select_loop-IsFound fuel (add q.id excluded) w₃ h₃ still (omega arith) in
                  rw (e, shut, select_loop)
                    (
                      r,
                      ended,
                      record {
                        chosen = found.chosen;
                        result = found.result;
                        of_pool = found.of_pool;
                        holds = found.holds;
                        fresh =
                            ground (arith, found.fresh, contains-add q.id found.chosen.id excluded);
                      },
                    )
            ]
      ]

  -- y
  pub select_provider-IsFound :
      (table : Dict ProviderHandle) (ctx : RequestContext) (tried : List ProviderId) (w : World S)
      → ctx.provider_override ≡ none
      → P w.shared
      → contains tried p.id ≡ false
      → IsFound tried (select_provider chain around table ctx tried w)
  unfolding select_provider select_excluding
  select_provider-IsFound table ctx tried w free h fresh =
      let (r, ended, found) =
        select_loop-IsFound (suc (length chain.pool)) tried w h fresh
          (omega (arith, remaining-le-length chain.pool tried)) in
      rw (free, select_provider) (rw (ended, select_excluding) found)
