-- ===== src/Server/Runtime/Handles.antt =====
-- The table of the providers that `ProxyState::new` (crates/proxy-server/src/lib.rs) builds, and the
-- providers of a chain in it.
use rpceth.Base.{
  ◌≡◌, ◌≢◌, refl, ap, ◌∙◌, true, Option-cases, List, [], ◌∷◌, ◌||◌, Dict, get, insert, get-insert,
  contains, map, is_some, All, inl, inr, arith,
}
use rpceth.Provider.{ProviderId, ProviderConfig, ProviderHandle, into_handle}
use rpceth.Balancer.{provider_ids}
use rpceth.Server.Select.Laws.{IsKeyed}
use rpceth.Server.Runtime.{by_id, provider_subset}

-- Each configured provider is in the table.
pub by_id-known :
    (hs : List ProviderHandle) (table : Dict ProviderHandle) (id : ProviderId)
    → (contains (map (λ h. h.id) hs) id || is_some (get id table)) ≡ true
    → is_some (get id (by_id hs table)) ≡ true
unfolding by_id contains
by_id-known [] table id h = h
by_id-known (x ∷ hs) table id h =
    by_id-known hs (insert x.id x table) id (ground (arith, get-insert x.id id x table))

pub ids-into_handle :
    (ps : List ProviderConfig) → map (λ h. h.id) (map into_handle ps) ≡ map (λ p. p.id) ps
unfolding into_handle
ids-into_handle [] = refl
ids-into_handle (p ∷ ps) = ap (λ ids. p.id ∷ ids) (ids-into_handle ps)

pub known_id :
    (ps : List ProviderConfig) (id : ProviderId)
    → contains (map (λ p. p.id) ps) id ≡ true
    → let nothing : Dict ProviderHandle = [] in
      (contains (map (λ h. h.id) (map into_handle ps)) id || is_some (get id nothing)) ≡ true
known_id ps id h = rw (ids-into_handle ps, h) refl

pub provider_subset-ids :
    (table : Dict ProviderHandle) (ids : List ProviderId)
    → IsKeyed table
    → All (λ id. is_some (get id table) ≡ true) ids
    → provider_ids (provider_subset table ids) ≡ ids
unfolding provider_subset provider_ids
provider_subset-ids table [] keyed known = refl
provider_subset-ids table (id ∷ ids) keyed (known, rest) = elim (Option-cases (get id table)) [
  | inl unknown ↦ ground arith
  | inr (h, e) ↦
      rw (e, provider_subset)
        (ap (λ j. j ∷ provider_ids (provider_subset table ids)) (keyed id h e)
          ∙ ap (λ js. id ∷ js) (provider_subset-ids table ids keyed rest))
]

pub map-ne-nil : (ps : List ProviderConfig) → ps ≢ [] → map into_handle ps ≢ []
map-ne-nil [] ne e = ne refl
map-ne-nil (p ∷ ps) ne e = cc
