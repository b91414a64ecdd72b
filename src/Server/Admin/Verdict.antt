-- ===== src/Server/Admin/Verdict.antt =====
-- What the readiness check of crates/proxy-server/src/admin.rs decides.
use rpceth.Base.{
  ℕ, ◌+◌, ◌≡◌, ◌↔◌, refl, Bool, true, false, not, ◌&&◌, ◌||◌, Option-cases, ◌⊎◌, Text, codes, List,
  [], ◌∷◌, ◌++◌, Dict, get, Member, any, all, any_iff, all_iff, is_empty, is_some, ltb, inl, inr,
  arith,
}
use rpceth.Provider.{ProviderId, ProviderHandle}
use rpceth.Circuit.{CircuitBreaker}
use rpceth.Float.{Float}
use rpceth.Methods.{Globs}
use rpceth.Balancer.{Rand}
use rpceth.Server.Runtime.{ChainKey, ChainRuntime, ProxyState}
use rpceth.Server.Admin.{
  Tally, Readiness, tally_provider, tally_providers, available, check_chain, check_chains,
  readiness, readiness_handler,
}

append-is_empty : {A : Type 0} (xs : List A) (y : A) → is_empty (xs ++ y ∷ []) ≡ false
append-is_empty [] y = refl
append-is_empty (x ∷ xs) y = refl

is_empty_iff : {A : Type 0} (xs : List A) → (is_empty xs ≡ true) ↔ (xs ≡ [])
is_empty_iff [] = (λ e. refl, λ e. refl)
is_empty_iff (x ∷ xs) = (λ e. cc, λ e. cc)

tally_provider_lem :
    (chain_id : Text) (id : ProviderId) (handle : ProviderHandle) (up : Bool) (t : Tally)
    → let t' = tally_provider chain_id id handle up t in
      (t'.ready ≡ (t.ready && up))
      × (is_empty t'.issues ≡ (is_empty t.issues && up))
      × (ltb 0 t'.available_in_chain ≡ (ltb 0 t.available_in_chain || up))
unfolding tally_provider
tally_provider_lem chain_id id handle true t = (ground arith, ground arith, ground arith)
tally_provider_lem chain_id id handle false t =
    (ground arith, ground (arith, append-is_empty {A = Text}), ground arith)

module _ (available : ProviderId → Bool) (table : Dict ProviderHandle) where
  abbrev is_up : ProviderId → Bool
  is_up id = is_some (get id table) && available id

  abbrev is_fine : ProviderId → Bool
  is_fine id = not (is_some (get id table)) || available id

  abbrev IsTallied : Text → List ProviderId → Tally → Type 0
  IsTallied chain_id ids t =
      let t' = tally_providers available table chain_id ids t in
      (t'.ready ≡ (t.ready && all is_fine ids))
      × (is_empty t'.issues ≡ (is_empty t.issues && all is_fine ids))
      × (ltb 0 t'.available_in_chain ≡ (ltb 0 t.available_in_chain || any is_up ids))

  tally_providers-IsTallied :
      (chain_id : Text) (ids : List ProviderId) (t : Tally) → IsTallied chain_id ids t
  unfolding tally_providers
  tally_providers-IsTallied chain_id [] t = ground arith
  tally_providers-IsTallied chain_id (id ∷ ids) t =
      let counted : Tally = record t { total_in_chain = t.total_in_chain + 1 } in
      elim (Option-cases (get id table)) [
        | inl unknown ↦
            let later = tally_providers-IsTallied chain_id ids counted in
            rw (unknown, tally_providers) later
        | inr (handle, known) ↦
            let (ready, quiet, up) =
              tally_providers-IsTallied chain_id ids
                (tally_provider chain_id id handle (available id) counted) in
            let (step_ready, step_quiet, step_up) =
              tally_provider_lem chain_id id handle (available id) counted in
            rw (known, tally_providers) (ground arith, ground arith, ground arith)
      ]

module _ (fl : Float) (rand : Rand fl.F) (globs : Globs) (decode : Text → Text)
    (observe : ChainKey → ProviderId → ℕ × CircuitBreaker) where
  open fl use {F}

  -- Some listed provider that the table knows is available, and each of them is.
  abbrev pub IsServing : Dict ProviderHandle → Text × ChainRuntime fl rand globs decode → Type 0
  IsServing table (key, runtime) =
      ((id : ProviderId) × Member id runtime.providers
        × (is_some (get id table) ≡ true)
        × (available fl rand globs decode observe key id ≡ true))
      × ((id : ProviderId)
          → Member id runtime.providers
          → is_some (get id table) ≡ true
          → available fl rand globs decode observe key id ≡ true)

  abbrev serving : Dict ProviderHandle → Text × ChainRuntime fl rand globs decode → Bool
  serving table (key, runtime) =
      let is_available = available fl rand globs decode observe key in
      any (is_up is_available table) runtime.providers
      && all (is_fine is_available table) runtime.providers

  serving_iff :
      (table : Dict ProviderHandle) (c : Text × ChainRuntime fl rand globs decode)
      → (serving table c ≡ true) ↔ IsServing table c
  serving_iff table (key, runtime) =
      let is_available = available fl rand globs decode observe key in
      let (some_up, up_some) = any_iff (is_up is_available table) runtime.providers in
      let (all_fine, fine_all) = all_iff (is_fine is_available table) runtime.providers in
      (
        λ e.
            let (x, at, up) = some_up (ground arith) in
            let fine = all_fine (ground arith) in
            ((x, at, ground arith, ground arith), λ id m known. let ok = fine id m in ground arith),
        λ h.
            let ((x, at, known, up), each) = h in
            let first = up_some (x, at, ground arith) in
            let rest = fine_all (λ id m. let one = each id m in ground arith) in ground arith,
      )

  check_chain_lem :
      (table : Dict ProviderHandle) (key : Text) (runtime : ChainRuntime fl rand globs decode)
      (r : Readiness)
      → let r' = check_chain fl rand globs decode observe table key runtime r in
        (r'.ready ≡ (r.ready && serving table (key, runtime)))
        × (is_empty r'.issues ≡ (is_empty r.issues && serving table (key, runtime)))
  unfolding check_chain
  check_chain_lem table key runtime r =
      let t : Tally = record {
        ready = r.ready;
        issues = r.issues;
        chain_providers = [];
        available_in_chain = 0;
        total_in_chain = 0;
      } in
      let is_available = available fl rand globs decode observe key in
      let (ready, quiet, up) =
        tally_providers-IsTallied is_available table key runtime.providers t in
      let noted =
        append-is_empty (tally_providers is_available table key runtime.providers t).issues
          (codes "No providers are available for chain " ++ key) in
      (ground arith, ground arith)

  abbrev Checked :
      Dict ProviderHandle → Dict (ChainRuntime fl rand globs decode) → Readiness → Type 0
  Checked table chains r =
      let r' = check_chains fl rand globs decode observe table chains r in
      (r'.ready ≡ (r.ready && all (serving table) chains))
      × (is_empty r'.issues ≡ (is_empty r.issues && all (serving table) chains))

  check_chains_lem :
      (table : Dict ProviderHandle) (chains : Dict (ChainRuntime fl rand globs decode))
      (r : Readiness)
      → Checked table chains r
  unfolding check_chains
  check_chains_lem table [] r = (ground arith, ground arith)
  check_chains_lem table ((key, runtime) ∷ more) r =
      let (ready, quiet) =
        check_chains_lem table more
          (check_chain fl rand globs decode observe table key runtime r) in
      let (step_ready, step_quiet) = check_chain_lem table key runtime r in
      (ground arith, ground arith)

  readiness_lem :
      (state : ProxyState fl rand globs decode)
      → let r = readiness fl rand globs decode observe state in
        (r.ready ≡ all (serving state.providers_by_id) state.chains)
        × (is_empty r.issues ≡ all (serving state.providers_by_id) state.chains)
  unfolding readiness
  readiness_lem state =
      check_chains_lem state.providers_by_id state.chains
        (record { ready = true; provider_statuses = []; issues = [] })

  -- The readiness check answers 200 if and only if each chain has an available provider, and every
  -- provider of every chain is available, of those whose handle is known; it answers 200 if and
  -- only if it lists no issue; and it answers 200 or 503.
  pub readiness_handler_iff :
      (timestamp : Text) (state : ProxyState fl rand globs decode)
      → let status = (readiness_handler fl rand globs decode observe timestamp state).status in
        ((status ≡ 200) ↔ (
          (c : Text × ChainRuntime fl rand globs decode)
          → Member c state.chains
          → IsServing state.providers_by_id c))
        × ((status ≡ 200) ↔ ((readiness fl rand globs decode observe state).issues ≡ []))
        × ((status ≡ 200) ⊎ (status ≡ 503))
  unfolding readiness_handler
  readiness_handler_iff timestamp state =
      let table = state.providers_by_id in
      let (ready, quiet) = readiness_lem state in
      let (each, all_each) = all_iff (serving table) state.chains in
      let (empty, nil) = is_empty_iff (readiness fl rand globs decode observe state).issues in
      (
        (
          λ ok c m. (serving_iff table c).0 (each (ground arith) c m),
          λ h. let good = all_each (λ c m. (serving_iff table c).1 (h c m)) in ground arith,
        ),
        (λ ok. empty (ground arith), λ none_left. let good = nil none_left in ground arith),
        ground arith,
      )
