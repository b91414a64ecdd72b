-- ===== src/Health/Probe/History.antt =====
-- The failures that a service counts (crates/proxy-core/src/health/service.rs) against the probes of
-- crates/proxy-core/src/health/probe.rs that it has made.
use rpceth.Base.{
  ℕ, ◌+◌, ◌%◌, subst, ◌^◌, ◌≡◌, refl, ◌∙◌, Bool, ◌&&◌, Bool-cases, Option, some, List, [], ◌∷◌, map,
  same, get, get-modify, if◌then◌else◌, inl, inr, arith,
}
use rpceth.Provider.{ProviderId}
use rpceth.Float.{Float}
use rpceth.Health.{
  ProviderHealthState, HealthService, ProbeResult, ok, err, apply_success, apply_failure,
  apply_success_state, apply_failure_state, apply_result, apply_results,
}
use rpceth.Health.Probe.{chain_id_req, block_req, probe}
use rpceth.Health.Probe.Results.{Run, answered, is_ok, reported_by, result_of, probe_lem}

-- Both requests of a probe are answered with a status of success and a JSON-RPC body.
abbrev pub is_good : Run → Bool
is_good r =
    answered (r.post r.provider.url chain_id_req) && answered (r.post r.provider.url block_req)

-- The failed probes of a provider since its last good one, after `n` before the runs.
unfoldable pub failures_since : ProviderId → List Run → ℕ → ℕ
failures_since p [] n = n
failures_since p (r ∷ rs) n =
    failures_since p rs (if same r.provider.id p then (if is_good r then 0 else n + 1) else n)

-- The time of a provider's last probe, or that before the runs.
unfoldable pub last_probe : ProviderId → List Run → Option ℕ → Option ℕ
last_probe p [] t = t
last_probe p (r ∷ rs) t = last_probe p rs (if same r.provider.id p then some r.now else t)

module _ (fl : Float) where
  open fl use {F}

  -- What a service has of a provider, with these failures and this time of its last probe.
  pub record IsCounted (p : ProviderId) (h : HealthService F) (n : ℕ) (t : Option ℕ) : Type 0 where
    pub state : ProviderHealthState F
    pub known : get p h.state ≡ some state
    pub failures : state.consecutive_failures ≡ n % 2 ^ 32
    pub updated : state.last_updated ≡ t

  counted_more : (m n : ℕ) → m ≡ n % 2 ^ 32 → (m + 1) % 2 ^ 32 ≡ (n + 1) % 2 ^ 32
  counted_more m n e = omega arith

  apply_result-IsCounted :
      (p : ProviderId) (now : ℕ) (r : ProbeResult F) (h : HealthService F) (n : ℕ) (t : Option ℕ)
      → IsCounted p h n t
      → IsCounted p
          (apply_result fl now r h)
          (if same (reported_by fl r) p then (if is_ok fl r then 0 else n + 1) else n)
          (if same (reported_by fl r) p then some now else t)
  unfolding apply_result apply_success apply_failure apply_success_state apply_failure_state
  apply_result-IsCounted p now (ok success) h n t counted =
      let got = get-modify success.provider p (apply_success_state fl now success) h.state in
      elim (Bool-cases (same success.provider p)) [
        | inl same_one ↦ rw same_one record {
          state = apply_success_state fl now success counted.state;
          known = got ∙ rw (same_one, counted.known) refl;
          failures = refl;
          updated = refl;
        }
        | inr other ↦ rw other record {
          state = counted.state;
          known = got ∙ rw (other, counted.known) refl;
          failures = counted.failures;
          updated = counted.updated;
        }
      ]
  apply_result-IsCounted p now (err failure) h n t counted =
      let got = get-modify failure.provider p (apply_failure_state fl now) h.state in
      elim (Bool-cases (same failure.provider p)) [
        | inl same_one ↦ rw same_one record {
          state = apply_failure_state fl now counted.state;
          known = got ∙ rw (same_one, counted.known) refl;
          failures = counted_more _ n counted.failures;
          updated = refl;
        }
        | inr other ↦ rw other record {
          state = counted.state;
          known = got ∙ rw (other, counted.known) refl;
          failures = counted.failures;
          updated = counted.updated;
        }
      ]

  probe-IsCounted :
      (p : ProviderId) (r : Run) (h : HealthService F) (n : ℕ) (t : Option ℕ)
      → IsCounted p h n t
      → IsCounted p
          (apply_result fl r.now (probe fl r.provider r.elapsed r.post) h)
          (if same r.provider.id p then (if is_good r then 0 else n + 1) else n)
          (if same r.provider.id p then some r.now else t)
  probe-IsCounted p r h n t counted =
      let (verdict, name) = probe_lem fl r.provider r.elapsed r.post in
      let result = probe fl r.provider r.elapsed r.post in
      let after = apply_result fl r.now result h in
      subst
        (λ q.
          IsCounted p after (if same q p then (if is_good r then 0 else n + 1) else n)
            (if same q p then some r.now else t))
        name
        (subst
          (λ good.
            IsCounted p after
              (if same (reported_by fl result) p then (if good then 0 else n + 1) else n)
              (if same (reported_by fl result) p then some r.now else t))
          verdict (apply_result-IsCounted p r.now result h n t counted))

  -- After any probes of any providers, in any order and whatever the nodes answer, the health
  -- service's failure counter of a provider that it knows is the number of that provider's failed
  -- probes since its last good one (or of all, added to those before, if none was good), modulo
  -- 2^32, and its time of the last update is that of the provider's last probe; a probe is good if
  -- both of its requests are answered with a status of success and a JSON-RPC body.
  pub probes-IsCounted :
      (p : ProviderId) (runs : List Run) (h : HealthService F) (n : ℕ) (t : Option ℕ)
      → IsCounted p h n t
      → IsCounted p
          (apply_results fl (map (λ r. result_of fl r) runs) h)
          (failures_since p runs n)
          (last_probe p runs t)
  unfolding apply_results failures_since last_probe
  probes-IsCounted p [] h n t counted = counted
  probes-IsCounted p (r ∷ rs) h n t counted =
      probes-IsCounted p rs _ _ _ (probe-IsCounted p r h n t counted)
