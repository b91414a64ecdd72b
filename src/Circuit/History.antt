-- ===== src/Circuit/History.antt =====
-- The circuits of crates/proxy-core/src/circuit.rs against the history of calls.
use rpceth.Base.{
  ℕ, suc, ◌+◌, ◌≤◌, ◌<◌, min, ◌≡◌, refl, ◌∙◌, ◌⊎◌, inl, inr, some, List, [], ◌∷◌, same, get,
  get-modify, map_option, Bool-cases, subst, if◌then◌else◌, arith,
}
use rpceth.Settings.{u32_max}
use rpceth.Provider.{ProviderId}
use rpceth.Circuit.{
  CircuitBreaker, ProviderCircuit, ResolvedCircuitBreaker, InnerState, closed, opened, half_open,
  start_state, fail_state, start_entry, fail_entry, succeed_entry, on_request_start, on_success,
  on_failure,
}

pub data Event : Type 0 where
  started succeeded failed : Event

-- A call of the breaker: when, for which provider, and which of the three methods.
pub record Call : Type 0 where
  pub at : ℕ
  pub provider : ProviderId
  pub event : Event

perform : Event → ℕ → ProviderId → CircuitBreaker → CircuitBreaker
perform started now provider = on_request_start now provider
perform succeeded now provider = on_success provider
perform failed now provider = on_failure now provider

unfoldable pub run : List Call → CircuitBreaker → CircuitBreaker
unfolding perform
run [] b = b
run (c ∷ cs) b = run cs (perform c.event c.at c.provider b)

-- What one call makes of its provider's own entry.
step_entry : ℕ → Event → ProviderCircuit → ProviderCircuit
unfolding start_entry fail_entry succeed_entry
step_entry now started e = start_entry now e
step_entry now succeeded e = succeed_entry e
step_entry now failed e = fail_entry now e

-- One provider's circuit alone, through the calls that name it.
unfoldable pub run_entry : ProviderId → List Call → ProviderCircuit → ProviderCircuit
unfolding step_entry
run_entry p [] e = e
run_entry p (c ∷ cs) e = run_entry p cs (if same c.provider p then step_entry c.at c.event e else e)

get-perform :
    (k : Event) (now : ℕ) (q p : ProviderId) (b : CircuitBreaker)
    → get p (perform k now q b)
      ≡ (if same q p then map_option (step_entry now k) (get p b) else get p b)
unfolding perform step_entry on_request_start on_success on_failure
get-perform started now q p b = get-modify q p (start_entry now) b
get-perform succeeded now q p b = get-modify q p succeed_entry b
get-perform failed now q p b = get-modify q p (fail_entry now) b

-- After any calls, for any providers in any order, a provider's circuit is what its own calls make
-- of it: the calls for other providers do not touch it.
pub get-run :
    (p : ProviderId) (cs : List Call) (b : CircuitBreaker)
    → get p (run cs b) ≡ map_option (run_entry p cs) (get p b)
unfolding run run_entry
get-run p [] b = ground arith
get-run p (c ∷ cs) b = ground (
  arith,
  get-run p cs (perform c.event c.at c.provider b),
  get-perform c.event c.at c.provider p b,
)

-- The failures of a provider since its last success (`n` of them before the calls), and the time
-- of the last failure.
abbrev pub counted : Event → ℕ → ℕ
counted started n = n
counted succeeded n = 0
counted failed n = suc n

abbrev pub timed : Event → ℕ → ℕ → ℕ
timed failed now t = now
timed _ now t = t

abbrev pub failure_run : ProviderId → List Call → ℕ → ℕ
failure_run p [] n = n
failure_run p (c ∷ cs) n = failure_run p cs (if same c.provider p then counted c.event n else n)

abbrev pub last_failure : ProviderId → List Call → ℕ → ℕ
last_failure p [] t = t
last_failure p (c ∷ cs) t =
    last_failure p cs (if same c.provider p then timed c.event c.at t else t)

-- What the state says of `n` failures in a row, the last of them at time `t`.
abbrev pub Tracks : ResolvedCircuitBreaker → ℕ → ℕ → InnerState → Type 0
Tracks config n t (closed failures) =
    (failures ≡ min n u32_max) × ((n ≡ 0) ⊎ (failures < config.failure_threshold))
Tracks config n t (opened failures retry_at) =
    (failures ≡ min n u32_max)
    × (0 < n)
    × (config.failure_threshold ≤ failures)
    × (retry_at ≡ t + config.reset_timeout)
Tracks config n t (half_open failures attempts) =
    (failures ≡ min n u32_max) × (0 < n) × (config.failure_threshold ≤ failures)

module _ (config : ResolvedCircuitBreaker) (n t now : ℕ) where
  start_state-Tracks :
      (s : InnerState) → Tracks config n t s → Tracks config n t (start_state config now s)
  unfolding start_state
  start_state-Tracks (closed f) h = h
  start_state-Tracks (opened f r) h = ground arith
  start_state-Tracks (half_open f a) h = h

  fail_state-Tracks :
      (s : InnerState) → Tracks config n t s → Tracks config (suc n) now (fail_state config now s)
  unfolding fail_state
  fail_state-Tracks (closed f) h = ground arith
  fail_state-Tracks (opened f r) h = ground arith
  fail_state-Tracks (half_open f a) h = ground arith

step_entry-Tracks :
    (k : Event) (now n t : ℕ) (e : ProviderCircuit)
    → Tracks e.config n t e.state
    → let e' = step_entry now k e in
      (e'.config ≡ e.config) × Tracks e'.config (counted k n) (timed k now t) e'.state
unfolding step_entry start_entry fail_entry succeed_entry
step_entry-Tracks started now n t e h = (refl, start_state-Tracks e.config n t now e.state h)
step_entry-Tracks succeeded now n t e h = ground arith
step_entry-Tracks failed now n t e h = (refl, fail_state-Tracks e.config n t now e.state h)

run_entry-Tracks :
    (p : ProviderId) (cs : List Call) (n t : ℕ) (e : ProviderCircuit)
    → Tracks e.config n t e.state
    → let e' = run_entry p cs e in
      (e'.config ≡ e.config) × Tracks e'.config (failure_run p cs n) (last_failure p cs t) e'.state
unfolding run_entry
run_entry-Tracks p [] n t e h = (refl, h)
run_entry-Tracks p (c ∷ cs) n t e h = elim (Bool-cases (same c.provider p)) [
  | inl own ↦
      let (same_config, kept) = step_entry-Tracks c.event c.at n t e h in
      let (rest_config, rest) =
        run_entry-Tracks p cs (counted c.event n) (timed c.event c.at t) (step_entry c.at c.event e)
          kept in
      rw (own, run_entry) (rest_config ∙ same_config, rest)
  | inr other ↦ rw (other, run_entry) (run_entry-Tracks p cs n t e h)
]

-- A circuit that starts closed with no failures counts, after any calls for any providers, the
-- failures since the provider's last success (capped at u32::MAX). It is closed only if there are
-- none, or fewer than the threshold; it is open or half-open only if there are some, and at least
-- as many as the threshold; and an open circuit's retry time is the last failure's time plus the
-- reset timeout.
pub run-Tracks :
    (p : ProviderId) (cs : List Call) (b : CircuitBreaker) (config : ResolvedCircuitBreaker)
    → get p b ≡ some (record { config = config; state = closed 0 })
    → (s : InnerState) × (get p (run cs b) ≡ some (record { config = config; state = s }))
      × Tracks config (failure_run p cs 0) (last_failure p cs 0) s
run-Tracks p cs b config found =
    let e : ProviderCircuit = record { config = config; state = closed 0 } in
    let (kept, tracks) = run_entry-Tracks p cs 0 0 e (ground arith) in
    (
      (run_entry p cs e).state,
      get-run p cs b ∙ rw found (ground (arith, kept)),
      subst (λ k. Tracks k (failure_run p cs 0) (last_failure p cs 0) (run_entry p cs e).state) kept
          tracks,
    )
