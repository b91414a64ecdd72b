-- ===== src/Circuit/Recovery.antt =====
-- How a circuit of crates/proxy-core/src/circuit.rs lets requests through after failures.
use rpceth.Base.{
  ℕ, suc, ◌+◌, ◌-◌, ◌≤◌, min, ◌≡◌, refl, inl, inr, Bool, true, false, some, List, [], ◌∷◌, same,
  same_self, same_iff, get, get-modify, Bool-cases, if◌then◌else◌, leb, length, All, arith,
}
use rpceth.Settings.{u32_max, saturating_suc}
use rpceth.Provider.{ProviderId}
use rpceth.Circuit.{
  CircuitBreaker, ProviderCircuit, ResolvedCircuitBreaker, InnerState, closed, opened, half_open,
  available_state, fail_state, start_entry, fail_entry, is_available, on_request_start, on_failure,
}
use rpceth.Circuit.History.{started, Call, run, run_entry, get-run}

-- A failure opens the circuit, unless it is closed and stays below the threshold.
abbrev pub trips : ResolvedCircuitBreaker → InnerState → Bool
trips config (closed failures) = leb config.failure_threshold (saturating_suc failures)
trips config (opened failures retry_at) = true
trips config (half_open failures attempts) = true

available-fail_state :
    (config : ResolvedCircuitBreaker) (now later : ℕ) (s : InnerState)
    → available_state config later (fail_state config now s)
      ≡ (if trips config s then leb (now + config.reset_timeout) later else true)
unfolding available_state fail_state
available-fail_state config now later (closed f) = ground arith
available-fail_state config now later (opened f r) = refl
available-fail_state config now later (half_open f a) = refl

-- After `on_failure` at time `now`, a provider that has a circuit is available at a time `later`
-- exactly when the failure did not trip the circuit, or the reset timeout has passed since `now`.
pub is_available-on_failure :
    (p : ProviderId) (b : CircuitBreaker) (e : ProviderCircuit) (now later : ℕ)
    → get p b ≡ some e
    → is_available later p (on_failure now p b)
      ≡ (if trips e.config e.state then leb (now + e.config.reset_timeout) later else true)
unfolding is_available on_failure fail_entry
is_available-on_failure p b e now later found = ground (
  arith,
  get-modify p p (fail_entry now) b,
  same_self p,
  available-fail_state e.config now later e.state,
)

-- One request after another asks for the provider at the given times; each one that finds it
-- available starts, and none has finished yet. How many start.
unfoldable pub count_admitted : List ℕ → ProviderId → CircuitBreaker → ℕ
count_admitted [] p b = 0
count_admitted (now ∷ times) p b =
    let started = suc (count_admitted times p (on_request_start now p b)) in
    let refused = count_admitted times p b in if is_available now p b then started else refused

get-on_request_start :
    (p : ProviderId) (b : CircuitBreaker) (e : ProviderCircuit) (now : ℕ)
    → get p b ≡ some e
    → get p (on_request_start now p b) ≡ some (start_entry now e)
unfolding on_request_start
get-on_request_start p b e now found =
    ground (arith, get-modify p p (start_entry now) b, same_self p)

count_admitted-half_open :
    (p : ProviderId) (times : List ℕ) (b : CircuitBreaker) (config : ResolvedCircuitBreaker)
    (failures attempts : ℕ)
    → config.half_open_probe ≤ u32_max
    → get p b ≡ some (record { config = config; state = half_open failures attempts })
    → count_admitted times p b ≡ min (length times) (config.half_open_probe - attempts)
unfolding count_admitted is_available start_entry
count_admitted-half_open p [] b config f a small found = omega arith
count_admitted-half_open p (now ∷ times) b config f a small found = ground (
  arith,
  get-on_request_start p b (record { config = config; state = half_open f a }) now found,
  count_admitted-half_open p times b config f a small found,
  count_admitted-half_open p times (on_request_start now p b) config f (saturating_suc a) small,
)

-- Once an open circuit's retry time has come, and while no result comes in, it lets through one
-- request more than `half_open_probe`: the one that finds it open is not counted.
pub count_admitted-opened :
    (p : ProviderId) (times : List ℕ) (b : CircuitBreaker) (config : ResolvedCircuitBreaker)
    (failures retry_at : ℕ)
    → config.half_open_probe ≤ u32_max
    → get p b ≡ some (record { config = config; state = opened failures retry_at })
    → All (λ now. retry_at ≤ now) times
    → count_admitted times p b ≡ min (length times) (config.half_open_probe + 1)
unfolding count_admitted is_available start_entry
count_admitted-opened p [] b config f r small found late = omega arith
count_admitted-opened p (now ∷ times) b config f r small found late = ground (
  arith,
  get-on_request_start p b (record { config = config; state = opened f r }) now found,
  count_admitted-half_open p times (on_request_start now p b) config f 0 small,
)

-- No result for the provider among the calls.
abbrev pub NoResult : ProviderId → List Call → Type 0
NoResult p = All (λ c. (c.provider ≡ p) → c.event ≡ started)

run_entry-half_open :
    (p : ProviderId) (cs : List Call) (config : ResolvedCircuitBreaker) (failures attempts : ℕ)
    → config.half_open_probe ≤ u32_max
    → config.half_open_probe ≤ attempts
    → NoResult p cs
    → (more : ℕ) × (run_entry p cs (record { config = config; state = half_open failures attempts })
        ≡ record { config = config; state = half_open failures more })
      × (config.half_open_probe ≤ more)
unfolding run_entry start_entry
run_entry-half_open p [] config f a small used quiet = (a, refl, used)
run_entry-half_open p (c ∷ cs) config f a small used (quiet, later) =
    elim (Bool-cases (same c.provider p)) [
      | inl own ↦
          let (more, e, enough) =
            run_entry-half_open p cs config f (saturating_suc a) small (omega arith) later in
          (more, rw (own, run_entry, quiet ((same_iff _ _).0 own)) e, enough)
      | inr other ↦
          let (more, e, enough) = run_entry-half_open p cs config f a small used later in
          (more, rw (other, run_entry) e, enough)
    ]

-- A half-open circuit whose probes are used up stays unavailable, whatever time passes and
-- whatever happens to other providers, until a result for this provider comes in.
pub half_open_stays_shut :
    (p : ProviderId) (cs : List Call) (b : CircuitBreaker) (config : ResolvedCircuitBreaker)
    (failures attempts now : ℕ)
    → config.half_open_probe ≤ u32_max
    → config.half_open_probe ≤ attempts
    → get p b ≡ some (record { config = config; state = half_open failures attempts })
    → NoResult p cs
    → is_available now p (run cs b) ≡ false
unfolding is_available
half_open_stays_shut p cs b config f a now small used found quiet =
    let (more, e, enough) = run_entry-half_open p cs config f a small used quiet in
    ground (arith, get-run p cs b)
