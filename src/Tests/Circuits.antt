-- ===== src/Tests/Circuits.antt =====
-- Examples of the circuit breaker of crates/proxy-core/src/circuit.rs.
use rpceth.Base.{
  ℕ, ◌+◌, ◌≡◌, refl, true, false, some, List, [], ◌∷◌, codes, get, modify, same, arith, min, length,
  if◌then◌else◌, leb,
}
use rpceth.Provider.{ProviderId}
use rpceth.Circuit.{
  CircuitBreaker, ResolvedCircuitBreaker, InnerState, closed, opened, half_open, is_available,
  on_request_start, on_success, on_failure, start_entry, fail_entry,
}
use rpceth.Circuit.History.{
  Call, started, succeeded, failed, run, run-Tracks, failure_run, last_failure, Tracks,
}
use rpceth.Circuit.Recovery.{
  trips, is_available-on_failure, count_admitted, count_admitted-opened, half_open_stays_shut,
}

abbrev p : ProviderId
p = codes "alchemy"

abbrev settings : ResolvedCircuitBreaker
settings = record { failure_threshold = 2; reset_timeout = 30; half_open_probe = 1 }

abbrev in_state : InnerState → CircuitBreaker
in_state s = (p, record { config = settings; state = s }) ∷ []

abbrev calls : List Call
calls =
    record { at = 1; provider = p; event = started }
    ∷ record { at = 2; provider = p; event = failed }
    ∷ record { at = 3; provider = codes "infura"; event = succeeded }
    ∷ record { at = 4; provider = p; event = failed }
    ∷ []

run-Tracks_example :
    (s : InnerState) × (get p (run calls (in_state (closed 0)))
      ≡ some (record { config = settings; state = s }))
    × Tracks settings (failure_run p calls 0) (last_failure p calls 0) s
unfolding get same
run-Tracks_example = run-Tracks p calls (in_state (closed 0)) settings refl

-- Two failures in a row have opened the circuit.
two_failures :
    get p (run calls (in_state (closed 0)))
    ≡ some (record { config = settings; state = opened 2 34 })
unfolding run on_failure get modify on_success on_request_start same fail_entry start_entry
two_failures = refl

is_available-on_failure_example :
    is_available 33 p (on_failure 4 p (in_state (closed 1)))
    ≡ (if trips settings (closed 1) then leb (4 + 30) 33 else true)
unfolding get same
is_available-on_failure_example =
    is_available-on_failure p (in_state (closed 1)) (record { config = settings; state = closed 1 })
      4 33 refl

abbrev times : List ℕ
times = 40 ∷ 41 ∷ 42 ∷ []

count_admitted-opened_example :
    count_admitted times p (in_state (opened 2 34)) ≡ min (length times) (1 + 1)
unfolding get same
count_admitted-opened_example =
    count_admitted-opened p times (in_state (opened 2 34)) settings 2 34 (omega arith) refl
      (omega arith, (omega arith, (omega arith, tt)))

abbrev strangers : List Call
strangers = record { at = 50; provider = codes "infura"; event = failed } ∷ []

half_open_stays_shut_example :
    is_available 1_000_000 p (run strangers (in_state (half_open 2 1))) ≡ false
unfolding get same
half_open_stays_shut_example =
    half_open_stays_shut p strangers (in_state (half_open 2 1)) settings 2 1 1_000_000 (omega arith)
      (omega arith) refl ((λ e. ground arith), tt)
