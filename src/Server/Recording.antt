-- ===== src/Server/Recording.antt =====
-- The metrics that a request of crates/proxy-server/src/lib.rs hands to the macros of the `metrics`
-- crate. The durations are what the clock says between the lines of the handler: they are arguments.
pub mod Counts
pub mod Totals
use rpceth.Base.{
  ℕ, zero, suc, ◌+◌, ◌/◌, ◌%◌, Option, none, some, List, [], ◌∷◌, ◌++◌, Text, codes, ltb, unwrap_or,
  if◌then◌else◌,
}
use rpceth.Provider.{ProviderId}
use rpceth.Float.{Float, as_secs_f64}
use rpceth.Server.Forward.{classify_error}
use rpceth.Server.Handler.{LoopEnd, answered, gave_up, Event, selected, succeeded, failed, delayed}
use rpceth.Server.Runtime.{ChainKey}

abbrev pub Labels : Type 0
Labels = List (Text × Text)

-- `histogram!`, `increment_counter!`, `gauge!`
pub data Metric (F : Type 0) : Type 0 where
  histogram : (name : Text) → F → Labels → Metric F
  counter : (name : Text) → Labels → Metric F
  gauge : (name : Text) → F → Labels → Metric F

-- `to_string` of an unsigned integer.
decimal_digits : ℕ → ℕ → Text
decimal_digits zero n = (b'0' + n) ∷ []
decimal_digits (suc k) n =
    let front = decimal_digits k (n / 10) in
    if ltb n 10 then (b'0' + n) ∷ [] else front ++ (b'0' + n % 10) ∷ []

unfoldable pub decimal : ℕ → Text
unfolding decimal_digits
decimal n = decimal_digits n n

-- The durations that an attempt measures, in nanoseconds.
pub record Timing : Type 0 where
  pub lb_selection : ℕ
  pub provider_request : ℕ
  pub total_request : ℕ

module _ (fl : Float) where
  open fl use {F}

  unfoldable pub record_success_metrics :
      Text
      → ProviderId
      → ChainKey
      → (total_elapsed provider_elapsed lb_elapsed : ℕ) → List (Metric F)
  record_success_metrics method provider chain total_elapsed provider_elapsed lb_elapsed =
      let labels : Labels =
        (codes "method", method) ∷ (codes "provider", provider) ∷ (codes "chain", chain) ∷ [] in
      histogram (codes "rpc_request_duration_seconds") (as_secs_f64 fl total_elapsed) labels
      ∷ histogram (codes "rpc_provider_request_duration_seconds") (as_secs_f64 fl provider_elapsed)
          labels
      ∷ histogram (codes "rpc_lb_overhead_seconds") (as_secs_f64 fl lb_elapsed) labels
      ∷ counter (codes "rpc_requests_total") (labels ++ (codes "status", codes "success") ∷ [])
      ∷ []

  unfoldable pub record_failure_metrics : Text → Option Text → ChainKey → Text → List (Metric F)
  record_failure_metrics method provider chain error =
      let labels : Labels =
        (codes "method", method)
        ∷ (codes "provider", unwrap_or (codes "<none>") provider)
        ∷ (codes "chain", chain)
        ∷ [] in
      counter (codes "rpc_requests_total") (labels ++ (codes "status", codes "failure") ∷ [])
      ∷ counter (codes "rpc_errors_total") (labels ++ (codes "code", classify_error error) ∷ [])
      ∷ []

  module _ (method : Text) (chain : ChainKey) (timing : ℕ → Timing) where
    abbrev completion : Text → Metric F
    completion status =
        counter (codes "rpc_request_completions_total")
          ((codes "method", method) ∷ (codes "chain", chain) ∷ (codes "status", status) ∷ [])

    -- What is recorded at an event of `attempt_loop`.
    unfoldable pub event_metrics : Event → List (Metric F)
    unfolding record_success_metrics record_failure_metrics decimal
    event_metrics (selected attempt provider) =
        let labels : Labels =
          (codes "method", method) ∷ (codes "chain", chain) ∷ (codes "provider", provider) ∷ [] in
        histogram (codes "rpc_lb_selection_duration_seconds")
          (as_secs_f64 fl (timing attempt).lb_selection) labels
        ∷ counter (codes "rpc_provider_selections_total")
            (labels ++ (codes "attempt", decimal attempt) ∷ [])
        ∷ []
    event_metrics (succeeded attempt provider) =
        let t = timing attempt in
        record_success_metrics method provider chain t.total_request t.provider_request
          t.lb_selection
        ++ completion (codes "success") ∷ []
    event_metrics (failed attempt provider error) =
        record_failure_metrics method (some provider) chain error
    event_metrics delayed = []

    -- Of the events, the newest first; the metrics in the order of time.
    unfoldable pub recorded : List Event → List (Metric F)
    unfolding event_metrics
    recorded [] = []
    recorded (event ∷ earlier) = recorded earlier ++ event_metrics event

    unfoldable pub started_metrics : List (Metric F)
    started_metrics =
        let labels : Labels = (codes "method", method) ∷ (codes "chain", chain) ∷ [] in
        counter (codes "rpc_requests_total") (labels ++ (codes "status", codes "started") ∷ [])
        ∷ counter (codes "rpc_request_volume_total") labels
        ∷ []

    -- After the loop, unless a provider answered.
    unfoldable pub ended_metrics : LoopEnd → List (Metric F)
    unfolding record_failure_metrics
    ended_metrics (answered response) = []
    ended_metrics gave_up =
        record_failure_metrics method none chain (codes "all providers failed")
        ++ completion (codes "failure") ∷ []

    -- All that a request records once its chain and policy are known.
    unfoldable pub request_metrics : LoopEnd → List Event → List (Metric F)
    unfolding recorded started_metrics ended_metrics
    request_metrics end events = started_metrics ++ (recorded events ++ ended_metrics end)
