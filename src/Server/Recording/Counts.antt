-- ===== src/Server/Recording/Counts.antt =====
-- What the counters of crates/proxy-server/src/lib.rs say of a request.
use mathlib.Core.List.{append-nil}
use rpceth.Base.{
  ℕ, zero, suc, ◌+◌, ◌-◌, ◌≡◌, refl, ap, ◌∙◌, List, [], Bool-cases, inl, inr, ◌∷◌, ◌++◌, Text,
  codes, length, get, same, if◌then◌else◌, unwrap_or, arith,
}
use rpceth.Float.{Float}
use rpceth.Server.Handler.{LoopEnd, answered, gave_up, Event, selected, succeeded, failed, delayed}
use rpceth.Server.Runtime.{ChainKey}
use rpceth.Server.Recording.{
  Metric, histogram, counter, gauge, Timing, event_metrics, recorded, started_metrics,
  ended_metrics, request_metrics,
}

length-append_one : (ts : List Text) (t : Text) → length (ts ++ t ∷ []) ≡ suc (length ts)
length-append_one [] t = refl
length-append_one (x ∷ ts) t = ap suc (length-append_one ts t)

-- The status of each increment of a counter, in order; no text for an increment without one.
abbrev pub statuses : {F : Type 0} → Text → List (Metric F) → List Text
statuses name [] = []
statuses name (counter other labels ∷ more) =
    if same other name
    then unwrap_or [] (get (codes "status") labels) ∷ statuses name more
    else statuses name more
statuses name (_ ∷ more) = statuses name more

abbrev pub replicate : ℕ → Text → List Text
replicate zero t = []
replicate (suc n) t = t ∷ replicate n t

replicate_end : (n : ℕ) (t : Text) → replicate n t ++ t ∷ [] ≡ replicate (suc n) t
replicate_end zero t = refl
replicate_end (suc n) t = ap (λ ts. t ∷ ts) (replicate_end n t)

statuses-append :
    {F : Type 0} (name : Text) (ms ns : List (Metric F))
    → statuses name (ms ++ ns) ≡ statuses name ms ++ statuses name ns
statuses-append name [] ns = refl
statuses-append name (histogram other x labels ∷ ms) ns = statuses-append name ms ns
statuses-append name (gauge other x labels ∷ ms) ns = statuses-append name ms ns
statuses-append name (counter other labels ∷ ms) ns = elim (Bool-cases (same other name)) [
  | inl hit ↦
      rw hit
        (ap (λ ts. unwrap_or [] (get (codes "status") labels) ∷ ts) (statuses-append name ms ns))
  | inr miss ↦ rw miss (statuses-append name ms ns)
]

abbrev requests_total : Text
requests_total = codes "rpc_requests_total"

abbrev completions_total : Text
completions_total = codes "rpc_request_completions_total"

abbrev selections_total : Text
selections_total = codes "rpc_provider_selections_total"

abbrev errors_total : Text
errors_total = codes "rpc_errors_total"

abbrev volume_total : Text
volume_total = codes "rpc_request_volume_total"

module _ (fl : Float) (method : Text) (chain : ChainKey) (timing : ℕ → Timing) where
  open fl use {F}

  abbrev pub told : Text → List Event → List Text
  told name events = statuses name (recorded fl method chain timing events)

  abbrev told_at : Text → Event → List Text
  told_at name event = statuses name (event_metrics fl method chain timing event)

  told-cons :
      (name : Text) (event : Event) (events : List Event)
      → told name (event ∷ events) ≡ told name events ++ told_at name event
  unfolding recorded
  told-cons name event events =
      statuses-append name (recorded fl method chain timing events)
        (event_metrics fl method chain timing event)

  told-delayed :
      (name : Text) (events : List Event) → told name (delayed ∷ events) ≡ told name events
  unfolding event_metrics
  told-delayed name events = told-cons name delayed events ∙ append-nil (told name events)

  told-round :
      (name : Text) (k : ℕ) (id m : Text) (events : List Event)
      → told name (failed k id m ∷ selected k id ∷ events)
        ≡ (told name events ++ told_at name (selected k id)) ++ told_at name (failed k id m)
  told-round name k id m events =
      told-cons name (failed k id m) (selected k id ∷ events)
      ∙ ap (λ ts. ts ++ told_at name (failed k id m)) (told-cons name (selected k id) events)

  told-won :
      (name : Text) (k : ℕ) (id : Text) (events : List Event)
      → told name (succeeded k id ∷ selected k id ∷ events)
        ≡ (told name events ++ told_at name (selected k id)) ++ told_at name (succeeded k id)
  told-won name k id events =
      told-cons name (succeeded k id) (selected k id ∷ events)
      ∙ ap (λ ts. ts ++ told_at name (succeeded k id)) (told-cons name (selected k id) events)

  -- What is recorded of `n` attempts, all failed.
  pub record Tells (n : ℕ) (events : List Event) : Type 0 where
    pub requests : told requests_total events ≡ replicate n (codes "failure")
    pub completions : told completions_total events ≡ []
    pub selections : length (told selections_total events) ≡ n
    pub errors : length (told errors_total events) ≡ n
    pub volume : told volume_total events ≡ []

  pub Tells-failed :
      (n k : ℕ) (id m : Text) (events : List Event)
      → Tells n events
      → Tells (suc n) (failed k id m ∷ selected k id ∷ events)
  unfolding event_metrics same get
  Tells-failed n k id m events t = record {
    requests =
        told-round requests_total k id m events
        ∙ rw (t.requests, append-nil) (replicate_end n (codes "failure"));
    completions = told-round completions_total k id m events ∙ rw (t.completions) refl;
    selections =
        ap length (told-round selections_total k id m events)
        ∙ simp (append-nil)
            (length-append_one (told selections_total events) _ ∙ ap suc t.selections);
    errors =
        ap length (told-round errors_total k id m events)
        ∙ simp (append-nil) (length-append_one (told errors_total events) _ ∙ ap suc t.errors);
    volume = told-round volume_total k id m events ∙ rw (t.volume) refl;
  }

  pub Tells-delayed : (n : ℕ) (events : List Event) → Tells n events → Tells n (delayed ∷ events)
  Tells-delayed n events t = record {
    requests = told-delayed requests_total events ∙ t.requests;
    completions = told-delayed completions_total events ∙ t.completions;
    selections = ap length (told-delayed selections_total events) ∙ t.selections;
    errors = ap length (told-delayed errors_total events) ∙ t.errors;
    volume = told-delayed volume_total events ∙ t.volume;
  }

  -- What is recorded when the loop ends after `n` POSTs.
  abbrev pub Ends : LoopEnd → ℕ → List Event → Type 0
  Ends gave_up n events = Tells n events
  Ends (answered r) n events =
      (m : ℕ) × (k : ℕ) × (id : Text) × (earlier : List Event) × (n ≡ suc m)
      × (events ≡ succeeded k id ∷ selected k id ∷ earlier)
      × Tells m earlier

  -- What the counters of a request say if it ends so after `n` POSTs.
  abbrev pub Counts : LoopEnd → ℕ → List (Metric F) → Type 0
  Counts (answered r) n ms =
      (statuses requests_total ms
        ≡ codes "started" ∷ (replicate (n - 1) (codes "failure") ++ codes "success" ∷ []))
      × (statuses completions_total ms ≡ codes "success" ∷ [])
      × (length (statuses selections_total ms) ≡ n)
      × (length (statuses errors_total ms) ≡ n - 1)
      × (length (statuses volume_total ms) ≡ 1)
  Counts gave_up n ms =
      (statuses requests_total ms ≡ codes "started" ∷ replicate (n + 1) (codes "failure"))
      × (statuses completions_total ms ≡ codes "failure" ∷ [])
      × (length (statuses selections_total ms) ≡ n)
      × (length (statuses errors_total ms) ≡ n + 1)
      × (length (statuses volume_total ms) ≡ 1)

  told_all :
      (name : Text) (end : LoopEnd) (events : List Event)
      → statuses name (request_metrics fl method chain timing end events)
        ≡ statuses name (started_metrics fl method chain timing)
          ++ (told name events ++ statuses name (ended_metrics fl method chain timing end))
  unfolding request_metrics
  told_all name end events =
      statuses-append name (started_metrics fl method chain timing)
        (recorded fl method chain timing events ++ ended_metrics fl method chain timing end)
      ∙ ap (λ ts. statuses name (started_metrics fl method chain timing) ++ ts)
          (statuses-append name (recorded fl method chain timing events)
            (ended_metrics fl method chain timing end))

  one_more : (n : ℕ) → replicate (suc n) (codes "failure") ≡ replicate (n + 1) (codes "failure")
  one_more n = let e : suc n ≡ n + 1 = omega arith in ap (λ k. replicate k (codes "failure")) e

  pub Ends-Counts :
      (end : LoopEnd) (n : ℕ) (events : List Event)
      → Ends end n events
      → Counts end n (request_metrics fl method chain timing end events)
  unfolding started_metrics ended_metrics event_metrics same get
  Ends-Counts gave_up n events t = (
    told_all requests_total gave_up events
        ∙ rw t.requests (ap (λ ts. codes "started" ∷ ts) (replicate_end n _ ∙ one_more n)),
    told_all completions_total gave_up events ∙ rw t.completions refl,
    ap length (told_all selections_total gave_up events) ∙ simp (append-nil) t.selections,
    ap length (told_all errors_total gave_up events)
        ∙ (length-append_one (told errors_total events) _)
        ∙ omega (arith, t.errors),
    ap length (told_all volume_total gave_up events) ∙ rw t.volume refl,
  )
  Ends-Counts (answered r) n events (m, k, id, earlier, count, shape, t) =
      let less : suc m - 1 ≡ m = omega arith in
      rw (shape, count)
        (
          told_all requests_total (answered r) (succeeded k id ∷ selected k id ∷ earlier)
              ∙ rw (told-won requests_total k id earlier, t.requests) (rw less (simp append-nil)),
          told_all completions_total (answered r) (succeeded k id ∷ selected k id ∷ earlier)
              ∙ rw (told-won completions_total k id earlier, t.completions) refl,
          ap length
                (told_all selections_total (answered r) (succeeded k id ∷ selected k id ∷ earlier))
              ∙ rw (told-won selections_total k id earlier) (
                  simp append-nil
                    (length-append_one (told selections_total earlier) _ ∙ ap suc t.selections)),
          ap length (told_all errors_total (answered r) (succeeded k id ∷ selected k id ∷ earlier))
              ∙ rw (told-won errors_total k id earlier) (rw less (simp append-nil t.errors)),
          ap length (told_all volume_total (answered r) (succeeded k id ∷ selected k id ∷ earlier))
              ∙ rw (told-won volume_total k id earlier, t.volume) refl,
        )
