-- ===== src/Server/Admin.antt =====
-- crates/proxy-server/src/admin.rs. `observe key id` is what a handler finds when it asks the
-- circuit breaker of the chain `key` for the provider `id`: the time and the breaker as the
-- requests have left it. `timestamp` is `chrono::Utc::now().to_rfc3339()`, `version` the package's.
-- Hash maps and sets are read in the order of their entries.
pub mod Reports
pub mod Verdict
use rpceth.Base.{
  ℕ, ◌+◌, ◌/◌, Bool, true, false, Option, none, some, List, [], ◌∷◌, ◌++◌, map, Text, codes, Dict,
  get, insert, length, any, ◌==◌, is_some, if◌then◌else◌, map_option, unwrap_or,
}
use rpceth.Settings.{
  ToleranceLevel, strict, balanced, relaxed, BalancerStrategy, round_robin, weighted_random,
}
use rpceth.Provider.{ProviderId, ProviderHandle}
use rpceth.Circuit.{CircuitBreaker}
use rpceth.Circuit
use rpceth.Float.{Float}
use rpceth.Json.{Json, null, bool, natural, string, object_of, array_of}
use rpceth.Methods.{Globs}
use rpceth.Balancer.{Rand}
use rpceth.Server.Forward.{Response, Body, raw, json}
use rpceth.Server.Runtime.{ChainKey, ChainRuntime, ProxyState}

-- `(status, Json(body))`
abbrev pub json_response : ℕ → Json → Response
json_response status body = record {
  status = status;
  headers = (codes "content-type", codes "application/json") ∷ [];
  body = json body;
}

-- `Duration::as_millis`
abbrev pub as_millis : ℕ → ℕ
as_millis d = d / 1_000_000

abbrev pub optional : Option Text → Json
optional none = null
optional (some s) = string s

-- The variables of the readiness check within one chain.
pub record Tally : Type 0 where
  pub ready : Bool
  pub issues : List Text
  pub chain_providers : List Json
  pub available_in_chain : ℕ
  pub total_in_chain : ℕ

-- The variables of the readiness check.
pub record Readiness : Type 0 where
  pub ready : Bool
  pub provider_statuses : Dict Json
  pub issues : List Text

unfoldable pub not_available : ProviderId → Text → Text
not_available id chain_id =
    codes "Provider " ++ id ++ codes " (chain " ++ chain_id ++ codes ") is not available"

unfoldable pub provider_status : ProviderHandle → ProviderId → Bool → Json
provider_status provider id is_available = object_of (
    (codes "id", string id)
    ∷ (codes "url", string provider.url)
    ∷ (codes "timeout_ms", natural (as_millis provider.timeout))
    ∷ (codes "weight", natural provider.base_weight)
    ∷ (codes "available", bool is_available)
    ∷ [])

-- A provider of the chain whose handle is known.
unfoldable pub tally_provider : Text → ProviderId → ProviderHandle → Bool → Tally → Tally
unfolding provider_status not_available
tally_provider chain_id id provider is_available t = record t {
  available_in_chain = if is_available then t.available_in_chain + 1 else t.available_in_chain;
  chain_providers = t.chain_providers ++ provider_status provider id is_available ∷ [];
  ready = if is_available then t.ready else false;
  issues = if is_available then t.issues else t.issues ++ not_available id chain_id ∷ [];
}

-- The loop over the providers of a chain.
unfoldable pub tally_providers :
    (ProviderId → Bool) → Dict ProviderHandle → Text → List ProviderId → Tally → Tally
unfolding tally_provider
tally_providers available table chain_id [] t = t
tally_providers available table chain_id (id ∷ more) t =
    let counted = record t { total_in_chain = t.total_in_chain + 1 } in
    tally_providers available table chain_id more (elim (get id table) [
      | none ↦ counted
      | some provider ↦ tally_provider chain_id id provider (available id) counted
    ])

module _ (fl : Float) (rand : Rand fl.F) (globs : Globs) (decode : Text → Text) where
  abbrev Runtime : Type 0
  Runtime = ChainRuntime fl rand globs decode

  abbrev State : Type 0
  State = ProxyState fl rand globs decode

  unfoldable pub health_enabled : Runtime → Bool
  health_enabled runtime = is_some runtime.shared.health_service

  module _ (observe : ChainKey → ProviderId → ℕ × CircuitBreaker) where
    abbrev pub available : ChainKey → ProviderId → Bool
    available key id = let (now, breaker) = observe key id in Circuit.is_available now id breaker

    unfoldable pub chain_status : Text → Tally → Json
    chain_status chain_id t = object_of (
        (codes "chain", string chain_id)
        ∷ (codes "available_providers", natural t.available_in_chain)
        ∷ (codes "total_providers", natural t.total_in_chain)
        ∷ (codes "providers", array_of t.chain_providers)
        ∷ [])

    -- One round of the readiness check's outer loop.
    unfoldable pub check_chain : Dict ProviderHandle → Text → Runtime → Readiness → Readiness
    unfolding tally_providers chain_status
    check_chain table chain_id runtime r =
        let t = tally_providers (available chain_id) table chain_id runtime.providers (record {
          ready = r.ready;
          issues = r.issues;
          chain_providers = [];
          available_in_chain = 0;
          total_in_chain = 0;
        }) in
        let nobody = t.available_in_chain == 0 in
        record {
          ready = if nobody then false else t.ready;
          provider_statuses = insert chain_id (chain_status chain_id t) r.provider_statuses;
          issues =
              if nobody
              then t.issues ++ (codes "No providers are available for chain " ++ chain_id) ∷ []
              else t.issues;
        }

    unfoldable pub check_chains : Dict ProviderHandle → Dict Runtime → Readiness → Readiness
    unfolding check_chain
    check_chains table [] r = r
    check_chains table ((chain_id, runtime) ∷ more) r =
        check_chains table more (check_chain table chain_id runtime r)

    unfoldable pub readiness : State → Readiness
    unfolding check_chains
    readiness state =
        check_chains state.providers_by_id state.chains
          (record { ready = true; provider_statuses = []; issues = [] })

    unfoldable pub readiness_handler : Text → State → Response
    unfolding readiness
    readiness_handler timestamp state =
        let r = readiness state in
        json_response (if r.ready then 200 else 503) (
          object_of (
            (codes "status", string (if r.ready then codes "ready" else codes "not_ready"))
            ∷ (codes "timestamp", string timestamp)
            ∷ (codes "chains", object_of r.provider_statuses)
            ∷ (codes "issues", array_of (map string r.issues))
            ∷ (codes "default_chain", optional state.default_chain)
            ∷ []))

unfoldable pub health_handler : Text → Text → Response
health_handler timestamp version = json_response 200 (
    object_of (
      (codes "status", string (codes "healthy"))
      ∷ (codes "timestamp", string timestamp)
      ∷ (codes "service", string (codes "proxy-server"))
      ∷ (codes "version", string version)
      ∷ []))
