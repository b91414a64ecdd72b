-- ===== src/Server/Process.antt =====
-- When crates/proxy-server/src/main.rs comes to serve, and when it stops, on Unix: it comes to serve
-- with a configuration or panics before, and `axum::serve` stops when the future `shutdown_signal` is
-- done, which waits for the first of three signals.
pub mod Starts
use rpceth.Base.{Bool, ◌&&◌, if◌then◌else◌, Option, none, some, List, [], ◌∷◌, Text, codes, ◌⊎◌}
use rpceth.Float.{Float}
use rpceth.Refusal.{ok, err}
use rpceth.Config.Given.{GivenConfig}
use rpceth.Config.Validation.{from_path}
use rpceth.Methods.{Globs}
use rpceth.Balancer.{Rand}
use rpceth.Server.Runtime.{ProxyState}
use rpceth.Server.Metrics.{start_states}

-- What other crates make of the calls of `main` by which it sets the process up: whether each of
-- them succeeds. `builds_clients` is of all HTTP clients of both states, and `builds_routes` of the
-- two routers and their merge.
pub record Platform : Type 0 where
  pub installs_metrics_exporter : Bool
  pub installs_tracing : Bool
  pub installs_otel_metrics : Bool
  pub builds_clients : Bool
  pub builds_routes : Bool
  pub binds_listener : Bool

module _ (fl : Float) (rand : Rand fl.F) (globs : Globs) (decode : Text → Text) where
  open fl use {F}

  -- `main` up to its call of `axum::serve`: the states of the router and of the metrics task, or
  -- `none` for a panic before that call. What the serving itself comes to is not part of it.
  unfoldable pub start :
      Platform
      → (Text → Text ⊎ GivenConfig F)
      → Text ⊎ Text
      → Option (ProxyState fl rand globs decode × ProxyState fl rand globs decode)
  unfolding from_path start_states
  start platform from_str file =
      if platform.installs_metrics_exporter
        && (platform.installs_tracing && platform.installs_otel_metrics)
      then elim (from_path fl from_str file) [
        | err refusal ↦ none
        | ok config ↦
            if platform.builds_clients && (platform.builds_routes && platform.binds_listener)
            then start_states fl rand globs decode config
            else none
      ]
      else none

pub data Signal : Type 0 where
  interrupt terminate hangup : Signal

-- The calls of `tracing::info!` and `tracing::warn!`.
pub data Line : Type 0 where
  info warn : Text → Line

-- What is logged of a signal: the line of its branch, then that of `select!`.
unfoldable pub logged : Signal → List Line
logged interrupt =
    info (codes "received SIGINT (Ctrl+C), initiating graceful shutdown")
    ∷ info (codes "shutting down due to SIGINT")
    ∷ []
logged terminate =
    info (codes "received SIGTERM, initiating graceful shutdown")
    ∷ info (codes "shutting down due to SIGTERM")
    ∷ []
logged hangup =
    info (codes "received SIGHUP, config reload requested (not implemented yet)")
    ∷ warn (codes "config reload not yet implemented, ignoring SIGHUP")
    ∷ []

-- The signals that arrive, in order: `none` while the future waits, else it is done with these lines.
unfoldable pub shutdown_signal : List Signal → Option (List Line)
unfolding logged
shutdown_signal [] = none
shutdown_signal (first ∷ later) = some (logged first)
