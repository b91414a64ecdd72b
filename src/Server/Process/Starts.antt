-- ===== src/Server/Process/Starts.antt =====
-- When crates/proxy-server/src/main.rs comes to serve.
use rpceth.Base.{
  Bool, true, false, ◌&&◌, Bool-cases, List, map, Result-cases, ◌↔◌, inl, ◌≡◌, refl, ◌⊎◌, inr, some,
  Text,
}
use rpceth.Float.{Float}
use rpceth.Refusal.{ok, ok_or_err, >>-ok, Accepted}
use rpceth.Config.{ProxyConfig}
use rpceth.Config.Given.{GivenConfig, fill}
use rpceth.Config.Validation.{validate, load_from_str, from_path}
use rpceth.Methods
use rpceth.Methods.{Globs, MethodRegistry}
use rpceth.Methods.Patterns.{AreGlobs}
use rpceth.Methods.Registry.{new-IsBuilt, Built-new}
use rpceth.Balancer.{Rand}
use rpceth.Server.Runtime.{ProxyState, new, new_state}
use rpceth.Server.Metrics.{start_states}
use rpceth.Server.Process.{Platform, start}

module _ (fl : Float) (rand : Rand fl.F) (globs : Globs) (decode : Text → Text) where
  open fl use {F}

  new-new_state :
      (config : ProxyConfig F) (registry : MethodRegistry fl globs)
      → Methods.new fl globs config ≡ inr registry
      → new fl rand globs decode config ≡ some (new_state fl rand globs decode config registry)
  unfolding new
  new-new_state config registry built = rw (built, new) refl

  -- A process that is set up, and a file that can be read, with a configuration that is accepted
  -- and whose patterns build.
  pub record IsServable (platform : Platform) (from_str : Text → Text ⊎ GivenConfig F)
      (file : Text ⊎ Text) : Type 0 where
    pub recorder : platform.installs_metrics_exporter ≡ true
    pub tracing : platform.installs_tracing ≡ true
    pub otel : platform.installs_otel_metrics ≡ true
    pub clients : platform.builds_clients ≡ true
    pub routes : platform.builds_routes ≡ true
    pub listener : platform.binds_listener ≡ true
    pub body : Text
    pub given : GivenConfig F
    pub read : file ≡ inr body
    pub parsed : from_str body ≡ inr given
    pub accepted : Accepted (validate fl (fill given))
    pub added : List globs.Glob
    pub set : globs.GlobSet
    pub valid : AreGlobs fl globs (map (λ o. o.pattern) (fill given).methods.overrides) added
    pub built : globs.build added ≡ inr set

  from_path-ok :
      (from_str : Text → Text ⊎ GivenConfig F) (file : Text ⊎ Text) (config : ProxyConfig F)
      → from_path fl from_str file ≡ ok config
      → (body : Text) × (given : GivenConfig F) × (file ≡ inr body)
        × (from_str body ≡ inr given)
        × Accepted (validate fl (fill given))
        × (fill given ≡ config)
  unfolding from_path load_from_str
  from_path-ok from_str (inl message) config e = cc
  from_path-ok from_str (inr body) config e = elim (Result-cases (from_str body)) [
    | inl (message, wrong) ↦ let now = rw (wrong, from_path, load_from_str) at e in cc
    | inr (given, parsed) ↦
        let now = rw (parsed, from_path, load_from_str) at e in
        let (accepted, filled) = >>-ok (validate fl (fill given)) (fill given) config now in
        (body, given, refl, parsed, accepted, filled)
  ]

  start_states-some :
      (config : ProxyConfig F)
      (states : ProxyState fl rand globs decode × ProxyState fl rand globs decode)
      → start_states fl rand globs decode config ≡ some states
      → (registry : MethodRegistry fl globs) × (Methods.new fl globs config ≡ inr registry)
  unfolding start_states new
  start_states-some config states e = elim (Result-cases (Methods.new fl globs config)) [
    | inl (error, refused) ↦ let now = rw (refused, start_states, new) at e in cc
    | inr made ↦ made
  ]

  both : (a b c : Bool) → (a && (b && c)) ≡ true → (a ≡ true) × (b ≡ true) × (c ≡ true)
  both true true true e = (refl, refl, refl)
  both true true false e = cc
  both true false c e = cc
  both false b c e = cc

  -- The guards of `start` hold when it gives states.
  start-some :
      (platform : Platform) (from_str : Text → Text ⊎ GivenConfig F) (file : Text ⊎ Text)
      (states : ProxyState fl rand globs decode × ProxyState fl rand globs decode)
      → start fl rand globs decode platform from_str file ≡ some states
      → (config : ProxyConfig F) × (from_path fl from_str file ≡ ok config)
        × (start_states fl rand globs decode config ≡ some states)
        × ((platform.installs_metrics_exporter
              && (platform.installs_tracing && platform.installs_otel_metrics))
            ≡ true)
        × ((platform.builds_clients && (platform.builds_routes && platform.binds_listener)) ≡ true)
  unfolding start
  start-some platform from_str file states e =
      elim (Bool-cases (
        platform.installs_metrics_exporter
        && (platform.installs_tracing && platform.installs_otel_metrics))) [
          | inr missing ↦ let now = rw (missing, start) at e in cc
          | inl installed ↦ elim (ok_or_err (from_path fl from_str file)) [
            | inl (refusal, failed) ↦ let now = rw (installed, start, failed, start) at e in cc
            | inr (config, loaded) ↦
                elim (Bool-cases (
                  platform.builds_clients && (platform.builds_routes && platform.binds_listener))) [
                    | inr missing ↦
                        let now = rw (installed, start, loaded, start, missing, start) at e in cc
                    | inl built ↦
                        let now = rw (installed, start, loaded, start, built, start) at e in
                        (config, loaded, now, installed, built)
                  ]
          ]
        ]

  IsServable-of :
      (platform : Platform) (from_str : Text → Text ⊎ GivenConfig F) (file : Text ⊎ Text)
      (states : ProxyState fl rand globs decode × ProxyState fl rand globs decode)
      → start fl rand globs decode platform from_str file ≡ some states
      → IsServable platform from_str file
  IsServable-of platform from_str file states e =
      let (config, loaded, now, installed, set_up) = start-some platform from_str file states e in
      let (recorder, tracing, otel) = both _ _ _ installed in
      let (clients, routes, listener) = both _ _ _ set_up in
      let (registry, made) = start_states-some config states now in
      let (body, given, read, parsed, accepted, filled) =
        from_path-ok from_str file config loaded in
      let parts = new-IsBuilt fl globs (fill given) registry (rw filled made) in
      record {
        recorder = recorder;
        tracing = tracing;
        otel = otel;
        clients = clients;
        routes = routes;
        listener = listener;
        body = body;
        given = given;
        read = read;
        parsed = parsed;
        accepted = accepted;
        added = parts.added;
        set = registry.override_set.globset;
        valid = parts.valid;
        built = parts.built;
      }

  -- The two states are built alike.
  start-states :
      (platform : Platform) (from_str : Text → Text ⊎ GivenConfig F) (file : Text ⊎ Text)
      (servable : IsServable platform from_str file)
      → (registry : MethodRegistry fl globs) × (let app =
            new_state fl rand globs decode (fill servable.given) registry in
          start fl rand globs decode platform from_str file ≡ some (app, app))
  unfolding start from_path load_from_str start_states
  start-states platform from_str file servable =
      let given = servable.given in
      let (registry, made) =
        Built-new fl globs (fill given) servable.added servable.set servable.valid servable.built in
      let states = new-new_state (fill given) registry made in
      (
        registry,
        rw
            (
              servable.recorder, servable.tracing, servable.otel, start, servable.read, from_path,
              servable.parsed, servable.accepted, start, servable.clients, servable.routes,
              servable.listener, start, start_states, states, start_states, states,
            )
            refl,
      )

  -- `main` comes to its call of `axum::serve`, instead of panicking before it, if and only if the
  -- installing of the metrics recorder, of the tracing and of the metrics exporter, the building
  -- of the HTTP clients and of the routes, and the binding of the listener all succeed, its file
  -- can be read, the text gives a configuration, `validate` accepts that with defaults for what it
  -- leaves out, and the method patterns are valid globs that make a set. What the serving itself
  -- comes to is left out.
  pub start_iff :
      (platform : Platform) (from_str : Text → Text ⊎ GivenConfig F) (file : Text ⊎ Text)
      → ((states : ProxyState fl rand globs decode × ProxyState fl rand globs decode) × (start fl
              rand globs decode platform from_str file
            ≡ some states))
        ↔ IsServable platform from_str file
  start_iff platform from_str file = (
    λ p. IsServable-of platform from_str file p.0 p.1,
    λ servable.
        let (registry, started) = start-states platform from_str file servable in (_, started),
  )
