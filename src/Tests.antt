-- ===== src/Tests.antt =====
-- The data of the examples: two providers, a generator that counts, patterns that match themselves
-- alone, a clock, and a configuration with two chains of crates/proxy-core/src/config.rs.
pub mod Circuits
pub mod Codes
pub mod Configs
pub mod Health
pub mod Policies
pub mod Routing
pub mod Requests
pub mod Probes
pub mod Operations
pub mod Starts
pub mod Interleavings
use native.Mathlib.Nat.{mod-lt}
use rpceth.Base.{
  ◌%◌, ◌<◌, ◌≡◌, length, arith, refl, inl, inr, if◌then◌else◌, same, true, ℕ, suc, ◌*◌, ◌%◌, Option,
  none, some, List, [], ◌∷◌, Text, codes, Dict, same, length, if◌then◌else◌,
}
use rpceth.Settings.{balanced, round_robin, CircuitBreakerConfig}
use rpceth.Provider.{ProviderConfig, ProviderHandle, into_handle}
use rpceth.Float.{Float}
use rpceth.Float.Thousandths.{thousandths}
use rpceth.Config.{ChainConfig, MethodConfig, ProxyConfig}
use rpceth.Methods.{Globs}
use rpceth.Balancer.{Rand}
use rpceth.Server.{RequestContext, Surroundings}
use rpceth.Server.Forward.{SendResult, Post, bytes, answered}
use rpceth.Server.Gateway.{Outside}

abbrev pub no_settings : CircuitBreakerConfig
no_settings = record { failure_threshold = none; reset_timeout_ms = none; half_open_probe = none }

abbrev pub alchemy_config : ProviderConfig
alchemy_config = record {
  id = codes "alchemy";
  url = codes "https://alchemy.test/";
  base_weight = 2;
  max_connections = 16;
  timeout_ms = 1_500;
  circuit_breaker = no_settings;
}

abbrev pub infura_config : ProviderConfig
infura_config = record {
  id = codes "infura";
  url = codes "https://infura.test/";
  base_weight = 1;
  max_connections = 16;
  timeout_ms = 3_000;
  circuit_breaker = no_settings;
}

abbrev pub alchemy : ProviderHandle
alchemy = into_handle alchemy_config

abbrev pub infura : ProviderHandle
infura = into_handle infura_config

abbrev pub two_providers : List ProviderHandle
two_providers = alchemy ∷ infura ∷ []

-- A distribution is the number of its weights; the generator is a counter.
abbrev weighted_index : List ℕ → Option ℕ
weighted_index [] = none
weighted_index (w ∷ ws) = some (suc (length ws))

pub draws_below : (ws : List ℕ) (d r : ℕ) → weighted_index ws ≡ some d → (r % d) < length ws
draws_below [] d r e = cc
draws_below (w ∷ ws) d r e =
    let all : suc (length ws) ≡ d = cc in rw (← all) (mod-lt r {m = suc (length ws)} (omega arith))

abbrev pub counting : Rand ℕ
counting = record {
  Rng = ℕ;
  Distribution = ℕ;
  weighted = weighted_index;
  sample = λ d r. (r % d, suc r);
  seed_from = λ seed. seed;
  draws = draws_below;
}

abbrev positions : ℕ → Text → List Text → List ℕ
positions i method [] = []
positions i method (pattern ∷ patterns) =
    let rest = positions (suc i) method patterns in if same pattern method then i ∷ rest else rest

abbrev pub verbatim : Globs
verbatim = record {
  Error = Text;
  Glob = Text;
  GlobSet = List Text;
  glob_new = λ pattern.
      if same pattern (codes "[") then inl (codes "unclosed character class") else inr pattern;
  build = inr;
  matches = λ set method. positions 0 method set;
}

abbrev pub undecoded : Text → Text
undecoded value = value

-- The clock advances by a second at each access; no other task interferes.
abbrev pub quiet : {S : Type 0} → Surroundings S
quiet = record { instant = λ k. k * 1_000_000_000; interfere = λ k s. s }

-- "alchemy" answers 503, "infura" answers 200.
abbrev pub replies : ℕ → Post → ℕ → SendResult
replies k post timeout =
    if same post.url (codes "https://alchemy.test/")
    then answered 503 [] (bytes [])
    else answered 200 [] (bytes (1 ∷ []))

abbrev pub outside : {S : Type 0} → Outside ℕ S
outside = record {
  around = quiet;
  upstream = replies;
  status_text = λ status. codes "503 Service Unavailable";
  accepts = λ backoff. true;
}

abbrev pub anyone : RequestContext
anyone = record { provider_override = none }

abbrev pub plain_methods : MethodConfig ℕ
plain_methods = record {
  default = record {
    tolerance = none;
    timeout_ms = none;
    weight_multiplier = none;
    max_retries = none;
    backoff = none;
    provider_weights = [];
  };
  groups = [];
  overrides = [];
}

abbrev pub mainnet : ChainConfig
mainnet = record {
  providers = codes "alchemy" ∷ codes "infura" ∷ [];
  aliases = codes "Eth" ∷ [];
  tolerance = none;
}

abbrev pub two_chains : ProxyConfig ℕ
two_chains = record {
  strategy = round_robin;
  default_timeout_ms = 2_000;
  max_retries = 3;
  default_tolerance = balanced;
  methods = plain_methods;
  circuit_breaker = no_settings;
  auth = record { api_key = codes "secret" };
  providers = alchemy_config ∷ infura_config ∷ [];
  chains = (codes "1", mainnet) ∷ (codes "10", record mainnet { aliases = [] }) ∷ [];
  default_chain = some (codes "1");
}
