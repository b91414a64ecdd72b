-- ===== src/Tests/Configs.antt =====
-- Examples of the validation of crates/proxy-core/src/config.rs, and of the names of the chains.
use mathlib.Core.List.Perm
use rpceth.Base.{
  List, sym, ap, ◌∙◌, inl, inr, Member-cons, same_iff, true, Dict, ◌≡◌, ◌≢◌, ◌↔◌, All, refl, codes,
  [], ◌∷◌, some, none, get, contains, same, trim, to_ascii_lowercase, here, there, map, add,
  is_whitespace,
}
use rpceth.Settings.{balanced}
use rpceth.Provider
use rpceth.Provider.{ProviderHandle, into_handle}
use rpceth.Float.Thousandths.{thousandths}
use rpceth.Refusal.{Accepted}
use rpceth.Config.Checks.{
  validate_timeout, validate_max_retries, validate_multiplier, validate_backoff, validate_groups,
  validate_overrides,
}
use rpceth.Circuit
use rpceth.Circuit.{ProviderCircuit, closed}
use rpceth.Circuit.Configured.{IsPositive, IsOnlyOne, new-IsPositive}
use rpceth.Config.Valid.{ValidCircuit}
use rpceth.Config.{ChainConfig}
use rpceth.Config.Order.{reordered, validate-reordered}
use rpceth.Config.Validation.{validate}
use rpceth.Config.Accepts.{ValidConfig, validate_iff}
use rpceth.Methods.{MethodRegistry}
use rpceth.Server.Runtime.{
  ChainRuntime, found, by_id, chain_runtime, new_state, resolve_chain, normalize_chain_id,
}
use rpceth.Server.Runtime.Aliases.{resolve_chain-named}
use rpceth.Server.Runtime.Validated.{IsPlain, resolve_chain-validated, resolve_chain-default}
use rpceth.Balancer.{provider_ids}
use rpceth.Tests.{counting, verbatim, undecoded, mainnet, two_chains, alchemy_config}

validate_iff_example :
    Accepted (validate thousandths two_chains) ↔ ValidConfig thousandths two_chains
validate_iff_example = validate_iff thousandths two_chains

-- The configuration with two chains is accepted.
pub two_chains-Accepted : Accepted (validate thousandths two_chains)
unfolding validate trim Provider.validate contains add same validate_backoff validate_timeout
    validate_max_retries validate_multiplier validate_groups validate_overrides get
    to_ascii_lowercase
two_chains-Accepted = refl

pub two_chains-IsPlain : All (IsPlain thousandths counting verbatim undecoded) two_chains.chains
two_chains-IsPlain = ((refl, (refl, tt)), ((refl, tt), tt))

abbrev registry : MethodRegistry thousandths verbatim
registry = record {
  defaults = record {
    tolerance = balanced;
    timeout = 2_000_000_000;
    weight_multiplier = 1_000;
    max_retries = 3;
    provider_weights = [];
    backoff = none;
  };
  groups = [];
  override_set = record { globset = []; entries = [] };
}

-- " ETH", with a space, names the chain with the alias "Eth".
resolve_chain-named_example :
    resolve_chain thousandths counting verbatim undecoded
      (new_state thousandths counting verbatim undecoded two_chains registry)
      (some (32 ∷ codes "ETH"))
    ≡ found (
        chain_runtime thousandths counting verbatim undecoded two_chains
          (by_id (map into_handle two_chains.providers) [])
          registry
          (codes "1")
          mainnet)
unfolding contains same normalize_chain_id trim is_whitespace to_ascii_lowercase
resolve_chain-named_example =
    resolve_chain-named thousandths counting verbatim undecoded two_chains registry (codes "1")
      mainnet (codes "Eth") 32 (codes "ETH") (refl, (refl, (refl, tt))) here (there here) refl

resolve_chain-validated_example :
    (runtime : ChainRuntime thousandths counting verbatim undecoded) × (resolve_chain thousandths
        counting verbatim undecoded
        (new_state thousandths counting verbatim undecoded two_chains registry)
        (some (32 ∷ codes "ETH"))
      ≡ found runtime)
    × (runtime.id ≡ codes "1")
    × (provider_ids runtime.load_balancer.pool ≡ mainnet.providers)
    × (mainnet.providers ≢ [])
unfolding normalize_chain_id trim is_whitespace to_ascii_lowercase
resolve_chain-validated_example =
    resolve_chain-validated thousandths counting verbatim undecoded two_chains registry (codes "1")
      mainnet (codes "Eth") 32 (codes "ETH") two_chains-Accepted two_chains-IsPlain here
      (there here) refl

resolve_chain-default_example :
    (runtime : ChainRuntime thousandths counting verbatim undecoded) × (resolve_chain thousandths
        counting verbatim undecoded
        (new_state thousandths counting verbatim undecoded two_chains registry)
        none
      ≡ found runtime)
    × (runtime.load_balancer.pool ≢ [])
resolve_chain-default_example =
    resolve_chain-default thousandths counting verbatim undecoded two_chains registry
      two_chains-Accepted two_chains-IsPlain

-- The two chains in the other order.
abbrev turned : Dict ChainConfig
turned = (codes "10", record mainnet { aliases = [] }) ∷ (codes "1", mainnet) ∷ []

validate-reordered_example :
    Accepted (validate thousandths two_chains)
    ↔ Accepted (validate thousandths (reordered thousandths two_chains turned []))
validate-reordered_example =
    validate-reordered thousandths two_chains turned []
      (Perm.swap (codes "10", record mainnet { aliases = [] }) (codes "1", mainnet) []) Perm.nil

abbrev two_handles : List ProviderHandle
two_handles = map into_handle two_chains.providers

alchemy-IsOnlyOne : IsOnlyOne (into_handle alchemy_config) two_handles
unfolding same into_handle
alchemy-IsOnlyOne q at e = elim (Member-cons at) [
  | inl one ↦ sym one
  | inr later ↦ elim (Member-cons later) [
    | inl other ↦
        let differ : same (codes "infura") (codes "alchemy") ≡ true =
          (same_iff (codes "infura") (codes "alchemy")).1 (ap (λ h. h.id) other ∙ e) in
        cc
    | inr none_left ↦ elim none_left [ ]
  ]
]

new-IsPositive_example :
    (entry : ProviderCircuit) × (get
        (codes "alchemy")
        (Circuit.new two_handles two_chains.circuit_breaker)
      ≡ some entry)
    × (entry.state ≡ closed 0)
    × (IsPositive entry.config ↔ ValidCircuit (into_handle alchemy_config).circuit_breaker)
unfolding into_handle
new-IsPositive_example =
    new-IsPositive thousandths two_chains two_handles (into_handle alchemy_config)
      two_chains-Accepted here alchemy-IsOnlyOne
