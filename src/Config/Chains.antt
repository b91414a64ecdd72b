-- ===== src/Config/Chains.antt =====
-- The checks of crates/proxy-core/src/config.rs on the chains. A `HashSet` is the list of its
-- elements.
use rpceth.Base.{
  not, none, some, List, [], ◌∷◌, ◌++◌, Text, codes, Dict, get, is_some, is_empty, contains, add,
  map, trim, to_ascii_lowercase, if◌then◌else◌,
}
use rpceth.Provider.{ProviderId}
use rpceth.Refusal.{Result, ok, err, validation, ◌>>=◌, ◌>>◌, refuse_if}
use rpceth.Config.{ChainConfig, ProxyConfig}

unfoldable pub normalize_chain_alias : Text → Text
normalize_chain_alias value = to_ascii_lowercase (trim value)

unfoldable pub validate_references : Text → List ProviderId → List ProviderId → Result (Unit {0})
validate_references chain_key provider_ids [] = ok tt
validate_references chain_key provider_ids (id ∷ more) = do
  refuse_if (not (contains provider_ids id))
      (codes "chain `" ++ chain_key ++ codes "` references unknown provider `" ++ id ++ codes "`")
  validate_references chain_key provider_ids more

-- The loop over the aliases of one chain: those seen in the chain, and those used in all chains,
-- which are returned.
unfoldable pub validate_aliases : Text → List Text → List Text → List Text → Result (List Text)
unfolding normalize_chain_alias
validate_aliases chain_key seen used [] = ok used
validate_aliases chain_key seen used (alias ∷ more) = do
  let trimmed = trim alias
  let normalized = normalize_chain_alias trimmed
  refuse_if (is_empty trimmed) (codes "chain `" ++ chain_key ++ codes "` has an empty alias entry")
  refuse_if (contains seen normalized)
      (codes "chain `" ++ chain_key ++ codes "` contains duplicate alias `" ++ trimmed ++ codes "`")
  refuse_if (contains used normalized)
      (codes "alias `" ++ trimmed ++ codes "` is already in use by another chain")
  validate_aliases chain_key (add normalized seen) (add normalized used) more

-- The loop over the chains, with the names used so far.
unfoldable pub validate_chain_entries :
    List ProviderId → List Text → Dict ChainConfig → Result (Unit {0})
unfolding validate_references validate_aliases
validate_chain_entries provider_ids used [] = ok tt
validate_chain_entries provider_ids used ((chain_key, chain) ∷ more) = do
  let canonical = trim chain_key
  refuse_if (is_empty canonical) (codes "chain keys must not be empty or whitespace")
  refuse_if (is_empty chain.providers)
      (codes "chain `" ++ chain_key ++ codes "` must reference at least one provider")
  validate_references chain_key provider_ids chain.providers
  refuse_if (contains used (normalize_chain_alias canonical))
      (codes "chain identifier `" ++ chain_key ++ codes "` conflicts with another chain alias")
  used' ← validate_aliases chain_key [] (add (normalize_chain_alias canonical) used) chain.aliases
  validate_chain_entries provider_ids used' more

module _ {F : Type 0} where
  unfoldable pub validate_named_chains : ProxyConfig F → Text → Result (Unit {0})
  unfolding validate_chain_entries
  validate_named_chains config default_chain = do
    refuse_if (is_empty (trim default_chain)) (codes "default_chain must not be empty")
    refuse_if (not (is_some (get default_chain config.chains)))
        (codes "default_chain `" ++ default_chain ++ codes "` does not exist in chains map")
    validate_chain_entries (map (λ p. p.id) config.providers) [] config.chains

  unfoldable pub validate_chains : ProxyConfig F → Result (Unit {0})
  unfolding validate_named_chains
  validate_chains config =
      if is_empty config.chains
      then elim config.default_chain [
        | none ↦ ok tt
        | some default_chain ↦
            refuse_if (not (is_empty (trim default_chain)))
              (codes "default_chain must not be specified when chains are empty")
      ]
      else elim config.default_chain [
        | none ↦
            err (validation (codes "default_chain must be specified when chains are configured"))
        | some default_chain ↦ validate_named_chains config default_chain
      ]
