-- ===== src/Config/Names.antt =====
-- What the checks on the chains of crates/proxy-core/src/config.rs accept, above all on
-- the names of the chains.
use rpceth.Base.{
  ◌≡◌, ◌≢◌, ◌↔◌, refl, true, false, List, [], ◌∷◌, ◌++◌, Text, Dict, same_iff, All, AllDistinct,
  contains, contains-add, add, map, trim, arith,
}
use rpceth.Provider.{ProviderId}
use rpceth.Refusal.{Result, Accepted, refuse_if_iff, ◌>>=◌, >>_iff, refuse_if-bind_iff}
use rpceth.Config.{ChainConfig}
use rpceth.Config.Valid.{is_empty-ne}
use rpceth.Config.Chains.{
  normalize_chain_alias, validate_references, validate_aliases, validate_chain_entries,
}

-- The names that a chain goes by, as they are compared.
abbrev pub names_of : Text × ChainConfig → List Text
names_of e =
    normalize_chain_alias (trim e.0) ∷ map (λ a. normalize_chain_alias (trim a)) e.1.aliases

abbrev pub names : Dict ChainConfig → List Text
names [] = []
names (e ∷ more) = names_of e ++ names more

-- Distinct from one another, and from the used ones.
abbrev pub Fresh : List Text → List Text → Type 0
Fresh used [] = Unit
Fresh used (k ∷ ks) = (contains used k ≡ false) × Fresh (add k used) ks

-- Every name of `ks` differs from the used ones.
abbrev Apart : List Text → List Text → Type 0
Apart used = All λ k. contains used k ≡ false

Apart-none : (ks : List Text) → Apart [] ks
unfolding contains
Apart-none [] = tt
Apart-none (k ∷ ks) = (refl, Apart-none ks)

Apart-add :
    (j : Text) (used ks : List Text)
    → Apart (add j used) ks ↔ ((contains ks j ≡ false) × Apart used ks)
unfolding contains
Apart-add j used [] = (λ e. (refl, tt), λ p. tt)
Apart-add j used (k ∷ ks) =
    let (f, g) = Apart-add j used ks in
    (
      λ p.
          let (u, v) = f p.1 in
          (
            ground (arith, p.0, u, contains-add j k used, same_iff j k, same_iff k j),
            (ground (arith, p.0, contains-add j k used), v),
          ),
      λ p. (
        ground (arith, p.0, p.1.0, contains-add j k used, same_iff j k, same_iff k j),
        g (ground (arith, p.0), p.1.1),
      ),
    )

Fresh-Apart : (used ks : List Text) → Fresh used ks ↔ (Apart used ks × AllDistinct ks)
Fresh-Apart used [] = (λ e. (tt, tt), λ p. tt)
Fresh-Apart used (k ∷ ks) =
    let (f, g) = Fresh-Apart (add k used) ks in
    let (split, join) = Apart-add k used ks in
    (
      λ e.
          let (apart, distinct) = f e.1 in
          let (new, old) = split apart in ((e.0, old), (new, distinct)),
      λ p. (p.0.0, g (join (p.1.0, p.0.1), p.1.1)),
    )

pub Fresh-AllDistinct : (ks : List Text) → Fresh [] ks ↔ AllDistinct ks
Fresh-AllDistinct ks =
    let (to, from) = Fresh-Apart [] ks in (λ e. (to e).1, λ p. from (Apart-none ks, p))

-- The names used after `ks`.
abbrev used_after : List Text → List Text → List Text
used_after [] used = used
used_after (k ∷ ks) used = used_after ks (add k used)

Fresh-append :
    (used ks ls : List Text)
    → Fresh used (ks ++ ls) ↔ (Fresh used ks × Fresh (used_after ks used) ls)
Fresh-append used [] ls = (λ e. (tt, e), λ p. p.1)
Fresh-append used (k ∷ ks) ls =
    let (f, g) = Fresh-append (add k used) ks ls in
    (λ e. let (a, b) = f e.1 in ((e.0, a), b), λ p. (p.0.0, g (p.0.1, p.1)))

abbrev norms : List Text → List Text
norms = map λ a. normalize_chain_alias (trim a)

-- The aliases seen in a chain are among the used ones, so that the first test adds nothing.
abbrev Within : List Text → List Text → Type 0
Within seen used = (k : Text) → contains used k ≡ false → contains seen k ≡ false

Within-add :
    (j : Text) (seen used : List Text) → Within seen used → Within (add j seen) (add j used)
Within-add j seen used w k e = ground (arith, e, contains-add j k seen, contains-add j k used, w k)

validate_aliases_iff :
    (chain_key : Text) (seen used aliases : List Text) (f : List Text → Result (Unit {0}))
    → Within seen used
    → Accepted (validate_aliases chain_key seen used aliases >>= f) ↔ (
        (All (λ a. trim a ≢ []) aliases × Fresh used (norms aliases))
        × Accepted (f (used_after (norms aliases) used)))
unfolding validate_aliases
validate_aliases_iff chain_key seen used [] f w = (λ e. ((tt, tt), e), λ p. p.1)
validate_aliases_iff chain_key seen used (alias ∷ more) f w =
    let n = normalize_chain_alias (trim alias) in
    let (to, from) = refuse_if-bind_iff _ _ _ f (is_empty-ne (trim alias)) (
      refuse_if-bind_iff _ _ _ f (λ (e : contains seen n ≡ false). e, λ e. e)
        (refuse_if-bind_iff _ _ _ f (λ (e : contains used n ≡ false). e, λ e. e)
          (validate_aliases_iff chain_key (add n seen) (add n used) more f
            (Within-add n seen used w)))) in
    (
      λ e.
          let (full, (unseen, (unused, ((all_full, fresh), last)))) = to e in
          (((full, all_full), (unused, fresh)), last),
      λ p.
          let (((full, all_full), (unused, fresh)), last) = p in
          from (full, (w n unused, (unused, ((all_full, fresh), last)))),
    )

pub validate_references-All :
    (chain_key : Text) (ids refs : List ProviderId)
    → Accepted (validate_references chain_key ids refs) ↔ All (λ id. contains ids id ≡ true) refs
unfolding validate_references
validate_references-All chain_key ids [] = (λ e. tt, λ p. refl)
validate_references-All chain_key ids (id ∷ more) =
    >>_iff (refuse_if_iff _ _ (λ e. ground arith, λ p. ground arith))
      (validate_references-All chain_key ids more)

-- What holds of one chain: a name, providers, all of them known, and no empty alias.
abbrev pub ValidChain : List ProviderId → Text × ChainConfig → Type 0
ValidChain ids e =
    (trim e.0 ≢ [])
    × ((e.1.providers ≢ [])
        × (All (λ id. contains ids id ≡ true) e.1.providers × All (λ a. trim a ≢ []) e.1.aliases))

pub validate_chain_entries-Fresh :
    (ids : List ProviderId) (used : List Text) (chains : Dict ChainConfig)
    → Accepted (validate_chain_entries ids used chains)
      ↔ (All (ValidChain ids) chains × Fresh used (names chains))
unfolding validate_chain_entries contains
validate_chain_entries-Fresh ids used [] = (λ e. (tt, tt), λ p. refl)
validate_chain_entries-Fresh ids used ((key, chain) ∷ more) =
    let n = normalize_chain_alias (trim key) in
    let after = used_after (norms chain.aliases) (add n used) in
    let (to, from) = >>_iff (refuse_if_iff _ _ (is_empty-ne (trim key))) (
      >>_iff (refuse_if_iff _ _ (is_empty-ne chain.providers)) (
        >>_iff (validate_references-All key ids chain.providers) (
          >>_iff (refuse_if_iff _ _ (λ (e : contains used n ≡ false). e, λ e. e)) (
            validate_aliases_iff key [] (add n used) chain.aliases
              (λ used'. validate_chain_entries ids used' more) (λ k e. refl))))) in
    let (f, g) = validate_chain_entries-Fresh ids after more in
    let (split, join) = Fresh-append (add n used) (norms chain.aliases) (names more) in
    (
      λ e.
          let (named, (some_providers, (known, (unused, ((full, fresh), last))))) = to e in
          let (rest, free) = f last in
          (((named, (some_providers, (known, full))), rest), (unused, join (fresh, free))),
      λ p.
          let (((named, (some_providers, (known, full))), rest), (unused, free)) = p in
          let (fresh, later) = split free in
          from (named, (some_providers, (known, (unused, ((full, fresh), g (rest, later)))))),
    )

-- The chains
