-- ===== src/Methods/Patterns.antt =====
-- How the patterns of the overrides are added to a set (`OverrideSet::new` of
-- crates/proxy-core/src/methods.rs).
use rpceth.Base.{
  ◌≡◌, refl, ap, sym, subst, ◌∙◌, List, [], ◌∷◌, ◌++◌, map, Text, codes, ◌⊎◌, inl, inr,
  Result-cases,
}
use rpceth.Float.{Float}
use rpceth.Methods

module _ (fl : Float) (globs : Methods.Globs) where
  open fl use {F}
  open globs use {Error, Glob, GlobSet, glob_new, build, matches}

  abbrev pub patterns_of : List (Methods.OverrideEntry F) → List Text
  patterns_of = map λ o. o.pattern

  -- Each pattern is valid, and these are the globs that they give, in order.
  abbrev pub AreGlobs : List Text → List Glob → Type 0
  AreGlobs patterns added = map glob_new patterns ≡ map inr added

  -- The patterns before this one are valid, and it is not.
  pub record FirstInvalid (patterns : List Text) (p : Text) (e : Error) : Type 0 where
    pub before : List Text
    pub after : List Text
    pub added : List Glob
    pub place : patterns ≡ before ++ p ∷ after
    pub valid : AreGlobs before added
    pub invalid : glob_new p ≡ inl e

  FirstInvalid-cons :
      {q : Text} {glob : Glob} {patterns : List Text} {p : Text} {e : Error}
      → glob_new q ≡ inr glob
      → FirstInvalid patterns p e
      → FirstInvalid (q ∷ patterns) p e
  FirstInvalid-cons {q} {glob} valid_one found = record {
    before = q ∷ found.before;
    after = found.after;
    added = glob ∷ found.added;
    place = ap (λ ps. q ∷ ps) found.place;
    valid = rw (valid_one, found.valid) refl;
    invalid = found.invalid;
  }

  -- The patterns are added up to the first that is invalid.
  add_globs-cases :
      (os : List (Methods.OverrideEntry F))
      → ((p : Text) × (e : Error) × (Methods.add_globs fl globs os ≡ inl (Methods.invalid_glob p e))
          × FirstInvalid (patterns_of os) p e)
        ⊎ ((added : List Glob) × (Methods.add_globs fl globs os ≡ inr added)
            × AreGlobs (patterns_of os) added)
  unfolding Methods.add_globs
  add_globs-cases [] = inr ([], refl, refl)
  add_globs-cases (o ∷ os) = elim (Result-cases (glob_new o.pattern)) [
    | inl (source, wrong) ↦ inl (
      o.pattern,
      source,
      rw (wrong, Methods.add_globs) refl,
      record {
        before = [];
        after = patterns_of os;
        added = [];
        place = refl;
        valid = refl;
        invalid = wrong;
      },
    )
    | inr (glob, right) ↦ elim (add_globs-cases os) [
      | inl (p, e, made, found) ↦
          inl (p, e, rw (right, made, Methods.add_globs) refl, FirstInvalid-cons right found)
      | inr (added, made, valid) ↦
          inr (glob ∷ added, rw (right, made, Methods.add_globs) refl, rw (right, valid) refl)
    ]
  ]

  FirstInvalid-add_globs :
      (os : List (Methods.OverrideEntry F)) (before after : List Text) (added : List Glob)
      (p : Text) (e : Error)
      → patterns_of os ≡ before ++ p ∷ after
      → AreGlobs before added
      → glob_new p ≡ inl e
      → Methods.add_globs fl globs os ≡ inl (Methods.invalid_glob p e)
  unfolding Methods.add_globs
  FirstInvalid-add_globs [] [] after added p e place valid wrong = cc
  FirstInvalid-add_globs [] (q ∷ before) after added p e place valid wrong = cc
  FirstInvalid-add_globs (o ∷ os) [] after added p e place valid wrong =
      let here : o.pattern ≡ p = cc in
      let wrong_here : glob_new o.pattern ≡ inl e = cc in
      rw (wrong_here, Methods.add_globs) (ap (λ q. inl (Methods.invalid_glob q e)) here)
  FirstInvalid-add_globs (o ∷ os) (q ∷ before) after [] p e place valid wrong = cc
  FirstInvalid-add_globs (o ∷ os) (q ∷ before) after (glob ∷ added) p e place valid wrong =
      let here : o.pattern ≡ q = cc in
      let right_here : glob_new o.pattern ≡ inr glob = cc in
      let later : patterns_of os ≡ before ++ p ∷ after = cc in
      let valid_later : AreGlobs before added = cc in
      let rest = FirstInvalid-add_globs os before after added p e later valid_later wrong in
      rw (right_here, rest, Methods.add_globs) refl

  pub AreGlobs-add_globs :
      (os : List (Methods.OverrideEntry F)) (added : List Glob)
      → AreGlobs (patterns_of os) added
      → Methods.add_globs fl globs os ≡ inr added
  unfolding Methods.add_globs
  AreGlobs-add_globs [] [] valid = refl
  AreGlobs-add_globs [] (glob ∷ added) valid = cc
  AreGlobs-add_globs (o ∷ os) [] valid = cc
  AreGlobs-add_globs (o ∷ os) (glob ∷ added) valid =
      let right : glob_new o.pattern ≡ inr glob = cc in
      let valid_later : AreGlobs (patterns_of os) added = cc in
      let rest = AreGlobs-add_globs os added valid_later in rw (right, rest, Methods.add_globs) refl

  -- Why patterns are refused: one is invalid, or the globs do not make a set.
  abbrev pub Refused : List Text → Text → Error → Type 0
  Refused patterns p e =
      FirstInvalid patterns p e
      ⊎ ((added : List Glob) × AreGlobs patterns added
          × (build added ≡ inl e)
          × (p ≡ codes "<set>"))

  -- Making the set: it is refused for the reason given, or it is what the globs make.
  pub new_override_set-Refused :
      (os : List (Methods.OverrideEntry F)) (p : Text) (e : Error)
      → Methods.new_override_set fl globs os ≡ inl (Methods.invalid_glob p e)
      → Refused (patterns_of os) p e
  unfolding Methods.new_override_set
  new_override_set-Refused os p e refused = elim (add_globs-cases os) [
    | inl (q, source, made, found) ↦
        let now = rw (made, Methods.new_override_set) at refused in
        let same_pattern : q ≡ p = cc in
        let same_source : source ≡ e = cc in
        inl (
          subst (λ p. FirstInvalid (patterns_of os) p e) same_pattern
            (subst (λ e. FirstInvalid (patterns_of os) q e) same_source found))
    | inr (added, made, valid) ↦ elim (Result-cases (build added)) [
      | inl (source, failed) ↦
          let now = rw (made, failed, Methods.new_override_set) at refused in
          let same_source : source ≡ e = cc in inr (added, valid, failed ∙ ap inl same_source, cc)
      | inr (set, built) ↦ let now = rw (made, built, Methods.new_override_set) at refused in cc
    ]
  ]

  pub Refused-new_override_set :
      (os : List (Methods.OverrideEntry F)) (p : Text) (e : Error)
      → Refused (patterns_of os) p e
      → Methods.new_override_set fl globs os ≡ inl (Methods.invalid_glob p e)
  unfolding Methods.new_override_set
  Refused-new_override_set os p e (inl found) =
      rw
        (FirstInvalid-add_globs os found.before found.after found.added p e found.place found.valid
          found.invalid)
        refl
  Refused-new_override_set os p e (inr (added, valid, failed, whole)) =
      rw (AreGlobs-add_globs os added valid, failed)
        (ap (λ p. inl (Methods.invalid_glob p e)) (sym whole))

  -- The set that is made has the overrides as its entries, and its globs are theirs.
  pub new_override_set-Built :
      (os : List (Methods.OverrideEntry F)) (set : Methods.OverrideSet fl globs)
      → Methods.new_override_set fl globs os ≡ inr set
      → ((added : List Glob) × AreGlobs (patterns_of os) added × (build added ≡ inr set.globset))
        × (set.entries ≡ os)
  unfolding Methods.new_override_set
  new_override_set-Built os set made_set = elim (add_globs-cases os) [
    | inl (q, source, made, found) ↦ let now = rw (made, Methods.new_override_set) at made_set in cc
    | inr (added, made, valid) ↦ elim (Result-cases (build added)) [
      | inl (source, failed) ↦
          let now = rw (made, failed, Methods.new_override_set) at made_set in cc
      | inr (globset, built) ↦
          let now = rw (made, built, Methods.new_override_set) at made_set in
          let one : record { globset = globset; entries = os } ≡ set = cc in
          ((added, valid, rw (← one) built), rw (← one) refl)
    ]
  ]
