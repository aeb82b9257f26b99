-- ===== src/Updater/Sync/Allowed.antt =====
-- What a synchronisation reports and writes.
use mathlib.Core.Path.{subst}
use fastdjango.Base.{
  ℕ, ◌≡◌, ◌≢◌, refl, sym, ◌∙◌, Bool, true, false, List, [], ◌∷◌, Option, none, some, Text, ◌==◌,
  text_eq, eq_iff, All, contains_text, Bool-cases, Option-cases, inl, inr, arith,
}
use fastdjango.Outcome.{Outcome-cases, Outcome, ok, raise}
use fastdjango.Updater.Requirements.{
  name_match, or_latest, if_allowed, with_lower_bound, satisfies_upper_bounds,
  target_dependency_version,
}
use fastdjango.Updater.Requirements.Bounds.{
  HasLowerBound, IsWithin, bounds_of, with_lower_bound-HasLowerBound,
  satisfies_upper_bounds-IsWithin,
}
use fastdjango.Updater.Sync.{
  DependencyUpdate, canonical_name, replace_first, quoted, changed, updated_requirement,
  and_updates, sync_requirements, write_unless, sync_pyproject_dependency_versions,
}

module _ (decimal : ℕ → Option ℕ) (lower : Text → Text)
    (locked_version latest_version : Text → Option Text) where
  -- The new requirement is another one and has a version as its lower bound that is within each upper
  -- bound of the old one.
  abbrev pub IsAllowed : DependencyUpdate → Type 0
  IsAllowed update =
      (version : Text) × HasLowerBound version update.new_requirement
      × All (IsWithin decimal version) (bounds_of decimal update.old_requirement)
      × (update.new_requirement ≢ update.old_requirement)

  if_allowed_lem :
      (requirement version : Text) (found : Option Text)
      → if_allowed decimal (canonical_name lower) locked_version latest_version requirement found
        ≡ some version
      → satisfies_upper_bounds decimal requirement version ≡ true
  unfolding if_allowed
  if_allowed_lem requirement version none h = ground arith
  if_allowed_lem requirement version (some v) h =
      elim (Bool-cases (satisfies_upper_bounds decimal requirement v)) [
        | inl e ↦
            let same : v ≡ version = ground arith in
            subst (λ v. satisfies_upper_bounds decimal requirement v ≡ true) same e
        | inr e ↦ ground arith
      ]

  target_lem :
      (requirement version : Text)
      → target_dependency_version decimal
          (canonical_name lower)
          locked_version
          latest_version
          requirement
        ≡ some version
      → satisfies_upper_bounds decimal requirement version ≡ true
  unfolding target_dependency_version
  target_lem requirement version h = elim (Option-cases (name_match requirement)) [
    | inl e ↦ ground arith
    | inr (m, e) ↦
        if_allowed_lem requirement version
          (or_latest decimal (canonical_name lower) locked_version latest_version m.name
            (locked_version (canonical_name lower m.name)))
          (ground arith)
  ]

  changed_lem :
      (requirement updated : Text) (target : Option Text)
      → changed decimal lower locked_version latest_version requirement target ≡ some updated
      → (version : Text) × (target ≡ some version)
        × (updated ≡ with_lower_bound requirement version)
        × (updated ≢ requirement)
  unfolding changed
  changed_lem requirement updated none h = ground arith
  changed_lem requirement updated (some version) h =
      elim (Bool-cases (with_lower_bound requirement version == requirement)) [
        | inl e ↦ ground arith
        | inr e ↦
            let same : with_lower_bound requirement version ≡ updated = ground arith in
            (
              version,
              refl,
              sym same,
              λ back. ground (
                arith,
                (eq_iff (with_lower_bound requirement version) requirement).1 (same ∙ back),
              ),
            )
      ]

  updated_requirement-IsAllowed :
      (requirement updated : Text)
      → updated_requirement decimal lower locked_version latest_version requirement ≡ some updated
      → IsAllowed (record { old_requirement = requirement; new_requirement = updated })
  unfolding updated_requirement
  updated_requirement-IsAllowed requirement updated h =
      let (version, target, new, other) = changed_lem requirement updated _ h in
      let changes : with_lower_bound requirement version ≢ requirement =
        λ back. other (new ∙ back) in
      (
        version,
        subst (HasLowerBound version) (sym new)
            (with_lower_bound-HasLowerBound requirement version changes),
        satisfies_upper_bounds-IsWithin decimal requirement version
            (target_lem requirement version target),
        other,
      )

  and_updates-IsAllowed :
      (update : DependencyUpdate) (rest : Outcome (List DependencyUpdate × Text))
      (updates : List DependencyUpdate) (after : Text)
      → and_updates decimal lower locked_version latest_version update rest ≡ ok (updates, after)
      → IsAllowed update
      → ((us : List DependencyUpdate) (t : Text) → rest ≡ ok (us, t) → All IsAllowed us)
      → All IsAllowed updates
  and_updates-IsAllowed update (raise e) updates after h allowed others = ground arith
  and_updates-IsAllowed update (ok (us, t)) [] after h allowed others = ground arith
  and_updates-IsAllowed update (ok (us, t)) (v ∷ vs) after h allowed others =
      let first : update ≡ v = ground arith in
      let rest : us ≡ vs = ground arith in
      (subst IsAllowed first allowed, subst (All IsAllowed) rest (others us t refl))

  sync_requirements-IsAllowed :
      (requirements : List Text) (text after : Text) (updates : List DependencyUpdate)
      → sync_requirements decimal lower locked_version latest_version requirements text
        ≡ ok (updates, after)
      → All IsAllowed updates
  unfolding sync_requirements
  sync_requirements-IsAllowed [] text after [] h = tt
  sync_requirements-IsAllowed [] text after (u ∷ us) h = ground arith
  sync_requirements-IsAllowed (r ∷ rs) text after updates h =
      elim (Option-cases (updated_requirement decimal lower locked_version latest_version r)) [
        | inl e ↦ sync_requirements-IsAllowed rs text after updates (ground arith)
        | inr (new, e) ↦ elim (Bool-cases (contains_text (quoted r) text)) [
          | inr f ↦ ground arith
          | inl f ↦
              let update : DependencyUpdate = record {
                old_requirement = r;
                new_requirement = new;
              } in
              and_updates-IsAllowed update
                (sync_requirements decimal lower locked_version latest_version rs
                  (replace_first (quoted r) (quoted new) text))
                updates after (ground arith) (updated_requirement-IsAllowed r new e)
                (λ us t made.
                  sync_requirements-IsAllowed rs (replace_first (quoted r) (quoted new) text) t us
                    made)
        ]
      ]

module _ (decimal : ℕ → Option ℕ) (lower : Text → Text)
    (read_requirements : Text → Outcome (List Text)) (locked_version : Text → Option Text)
    (latest_version : Text → Option Text) where
  -- the function, for these parameters
  abbrev pub run : Bool → Text → Outcome (List DependencyUpdate) × Text
  run =
      sync_pyproject_dependency_versions decimal lower read_requirements locked_version
        latest_version

  write_unless_dry :
      (synced : List DependencyUpdate × Text) (text : Text)
      → ((write_unless true synced text).0 ≡ (write_unless false synced text).0)
        × ((write_unless true synced text).1 ≡ text)
        × ((write_unless false synced text).0 ≡ ok synced.0)
  write_unless_dry ([], updated) text = (refl, refl, refl)
  write_unless_dry (u ∷ us, updated) text = (refl, refl, refl)

  pub sync_pyproject_dependency_versions_lem :
      (text : Text)
      → ((run true text).0 ≡ (run false text).0)
        × ((run true text).1 ≡ text)
        × ((updates : List DependencyUpdate)
            → (run false text).0 ≡ ok updates
            → All (IsAllowed decimal lower locked_version latest_version) updates)
  unfolding sync_pyproject_dependency_versions
  sync_pyproject_dependency_versions_lem text = elim (Outcome-cases (read_requirements text)) [
    | inr (e, h) ↦ (rw h, rw h, λ updates made. ground arith)
    | inl (requirements, h) ↦
        elim (Outcome-cases
          (sync_requirements decimal lower locked_version latest_version requirements text)) [
            | inr (e, k) ↦ (rw (h, k), rw (h, k), λ updates made. ground arith)
            | inl (synced, k) ↦
                let (same, kept, returned) = write_unless_dry synced text in
                (
                  rw (h, k) same,
                  rw (h, k) kept,
                  λ updates made.
                      let ran : (write_unless false synced text).0 ≡ (run false text).0 =
                        rw (h, k) refl in
                      let both : ok synced.0 ≡ ok updates = sym returned ∙ ran ∙ made in
                      let all : synced.0 ≡ updates = ground arith in
                      subst (All (IsAllowed decimal lower locked_version latest_version)) all (
                        sync_requirements-IsAllowed decimal lower locked_version latest_version
                          requirements text synced.1 synced.0 k),
                )
          ]
  ]
