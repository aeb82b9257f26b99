-- ===== src/Updater/Choice.antt =====
-- The choice of a tag: `_latest_container_image_tag` and what it calls, in
-- management/dependency_updater/update_container_image_versions.py.
pub mod Ranked
pub mod Variant
pub mod Compatible
use fastdjango.Base.{
  ℕ, suc, zero, Bool, true, false, not, ◌&&◌, ◌||◌, List, [], ◌∷◌, ◌++◌, Option, none, some, Text,
  codes, ◌==◌, nat_eq, text_eq, leb, length, keep, starts_with, is_in, if◌then◌else◌,
}
use fastdjango.Updater.Scan.{◌>>=◌}
use fastdjango.Updater.Tags.{ContainerTagVersion, container_tag_version, best_ranked_container_tag}

-- `s[:n]` for a number that is not negative
unfoldable pub slice_to {ℓ} : {A : Type ℓ} → ℕ → List A → List A
slice_to zero s = []
slice_to (suc n) [] = []
slice_to (suc n) (x ∷ s) = x ∷ slice_to n s

-- `s.endswith(suffix)`
unfoldable pub ends_with : Text → Text → Bool
ends_with [] suffix = [] == suffix
ends_with (c ∷ s) suffix = (c ∷ s) == suffix || ends_with s suffix

unfoldable pub is_python_runtime_repository : Text → Bool
unfolding is_in
is_python_runtime_repository repository =
    is_in repository
      (codes "python" ∷ codes "library/python" ∷ codes "docker.io/library/python" ∷ [])

unfoldable pub required_container_version_prefix : Text → Text → List ℕ → List ℕ
unfolding is_python_runtime_repository starts_with slice_to
required_container_version_prefix repository current_tag version =
    if is_python_runtime_repository repository && leb 2 (length version)
    then slice_to 2 version
    else if starts_with current_tag (codes "python") && leb 2 (length version)
    then slice_to 2 version
    else slice_to 1 version

unfoldable pub same_variant : ContainerTagVersion → List ℕ → Option ContainerTagVersion → Bool
unfolding slice_to
same_variant current_version version_prefix none = false
same_variant current_version version_prefix (some candidate_version) =
    candidate_version.prefix == current_version.prefix
    && candidate_version.suffix == current_version.suffix
    && slice_to (length version_prefix) candidate_version.version == version_prefix

module _ (decimal : ℕ → Option ℕ) where
  unfoldable pub matches_container_tag_variant : ContainerTagVersion → List ℕ → Text → Bool
  unfolding container_tag_version same_variant
  matches_container_tag_variant current_version version_prefix tag =
      same_variant current_version version_prefix (container_tag_version decimal tag)

  unfoldable pub best_same_variant_container_tag : Text → Text → List Text → Option Text
  unfolding container_tag_version required_container_version_prefix matches_container_tag_variant
      best_ranked_container_tag
  best_same_variant_container_tag repository current_tag tags = do
    current_version ← container_tag_version decimal current_tag
    best_ranked_container_tag decimal (
        keep
          (matches_container_tag_variant current_version
            (required_container_version_prefix repository current_tag current_version.version))
          tags)

  unfoldable pub best_pinned_floating_container_tag : Text → List Text → Option Text
  unfolding ends_with best_ranked_container_tag
  best_pinned_floating_container_tag current_tag tags =
      best_ranked_container_tag decimal (keep (λ tag. ends_with tag (b'-' ∷ current_tag)) tags)

  -- a tag that was found, unless it is the current one
  abbrev pub unless_current : Text → Option Text → Option Text
  unless_current current_tag none = none
  unless_current current_tag (some tag) = if tag == current_tag then none else some tag

  unfoldable pub best_compatible_container_tag : Text → Text → List Text → Option Text
  unfolding best_same_variant_container_tag best_pinned_floating_container_tag
  best_compatible_container_tag repository current_tag tags =
      elim (unless_current current_tag
        (best_same_variant_container_tag repository current_tag tags)) [
          | some versioned_match ↦ some versioned_match
          | none ↦ unless_current current_tag (best_pinned_floating_container_tag current_tag tags)
        ]

  abbrev best_for : Text → Option Text → List Text → Option Text
  unfolding best_ranked_container_tag best_compatible_container_tag
  best_for repository none tags = best_ranked_container_tag decimal tags
  best_for repository (some current_tag) tags =
      if current_tag == codes "latest"
      then best_ranked_container_tag decimal tags
      else best_compatible_container_tag repository current_tag tags

  -- `_latest_container_image_tag`, once the registry's tags are known
  unfoldable pub latest_of : Text → Option Text → List Text → Option Text
  unfolding best_for
  latest_of repository current_tag [] = none
  latest_of repository current_tag (tag ∷ tags) = best_for repository current_tag (tag ∷ tags)
