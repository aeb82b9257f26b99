-- ===== src/Updater/Images.antt =====
-- Image references in management/dependency_updater/update_container_image_versions.py: parsing, what is
-- skipped, the registry, and what is replaced by what.
pub mod References
use fastdjango.Base.{
  ℕ, suc, zero, ◌+◌, ◌-◌, Bool, true, false, not, ◌&&◌, ◌||◌, List, [], ◌∷◌, ◌++◌, Option, none,
  some, Text, codes, ◌==◌, nat_eq, text_eq, ltb, leb, Parts, partition, starts_with, contains_text,
  is_in, if◌then◌else◌,
}

pub record ContainerImage : Type 0 where
  pub repository : Text
  pub tag : Option Text
  pub digest : Option Text

-- `s.rfind(c) + 1` for one character, which is 0 where it does not occur
unfoldable pub rfind_end : ℕ → Text → ℕ
rfind_end d [] = 0
rfind_end d (c ∷ s) =
    let rest = rfind_end d s in if leb 1 rest then suc rest else if c == d then 1 else 0

-- `s[:n]` and `s[n:]` for numbers that are not negative
unfoldable pub before : ℕ → Text → Text
before zero s = []
before (suc n) [] = []
before (suc n) (c ∷ s) = c ∷ before n s

unfoldable pub from : ℕ → Text → Text
from zero s = s
from (suc n) [] = []
from (suc n) (c ∷ s) = from n s

-- `tag or None`
abbrev or_none : Text → Option Text
or_none [] = none
or_none (c ∷ s) = some (c ∷ s)

-- `repository` and `tag` of `_parse_container_image_ref`
unfoldable pub split_tag : Text → Text × Option Text
unfolding rfind_end before from
split_tag ref =
    if ltb (rfind_end b'/' ref) (rfind_end b':' ref)
    then (before (rfind_end b':' ref - 1) ref, or_none (from (rfind_end b':' ref) ref))
    else (ref, none)

abbrev pub image_of : Text × Option Text → Option Text → Option ContainerImage
image_of ([], tag) digest = none
image_of (c ∷ repository, tag) digest =
    some (record { repository = c ∷ repository; tag = tag; digest = digest })

unfoldable pub parse_container_image_ref : Text → Option ContainerImage
unfolding starts_with partition split_tag
parse_container_image_ref image_ref = elim (starts_with image_ref (codes "${")) [
  | true ↦ none
  | false ↦
      let parts = partition b'@' image_ref in
      image_of (split_tag parts.before) (if parts.found then some parts.after else none)
]

abbrev is_local : Option Text → Bool
is_local none = false
is_local (some tag) = tag == codes "local"

unfoldable pub should_skip_container_image : ContainerImage → Bool
unfolding starts_with
should_skip_container_image image = elim image.digest [
  | some _ ↦ true
  | none ↦
      image.repository == codes "scratch"
      || starts_with image.repository (codes "localhost/")
      || is_local image.tag
]

unfoldable pub container_image_ref_with_tag : ContainerImage → Text → Text
container_image_ref_with_tag image tag = image.repository ++ b':' ∷ tag

abbrev is_latest : Option Text → Bool
is_latest none = false
is_latest (some tag) = tag == codes "latest"

unfoldable pub should_replace_bare_container_doc_ref : ContainerImage → Text → Bool
unfolding contains_text
should_replace_bare_container_doc_ref image image_ref =
    is_latest image.tag
    && not (image_ref == image.repository)
    && contains_text (codes "/") image.repository

unfoldable pub docker_hub_path : Text → Text
unfolding contains_text
docker_hub_path repository =
    if contains_text (codes "/") repository then repository else codes "library/" ++ repository

unfoldable pub container_registry_and_path : Text → Text × Text
unfolding partition docker_hub_path contains_text
container_registry_and_path repository =
    let parts = partition b'/' repository in
    let has_registry =
      contains_text (codes ".") parts.before
      || contains_text (codes ":") parts.before
      || parts.before == codes "localhost" in
    if parts.before == codes "docker.io" && parts.found
    then (codes "docker.io", docker_hub_path parts.after)
    else if has_registry && parts.found
    then (parts.before, parts.after)
    else (codes "docker.io", docker_hub_path repository)

-- `_is_container_definition_path`, for the name of the file in lower case
unfoldable pub is_container_definition_name : Text → Bool
unfolding starts_with is_in
is_container_definition_name name =
    starts_with name (codes "dockerfile")
    || is_in name (codes "compose.yaml" ∷ codes "compose.yml" ∷ [])
    || starts_with name (codes "docker-compose")

-- `replacements[key] = value`, and `replacements.setdefault(key, value)`
unfoldable pub assign : Text → Text → List (Text × Text) → List (Text × Text)
assign key value [] = (key, value) ∷ []
assign key value ((k, v) ∷ rest) =
    if k == key then (key, value) ∷ rest else (k, v) ∷ assign key value rest

unfoldable pub set_default : Text → Text → List (Text × Text) → List (Text × Text)
set_default key value [] = (key, value) ∷ []
set_default key value ((k, v) ∷ rest) =
    if k == key then (k, v) ∷ rest else (k, v) ∷ set_default key value rest

-- `_remote_container_images`, for the references in their order
abbrev unless_skipped :
    Text → Option ContainerImage → List (Text × ContainerImage) → List (Text × ContainerImage)
unfolding should_skip_container_image
unless_skipped image_ref none images = images
unless_skipped image_ref (some image) images =
    if should_skip_container_image image then images else (image_ref, image) ∷ images

unfoldable pub remote_container_images : List Text → List (Text × ContainerImage)
unfolding parse_container_image_ref unless_skipped
remote_container_images [] = []
remote_container_images (image_ref ∷ image_refs) =
    unless_skipped image_ref (parse_container_image_ref image_ref)
      (remote_container_images image_refs)

-- The loop of `_container_image_replacements` over the images by their references; `latest_tag` is what
-- the resolver found for an image's repository and tag.
module _ (latest_tag : Text → Option Text → Option Text) where
  abbrev replaced_by : Text → ContainerImage → Text → List (Text × Text) → List (Text × Text)
  unfolding assign set_default container_image_ref_with_tag should_replace_bare_container_doc_ref
  replaced_by image_ref image tag replacements =
      let new_ref = container_image_ref_with_tag image tag in
      if new_ref == image_ref
      then replacements
      else if should_replace_bare_container_doc_ref image image_ref
      then set_default image.repository new_ref (assign image_ref new_ref replacements)
      else assign image_ref new_ref replacements

  abbrev same_tag : Option Text → Text → Bool
  same_tag none latest = false
  same_tag (some tag) latest = latest == tag

  abbrev with_latest : Text → ContainerImage → Option Text → List (Text × Text) → List (Text × Text)
  unfolding replaced_by
  with_latest image_ref image none replacements = replacements
  with_latest image_ref image (some latest) replacements =
      if same_tag image.tag latest
      then replacements
      else replaced_by image_ref image latest replacements

  unfoldable pub container_image_replacements :
      List (Text × ContainerImage) → List (Text × Text) → List (Text × Text)
  unfolding with_latest
  container_image_replacements [] replacements = replacements
  container_image_replacements ((image_ref, image) ∷ images) replacements =
      container_image_replacements images
        (with_latest image_ref image (latest_tag image.repository image.tag) replacements)
