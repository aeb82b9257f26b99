-- ===== src/Updater/Containers.antt =====
-- The replacement of image references in files, in
-- management/dependency_updater/update_container_image_versions.py. A tag holds no backslash, which `re.sub` would
-- read as an escape.
use fastdjango.Base.{
  ℕ, suc, zero, ◌-◌, Bool, true, false, not, ◌&&◌, ◌||◌, List, [], ◌∷◌, ◌++◌, Option, Text, ◌==◌,
  nat_eq, text_eq, leb, length, starts_with, if◌then◌else◌,
}
use fastdjango.Updater.Images.{from, remote_container_images, container_image_replacements}

-- `[A-Za-z0-9_]`, `[A-Za-z0-9_.:/@-]` and `[A-Za-z0-9_:/@-]`
abbrev word_character : ℕ → Bool
word_character c =
    leb b'A' c && leb c b'Z' || leb b'a' c && leb c b'z' || leb b'0' c && leb c b'9' || c == b'_'

abbrev trailing_character : ℕ → Bool
trailing_character c = word_character c || c == b':' || c == b'/' || c == b'@' || c == b'-'

abbrev leading_character : ℕ → Bool
leading_character c = trailing_character c || c == b'.'

abbrev starts_word : Text → Bool
starts_word [] = false
starts_word (c ∷ s) = word_character c

-- the lookahead `(?!(?:[A-Za-z0-9_:/@-]|\.[A-Za-z0-9_]))`
unfoldable pub at_trailing_boundary : Text → Bool
at_trailing_boundary [] = true
at_trailing_boundary (c ∷ s) = not (trailing_character c || c == b'.' && starts_word s)

-- `re.sub(_container_ref_pattern(old_ref), new_ref, text)`: `inside` says whether the character before fails
-- the lookbehind, `skip` counts what is left of the match before
unfoldable pub replace_ref : Text → Text → ℕ → Bool → Text → Text
unfolding starts_with from at_trailing_boundary
replace_ref old_ref new_ref skip inside [] = []
replace_ref old_ref new_ref (suc skip) inside (c ∷ s) =
    replace_ref old_ref new_ref skip (leading_character c) s
replace_ref old_ref new_ref zero inside (c ∷ s) =
    let matched = replace_ref old_ref new_ref (length old_ref - 1) (leading_character c) s in
    let passed = replace_ref old_ref new_ref zero (leading_character c) s in
    if not inside
      && starts_with (c ∷ s) old_ref
      && at_trailing_boundary (from (length old_ref) (c ∷ s))
    then new_ref ++ matched
    else c ∷ passed

-- an update of one file
pub record ContainerImageUpdate : Type 0 where
  pub file_path : Text
  pub old_ref : Text
  pub new_ref : Text

-- the inner loop of `_replace_container_refs`: the text so far and the updates
unfoldable pub replace_container_refs_in :
    Text → List (Text × Text) → Text → Text × List ContainerImageUpdate
unfolding replace_ref
replace_container_refs_in path [] text = (text, [])
replace_container_refs_in path ((old_ref, new_ref) ∷ replacements) text =
    let updated_text = replace_ref old_ref new_ref 0 false text in
    let rest = replace_container_refs_in path replacements updated_text in
    if updated_text == text
    then rest
    else (rest.0, record { file_path = path; old_ref = old_ref; new_ref = new_ref } ∷ rest.1)

-- `sorted(replacements.items(), key=_replacement_length, reverse=True)`, which keeps the order of equals
unfoldable pub insert_replacement : Text × Text → List (Text × Text) → List (Text × Text)
insert_replacement r [] = r ∷ []
insert_replacement r (x ∷ xs) =
    if leb (length x.0) (length r.0) then r ∷ x ∷ xs else x ∷ insert_replacement r xs

unfoldable pub ordered_replacements : List (Text × Text) → List (Text × Text)
unfolding insert_replacement
ordered_replacements [] = []
ordered_replacements (r ∷ rs) = insert_replacement r (ordered_replacements rs)

-- The texts of files by their paths, in the order of the paths.
abbrev pub Files : Type 0
Files = List (Text × Text)

-- the outer loop of `_replace_container_refs`: the updates, and the files afterwards
unfoldable pub replace_container_refs :
    Bool → List (Text × Text) → Files → List ContainerImageUpdate × Files
unfolding replace_container_refs_in
replace_container_refs dry_run replacements [] = ([], [])
replace_container_refs dry_run replacements ((path, original_text) ∷ files) =
    let made = replace_container_refs_in path replacements original_text in
    let rest = replace_container_refs dry_run replacements files in
    let written =
      (if not (made.0 == original_text) && not dry_run
        then (path, made.0)
        else (path, original_text)) in
    (made.1 ++ rest.0, written ∷ rest.1)

unfoldable pub replace_unless_empty :
    Bool → List (Text × Text) → Files → List ContainerImageUpdate × Files
unfolding replace_container_refs ordered_replacements
replace_unless_empty dry_run [] files = ([], files)
replace_unless_empty dry_run (r ∷ replacements) files =
    replace_container_refs dry_run (ordered_replacements (r ∷ replacements)) files

-- `update_container_image_versions`, for the references that were found, each once and in their order
unfoldable pub update_container_image_versions :
    (Text → Option Text → Option Text)
    → Bool
    → List Text
    → Files
    → List ContainerImageUpdate × Files
unfolding remote_container_images container_image_replacements replace_unless_empty
update_container_image_versions latest_tag dry_run image_refs files =
    replace_unless_empty dry_run
      (container_image_replacements latest_tag (remote_container_images image_refs) []) files
