-- ===== src/Tests/Scans.antt =====
-- What the updater reads and writes, at small texts.
use fastdjango.Base.{
  ℕ, List, ◌≡◌, refl, false, true, [], ◌∷◌, some, codes, same_text, is_space, lstrip, strip,
  starts_with, contains_text, partition,
}
use fastdjango.Updater.Scan.{last_line, literal, literals}
use fastdjango.Updater.Images.{from}
use fastdjango.Updater.Registry.{skip_spaces, bracketed, search_next, next_ghcr_url}
use fastdjango.Updater.Requirements.{
  is_name_character, span, name_match, spaced_word, bound_at, with_first_bound, updated_specifier,
  with_lower_bound, spaced_bound, upper_bound_at, upper_bounds,
}
use fastdjango.Updater.Workflows.{
  number, major_version, updated_action_ref, is_ref_character, front, uses_match, replace_actions,
  is_line_break, ends_line, split_lines, split_lines_keeping, is_version_suffix, yaml_version_match,
  step_after, version_refs, setup_compose_version_refs, updated_lines,
  updated_setup_compose_version_text,
}
use fastdjango.Updater.Containers.{at_trailing_boundary, replace_ref}
use fastdjango.Tests.Fixtures.{platform}

raised_bound :
    with_lower_bound (codes "fastapi[all] >=0.1, <1; python_version>'3'") (codes "0.2")
    ≡ codes "fastapi[all]>=0.2, <1; python_version>'3'"
unfolding same_text is_space lstrip strip starts_with partition is_name_character span name_match
    spaced_word bound_at with_first_bound updated_specifier with_lower_bound
raised_bound = refl

bounds :
    upper_bounds 0 true (codes "<=2,>=0.1, < 1.5") ≡ (true, codes "2") ∷ (false, codes "1.5") ∷ []
unfolding same_text is_space span spaced_word bound_at spaced_bound upper_bound_at upper_bounds
bounds = refl

raised_action :
    (replace_actions platform.decimal
      (λ c. false)
      (λ name. some (codes "v5"))
      0
      false
      (codes "- uses: actions/checkout@v4 # pin")).0
    ≡ codes "- uses: actions/checkout@v5 # pin"
unfolding same_text is_space literal literals skip_spaces is_name_character span is_ref_character
    front uses_match number major_version updated_action_ref replace_actions
raised_action = refl

workflow : List ℕ
workflow =
    codes
      "- uses: docker/setup-compose-action@v1\n  with:\n    version: v2.1 # x\r\n- run: a\n  version: v1\n"

found_refs : setup_compose_version_refs workflow ≡ codes "v2.1" ∷ []
unfolding workflow same_text is_space lstrip starts_with contains_text last_line literal literals
    skip_spaces span is_ref_character front is_line_break ends_line split_lines is_version_suffix
    yaml_version_match step_after version_refs setup_compose_version_refs
found_refs = refl

raised_tool :
    (updated_setup_compose_version_text (some (codes "v3")) workflow).0
    ≡ codes
        "- uses: docker/setup-compose-action@v1\n  with:\n    version: v3 # x\r\n- run: a\n  version: v1\n"
unfolding workflow same_text is_space lstrip starts_with contains_text last_line literal literals
    skip_spaces span is_ref_character front is_line_break ends_line split_lines_keeping
    is_version_suffix yaml_version_match step_after updated_lines updated_setup_compose_version_text
raised_tool = refl

raised_image :
    replace_ref
      (codes "redis:7")
      (codes "redis:8")
      0
      false
      (codes "image: redis:7 x/redis:7 redis:7.2 redis:7.")
    ≡ codes "image: redis:8 x/redis:7 redis:7.2 redis:8."
unfolding same_text starts_with from at_trailing_boundary replace_ref
raised_image = refl

next_page :
    next_ghcr_url (some (codes "</v2/a/tags/list?n=2>; rel=\"next\""))
    ≡ some (codes "https://ghcr.io/v2/a/tags/list?n=2")
unfolding same_text is_space starts_with skip_spaces bracketed search_next next_ghcr_url
next_page = refl
