-- ===== src/Updater/Lookups.antt =====
-- The look-ups at GitHub and PyPI: `_latest_github_tag` of
-- management/dependency_updater/update_github_action_versions.py and `_latest_pypi_version` of
-- management/dependency_updater/sync_pyproject_dependency_versions.py. The constant headers of a request are
-- part of the network.
use fastdjango.Base.{
  Bool, true, false, ◌++◌, Option, none, some, Text, codes, ◌==◌, text_eq, if◌then◌else◌, arith,
}
use fastdjango.Errors.{error, attribute_error}
use fastdjango.Outcome.{Outcome, Exec, pure, throw, ◌>>=◌}
use fastdjango.Updater.Registry.{
  Json, null, number, boolean, str, array, object, item, Fields, no_fields, field, get,
  JsonResponse, Requests, json_response, fields_of,
}
use fastdjango.Updater.Registry.Requests.{Makes, Makes-pure, Makes-bind, json_response-Makes}

-- whether a key stands in a dictionary
unfoldable pub has_key : Text → Fields → Bool
has_key key no_fields = false
has_key key (field k value fields) = if k == key then true else has_key key fields

-- `payload.get("info", {})`
unfoldable pub info_of : Fields → Json
unfolding get has_key
info_of payload =
    if has_key (codes "info") payload then get (codes "info") payload else object no_fields

module _ (scheme : Text → Outcome Text)
    (open_url : Requests → Text → Option Text → Outcome (Option JsonResponse)) where
  -- `None` for no response, as for a payload that is `null`
  abbrev payload_of : Option JsonResponse → Json
  payload_of none = null
  payload_of (some response) = response.payload

  unfoldable pub github_json : Text → Exec Requests Json
  unfolding json_response
  github_json url = do response ← json_response scheme open_url url none; pure (payload_of response)

  -- the first of the tags
  abbrev first_tag : Json → Option Text
  unfolding get
  first_tag (array (item (object tag) _)) = elim (get (codes "name") tag) [
    | str name ↦ some name
    | _ ↦ none
  ]
  first_tag _ = none

  abbrev from_tags : Text → Exec Requests (Option Text)
  unfolding github_json first_tag
  from_tags repository = do
    tags ←
        github_json
          (codes "https://api.github.com/repos/" ++ repository ++ codes "/tags?per_page=1")
    pure (first_tag tags)

  abbrev or_tags : Text → Json → Exec Requests (Option Text)
  unfolding from_tags
  or_tags repository (str tag_name) = pure (some tag_name)
  or_tags repository _ = from_tags repository

  -- The rest, for the latest release. A payload that is no dictionary has no `get`.
  abbrev tag_or : Text → Json → Exec Requests (Option Text)
  unfolding from_tags or_tags get
  tag_or repository null = from_tags repository
  tag_or repository (object latest_release) =
      or_tags repository (get (codes "tag_name") latest_release)
  tag_or repository _ = throw (error attribute_error)

  unfoldable pub latest_github_tag : Text → Exec Requests (Option Text)
  unfolding github_json tag_or
  latest_github_tag repository = do
    latest_release ←
        github_json
          (codes "https://api.github.com/repos/" ++ repository ++ codes "/releases/latest")
    tag_or repository latest_release

  -- the version of the package, whatever kind of value the answer has there
  abbrev version_of : Option Fields → Json
  unfolding info_of get
  version_of none = null
  version_of (some payload) = elim (info_of payload) [
    | object package_info ↦ get (codes "version") package_info
    | _ ↦ null
  ]

  unfoldable pub latest_pypi_version : Text → Exec Requests Json
  unfolding json_response version_of
  latest_pypi_version package_name = do
    response ←
        json_response scheme open_url
          (codes "https://pypi.org/pypi/" ++ package_name ++ codes "/json") none
    pure (version_of (fields_of scheme open_url response))

  github_json-Makes : (url : Text) → Makes scheme 1 (github_json url)
  unfolding github_json
  github_json-Makes url =
      Makes-bind scheme 1 0 (json_response scheme open_url url none) _
        (json_response-Makes scheme open_url url none)
        (λ response. Makes-pure scheme 0 (payload_of response))

  from_tags-Makes : (repository : Text) → Makes scheme 1 (from_tags repository)
  unfolding from_tags
  from_tags-Makes repository =
      Makes-bind scheme 1 0
        (github_json
          (codes "https://api.github.com/repos/" ++ repository ++ codes "/tags?per_page=1"))
        _ (github_json-Makes _) (λ tags. Makes-pure scheme 0 (first_tag tags))

  or_tags-Makes : (repository : Text) (name : Json) → Makes scheme 1 (or_tags repository name)
  unfolding or_tags
  or_tags-Makes repository (str tag_name) = Makes-pure scheme 1 (some tag_name)
  or_tags-Makes repository null = from_tags-Makes repository
  or_tags-Makes repository number = from_tags-Makes repository
  or_tags-Makes repository (boolean b) = from_tags-Makes repository
  or_tags-Makes repository (array items) = from_tags-Makes repository
  or_tags-Makes repository (object payload) = from_tags-Makes repository

  no_dictionary-Makes : Makes scheme {A = Option Text} 1 (throw (error attribute_error))
  no_dictionary-Makes = record { few = λ before. omega arith; secure = λ before h. h }

  tag_or-Makes : (repository : Text) (release : Json) → Makes scheme 1 (tag_or repository release)
  unfolding tag_or
  tag_or-Makes repository null = from_tags-Makes repository
  tag_or-Makes repository (object latest_release) =
      or_tags-Makes repository (get (codes "tag_name") latest_release)
  tag_or-Makes repository number = no_dictionary-Makes
  tag_or-Makes repository (boolean b) = no_dictionary-Makes
  tag_or-Makes repository (str s) = no_dictionary-Makes
  tag_or-Makes repository (array items) = no_dictionary-Makes

  -- A look-up of a GitHub tag calls `urlopen` twice at most, with HTTPS addresses, whether it returns or raises.
  pub latest_github_tag-Makes : (repository : Text) → Makes scheme 2 (latest_github_tag repository)
  unfolding latest_github_tag
  latest_github_tag-Makes repository =
      Makes-bind scheme 1 1
        (github_json
          (codes "https://api.github.com/repos/" ++ repository ++ codes "/releases/latest"))
        _ (github_json-Makes _) (tag_or-Makes repository)

  -- A look-up at PyPI calls `urlopen` once at most, with an HTTPS address.
  pub latest_pypi_version-Makes :
      (package_name : Text) → Makes scheme 1 (latest_pypi_version package_name)
  unfolding latest_pypi_version
  latest_pypi_version-Makes package_name =
      Makes-bind scheme 1 0
        (json_response scheme open_url
          (codes "https://pypi.org/pypi/" ++ package_name ++ codes "/json") none)
        _ (json_response-Makes scheme open_url _ none)
        (λ response. Makes-pure scheme 0 (version_of (fields_of scheme open_url response)))
