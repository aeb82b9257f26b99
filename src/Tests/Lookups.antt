-- ===== src/Tests/Lookups.antt =====
-- Look-ups of a tag whose repository has no release, and of one whose answer is a list.
use fastdjango.Base.{
  ◌≡◌, refl, [], Option, none, some, Text, codes, ◌==◌, text_eq, same_text, if◌then◌else◌,
}
use fastdjango.Errors.{error, attribute_error}
use fastdjango.Outcome.{Outcome, ok, raise}
use fastdjango.Updater.Registry.{
  Requests, JsonResponse, str, array, object, item, no_items, field, no_fields, get, json_response,
}
use fastdjango.Updater.Lookups.{github_json, latest_github_tag}

abbrev tag_v3 : Option JsonResponse
tag_v3 = some (record {
  payload = array (item (object (field (codes "name") (str (codes "v3")) no_fields)) no_items);
  link = none;
})

abbrev unreleased : Requests → Text → Option Text → Outcome (Option JsonResponse)
unreleased requests url authorization =
    if url == codes "https://api.github.com/repos/o/r/releases/latest" then ok none else ok tag_v3

abbrev listed : Requests → Text → Option Text → Outcome (Option JsonResponse)
listed requests url authorization = ok tag_v3

unreleased_test :
    (latest_github_tag (λ url. ok (codes "https")) unreleased (codes "o/r") []).0
    ≡ ok (some (codes "v3"))
unfolding latest_github_tag github_json json_response get same_text
unreleased_test = refl

listed_test :
    (latest_github_tag (λ url. ok (codes "https")) listed (codes "o/r") []).0
    ≡ raise (error attribute_error)
unfolding latest_github_tag github_json json_response get same_text
listed_test = refl
