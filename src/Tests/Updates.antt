-- ===== src/Tests/Updates.antt =====
-- Tags, references, requirements and a dry run of the updater.
use fastdjango.Base.{
  ◌≡◌, ◌≤◌, refl, true, false, List, [], ◌∷◌, Option, none, some, Text, codes, same_text, text_eq,
  length, starts_with, partition,
}
use fastdjango.Outcome.{Outcome, ok, pure}
use fastdjango.Updater.Images.{
  ContainerImage, rfind_end, before, from, split_tag, parse_container_image_ref,
  container_image_ref_with_tag,
}
use fastdjango.Updater.Images.References.{parse-with_tag}
use fastdjango.Updater.Registry.{
  Requests, JsonResponse, str, object, field, no_fields, latest_container_image_tag,
}
use fastdjango.Updater.Registry.Requests.{IsSecure, latest_container_image_tag-requests}
use fastdjango.Updater.Sync.Allowed.{run}
use fastdjango.Updater.Run.{Repository, Sources}
use fastdjango.Updater.Run.Dry.{IsUntouched}
use fastdjango.Updater.Cli.{Arguments, main}
use fastdjango.Updater.Cli.Dry.{main-IsUntouched}
use fastdjango.Tests.Fixtures.{platform}

abbrev tags : List Text
tags =
    codes "7.2-alpine" ∷ codes "8.0-alpine" ∷ codes "7.4-alpine" ∷ codes "7.4" ∷ codes "latest" ∷ []

abbrev postgres : ContainerImage
postgres = record {
  repository = codes "localhost:5000/postgres";
  tag = some (codes "16");
  digest = none;
}

parsed : parse_container_image_ref (codes "localhost:5000/postgres:16") ≡ some postgres
unfolding same_text starts_with partition rfind_end before from split_tag parse_container_image_ref
parsed = refl

parse-with_tag_example :
    parse_container_image_ref (container_image_ref_with_tag postgres (codes "17"))
    ≡ some (record {
      repository = codes "localhost:5000/postgres";
      tag = some (codes "17");
      digest = none;
    })
parse-with_tag_example =
    parse-with_tag (codes "localhost:5000/postgres:16") postgres parsed b'1' (codes "7")
      (refl, refl, refl)

-- a registry whose pages never end
abbrev endless : Requests → Text → Option Text → Outcome (Option JsonResponse)
endless requests url authorization = ok (
    some (record {
      payload = object (field (codes "next") (str (codes "https://hub.docker.com/more")) no_fields);
      link = none;
    }))

latest_container_image_tag-requests_example :
    (length
        (latest_container_image_tag
          (λ url. ok (codes "https"))
          endless
          (λ query. [])
          platform.decimal
          (codes "redis")
          (some (codes "7"))
          []).1
      ≤ 21)
    × IsSecure
        (λ url. ok (codes "https"))
        (latest_container_image_tag
          (λ url. ok (codes "https"))
          endless
          (λ query. [])
          platform.decimal
          (codes "redis")
          (some (codes "7"))
          []).1
latest_container_image_tag-requests_example =
    latest_container_image_tag-requests (λ url. ok (codes "https")) endless (λ query. [])
      platform.decimal (codes "redis") (some (codes "7"))

abbrev requirements : Text → Outcome (List Text)
requirements text = ok (codes "fastapi>=0.1,<1" ∷ [])

abbrev locked : Text → Option Text
locked name = some (codes "0.2")

abbrev pyproject : Text
pyproject = codes "dependencies = [\"fastapi>=0.1,<1\"]"

abbrev sources : Sources
sources = record {
  decimal = platform.decimal;
  lower = λ s. s;
  is_word = λ c. false;
  read_requirements = requirements;
  read_lock = λ text. ok locked;
  latest_version = locked;
  latest_action_tag = λ name. some (codes "v5");
  latest_tool_tag = some (codes "v2");
  latest_image_tag = λ name tag. some (codes "17");
  image_refs = λ repository. codes "postgres:16" ∷ [];
  run = λ command. pure tt;
}

abbrev checkout : Repository
checkout = record {
  pyproject = pyproject;
  uv_lock = [];
  workflows = (codes "ci.yml", codes "uses: actions/checkout@v4") ∷ [];
  references = (codes "compose.yaml", codes "image: postgres:16") ∷ [];
  commands = [];
  output = [];
}

abbrev dry_arguments : Arguments
dry_arguments = record {
  dry_run = true;
  skip_lock_upgrade = false;
  skip_pyproject = false;
  skip_actions = false;
  skip_containers = false;
  quiet = false;
}

main-IsUntouched_example : IsUntouched checkout (main sources false dry_arguments checkout).1
main-IsUntouched_example = main-IsUntouched checkout sources false dry_arguments refl
